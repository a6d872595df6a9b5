-- ===== src/NodeUpgrade/Cycle/Guards.antt =====
-- roles/node_upgrade/tasks: when a run acts on the hold and under the hold.
use ansible_install.Prelude.{◌≡◌, refl, Bool, true, false, Option, none, some, List, [], ◌∷◌}
use ansible_install.NodeUpgrade.Cycle.Machine.{
  Saved, Action, checked, on, reboot, off, archived, install, saved, helper_put, request_put,
  set_aside, Node,
}
use ansible_install.NodeUpgrade.Cycle.History.{
  History, Mode, plain, sure, nothing, begins, holds, makes, checks, stops, installs, reboots,
  starts, clears, marks, amends, archives, downloads, puts_helper, puts_request, awaits, cleans,
  leaves,
}
use ansible_install.NodeUpgrade.Cycle.Runs.{Attempt, runs}
use ansible_install.NodeUpgrade.Cycle.Conforms.{runs-Legal}

-- The hold was found in place, and since then only the helper, requests and the state file were
-- written.
pub sees_hold : List Action → Bool
sees_hold [] = false
sees_hold (a ∷ l) =
    let before = sees_hold l in
    elim a [
      | checked ↦ true
      | saved s ↦ before
      | helper_put ↦ before
      | request_put ↦ before
      | _ ↦ false
    ]

-- The state file that the actions leave.
pub file_of : List Action → Option Saved
file_of [] = none
file_of (a ∷ l) =
    let before = file_of l in
    elim a [ archived ↦ none | set_aside ↦ none | saved s ↦ some s | _ ↦ before ]

abbrev pub is_releasing : Option Saved → Bool
is_releasing none = false
is_releasing (some s) = s.releasing

-- Containers are stopped and started, packages installed and the node rebooted under the hold. The
-- hold is asked for only without a state file, and cleared only where the file says so.
abbrev pub Guard : Action → List Action → Type 0
Guard (Action.stop r) l = sees_hold l ≡ true
Guard install l = sees_hold l ≡ true
Guard reboot l = sees_hold l ≡ true
Guard (Action.start r) l = sees_hold l ≡ true
Guard on l = file_of l ≡ none
Guard off l = is_releasing (file_of l) ≡ true
Guard _ l = Unit

abbrev pub IsGuarded : List Action → Type 0
IsGuarded [] = Unit
IsGuarded (a ∷ l) = Guard a l × IsGuarded l

sure_sees :
    {l : List Action} {f : Option Saved} {m : Mode} → History l f m → m ≡ sure → sees_hold l ≡ true
unfolding sees_hold
sure_sees nothing e = absurd (cc)
sure_sees (begins h) e = absurd (cc)
sure_sees (holds h) e = absurd (cc)
sure_sees (makes s h a r) e = absurd (cc)
sure_sees (checks h) e = refl
sure_sees (stops r h a) e = absurd (cc)
sure_sees (installs h a) e = absurd (cc)
sure_sees (reboots h a) e = absurd (cc)
sure_sees (starts r h a) e = absurd (cc)
sure_sees (clears h a r) e = absurd (cc)
sure_sees (marks n s' h lt a b rec rel) e = sure_sees h e
sure_sees (amends s' h a rec rel) e = sure_sees h e
sure_sees (downloads h) e = absurd (cc)
sure_sees (puts_helper h) e = sure_sees h e
sure_sees (puts_request h) e = sure_sees h e
sure_sees (awaits h) e = absurd (cc)
sure_sees (cleans h) e = absurd (cc)
sure_sees (leaves h) e = absurd (cc)
sure_sees (archives h a) e = absurd (cc)

History-file_of : {l : List Action} {f : Option Saved} {m : Mode} → History l f m → file_of l ≡ f
unfolding file_of
History-file_of nothing = refl
History-file_of (begins h) = History-file_of h
History-file_of (holds h) = History-file_of h
History-file_of (makes s h a r) = refl
History-file_of (checks h) = History-file_of h
History-file_of (stops r h a) = History-file_of h
History-file_of (installs h a) = History-file_of h
History-file_of (reboots h a) = History-file_of h
History-file_of (starts r h a) = History-file_of h
History-file_of (clears h a r) = History-file_of h
History-file_of (marks n s' h lt a b rec rel) = refl
History-file_of (amends s' h a rec rel) = refl
History-file_of (downloads h) = History-file_of h
History-file_of (puts_helper h) = History-file_of h
History-file_of (puts_request h) = History-file_of h
History-file_of (awaits h) = History-file_of h
History-file_of (cleans h) = History-file_of h
History-file_of (leaves h) = refl
History-file_of (archives h a) = refl

History-IsGuarded : {l : List Action} {f : Option Saved} {m : Mode} → History l f m → IsGuarded l
History-IsGuarded nothing = tt
History-IsGuarded (begins h) = (tt, History-IsGuarded h)
History-IsGuarded (holds h) = (History-file_of h, History-IsGuarded h)
History-IsGuarded (makes s h a r) = (tt, History-IsGuarded h)
History-IsGuarded (checks h) = (tt, History-IsGuarded h)
History-IsGuarded (stops r h a) = (sure_sees h refl, History-IsGuarded h)
History-IsGuarded (installs h a) = (sure_sees h refl, History-IsGuarded h)
History-IsGuarded (reboots h a) = (sure_sees h refl, History-IsGuarded h)
History-IsGuarded (starts r h a) = (sure_sees h refl, History-IsGuarded h)
History-IsGuarded (clears h a r) = (rw (History-file_of h) r, History-IsGuarded h)
History-IsGuarded (marks n s' h lt a b rec rel) = (tt, History-IsGuarded h)
History-IsGuarded (amends s' h a rec rel) = (tt, History-IsGuarded h)
History-IsGuarded (downloads h) = (tt, History-IsGuarded h)
History-IsGuarded (puts_helper h) = (tt, History-IsGuarded h)
History-IsGuarded (puts_request h) = (tt, History-IsGuarded h)
History-IsGuarded (awaits h) = (tt, History-IsGuarded h)
History-IsGuarded (cleans h) = (tt, History-IsGuarded h)
History-IsGuarded (leaves h) = (tt, History-IsGuarded h)
History-IsGuarded (archives h a) = (tt, History-IsGuarded h)

-- Suppose that between runs nobody writes the state file, though an operator may move it aside. From
-- the fresh state of a node on, whatever its commands answer, wherever runs are cut off and whatever
-- happens to the node between them: between a stop, a package installation, a reboot or a
-- start and the last reading before it that found the hold in place, the run did nothing to the node
-- but put the helper, a request or the state file there, beside reading it. The hold is asked for
-- only while no state file is there, and cleared only while the file says that the release has begun.
pub runs-IsGuarded :
    {W : Type 0} (d : Node W) (attempts : List (Attempt W)) (w : W)
    → IsGuarded (runs d attempts (record { world = w; file = none; log = [] })).log
runs-IsGuarded d attempts w =
    History-IsGuarded
      (runs-Legal d attempts (record { world = w; file = none; log = [] }) (plain, nothing)).1
