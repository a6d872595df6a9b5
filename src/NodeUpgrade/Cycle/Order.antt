-- ===== src/NodeUpgrade/Cycle/Order.antt =====
-- roles/node_upgrade/tasks: what the order of the actions comes to.
use ansible_install.Prelude.{
  ℕ, zero, suc, ◌≤◌, ◌≡◌, refl, ap, ◌⊎◌, inl, inr, Option, none, some, List, [], ◌∷◌, arith,
}
use ansible_install.Prelude.Lists.{length, All, All-mono}
use ansible_install.NodeUpgrade.Cycle.Machine.{
  Phase, Saved, Action, begun, checked, on, reboot, off, archived, install, saved, downloaded,
  helper_put, request_put, services_up, cleaned, set_aside, Node,
}
use ansible_install.NodeUpgrade.Cycle.History.{
  History, Mode, plain, first, taken, nothing, begins, holds, makes, checks, stops, installs,
  reboots, starts, clears, marks, amends, archives, downloads, puts_helper, puts_request, awaits,
  cleans, leaves,
}
use ansible_install.NodeUpgrade.Cycle.Runs.{Attempt, runs}
use ansible_install.NodeUpgrade.Cycle.Conforms.{runs-Legal}

-- The actions since the state file was last archived or moved aside.
unfoldable pub since_archived : List Action → List Action
since_archived [] = []
since_archived (a ∷ l) =
    let before = since_archived l in elim a [ archived ↦ [] | set_aside ↦ [] | b ↦ b ∷ before ]

-- The phases that come before an action, of those that come after other phases.
abbrev pub stage : Action → ℕ
stage (Action.stop r) = 2
stage install = 3
stage reboot = 4
stage (Action.start r) = 5
stage off = 6
stage _ = 0

-- No action of a later stage comes before one of an earlier stage.
abbrev pub IsOrdered : List Action → Type 0
IsOrdered [] = Unit
IsOrdered (a ∷ l) = ((stage a ≡ 0) ⊎ All (λ b. stage b ≤ stage a) (since_archived l)) × IsOrdered l

abbrev pub phase_count : Option Saved → ℕ
phase_count none = 0
phase_count (some s) = length s.phases_done

-- The phases that an action rests on, or that it saves.
abbrev pub weight : Action → ℕ
weight (saved t) = length t.phases_done
weight a = stage a

stage-weight : (a : Action) → stage a ≤ weight a
stage-weight begun = omega arith
stage-weight checked = omega arith
stage-weight on = omega arith
stage-weight reboot = omega arith
stage-weight off = omega arith
stage-weight archived = omega arith
stage-weight install = omega arith
stage-weight downloaded = omega arith
stage-weight helper_put = omega arith
stage-weight request_put = omega arith
stage-weight services_up = omega arith
stage-weight cleaned = omega arith
stage-weight set_aside = omega arith
stage-weight (Action.stop r) = omega arith
stage-weight (Action.start r) = omega arith
stage-weight (saved t) = omega arith

abbrev pub Below : ℕ → List Action → Type 0
Below n l = All (λ a. weight a ≤ n) (since_archived l)

Below-mono : (n k : ℕ) (l : List Action) → n ≤ k → Below n l → Below k l
Below-mono n k l le h = All-mono (since_archived l) (λ a b. omega arith) h

length-taken : (n : ℕ) (ps : List Phase) → length (taken n ps) ≤ length (taken (suc n) ps)
length-taken zero ps = omega arith
length-taken (suc n) [] = omega arith
length-taken (suc n) (p ∷ ps) = omega (arith, length-taken n ps)

-- What was done and saved in the cycle at hand rests on the phases of the state file.
pub History-Below :
    {l : List Action} {f : Option Saved} {m : Mode} → History l f m → Below (phase_count f) l
unfolding since_archived
History-Below nothing = tt
History-Below (begins h) = (omega arith, History-Below h)
History-Below (holds h) = (omega arith, History-Below h)
History-Below (makes {l} s h e r) = (omega arith, Below-mono 0 _ l (omega arith) (History-Below h))
History-Below (checks h) = (omega arith, History-Below h)
History-Below (stops r h e) = (omega (arith, ap length e), History-Below h)
History-Below (installs h e) = (omega (arith, ap length e), History-Below h)
History-Below (reboots h e) = (omega (arith, ap length e), History-Below h)
History-Below (starts r h e) = (omega (arith, ap length e), History-Below h)
History-Below (clears h e r) = (omega (arith, ap length e), History-Below h)
History-Below (marks {l} {s} n s' h lt e e' rec rel) = (
  omega arith,
  Below-mono (length s.phases_done) (length s'.phases_done) l
      (omega (arith, ap length e, ap length e', length-taken n (first 7))) (History-Below h),
)
History-Below (amends {l} {s} s' h e rec rel) = (
  omega arith,
  Below-mono (length s.phases_done) (length s'.phases_done) l (omega (arith, ap length e))
      (History-Below h),
)
History-Below (downloads h) = (omega arith, History-Below h)
History-Below (puts_helper h) = (omega arith, History-Below h)
History-Below (puts_request h) = (omega arith, History-Below h)
History-Below (awaits h) = (omega arith, History-Below h)
History-Below (cleans h) = (omega arith, History-Below h)
History-Below (leaves h) = tt
History-Below (archives h e) = tt

-- An action that rests on all the phases of the state file comes after the others.
staged :
    (k : ℕ) (s : Saved) (l : List Action)
    → s.phases_done ≡ first k
    → length (first k) ≤ k
    → Below (length s.phases_done) l
    → All (λ b. stage b ≤ k) (since_archived l)
staged k s l e le h =
    All-mono (since_archived l) (λ a b. omega (arith, stage-weight a, ap length e)) h

History-IsOrdered : {l : List Action} {f : Option Saved} {m : Mode} → History l f m → IsOrdered l
History-IsOrdered nothing = tt
History-IsOrdered (begins h) = (inl refl, History-IsOrdered h)
History-IsOrdered (holds h) = (inl refl, History-IsOrdered h)
History-IsOrdered (makes s h e r) = (inl refl, History-IsOrdered h)
History-IsOrdered (checks h) = (inl refl, History-IsOrdered h)
History-IsOrdered (stops {l} {s} r h e) =
    (inr (staged 2 s l e (omega arith) (History-Below h)), History-IsOrdered h)
History-IsOrdered (installs {l} {s} h e) =
    (inr (staged 3 s l e (omega arith) (History-Below h)), History-IsOrdered h)
History-IsOrdered (reboots {l} {s} h e) =
    (inr (staged 4 s l e (omega arith) (History-Below h)), History-IsOrdered h)
History-IsOrdered (starts {l} {s} r h e) =
    (inr (staged 5 s l e (omega arith) (History-Below h)), History-IsOrdered h)
History-IsOrdered (clears {l} {s} h e r) =
    (inr (staged 6 s l e (omega arith) (History-Below h)), History-IsOrdered h)
History-IsOrdered (marks n s' h lt e e' rec rel) = (inl refl, History-IsOrdered h)
History-IsOrdered (amends s' h e rec rel) = (inl refl, History-IsOrdered h)
History-IsOrdered (downloads h) = (inl refl, History-IsOrdered h)
History-IsOrdered (puts_helper h) = (inl refl, History-IsOrdered h)
History-IsOrdered (puts_request h) = (inl refl, History-IsOrdered h)
History-IsOrdered (awaits h) = (inl refl, History-IsOrdered h)
History-IsOrdered (cleans h) = (inl refl, History-IsOrdered h)
History-IsOrdered (leaves h) = (inl refl, History-IsOrdered h)
History-IsOrdered (archives h e) = (inl refl, History-IsOrdered h)

-- Suppose that between runs nobody writes the state file, though an operator may move it aside. From
-- the fresh state of a node on, whatever its commands answer, wherever runs are cut off and whatever
-- happens to the node between them: since the state file was last archived or moved aside, a stop, a
-- package installation, a reboot, a start and a clearing of the hold come in this order, so nothing
-- is stopped again once packages were installed.
pub runs-IsOrdered :
    {W : Type 0} (d : Node W) (attempts : List (Attempt W)) (w : W)
    → IsOrdered (runs d attempts (record { world = w; file = none; log = [] })).log
runs-IsOrdered d attempts w =
    History-IsOrdered
      (runs-Legal d attempts (record { world = w; file = none; log = [] }) (plain, nothing)).1
