-- ===== src/NodeUpgrade/Cycle/History.antt =====
-- roles/node_upgrade/tasks: which actions may follow which, whatever happens to the node and wherever
-- the runs were cut off. The specification that the phases of a run implement.
use ansible_install.Prelude.{
  ℕ, zero, suc, ◌<◌, ◌≡◌, ◌⊎◌, true, false, Option, none, some, List, [], ◌∷◌,
}
use ansible_install.NodeUpgrade.Cycle.Machine.{
  Phase, held, recorded, stopped, packages, rebooted, started, released, Saved, Action, begun,
  checked, on, reboot, off, archived, install, saved, downloaded, helper_put, request_put,
  services_up, cleaned, set_aside, Machine,
}
use ansible_install.NodeUpgrade.Helper.{StartRequest, StopRequest}

-- The first phases, in the order of the cycle.
abbrev pub taken : ℕ → List Phase → List Phase
taken zero ps = []
taken (suc n) [] = []
taken (suc n) (p ∷ ps) = p ∷ taken n ps

abbrev pub first : ℕ → List Phase
first n = taken n (held ∷ recorded ∷ stopped ∷ packages ∷ rebooted ∷ started ∷ released ∷ [])

-- What the run at hand has made sure of: nothing, that it asked for the hold, that the hold is in
-- place.
pub data Mode : Type 0 where
  plain asked sure : Mode

-- The actions so far, the newest first, with the state file that they left.
pub data History : List Action → Option Saved → Mode → Type 0 where
  nothing : History [] none plain
  begins :
      {l : List Action} {f : Option Saved} {m : Mode} → History l f m → History (begun ∷ l) f plain
  holds : {l : List Action} {m : Mode} → History l none m → History (on ∷ l) none asked
  -- The state file is made once the hold was asked for.
  makes :
      {l : List Action} (s : Saved)
      → History l none asked
      → s.phases_done ≡ first 1
      → s.releasing ≡ false
      → History (saved s ∷ l) (some s) asked
  checks :
      {l : List Action} {f : Option Saved} {m : Mode} → History l f m → History (checked ∷ l) f sure
  -- Containers are stopped, packages installed, the node rebooted and containers started only by a
  -- run that saw the hold since it last did one of these, each in its own phase.
  stops :
      {l : List Action} {s : Saved} (r : StopRequest)
      → History l (some s) sure
      → s.phases_done ≡ first 2
      → History (Action.stop r ∷ l) (some s) plain
  installs :
      {l : List Action} {s : Saved}
      → History l (some s) sure
      → s.phases_done ≡ first 3
      → History (install ∷ l) (some s) plain
  reboots :
      {l : List Action} {s : Saved}
      → History l (some s) sure
      → s.phases_done ≡ first 4
      → History (reboot ∷ l) (some s) plain
  starts :
      {l : List Action} {s : Saved} (r : StartRequest)
      → History l (some s) sure
      → s.phases_done ≡ first 5
      → History (Action.start r ∷ l) (some s) plain
  -- The hold is cleared once the file says so.
  clears :
      {l : List Action} {s : Saved} {m : Mode}
      → History l (some s) m
      → s.phases_done ≡ first 6
      → s.releasing ≡ true
      → History (off ∷ l) (some s) plain
  -- A phase is marked after those before it; only the second one changes what is recorded.
  marks :
      {l : List Action} {s : Saved} {m : Mode} (n : ℕ) (s' : Saved)
      → History l (some s) m
      → n < 7
      → s.phases_done ≡ first n
      → s'.phases_done ≡ first (suc n)
      → (n ≡ 1) ⊎ (s'.recorded ≡ s.recorded)
      → s'.releasing ≡ s.releasing
      → History (saved s' ∷ l) (some s') m
  amends :
      {l : List Action} {s : Saved} {m : Mode} (s' : Saved)
      → History l (some s) m
      → s'.phases_done ≡ s.phases_done
      → s'.recorded ≡ s.recorded
      → (s.phases_done ≡ first 6) ⊎ (s'.releasing ≡ s.releasing)
      → History (saved s' ∷ l) (some s') m
  -- The tasks that prepare others.
  downloads :
      {l : List Action} {f : Option Saved} {m : Mode}
      → History l f m
      → History (downloaded ∷ l) f plain
  puts_helper :
      {l : List Action} {f : Option Saved} {m : Mode} → History l f m → History (helper_put ∷ l) f m
  puts_request :
      {l : List Action} {f : Option Saved} {m : Mode}
      → History l f m
      → History (request_put ∷ l) f m
  awaits :
      {l : List Action} {f : Option Saved} {m : Mode}
      → History l f m
      → History (services_up ∷ l) f plain
  cleans :
      {l : List Action} {f : Option Saved} {m : Mode}
      → History l f m
      → History (cleaned ∷ l) f plain
  -- An operator moves the state file away.
  leaves :
      {l : List Action} {f : Option Saved} {m : Mode}
      → History l f m
      → History (set_aside ∷ l) none plain
  archives :
      {l : List Action} {s : Saved} {m : Mode}
      → History l (some s) m
      → s.phases_done ≡ first 7
      → History (archived ∷ l) none plain

abbrev pub Legal : {W : Type 0} → Machine W → Type 0
Legal x = (m : Mode) × History x.log x.file m

-- A task that failed leaves what is legal, and one that is done leaves `Q`.
pub data Ends {W A : Type 0} (Q : A → Machine W → Type 0) : Option A × Machine W → Type 0 where
  fails : {x : Machine W} → Legal x → Ends Q (none, x)
  does : {a : A} {x : Machine W} → Q a x → Ends Q (some a, x)
