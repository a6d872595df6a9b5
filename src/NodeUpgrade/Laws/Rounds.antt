-- ===== src/NodeUpgrade/Laws/Rounds.antt =====
-- roles/node_upgrade/files/node-upgrade-containers: the loop of `start` ends.
use ansible_install.Prelude.{
  ℕ, zero, suc, ◌+◌, ◌-◌, ◌*◌, ◌≤◌, ◌<◌, ◌≡◌, ◌≢◌, refl, sym, ap, ◌⊎◌, inl, inr, String, true,
  false, ◌||◌, Option, none, some, List, [], ◌∷◌, ≡→eq, ltb, leb, arith, Bool-cases, or-eq-false,
  Option-cases,
}
use mathlib.Core.Path.{subst}
use native.Mathlib.Nat.{suc-mul}
use ansible_install.Prelude.Split.{mem}
use ansible_install.Prelude.Lists.{length, is_empty, In}
use ansible_install.Prelude.Members.{In-select}
use ansible_install.NodeUpgrade.Helper.{
  Reply, Docker, Plan, Tries, tried, untried, Loop, left, is_down, startable_of, is_settled, batch,
  round, rounds, fuel_for, Ended, ended, at_end, StartRequest, plan_of, start, or_default,
  report_of,
}

-- The attempts that are left for the ids of a list.
unfoldable budget : ℕ → (String → ℕ) → List String → ℕ
budget r attempts [] = 0
budget r attempts (i ∷ ids) = (r - attempts i) + budget r attempts ids

budget-tried-le :
    (r : ℕ) (res : String → Reply) (batch : List String) (t : Tries) (ids : List String)
    → budget r (tried res batch t).attempts ids ≤ budget r t.attempts ids
unfolding budget
budget-tried-le r res b t [] = omega arith
budget-tried-le r res b t (i ∷ ids) = ground (arith, budget-tried-le r res b t ids)

budget-tried-lt :
    (r : ℕ) (res : String → Reply) (batch : List String) (t : Tries) (y : String)
    (ids : List String)
    → In y ids
    → mem y batch ≡ true
    → t.attempts y < r
    → budget r (tried res batch t).attempts ids < budget r t.attempts ids
unfolding budget
budget-tried-lt r res b t y [] h m l = absurd h.1
budget-tried-lt r res b t y (i ∷ ids) (inl e) m l =
    ground (arith, budget-tried-le r res b t ids, ap (λ z. mem z b) e, ap t.attempts e)
budget-tried-lt r res b t y (i ∷ ids) (inr h) m l =
    ground (arith, budget-tried-lt r res b t y ids h m l)

full_budget : (r : ℕ) (ids : List String) → budget r untried.attempts ids ≡ length ids * r
unfolding budget
full_budget r [] = ground arith
full_budget r (i ∷ ids) = rw (suc-mul) (ground (arith, full_budget r ids))

-- What is to be started is down and has an attempt left.
pub In-startable_of :
    (p : Plan) (t : Tries) (up : List String) (y : String)
    → In y (startable_of p t up)
    → In y p.everyone × (is_down up y ≡ true) × (ltb (t.attempts y) p.retries ≡ true)
unfolding startable_of
In-startable_of p t up y h =
    let (there, low) = In-select (λ i. ltb (t.attempts i) p.retries) y _ h in
    let (listed, down) = In-select (is_down up) y p.everyone there in (listed, down, low)

head_mem : (y : String) (rest : List String) → mem y (y ∷ rest) ≡ true
unfolding mem
head_mem y rest = rw (≡→eq y y refl)

-- Starting what is down with an attempt left uses up an attempt.
tried-budget :
    (p : Plan) (t : Tries) (up : List String) (res : String → Reply) (ids : List String)
    → startable_of p t up ≡ ids
    → is_empty ids ≡ false
    → budget p.retries (tried res ids t).attempts p.everyone
      < budget p.retries t.attempts p.everyone
tried-budget p t up res [] e h = cc
tried-budget p t up res (y ∷ rest) e h =
    let (there, _, low) = In-startable_of p t up y (subst (In y) (sym e) (inl refl)) in
    budget-tried-lt p.retries res (y ∷ rest) t y p.everyone there (head_mem y rest) (ground arith)

-- A reading of `docker ps` for which the loop is left.
pub record LeftFor {W : Type 0} (d : Docker W) (p : Plan) (deadline : ℕ) (t : Tries) (w : W)
    : Type 0 where
  pub up : List String
  pub before : W
  pub reading : d.ps before ≡ (some up, w)
  pub reason :
      (is_settled p up (startable_of p t up) ≡ true)
      ⊎ ((is_empty (startable_of p t up) || leb deadline (d.now w)) ≡ true)

module _ {W : Type 0} (d : Docker W) (p : Plan) (deadline : ℕ) where
  -- A batch uses up an attempt.
  batch-budget :
      (t : Tries) (up : List String) (w : W)
      → is_empty (startable_of p t up) ≡ false
      → budget p.retries (batch d p deadline t (startable_of p t up) w).0.attempts p.everyone
        < budget p.retries t.attempts p.everyone
  unfolding batch
  batch-budget t up w h =
      tried-budget p t up (d.start p.parallel (startable_of p t up) w).0 (startable_of p t up) refl
        h

  -- A round ends the loop or goes on with fewer attempts left.
  round-spent :
      (again : Tries × W → Loop W) (t : Tries) (s : Option (List String) × W)
      → ((u : Tries) (w : W)
          → budget p.retries u.attempts p.everyone < budget p.retries t.attempts p.everyone
          → again (u, w) ≢ Loop.spent)
      → round d p deadline again t s ≢ Loop.spent
  unfolding round
  round-spent again t (none, w) h = cc
  round-spent again t (some up, w) h = elim (Bool-cases (is_settled p up (startable_of p t up))) [
    | inl e ↦ rw e (cc)
    | inr e ↦ elim (Bool-cases (is_empty (startable_of p t up) || leb deadline (d.now w))) [
      | inl f ↦ rw (e, f) (cc)
      | inr f ↦ rw (e, f) (h _ _ (batch-budget t up w (or-eq-false _ _ f).0))
    ]
  ]

  rounds-spent :
      (fuel : ℕ) (t : Tries) (w : W)
      → budget p.retries t.attempts p.everyone < fuel
      → rounds d p deadline fuel (t, w) ≢ Loop.spent
  unfolding rounds
  rounds-spent zero t w h = absurd (omega arith)
  rounds-spent (suc fuel) t w h =
      round-spent (rounds d p deadline fuel) t (d.ps w)
        (λ u v l. rounds-spent fuel u v (omega arith))

  -- Where the loop is left, `I` holds, and a reading was a reason to leave it; it fails where
  -- `docker ps` fails.
  abbrev pub Outcome : (Tries → W → Type 0) → Loop W → Type 0
  Outcome I Loop.spent = Unit
  Outcome I Loop.fault = (w : W) × ((d.ps w).0 ≡ none)
  Outcome I (left t w) = I t w × LeftFor d p deadline t w

  -- What holds at the start and is kept by each batch and by `docker ps` holds where the loop is
  -- left.
  module _ (I : Tries → W → Type 0) (read : (t : Tries) (w : W) → I t w → I t (d.ps w).1)
      (keep : (t : Tries) (up : List String) (w0 w : W)
        → d.ps w0 ≡ (some up, w)
        → I t w
        → I
            (batch d p deadline t (startable_of p t up) w).0
            (batch d p deadline t (startable_of p t up) w).1) where
    round-Outcome :
        (again : Tries × W → Loop W) (t : Tries) (s : Option (List String) × W)
        → ((u : Tries) (w : W) → I u w → Outcome I (again (u, w)))
        → (w0 : W) → d.ps w0 ≡ s
        → I t s.1
        → Outcome I (round d p deadline again t s)
    unfolding round
    round-Outcome again t (none, w) ih w0 e i = (w0, cc)
    round-Outcome again t (some up, w) ih w0 e i =
        elim (Bool-cases (is_settled p up (startable_of p t up))) [
          | inl f ↦ rw f (i, record { up = up; before = w0; reading = e; reason = inl f })
          | inr f ↦ elim (Bool-cases (is_empty (startable_of p t up) || leb deadline (d.now w))) [
            | inl g ↦ rw (f, g) (i, record { up = up; before = w0; reading = e; reason = inr g })
            | inr g ↦ rw (f, g) (ih _ _ (keep t up w0 w e i))
          ]
        ]

    pub rounds-Outcome :
        (fuel : ℕ) (t : Tries) (w : W) → I t w → Outcome I (rounds d p deadline fuel (t, w))
    unfolding rounds
    rounds-Outcome zero t w i = tt
    rounds-Outcome (suc fuel) t w i =
        round-Outcome (rounds d p deadline fuel) t (d.ps w) (rounds-Outcome fuel) w refl
          (read t w i)

at_end-spent :
    {W : Type 0} (d : Docker W) (p : Plan) (l : Loop W)
    → l ≢ Loop.spent
    → at_end d p l ≢ Ended.spent
unfolding report_of
at_end-spent d p Loop.spent h = absurd (h refl)
at_end-spent d p Loop.fault h = cc
at_end-spent d p (left t w) h = elim (Option-cases (d.ps w).0) [
  | inl e ↦ rw e (cc)
  | inr (up, e) ↦ rw e (cc)
]

-- The start of containers comes to an end, whatever dockerd answers, however long its commands
-- take and even where the clock stands still: it returns its report, or `docker ps` failed.
pub start-returns :
    {W : Type 0} (d : Docker W) (cfg : StartRequest) (w : W) → start d cfg w ≢ Ended.spent
unfolding start fuel_for
start-returns d cfg w = at_end-spent d (plan_of cfg) _ (
    rounds-spent d (plan_of cfg) _ (fuel_for (plan_of cfg)) untried w
      (omega (arith, full_budget (plan_of cfg).retries (plan_of cfg).everyone)))

fault_of :
    {W : Type 0} (d : Docker W) (p : Plan) (deadline : ℕ) (l : Loop W)
    → Outcome d p deadline (λ t w. Unit {0}) l
    → at_end d p l ≡ Ended.fault
    → (w : W) × ((d.ps w).0 ≡ none)
unfolding report_of
fault_of d p deadline Loop.spent o h = absurd (cc)
fault_of d p deadline Loop.fault o h = o
fault_of d p deadline (left t w) o h = elim (Option-cases (d.ps w).0) [
  | inl e ↦ (w, e)
  | inr (up, e) ↦ absurd (not_fault (d.ps w).0 up e h)
]
  where
    not_fault :
        (s : Option (List String)) (up : List String)
        → s ≡ some up
        → ended (report_of p t s) ≡ Ended.fault
        → ⊥
    not_fault none up e g = absurd (cc)
    not_fault (some x) up e g = absurd (cc)

-- `start` raises an error only where `docker ps` fails.
pub start-fault :
    {W : Type 0} (d : Docker W) (cfg : StartRequest) (w : W)
    → start d cfg w ≡ Ended.fault
    → (v : W) × ((d.ps v).0 ≡ none)
unfolding start
start-fault d cfg w h =
    let deadline : ℕ = d.now w + or_default cfg.wait 600 in
    fault_of d (plan_of cfg) deadline _
      (rounds-Outcome d (plan_of cfg) deadline (λ t v. Unit {0}) (λ t v i. tt) (λ t up v u e i. tt)
        (fuel_for (plan_of cfg)) untried w tt)
      h
