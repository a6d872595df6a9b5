-- ===== src/NodeUpgrade/Laws/Batches.antt =====
-- roles/node_upgrade/files/node-upgrade-containers: what the report of `start` says.
use ansible_install.Prelude.{
  ℕ, ◌+◌, ◌≤◌, ◌≡◌, refl, ◌⊎◌, inl, inr, String, Bool, true, false, not, Option, none, some, List,
  [], and-eq-true, ltb, arith, Bool-cases,
}
use ansible_install.Prelude.Split.{mem}
use ansible_install.Prelude.Lists.{is_empty, select-is_empty, In, All, All-mono}
use ansible_install.Prelude.Members.{
  mem→In, In→mem, In-append-left, In-append-right, select-In, All_of, empty-In,
}
use ansible_install.NodeUpgrade.Helper.{
  Reply, Docker, Plan, Tries, tried, untried, Loop, left, is_down, startable_of, is_settled, batch,
  fuel_for, ended, done, Started, at_end, StartRequest, plan_of, start, or_default, report_of,
}
use ansible_install.NodeUpgrade.Laws.Rounds.{LeftFor, rounds-Outcome, Outcome, In-startable_of}

-- No container has more attempts than it may have.
abbrev pub Bounded : Plan → Tries → Type 0
Bounded p t = (i : String) → t.attempts i ≤ p.retries

pub tried-Bounded :
    (p : Plan) (t : Tries) (up : List String) (res : String → Reply)
    → Bounded p t
    → Bounded p (tried res (startable_of p t up) t)
tried-Bounded p t up res h i = elim (Bool-cases (mem i (startable_of p t up))) [
  | inl m ↦
      let (_, _, low) = In-startable_of p t up i (mem→In i (startable_of p t up) m) in
      ground (arith)
  | inr m ↦ rw m (h i)
]

pub batch-Bounded :
    {W : Type 0} (d : Docker W) (p : Plan) (deadline : ℕ) (t : Tries) (up : List String) (w : W)
    → Bounded p t
    → Bounded p (batch d p deadline t (startable_of p t up) w).0
unfolding batch
batch-Bounded d p deadline t up w h =
    tried-Bounded p t up (d.start p.parallel (startable_of p t up) w).0 h

-- An id that `docker ps` printed, and one that has had all its attempts.
abbrev pub IsUp : List String → String → Type 0
IsUp up i = mem i up ≡ true

abbrev pub HasEnough : Plan → Tries → List String → String → Type 0
HasEnough p t up i = (mem i up ≡ true) ⊎ (p.retries ≤ t.attempts i)

-- An id of the plan that is not to be started runs or has had its attempts.
not-startable :
    (p : Plan) (t : Tries) (up : List String) (i : String)
    → In i p.everyone
    → (In i (startable_of p t up) → ⊥)
    → HasEnough p t up i
unfolding startable_of
not-startable p t up i m h = elim (Bool-cases (mem i up)) [
  | inl e ↦ inl e
  | inr e ↦ elim (Bool-cases (ltb (t.attempts i) p.retries)) [
    | inl low ↦ absurd (h (select-In _ i _ (select-In (is_down up) i p.everyone m (rw e)) low))
    | inr high ↦ inr (ground arith)
  ]
]

-- Every optional id is in the plan.
pub optional-In :
    (cfg : StartRequest) (i : String) → In i (plan_of cfg).optional → In i (plan_of cfg).everyone
unfolding plan_of
optional-In cfg i h = elim (Bool-cases (mem i (or_default cfg.required []))) [
  | inl e ↦ In-append-left i _ _ (mem→In i _ e)
  | inr e ↦
      In-append-right i (or_default cfg.required []) _
        (select-In _ i (or_default cfg.optional []) h (rw e))
]

not-false : (b : Bool) → not b ≡ false → b ≡ true
not-false true h = refl
not-false false h = cc

module _ (cfg : StartRequest) (t : Tries) (up : List String) where
  pub settled-All :
      is_settled (plan_of cfg) up (startable_of (plan_of cfg) t up) ≡ true
      → All (IsUp up) (plan_of cfg).required
        × All (HasEnough (plan_of cfg) t up) (plan_of cfg).optional
  unfolding is_settled
  settled-All h =
      let (a, b) = and-eq-true _ _ h in
      (
        All-mono _ (λ x e. not-false _ e)
            ((select-is_empty (is_down up) (plan_of cfg).required).0 a),
        All_of _ (plan_of cfg).optional (λ i m.
            not-startable (plan_of cfg) t up i (optional-In cfg i m)
              (λ s. empty-In i _ b (select-In _ i _ s (In→mem i _ m)))),
      )

  pub nothing-All :
      is_empty (startable_of (plan_of cfg) t up) ≡ true
      → All (HasEnough (plan_of cfg) t up) (plan_of cfg).everyone
  nothing-All h =
      All_of _ (plan_of cfg).everyone (λ i m. not-startable (plan_of cfg) t up i m (empty-In i _ h))

-- How a run of `start` that returned `r` came to its end.
pub record Ending {W : Type 0} (d : Docker W) (p : Plan) (deadline : ℕ) (r : Started) : Type 0 where
  pub tries : Tries
  pub up : List String
  pub before : W
  pub later : W
  pub seen : d.ps before ≡ (some up, later)
  pub reported : report_of p tries (d.ps later).0 ≡ some r
  pub reason :
      (All (IsUp up) p.required × All (HasEnough p tries up) p.optional)
      ⊎ All (HasEnough p tries up) p.everyone
      ⊎ (deadline ≤ d.now later)
  pub bounded : Bounded p tries

module _ {W : Type 0} (d : Docker W) (cfg : StartRequest) (deadline : ℕ) where
  pub reason_of :
      (t : Tries) (w : W) (l : LeftFor d (plan_of cfg) deadline t w)
      → (All (IsUp l.up) (plan_of cfg).required
          × All (HasEnough (plan_of cfg) t l.up) (plan_of cfg).optional)
        ⊎ All (HasEnough (plan_of cfg) t l.up) (plan_of cfg).everyone
        ⊎ (deadline ≤ d.now w)
  reason_of t w l = elim l.reason [
    | inl e ↦ inl (settled-All cfg t l.up e)
    | inr e ↦ elim (Bool-cases (is_empty (startable_of (plan_of cfg) t l.up))) [
      | inl f ↦ inr (inl (nothing-All cfg t l.up f))
      | inr f ↦ inr (inr (ground arith))
    ]
  ]

  loop-Ending :
      (l : Loop W) {r : Started}
      → Outcome d (plan_of cfg) deadline (λ t v. Bounded (plan_of cfg) t) l
      → at_end d (plan_of cfg) l ≡ done r
      → Ending d (plan_of cfg) deadline r
  unfolding report_of
  loop-Ending Loop.spent o h = absurd (cc)
  loop-Ending Loop.fault o h = absurd (cc)
  loop-Ending (left t w) {r} (b, l) h = record {
    tries = t;
    up = l.up;
    before = l.before;
    later = w;
    seen = l.reading;
    reported = reported_by _ h;
    reason = reason_of t w l;
    bounded = b;
  }
    where
      reported_by : (o : Option Started) → ended o ≡ done r → o ≡ some r
      reported_by none e = cc
      reported_by (some x) e = cc

-- A run of `start` that returns a report left its loop at a listing for which every required
-- container ran and every optional one ran or had its attempts, or everyone ran or had its attempts,
-- or the wait was over. The report is that of the listing after it.
pub start-Ending :
    {W : Type 0} (d : Docker W) (cfg : StartRequest) (w : W) {r : Started}
    → start d cfg w ≡ done r
    → Ending d (plan_of cfg) (d.now w + or_default cfg.wait 600) r
unfolding start
start-Ending d cfg w h =
    let deadline : ℕ = d.now w + or_default cfg.wait 600 in
    loop-Ending d cfg deadline _
      (rounds-Outcome d (plan_of cfg) deadline (λ t v. Bounded (plan_of cfg) t) (λ t v b. b)
        (λ t up v u e. batch-Bounded d (plan_of cfg) deadline t up u) (fuel_for (plan_of cfg))
        untried w (λ i. omega arith))
      h
