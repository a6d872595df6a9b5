-- ===== src/NodeUpgrade/Laws/Counting.antt =====
-- roles/node_upgrade/files/node-upgrade-containers: how often `start` tries a container.
use ansible_install.Prelude.{
  ℕ, zero, suc, ◌+◌, ◌≤◌, ◌≡◌, refl, sym, ap, ◌∙◌, ◌||◌, inl, inr, leb, Bool-cases, String, Option,
  none, some, List, [], ◌∷◌, map, arith, if◌then◌else◌,
}
use mathlib.Core.Path.{subst}
use ansible_install.Prelude.Split.{mem}
use ansible_install.Prelude.Lists.{All, is_empty}
use ansible_install.NodeUpgrade.Helper.{
  Docker, Plan, Tries, untried, Loop, left, startable_of, is_settled, batch, round, rounds,
  fuel_for, ended, done, Started, Down, at_end, StartRequest, plan_of, start, or_default, report_of,
}
use ansible_install.NodeUpgrade.Laws.Rounds.{rounds-Outcome, Outcome}
use ansible_install.NodeUpgrade.Laws.Batches.{Bounded, batch-Bounded}

-- A dockerd whose state has a counter for each id: how many batches of `docker start` had it.
abbrev pub Counted : Type 0 → Type 0
Counted W = W × (String → ℕ)

unfoldable pub counting : {W : Type 0} → Docker W → Docker (Counted W)
unfolding mem
counting d = record {
  ps = λ x. ((d.ps x.0).0, ((d.ps x.0).1, x.1));
  start = λ n ids x. (
    (d.start n ids x.0).0,
    ((d.start n ids x.0).1, λ i. if mem i ids then suc (x.1 i) else x.1 i),
  );
  stop = λ n timeout ids x. ((d.stop n timeout ids x.0).0, ((d.stop n timeout ids x.0).1, x.1));
  now = λ x. d.now x.0;
  sleep = λ n x. (d.sleep n x.0, x.1);
}

-- No id was started in more batches than the request allows, and the report of what is down says in
-- how many it was.
abbrev pub IsCounted : Plan → Started → (String → ℕ) → Type 0
IsCounted p r k = ((i : String) → k i ≤ p.retries) × All (λ (x : Down). x.attempts ≡ k x.id) r.down

down-attempts :
    (k : String → ℕ) (t : Tries) (ids : List String)
    → ((i : String) → k i ≡ t.attempts i)
    → All
        (λ (x : Down). x.attempts ≡ k x.id)
        (map (λ i. record { id = i; attempts = t.attempts i; error = t.errors i }) ids)
down-attempts k t [] h = tt
down-attempts k t (i ∷ ids) h = (sym (h i), down-attempts k t ids h)

report-attempts :
    (p : Plan) (k : String → ℕ) (t : Tries) (o : Option (List String)) {r : Started}
    → ((i : String) → k i ≡ t.attempts i)
    → ended (report_of p t o) ≡ done r
    → All (λ (x : Down). x.attempts ≡ k x.id) r.down
unfolding report_of
report-attempts p k t none b h = absurd (cc)
report-attempts p k t (some up) {r} b h =
    let same : (report_of p t (some up)) ≡ some r = cc in
    subst
      (λ (x : Option Started). elim x as (λ _. Type 0) [
        | none ↦ Unit
        | some z ↦ All (λ (x : Down). x.attempts ≡ k x.id) z.down
      ])
      same (down-attempts k t _ b)

module _ {W : Type 0} (d : Docker W) (p : Plan) where
  -- The program counts as the dockerd does.
  abbrev IsExact : Tries → Counted W → Type 0
  IsExact t x = ((i : String) → x.1 i ≡ t.attempts i) × Bounded p t

  batch-IsExact :
      (deadline : ℕ) (t : Tries) (up : List String) (x : Counted W)
      → IsExact t x
      → IsExact
          (batch (counting d) p deadline t (startable_of p t up) x).0
          (batch (counting d) p deadline t (startable_of p t up) x).1
  unfolding batch counting
  batch-IsExact deadline t up x (same, low) = (
    λ i. ap (λ n. if mem i (startable_of p t up) then suc n else n) (same i),
    batch-Bounded (counting d) p deadline t up x low,
  )

  loop-IsCounted :
      (deadline : ℕ) (l : Loop (Counted W)) {r : Started}
      → Outcome (counting d) p deadline IsExact l
      → at_end (counting d) p l ≡ done r
      → (t : Tries) × (x : Counted W) × (l ≡ left t x) × IsCounted p r x.1
  unfolding report_of
  loop-IsCounted deadline Loop.spent o h = absurd (cc)
  loop-IsCounted deadline Loop.fault o h = absurd (cc)
  loop-IsCounted deadline (left t x) ((same, low), l) h = (
    t,
    x,
    refl,
    (λ i. subst (λ n. n ≤ p.retries) (sym (same i)) (low i), report-attempts p x.1 t _ same h),
  )

-- The loop without the counters.
abbrev forget : {W : Type 0} → Loop (Counted W) → Loop W
forget Loop.spent = Loop.spent
forget Loop.fault = Loop.fault
forget (left t x) = left t x.0

module _ {W : Type 0} (d : Docker W) (p : Plan) (deadline : ℕ) where
  forget-round :
      (counted : Tries × Counted W → Loop (Counted W)) (again : Tries × W → Loop W) (t : Tries)
      (o : Option (List String)) (x : Counted W)
      → ((u : Tries) (y : Counted W) → forget (counted (u, y)) ≡ again (u, y.0))
      → forget (round (counting d) p deadline counted t (o, x))
        ≡ round d p deadline again t (o, x.0)
  unfolding round counting batch
  forget-round counted again t none x ih = refl
  forget-round counted again t (some up) x ih =
      elim (Bool-cases (is_settled p up (startable_of p t up))) [
        | inl e ↦ rw e refl
        | inr e ↦ elim (Bool-cases (is_empty (startable_of p t up) || leb deadline (d.now x.0))) [
          | inl f ↦ rw (e, f) refl
          | inr f ↦ rw (e, f) (ih _ _)
        ]
      ]

  forget-rounds :
      (fuel : ℕ) (t : Tries) (x : Counted W)
      → forget (rounds (counting d) p deadline fuel (t, x)) ≡ rounds d p deadline fuel (t, x.0)
  unfolding rounds counting
  forget-rounds zero t x = refl
  forget-rounds (suc fuel) t x =
      forget-round (rounds (counting d) p deadline fuel) (rounds d p deadline fuel) t _ _
        (λ u y. forget-rounds fuel u y)

  at_end-forget : (l : Loop (Counted W)) → at_end (counting d) p l ≡ at_end d p (forget l)
  unfolding counting report_of
  at_end-forget Loop.spent = refl
  at_end-forget Loop.fault = refl
  at_end-forget (left t x) = refl

-- The counters change nothing of what `start` does.
start-counting :
    {W : Type 0} (d : Docker W) (cfg : StartRequest) (x : Counted W)
    → start (counting d) cfg x ≡ start d cfg x.0
unfolding start counting
start-counting d cfg x =
    let p = plan_of cfg in
    let deadline : ℕ = d.now x.0 + or_default cfg.wait 600 in
    at_end-forget d p deadline _
    ∙ ap (at_end d p) (forget-rounds d p deadline (fuel_for p) untried x)

start_counted :
    {W : Type 0} (d : Docker W) (cfg : StartRequest) (w : W) {r : Started}
    → start (counting d) cfg (w, λ i. 0) ≡ done r
    → (t : Tries) × (x : Counted W) × (rounds
          (counting d)
          (plan_of cfg)
          (d.now w + or_default cfg.wait 600)
          (fuel_for (plan_of cfg))
          (untried, (w, λ i. 0))
        ≡ left t x)
      × IsCounted (plan_of cfg) r x.1
unfolding start counting
start_counted d cfg w h =
    let deadline : ℕ = d.now w + or_default cfg.wait 600 in
    loop-IsCounted d (plan_of cfg) deadline _
      (rounds-Outcome (counting d) (plan_of cfg) deadline (IsExact d (plan_of cfg)) (λ t x e. e)
        (λ t up x y z e. batch-IsExact d (plan_of cfg) deadline t up y e) (fuel_for (plan_of cfg))
        untried (w, λ i. 0) (λ i. refl, λ i. omega arith))
      h

-- Let the dockerd count for each id the batches of `docker start` that had it. If `start` returns a
-- report, then it returns the same with the counters, and where it left its loop no id was in more
-- batches than the request allows retries, and the attempts that the report states for a container
-- that is down are the number of batches that had it.
pub start-attempts :
    {W : Type 0} (d : Docker W) (cfg : StartRequest) (w : W) {r : Started}
    → start d cfg w ≡ done r
    → (start (counting d) cfg (w, λ i. 0) ≡ done r)
      × ((t : Tries) × (x : Counted W) × (rounds
              (counting d)
              (plan_of cfg)
              (d.now w + or_default cfg.wait 600)
              (fuel_for (plan_of cfg))
              (untried, (w, λ i. 0))
            ≡ left t x)
          × IsCounted (plan_of cfg) r x.1)
start-attempts d cfg w h =
    let same = start-counting d cfg (w, λ i. 0) ∙ h in (same, start_counted d cfg w same)
