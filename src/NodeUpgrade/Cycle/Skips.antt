-- ===== src/NodeUpgrade/Cycle/Skips.antt =====
-- roles/node_upgrade/tasks/cycle.yml: a phase runs exactly while it is not done.
use ansible_install.Prelude.{
  ℕ, zero, suc, ◌≤◌, ◌≡◌, refl, sym, ◌∙◌, ◌⊎◌, inl, inr, Bool, true, false, ◌||◌, ltb, eqb, arith,
}
use mathlib.Core.Path.{subst}
use ansible_install.Prelude.Lists.{any}
use ansible_install.NodeUpgrade.Cycle.Machine.{
  Phase, held, recorded, stopped, packages, rebooted, started, released, rank, Saved, is_done, Node,
  Machine, M, unless,
}
use ansible_install.NodeUpgrade.Cycle.History.{Mode, sure, first, Ends, does}
use ansible_install.NodeUpgrade.Cycle.Triples.{Reached, At, weaken-Ends}
use ansible_install.NodeUpgrade.Cycle.Steps.{Settings, services, start}
use ansible_install.NodeUpgrade.Cycle.Phases.{rank-lt, services-At, start-Reached}
use ansible_install.NodeUpgrade.Cycle.Holding.{Later, Reached-Later}
use ansible_install.NodeUpgrade.Cycle.Runs.{perform_unless}

at_most-seven :
    (P : ℕ → Type 0) (n : ℕ) → n ≤ 7 → P 0 → P 1 → P 2 → P 3 → P 4 → P 5 → P 6 → P 7 → P n
at_most-seven P zero h a b c d e f g i = a
at_most-seven P (suc zero) h a b c d e f g i = b
at_most-seven P (suc (suc zero)) h a b c d e f g i = c
at_most-seven P (suc (suc (suc zero))) h a b c d e f g i = d
at_most-seven P (suc (suc (suc (suc zero)))) h a b c d e f g i = e
at_most-seven P (suc (suc (suc (suc (suc zero))))) h a b c d e f g i = f
at_most-seven P (suc (suc (suc (suc (suc (suc zero)))))) h a b c d e f g i = g
at_most-seven P (suc (suc (suc (suc (suc (suc (suc zero))))))) h a b c d e f g i = i
at_most-seven P (suc (suc (suc (suc (suc (suc (suc (suc n)))))))) h a b c d e f g i =
    absurd (omega arith)

-- Of the first phases those of a lower rank are done.
abbrev Stand : Phase → ℕ → Type 0
Stand p n = any (λ q. eqb (rank p) (rank q)) (first n) ≡ ltb (rank p) n

all-Stand : (p : Phase) (n : ℕ) → n ≤ 7 → Stand p n
unfolding any
all-Stand held n h = at_most-seven (Stand held) n h refl refl refl refl refl refl refl refl
all-Stand recorded n h = at_most-seven (Stand recorded) n h refl refl refl refl refl refl refl refl
all-Stand stopped n h = at_most-seven (Stand stopped) n h refl refl refl refl refl refl refl refl
all-Stand packages n h = at_most-seven (Stand packages) n h refl refl refl refl refl refl refl refl
all-Stand rebooted n h = at_most-seven (Stand rebooted) n h refl refl refl refl refl refl refl refl
all-Stand started n h = at_most-seven (Stand started) n h refl refl refl refl refl refl refl refl
all-Stand released n h = at_most-seven (Stand released) n h refl refl refl refl refl refl refl refl

pub is_done-first :
    (p : Phase) (s : Saved) (n : ℕ) → n ≤ 7 → s.phases_done ≡ first n → is_done p s ≡ ltb (rank p) n
unfolding any is_done
is_done-first p s n le e = rw e (all-Stand p n le)

over : (a b : ℕ) → ltb a b ≡ true → suc a ≤ b
over a b h = ground arith

reached : (a b : ℕ) → a ≤ b → ltb a b ≡ false → b ≡ a
reached a b le h = ground arith

-- Stopping is skipped where a later phase is done, which is nothing more here.
pub stop-test :
    (s : Saved) (n : ℕ)
    → n ≤ 7
    → s.phases_done ≡ first n
    → (is_done stopped s || (is_done packages s || is_done started s)) ≡ ltb 2 n
stop-test s n le e =
    rw
      (
        is_done-first stopped s n le e,
        is_done-first packages s n le e,
        is_done-first started s n le e,
      )
      (ground arith)

module _ {W : Type 0} where
  -- A step that runs exactly while its phase is not done.
  pub unless-Later :
      (p : Phase) (test : Bool) (op : M W Saved) (s : Saved) (x : Machine W)
      (h : Later (rank p) s x)
      → test ≡ ltb (rank p) h.done
      → ((m : Mode) → At (rank p) s m x → Ends (λ t y. Reached (suc (rank p)) t y) (op x))
      → Ends (λ t y. Later (suc (rank p)) t y) (unless test op s x)
  unless-Later p true op s x h e step =
      does (record { done = h.done; mode = h.mode; from = over _ _ (sym e); to = h.to; at = h.at })
  unless-Later p false op s x h e step =
      weaken-Ends (step h.mode (subst (λ n. At n s h.mode x) (reached _ _ h.from (sym e)) h.at))
        (λ t y. Reached-Later (rank-lt p))

  -- Starting waits for the services, which make sure of the hold.
  pub Ready : Saved → Machine W → Type 0
  Ready s x = At 5 s sure x ⊎ Later 6 s x

  pub services-Ready :
      (c : Settings) (d : Node W) (test : Bool) (s : Saved) (x : Machine W) (h : Later 5 s x)
      → test ≡ ltb 5 h.done
      → Ends (λ _ y. Ready s y) (perform_unless test (services c d) x)
  unfolding Ready
  services-Ready c d true s x h e = does (
      inr (record {
        done = h.done;
        mode = h.mode;
        from = over 5 h.done (sym e);
        to = h.to;
        at = h.at;
      }))
  services-Ready c d false s x h e =
      weaken-Ends
        (services-At c d x (subst (λ n. At n s h.mode x) (reached _ _ h.from (sym e)) h.at))
        (λ _ y k. inl k)

  pub start-Later :
      (c : Settings) (d : Node W) (s : Saved) (x : Machine W)
      → Ready s x
      → Ends (λ t y. Later 6 t y) (unless (is_done started s) (start c d s) s x)
  unfolding Ready
  start-Later c d s x (inl h) =
      rw (is_done-first started s 5 (omega arith) h.phases)
        (weaken-Ends (start-Reached c d x h) (λ t y k. Reached-Later (omega arith) k))
  start-Later c d s x (inr h) =
      rw (is_done-first started s h.done h.to h.at.phases ∙ above 5 h.done h.from) (does h)
    where
      above : (a b : ℕ) → suc a ≤ b → ltb a b ≡ true
      above a b le = ground arith
