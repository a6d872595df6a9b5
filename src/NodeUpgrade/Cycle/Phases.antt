-- ===== src/NodeUpgrade/Cycle/Phases.antt =====
-- roles/node_upgrade/tasks: each phase of a run does only what may follow.
use ansible_install.Prelude.{
  ℕ, ◌<◌, suc, ◌≡◌, refl, sym, eq→≡, and-eq-true, ◌==◌, ◌∙◌, ◌⊎◌, inl, inr, String, Bool, true,
  false, List, [], ◌∷◌, arith,
}
use mathlib.Core.Path.{subst}
use ansible_install.NodeUpgrade.Helper.{StopRequest}
use ansible_install.NodeUpgrade.Cycle.Machine.{
  helper_put, request_put, services_up, Phase, held, recorded, stopped, packages, rebooted, started,
  released, rank, Saved, is_done, mark, Action, checked, reboot, off, install, Node, Machine, save,
  state_phase,
}
use ansible_install.NodeUpgrade.Cycle.History.{
  puts_helper, puts_request, awaits, Mode, plain, sure, first, Ends, does, checks, stops, installs,
  reboots, starts, clears, marks, amends,
}
use ansible_install.NodeUpgrade.Cycle.Triples.{
  bind-Ends, ask-At, need-At, until-At, require-At, act-At, At, Reached, weaken-Ends, note-At,
  save-At,
}
use ansible_install.NodeUpgrade.Cycle.Steps.{
  Settings, hold_check, list, record_running, stop_ids, stop, upgrade_packages, reboot_if,
  reboot_node, services, save_if, accepted_names, start_request, same_names, start, release,
}

same_names-eq : (xs ys : List String) → same_names xs ys ≡ true → xs ≡ ys
same_names-eq [] [] h = refl
same_names-eq [] (y ∷ ys) h = absurd (cc)
same_names-eq (x ∷ xs) [] h = absurd (cc)
same_names-eq (x ∷ xs) (y ∷ ys) h =
    let (a, b) = and-eq-true (x == y) (same_names xs ys) h in
    let e : x ≡ y = eq→≡ x y a in let f : xs ≡ ys = same_names-eq xs ys b in cc

-- Marking the next phase.
mark-first :
    (p : Phase) (s : Saved)
    → s.phases_done ≡ first (rank p)
    → (mark p s).phases_done ≡ first (suc (rank p))
unfolding mark is_done
mark-first held s e = rw e refl
mark-first recorded s e = rw e refl
mark-first stopped s e = rw e refl
mark-first packages s e = rw e refl
mark-first rebooted s e = rw e refl
mark-first started s e = rw e refl
mark-first released s e = rw e refl

pub rank-lt : (p : Phase) → rank p < 7
rank-lt held = omega arith
rank-lt recorded = omega arith
rank-lt stopped = omega arith
rank-lt packages = omega arith
rank-lt rebooted = omega arith
rank-lt started = omega arith
rank-lt released = omega arith

module _ {W : Type 0} (c : Settings) (d : Node W) {s : Saved} {m : Mode} where
  state_phase-At :
      (p : Phase) (s' : Saved) (x : Machine W)
      → s'.phases_done ≡ s.phases_done
      → (rank p ≡ 1) ⊎ (s'.recorded ≡ s.recorded)
      → s'.releasing ≡ s.releasing
      → At (rank p) s m x
      → Ends (λ t y. Reached (suc (rank p)) t y) (state_phase d p s' x)
  unfolding state_phase mark
  state_phase-At p s' x same rec rel h =
      let e = mark-first p s' (same ∙ h.phases) in
      bind-Ends _ _ x
        (save-At d (suc (rank p)) (mark p s') x e
          (λ l. marks (rank p) (mark p s') l (rank-lt p) h.phases e rec rel) h)
        (λ _ y k. does (m, k))

  hold_check-At :
      {n : ℕ} (x : Machine W) → At n s m x → Ends (λ _ y. At n s sure y) (hold_check c d x)
  unfolding hold_check
  hold_check-At x h = bind-Ends _ _ x (until-At 5 _ d.status x h) (λ a y k.
      bind-Ends _ _ y (require-At _ y k)
        (λ _ z i. bind-Ends _ _ z (require-At _ z i) (λ _ w j. note-At checked sure w checks j)))

  list-At : {n : ℕ} (x : Machine W) → At n s m x → Ends (λ _ y. At n s m y) (list c d x)
  unfolding list
  list-At x h =
      bind-Ends _ _ x (ask-At d.ps x h)
        (λ a y k. bind-Ends _ _ y (need-At a y k) (λ rows z i. need-At _ z i))

  pub record_running-At :
      (x : Machine W) → At 1 s m x → Ends (λ t y. Reached 2 t y) (record_running c d s x)
  unfolding record_running
  record_running-At x h = bind-Ends _ _ x (ask-At d.inspect x h) (λ a y k.
      bind-Ends _ _ y (need-At a y k) (λ text z i.
        bind-Ends _ _ z (need-At _ z i)
          (λ cs w j. state_phase-At recorded _ w refl (inl refl) refl j)))

module _ {W : Type 0} (c : Settings) (d : Node W) {s : Saved} where
  stop_ids-Reached :
      (r : StopRequest) (b : Bool) (x : Machine W)
      → At 2 s sure x
      → Ends (λ _ y. Reached 2 s y) (stop_ids c d r b x)
  unfolding stop_ids
  stop_ids-Reached r true x h = does (sure, h)
  stop_ids-Reached r false x h =
      bind-Ends _ _ x (act-At request_put sure d.request x puts_request h) (λ _ y k.
        weaken-Ends (act-At (Action.stop r) plain (d.stop r) y (λ l. stops r l h.phases) k)
          (λ _ w j. (plain, j)))

  pub stop-Reached :
      {m : Mode} (x : Machine W) → At 2 s m x → Ends (λ t y. Reached 3 t y) (stop c d s x)
  unfolding stop
  stop-Reached x h = bind-Ends _ _ x (hold_check-At c d x h) (λ _ y k.
      bind-Ends _ _ y (act-At helper_put _ d.helper y puts_helper k) (λ _ z i.
        bind-Ends _ _ z (list-At c d z i) (λ ps w j.
          bind-Ends _ _ w (stop_ids-Reached _ _ w j) (λ _ v (m', g).
            bind-Ends _ _ v (list-At c d v g) (λ later u f.
              bind-Ends _ _ u (require-At _ u f)
                (λ _ t e. state_phase-At c d stopped s t refl (inr refl) refl e))))))

  pub upgrade_packages-Reached :
      {m : Mode} (x : Machine W)
      → At 3 s m x
      → Ends (λ t y. Reached 4 t y) (upgrade_packages c d s x)
  unfolding upgrade_packages
  upgrade_packages-Reached x h = bind-Ends _ _ x (hold_check-At c d x h) (λ _ y k.
      bind-Ends _ _ y (act-At install plain d.install y (λ l. installs l k.phases) k) (λ _ w j.
        bind-Ends _ _ w (ask-At d.installed w j) (λ have v g.
          bind-Ends _ _ v (require-At _ v g)
            (λ _ u f. state_phase-At c d packages s u refl (inr refl) refl f))))

  reboot_if-Reached :
      {m : Mode} (b : Bool) (x : Machine W)
      → At 4 s m x
      → Ends (λ _ y. Reached 4 s y) (reboot_if c d b x)
  reboot_if-Reached {m} false x h = does (m, h)
  reboot_if-Reached true x h = bind-Ends _ _ x (hold_check-At c d x h) (λ _ y k.
      weaken-Ends (act-At reboot plain d.reboot y (λ l. reboots l k.phases) k)
        (λ _ w j. (plain, j)))

  pub reboot_node-Reached :
      {m : Mode} (x : Machine W) → At 4 s m x → Ends (λ t y. Reached 5 t y) (reboot_node c d s x)
  unfolding reboot_node
  reboot_node-Reached x h = bind-Ends _ _ x (ask-At d.reboot_required x h) (λ a y k.
      bind-Ends _ _ y (need-At a y k) (λ required z i.
        bind-Ends _ _ z (reboot_if-Reached required z i)
          (λ _ w (m', j). state_phase-At c d rebooted s w refl (inr refl) refl j)))

  pub services-At :
      {m : Mode} {n : ℕ} (x : Machine W) → At n s m x → Ends (λ _ y. At n s sure y) (services c d x)
  unfolding services
  services-At x h =
      bind-Ends _ _ x (act-At services_up plain d.services x awaits h)
        (λ _ y k. hold_check-At c d y k)

  -- The start phase changes only which containers may stay down.
  save_if-At :
      {m : Mode} (b : Bool) (names : List String) (x : Machine W)
      → same_names names s.accept_down ≡ b
      → At 5 s m x
      → Ends
          (λ _ y. At 5 (record s { accept_down = names }) m y)
          (save_if c d b (record s { accept_down = names }) x)
  unfolding save
  save_if-At {m} true names x e h = does (
      subst (λ (a : List String). At 5 (record s { accept_down = a }) m x)
        (sym (same_names-eq names s.accept_down e)) h)
  save_if-At false names x e h =
      save-At d 5 (record s { accept_down = names }) x h.phases
        (λ l. amends (record s { accept_down = names }) l refl refl (inr refl)) h

  pub start-Reached : (x : Machine W) → At 5 s sure x → Ends (λ t y. Reached 6 t y) (start c d s x)
  unfolding start
  start-Reached x h = bind-Ends _ _ x (act-At helper_put _ d.helper x puts_helper h) (λ _ y k.
      bind-Ends _ _ y (list-At c d y k) (λ ps z i.
        bind-Ends _ _ z (save_if-At _ (accepted_names c d s) z refl i) (λ _ w j.
          bind-Ends _ _ w (act-At request_put _ d.request w puts_request j) (λ _ v g.
            bind-Ends _ _ v
              (act-At
                (Action.start
                  (start_request c d (record s { accept_down = accepted_names c d s }) ps))
                plain (d.start _) v (λ l. starts _ l g.phases) g)
              (λ _ t e. bind-Ends _ _ t (list-At c d t e) (λ later q r.
                bind-Ends _ _ q (require-At _ q r)
                  (λ _ p o. state_phase-At c d started _ p refl (inr refl) refl o)))))))

  pub release-Reached :
      {m : Mode} (x : Machine W) → At 6 s m x → Ends (λ t y. Reached 7 t y) (release c d s x)
  unfolding release
  release-Reached x h =
      bind-Ends _ _ x
        (save-At d 6 (record s { releasing = true }) x h.phases
          (λ l. amends (record s { releasing = true }) l refl refl (inl h.phases)) h)
        (λ _ y k. bind-Ends _ _ y (note-At off plain y (λ l. clears l k.phases refl) k) (λ _ z i.
          bind-Ends _ _ z (ask-At d.off z i) (λ a w j. bind-Ends _ _ w (require-At _ w j) (λ _ v g.
            bind-Ends _ _ v (until-At c.release_retries _ d.status v g) (λ reply u f.
              bind-Ends _ _ u (require-At _ u f)
                (λ _ t e. state_phase-At c d released _ t refl (inr refl) refl e))))))
