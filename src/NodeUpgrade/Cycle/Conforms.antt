-- ===== src/NodeUpgrade/Cycle/Conforms.antt =====
-- roles/node_upgrade/tasks: the phases in the order of cycle.yml, and runs one after another.
use ansible_install.Prelude.{
  not, none, some, ℕ, suc, ◌≤◌, ◌≡◌, refl, Bool, true, false, ◌||◌, Option, List, [], ◌∷◌, arith,
}
use mathlib.Core.Path.{subst}
use ansible_install.Prelude.Lists.{is_empty}
use ansible_install.NodeUpgrade.Pins.{docker_drift}
use ansible_install.NodeUpgrade.Helper.{or_default}
use ansible_install.NodeUpgrade.Cycle.Machine.{
  ◌>>=◌, ◌>>◌, act, cleaned, downloaded, Phase, recorded, stopped, packages, rebooted, started,
  released, rank, Saved, blank, is_done, begun, Written, written, refused, lost, Node, Machine, M,
  require, ask, need, note, unless,
}
use ansible_install.NodeUpgrade.Cycle.History.{
  History, Mode, plain, Legal, Ends, fails, does, begins, archives, cleans, downloads, leaves,
}
use ansible_install.NodeUpgrade.Cycle.Triples.{
  Reached, bind-Ends, ask-Quiet, need-Quiet, require-Quiet, At,
}
use ansible_install.NodeUpgrade.Cycle.Steps.{release, Settings, services, start}
use ansible_install.NodeUpgrade.Cycle.Phases.{
  record_running-At, stop-Reached, upgrade_packages-Reached, reboot_node-Reached, release-Reached,
}
use ansible_install.NodeUpgrade.Cycle.Holding.{Later, Loaded, Quiet-Loaded, act-Loaded, hold-Later}
use ansible_install.NodeUpgrade.Cycle.Skips.{
  is_done-first, stop-test, unless-Later, services-Ready, start-Later,
}
use ansible_install.NodeUpgrade.Cycle.Runs.{
  is_resumed, perform_unless, move, move_file, archive, cycle, main, is_own, run, put_aside,
  prepared, Attempt, runs,
}

antisym : (a b : ℕ) → a ≤ b → b ≤ a → a ≡ b
antisym a b le ge = omega arith

module _ {W : Type 0} where
  move-Loaded :
      (s : Saved) (m : Mode) (r : Written × W) (x : Machine W)
      → At 7 s m x
      → Ends (λ _ y. Loaded none y) (move_file r x)
  move-Loaded s m (written, w) x h = does (refl, (plain, archives h.history h.phases))
  move-Loaded s m (lost, w) x h = fails (plain, archives h.history h.phases)
  move-Loaded s m (refused, w) x h = fails (m, rw (h.file) h.history)

  archive-Loaded :
      (d : Node W) (s : Saved) (x : Machine W)
      → Later 7 s x
      → Ends (λ _ y. Loaded none y) (archive d x)
  unfolding archive move
  archive-Loaded d s x h =
      bind-Ends _ _ x
        (move-Loaded s h.mode (d.move x.world) x
          (subst (λ n. At n s h.mode x) (antisym h.done 7 h.to h.from) h.at))
        (λ _ y k. act-Loaded none cleaned d.clean y (λ m l. (plain, cleans l)) k)

  download-Loaded :
      (f : Option Saved) (test : Bool) (op : W → Bool × W) (x : Machine W)
      → Loaded f x
      → Ends (λ _ y. Loaded f y) (perform_unless test (act downloaded op) x)
  download-Loaded f true op x h = does h
  download-Loaded f false op x h = act-Loaded f downloaded op x (λ m l. (plain, downloads l)) h

  -- A phase other than stopping and starting.
  phase-Later :
      (p : Phase) (op : M W Saved) (s : Saved) (x : Machine W)
      → Later (rank p) s x
      → ((m : Mode) → At (rank p) s m x → Ends (λ t y. Reached (suc (rank p)) t y) (op x))
      → Ends (λ t y. Later (suc (rank p)) t y) (unless (is_done p s) op s x)
  phase-Later p op s x h step =
      unless-Later p (is_done p s) op s x h (is_done-first p s h.done h.to h.at.phases) step

  module _ (c : Settings) (d : Node W) where
    -- From the start of the services on.
    last_steps :
        (s4 : Saved) (x : Machine W)
        → Later 5 s4 x
        → Ends
            (λ _ y. Loaded none y)
            ((do
              perform_unless (is_done started s4) (services c d)
              s5 ← unless (is_done started s4) (start c d s4) s4
              s6 ← unless (is_done released s5) (release c d s5) s5
              archive d)
              x)
    last_steps s4 x h =
        bind-Ends _ _ x
          (services-Ready c d _ s4 x h (is_done-first started s4 h.done h.to h.at.phases))
          (λ _ y k. bind-Ends _ _ y (start-Later c d s4 y k) (λ s5 z i.
            bind-Ends _ _ z (phase-Later released _ s5 z i (λ m j. release-Reached c d z j))
              (λ s6 w j. archive-Loaded d s6 w j)))

    cycle-Loaded :
        (f : Option Saved) (x : Machine W)
        → Loaded f x
        → Ends (λ _ y. Loaded none y) (cycle c d f x)
    unfolding cycle
    cycle-Loaded f x h =
        bind-Ends _ _ x (download-Loaded f (is_done packages (or_default f blank)) d.download x h)
          (λ _ x1 h1. bind-Ends _ _ x1 (hold-Later c d f x1 h1) (λ s x2 h2.
            bind-Ends _ _ x2 (phase-Later recorded _ s x2 h2 (λ m k. record_running-At c d x2 k))
              (λ s1 x3 h3.
                bind-Ends _ _ x3
                  (unless-Later stopped _ _ s1 x3 h3 (stop-test s1 h3.done h3.to h3.at.phases)
                    (λ m k. stop-Reached c d x3 k))
                  (λ s2 x4 h4.
                    bind-Ends _ _ x4
                      (phase-Later packages _ s2 x4 h4 (λ m k. upgrade_packages-Reached c d x4 k))
                      (λ s3 x5 h5.
                        bind-Ends _ _ x5
                          (phase-Later rebooted _ s3 x5 h5 (λ m k. reboot_node-Reached c d x5 k))
                          (λ s4 x6 h6. last_steps s4 x6 h6))))))

    -- An unfinished run is always resumed.
    not_needed :
        (f : Option Saved) (drift pending force : Bool)
        → not (drift || (pending || (is_resumed c d f || force))) ≡ true
        → f ≡ none
    not_needed none drift pending force h = refl
    not_needed (some s) drift pending force h = absurd (ground arith)

    chosen :
        (f : Option Saved) (test : Bool) (x : Machine W)
        → (test ≡ true → f ≡ none)
        → Loaded f x
        → Ends (λ _ y. Loaded none y) (perform_unless test (cycle c d f) x)
    chosen f true x none_then h = does (subst (λ g. Loaded g x) (none_then refl) h)
    chosen f false x none_then h = cycle-Loaded f x h

    main-Loaded :
        (f : Option Saved) (x : Machine W) → Loaded f x → Ends (λ _ y. Loaded none y) (main c d f x)
    unfolding main
    main-Loaded f x h =
        bind-Ends _ _ x (Quiet-Loaded f (require (is_own c d f)) x (require-Quiet _) h) (λ _ y k.
          bind-Ends _ _ y (Quiet-Loaded f (ask d.installed) y (ask-Quiet d.installed) k)
            (λ have z i.
              bind-Ends _ _ z
                (Quiet-Loaded f (ask d.reboot_required) z (ask-Quiet d.reboot_required) i)
                (λ a w j.
                  bind-Ends _ _ w (Quiet-Loaded f (need a) w (need-Quiet a) j) (λ pending v g.
                    chosen f _ v
                      (not_needed f (not (is_empty (docker_drift have c.pins))) pending c.force)
                      g))))

    begun-Ends :
        (n : Mode) (y : Machine W)
        → History y.log y.file n
        → Ends (λ _ z. Loaded y.file z) (note begun y)
    unfolding note
    begun-Ends n y k = does (refl, (plain, begins k))

    run-Ends : (x : Machine W) → Legal x → Ends (λ _ y. Loaded none y) (run c d x)
    unfolding run
    run-Ends x (m, h) = bind-Ends _ _ x (begun-Ends m x h) (λ _ y k. main-Loaded x.file y k)

Ends-Legal : {W A : Type 0} {r : Option A × Machine W} → Ends (λ _ y. Loaded none y) r → Legal r.1
Ends-Legal (fails l) = l
Ends-Legal (does {x} (e, (m, h))) = (m, rw e h)

put_aside-Legal : {W : Type 0} (b : Bool) (x : Machine W) → Legal x → Legal (put_aside b x)
put_aside-Legal false x h = h
put_aside-Legal true x (m, h) = (plain, leaves h)

prepared-Legal : {W : Type 0} (a : Attempt W) (x : Machine W) → Legal x → Legal (prepared a x)
prepared-Legal a x (m, h) =
    put_aside-Legal a.aside (record x { world = a.meanwhile x.world }) (m, h)

-- Suppose that between runs nobody writes the state file, though an operator may move it aside. From
-- a state that a legal history led to, runs of the playbook, with any settings, any answers of the
-- node and any changes of the node between them, lead to a state of a legal history: the actions
-- follow each other as History says, and the state file is the one that they left.
pub runs-Legal :
    {W : Type 0} (d : Node W) (attempts : List (Attempt W)) (x : Machine W)
    → Legal x
    → Legal (runs d attempts x)
unfolding runs
runs-Legal d [] x h = h
runs-Legal d (a ∷ later) x h =
    runs-Legal d later _ (Ends-Legal (run-Ends a.settings d (prepared a x) (prepared-Legal a x h)))
