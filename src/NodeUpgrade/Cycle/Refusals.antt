-- ===== src/NodeUpgrade/Cycle/Refusals.antt =====
-- roles/node_upgrade/tasks/hold.yml: the runs that are refused at the hold.
use mathlib.Core.Path.{subst}
use ansible_install.Prelude.{
  sym, Bool, List, ◌∷◌, ap, ◌∙◌, ◌≡◌, refl, ◌⊎◌, inl, inr, true, false, ◌&&◌, Option, none, some,
  Bool-cases,
}
use ansible_install.Prelude.Json.{value_of, is_present}
use ansible_install.NodeUpgrade.Helper.{or_default}
use ansible_install.NodeUpgrade.Cli.{Parsed, cli_json}
use ansible_install.NodeUpgrade.Hold.{is_rc}
use ansible_install.NodeUpgrade.Cycle.Machine.{
  Action, begun, downloaded, act, note, need, perform, Saved, released, is_done, Node, Machine, M,
  after, blank, packages, ◌>>=◌, ask, require,
}
use ansible_install.NodeUpgrade.Cycle.Runs.{perform_unless, cycle, main, run, is_own}
use ansible_install.NodeUpgrade.Cycle.Steps.{
  Settings, hold, hold_of, hold_fresh, hold_resumed, is_held, is_status,
}

-- Without a state file the node is held already; with one the hold is gone, and the run did not
-- remove it.
abbrev pub IsRefused : Option Saved → Parsed → Type 0
IsRefused none doc = (is_held doc ≡ true) ⊎ (is_present (value_of doc.doc "controller") ≡ true)
IsRefused (some s) doc =
    (is_held doc ≡ false) × (is_done released s ≡ false) × (s.releasing ≡ false)

-- A failed task, with the file and the log of before.
abbrev pub StopsAt : {W A : Type 0} → Machine W → Option A × Machine W → Type 0
StopsAt x r = (r.0 ≡ none) × (r.1.file ≡ x.file) × (r.1.log ≡ x.log)

module _ {W : Type 0} (c : Settings) (d : Node W) where
  fresh-StopsAt :
      (doc : Parsed) (x : Machine W) → IsRefused none doc → StopsAt x (hold_fresh c d doc x)
  unfolding hold_fresh ◌>>=◌ require
  fresh-StopsAt doc x (inl e) = rw e (refl, refl, refl)
  fresh-StopsAt doc x (inr e) = elim (Bool-cases (is_held doc)) [
    | inl h ↦ rw h (refl, refl, refl)
    | inr h ↦ rw (h, e) (refl, refl, refl)
  ]

  resumed-StopsAt :
      (s : Saved) (doc : Parsed) (x : Machine W)
      → IsRefused (some s) doc
      → StopsAt x (hold_resumed c d s doc x)
  unfolding hold_resumed ◌>>=◌ require
  resumed-StopsAt s doc x (a, b, e) = rw (a, b, e) (refl, refl, refl)

  hold_of-StopsAt :
      (f : Option Saved) (doc : Parsed) (x : Machine W)
      → IsRefused f doc
      → StopsAt x (hold_of c d f doc x)
  hold_of-StopsAt none doc x h = fresh-StopsAt doc x h
  hold_of-StopsAt (some s) doc x h = resumed-StopsAt s doc x h

  -- The reading of the hold fails, and does nothing.
  hold-IsRefused :
      (f : Option Saved) (x : Machine W)
      → IsRefused f (cli_json c.loads (d.status x.world).0.stdout)
      → StopsAt x (hold c d f x)
  unfolding hold ◌>>=◌ ask require
  hold-IsRefused f x h =
      elim (Bool-cases (
        is_rc (d.status x.world).0.rc 0
        && is_status (cli_json c.loads (d.status x.world).0.stdout).shape)) [
          | inl e ↦ rw e (hold_of-StopsAt f _ (record x { world = (d.status x.world).1 }) h)
          | inr e ↦ rw e (refl, refl, refl)
        ]

-- A task fails with `N`, or is done with `Q`.
data Comes {W A : Type 0} (N : Machine W → Type 0) (Q : A → Machine W → Type 0)
    : Option A × Machine W → Type 0 where
  breaks : {x : Machine W} → N x → Comes N Q (none, x)
  goes : {a : A} {x : Machine W} → Q a x → Comes N Q (some a, x)

module _ {W A B : Type 0} {N : Machine W → Type 0} where
  after-Comes :
      {Q : A → Machine W → Type 0} {R : B → Machine W → Type 0} {r : Option A × Machine W}
      {f : A → M W B}
      → Comes N Q r
      → ((a : A) (x : Machine W) → Q a x → Comes N R (f a x))
      → Comes N R (after r f)
  unfolding after
  after-Comes (breaks n) g = breaks n
  after-Comes (goes {a} {x} q) g = g a x q

  bind-Comes :
      {Q : A → Machine W → Type 0} {R : B → Machine W → Type 0} (m : M W A) (f : A → M W B)
      (x : Machine W)
      → Comes N Q (m x)
      → ((a : A) (y : Machine W) → Q a y → Comes N R (f a y))
      → Comes N R ((m >>= f) x)
  unfolding ◌>>=◌
  bind-Comes m f x h g = after-Comes h g

failed-Comes :
    {W A : Type 0} {N : Machine W → Type 0} {Q : A → Machine W → Type 0} (r : Option A × Machine W)
    → r.0 ≡ none
    → N r.1
    → Comes N Q r
failed-Comes (none, x) e n = breaks n
failed-Comes (some a, x) e n = absurd (cc)

-- As long as a run has only read the node and fetched packages, the hold is as the operators left
-- it, and the status tells so.
pub record Foreign {W : Type 0} (c : Settings) (d : Node W) (f : Option Saved) : Type 1 where
  pub Holds : W → Type 0
  pub told : (w : W) → Holds w → IsRefused f (cli_json c.loads (d.status w).0.stdout)
  pub installed_keeps : (w : W) → Holds w → Holds (d.installed w).1
  pub reboot_required_keeps : (w : W) → Holds w → Holds (d.reboot_required w).1
  pub download_keeps : (w : W) → Holds w → Holds (d.download w).1

module _ {W : Type 0} (c : Settings) (d : Node W) {f : Option Saved} (r : Foreign c d f)
    (l : List Action) where
  -- The run has begun, and has read the node.
  record Read (x : Machine W) : Type 0 where
    file : x.file ≡ f
    log : x.log ≡ begun ∷ l
    held : r.Holds x.world

  -- The run did nothing more than fetch packages.
  abbrev pub Idle : Machine W → Type 0
  Idle x = (x.file ≡ f) × ((x.log ≡ begun ∷ l) ⊎ (x.log ≡ downloaded ∷ begun ∷ l))

  abbrev Waiting : Machine W → Type 0
  Waiting x = Idle x × r.Holds x.world

  ask-Read :
      {A : Type 0} (op : W → A × W) (x : Machine W)
      → ((w : W) → r.Holds w → r.Holds (op w).1)
      → Read x
      → Comes Idle (λ _ y. Read y) (ask op x)
  unfolding ask
  ask-Read op x k h = goes (record { file = h.file; log = h.log; held = k x.world h.held })

  require-Read : (b : Bool) (x : Machine W) → Read x → Comes Idle (λ _ y. Read y) (require b x)
  unfolding require
  require-Read true x h = goes h
  require-Read false x h = breaks (h.file, inl h.log)

  need-Read :
      {A : Type 0} (o : Option A) (x : Machine W) → Read x → Comes Idle (λ _ y. Read y) (need o x)
  unfolding need
  need-Read none x h = breaks (h.file, inl h.log)
  need-Read (some a) x h = goes h

  require-Waiting :
      (b : Bool) (x : Machine W) → Waiting x → Comes Idle (λ _ y. Waiting y) (require b x)
  unfolding require
  require-Waiting true x h = goes h
  require-Waiting false x (h, k) = breaks h

  download-Waiting :
      (test : Bool) (x : Machine W)
      → Read x
      → Comes Idle (λ _ y. Waiting y) (perform_unless test (act downloaded d.download) x)
  unfolding act note perform ask
  download-Waiting true x h = goes ((h.file, inl h.log), h.held)
  download-Waiting false x h =
      bind-Comes {Q = λ _ y. Waiting y} _ _ x
        (goes ((h.file, inr (ap (λ z. downloaded ∷ z) h.log)), h.held))
        (λ _ y k.
          bind-Comes {Q = λ _ z. Waiting z} _ _ y (goes (k.0, r.download_keeps y.world k.1))
            (λ b z j. require-Waiting b z j))

  hold-Waiting :
      {Q : Saved → Machine W → Type 0} (x : Machine W) → Waiting x → Comes Idle Q (hold c d f x)
  hold-Waiting x ((e, o), k) =
      let (a, b, g) = hold-IsRefused c d f x (r.told x.world k) in
      failed-Comes (hold c d f x) a (b ∙ e, elim o [ inl p ↦ inl (g ∙ p) | inr p ↦ inr (g ∙ p) ])

  -- The phases after the hold are not reached.
  cycle-Idle : (x : Machine W) → Read x → Comes Idle (λ _ y. Idle y) (cycle c d f x)
  unfolding cycle
  cycle-Idle x h =
      bind-Comes _ _ x (download-Waiting (is_done packages (or_default f blank)) x h)
        (λ _ y k. bind-Comes {Q = λ _ _. ⊥} _ _ y (hold-Waiting y k) (λ s z e. absurd e))

  gate-Idle :
      (test : Bool) (x : Machine W)
      → Read x
      → Comes Idle (λ _ y. Idle y) (perform_unless test (cycle c d f) x)
  gate-Idle true x h = goes (h.file, inl h.log)
  gate-Idle false x h = cycle-Idle x h

  main-Idle : (x : Machine W) → Read x → Comes Idle (λ _ y. Idle y) (main c d f x)
  unfolding main
  main-Idle x h = bind-Comes _ _ x (require-Read (is_own c d f) x h) (λ _ x1 h1.
      bind-Comes _ _ x1 (ask-Read d.installed x1 r.installed_keeps h1) (λ have x2 h2.
        bind-Comes _ _ x2 (ask-Read d.reboot_required x2 r.reboot_required_keeps h2)
          (λ o x3 h3. bind-Comes _ _ x3 (need-Read o x3 h3) (λ pending x4 h4. gate-Idle _ x4 h4))))

  from_Comes : {A : Type 0} {m : Option A × Machine W} → Comes Idle (λ _ y. Idle y) m → Idle m.1
  from_Comes (breaks n) = n
  from_Comes (goes q) = q

-- Suppose that a run finds the state file `f`, that the hold is not as such a run needs it, and that
-- no reading of the installed packages or of the pending reboot and no fetching of packages changes
-- that. Then the run ends with the state file it found, and all it did to the node is to fetch
-- packages, if anything: it takes and releases no hold, stops and starts no container, installs
-- nothing, reboots nothing, and archives nothing.
pub run-IsRefused :
    {W : Type 0} (c : Settings) (d : Node W) {f : Option Saved} (r : Foreign c d f) (x : Machine W)
    → x.file ≡ f
    → r.Holds x.world
    → Idle c d r x.log (run c d x).1
unfolding run note ◌>>=◌ after
run-IsRefused c d r x e h =
    let y = record x { log = begun ∷ x.log } in
    subst (λ g. Idle c d r x.log (main c d g y).1) (sym e)
      (from_Comes c d r x.log (main-Idle c d r x.log y (record { file = e; log = refl; held = h })))
