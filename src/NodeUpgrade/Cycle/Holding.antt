-- ===== src/NodeUpgrade/Cycle/Holding.antt =====
-- roles/node_upgrade/tasks/hold.yml: how a run begins, fresh or resumed.
use ansible_install.Prelude.{
  ◌∷◌, ℕ, zero, suc, ◌≤◌, ◌≡◌, refl, ◌∙◌, Bool, true, false, Option, none, some, List,
  if◌then◌else◌, arith,
}
use ansible_install.NodeUpgrade.Cli.{Parsed}
use ansible_install.NodeUpgrade.Cycle.Machine.{
  held, Saved, blank, is_done, mark, Action, Answer, on, Written, written, refused, lost, Node,
  Machine, M, pure, require, ask, perform, act, Action, note, until, put_file, save, state_phase,
}
use ansible_install.NodeUpgrade.Cycle.History.{
  History, Mode, asked, first, Ends, fails, does, begins, holds, makes, checks, stops, installs,
  reboots, starts, clears, marks, amends, downloads, puts_helper, puts_request, awaits, cleans,
}
use ansible_install.NodeUpgrade.Cycle.Triples.{
  bind-Ends, Quiet-Ends, Quiet, ask-Quiet, require-Quiet, perform-Quiet, require-At, At, Reached,
  weaken-Ends,
}
use ansible_install.NodeUpgrade.Cycle.Steps.{
  Settings, ask_on, hold_fresh, hold_resumed, hold_of, hold, this_playbook,
}

-- A node without a state file.
pub record Empty (m : Mode) (f : Option Saved) (l : List Action) : Type 0 where
  pub file : f ≡ none
  pub history : History l none m

Empty-Legal :
    (m : Mode) (f : Option Saved) (l : List Action) → Empty m f l → (mode : Mode) × History l f mode
Empty-Legal m f l h = (m, rw (h.file) h.history)

-- The state file that a fresh run makes.
made : Saved
made = mark held (record blank { playbook = some this_playbook })

made-first : made.phases_done ≡ first 1
unfolding made mark is_done
made-first = refl

made-releasing : made.releasing ≡ false
unfolding made mark
made-releasing = refl

module _ {W : Type 0} where
  Quiet-Empty :
      {A : Type 0} {m : Mode} (op : M W A) (x : Machine W)
      → Quiet op
      → Empty m x.file x.log
      → Ends (λ a y. Empty m y.file y.log) (op x)
  Quiet-Empty {A} {m} op x q h = Quiet-Ends (Empty m) op x (Empty-Legal m) q h

  note-Empty :
      {m : Mode} (x : Machine W)
      → Empty m x.file x.log
      → Ends (λ a y. Empty asked y.file y.log) (note on x)
  unfolding note
  note-Empty x h = does (record { file = h.file; history = holds h.history })

  -- The hold is asked for, and asked for again.
  ask_on-Empty :
      {m : Mode} (c : Settings) (d : Node W) (x : Machine W)
      → Empty m x.file x.log
      → Ends (λ a y. Empty asked y.file y.log) (ask_on c d x)
  unfolding ask_on
  ask_on-Empty c d x h =
      bind-Ends _ _ x (note-Empty x h) (λ _ y k. Quiet-Empty (ask d.on) y (ask-Quiet d.on) k)

  until-Empty :
      {m : Mode} (c : Settings) (d : Node W) (n : ℕ) (test : Answer → Bool) (x : Machine W)
      → Empty m x.file x.log
      → Ends (λ a y. Empty asked y.file y.log) (until n test (ask_on c d) x)
  unfolding until
  until-Empty c d zero test x h = ask_on-Empty c d x h
  until-Empty c d (suc n) test x h =
      bind-Ends _ _ x (ask_on-Empty c d x h)
        (λ a y k. choice (test a) a y k (until-Empty c d n test y k))
    where
      choice :
          (b : Bool) (a : Answer) (y : Machine W)
          → Empty asked y.file y.log
          → Ends (λ a z. Empty asked z.file z.log) (until n test (ask_on c d) y)
          → Ends
              (λ a z. Empty asked z.file z.log)
              ((if b then pure a else until n test (ask_on c d)) y)
      choice true a y k e = does k
      choice false a y k e = e

  put_file-Empty :
      (x : Machine W) (r : Written × W)
      → Empty asked x.file x.log
      → Ends (λ _ y. At 1 made asked y) (put_file made r x)
  put_file-Empty x (written, w) h =
      let l = makes made h.history made-first made-releasing in
      does (record { file = refl; phases = made-first; history = l })
  put_file-Empty x (lost, w) h = fails (asked, makes made h.history made-first made-releasing)
  put_file-Empty x (refused, w) h = fails (Empty-Legal asked x.file x.log h)

  save-Empty :
      (d : Node W) (x : Machine W)
      → Empty asked x.file x.log
      → Ends (λ _ y. At 1 made asked y) (save d made x)
  unfolding save
  save-Empty d x h = put_file-Empty x (d.write made x.world) h

  hold_fresh-At :
      {m : Mode} (c : Settings) (d : Node W) (doc : Parsed) (x : Machine W)
      → Empty m x.file x.log
      → Ends (λ t y. At 1 t asked y) (hold_fresh c d doc x)
  unfolding hold_fresh state_phase made
  hold_fresh-At c d doc x h =
      bind-Ends _ _ x (Quiet-Empty (require _) x (require-Quiet _) h) (λ _ y k.
        bind-Ends _ _ y (Quiet-Empty (require _) y (require-Quiet _) k) (λ _ z i.
          bind-Ends _ _ z (Quiet-Empty (perform d.info) z (perform-Quiet d.info) i) (λ _ w j.
            bind-Ends _ _ w (until-Empty c d c.not_placed_retries _ w j) (λ a v g.
              bind-Ends _ _ v (Quiet-Empty (require _) v (require-Quiet _) g)
                (λ _ u f. bind-Ends _ _ u (save-Empty d u f) (λ _ t e. does e))))))

-- A state file has the first phases, the first one at least.
pub History-first :
    {l : List Action} {s : Saved} {m : Mode}
    → History l (some s) m
    → (n : ℕ) × (1 ≤ n) × (n ≤ 7) × (s.phases_done ≡ first n)
History-first (begins h) = History-first h
History-first (makes s h e r) = (1, omega arith, omega arith, e)
History-first (checks h) = History-first h
History-first (stops r h e) = (2, omega arith, omega arith, e)
History-first (installs h e) = (3, omega arith, omega arith, e)
History-first (reboots h e) = (4, omega arith, omega arith, e)
History-first (starts r h e) = (5, omega arith, omega arith, e)
History-first (clears h e r) = (6, omega arith, omega arith, e)
History-first (downloads h) = History-first h
History-first (puts_helper h) = History-first h
History-first (puts_request h) = History-first h
History-first (awaits h) = History-first h
History-first (cleans h) = History-first h
History-first (marks n s' h lt e e' rec rel) = (suc n, omega arith, omega arith, e')
History-first (amends s' h e rec rel) =
    let (n, a, b, first_n) = History-first h in (n, a, b, e ∙ first_n)

-- The state of a run that has done some phases at least.
pub record Later {W : Type 0} (k : ℕ) (s : Saved) (x : Machine W) : Type 0 where
  pub done : ℕ
  pub mode : Mode
  pub from : k ≤ done
  pub to : done ≤ 7
  pub at : At done s mode x

Loaded-Legal :
    (f0 f : Option Saved) (l : List Action)
    → (f ≡ f0) × ((m : Mode) × History l f0 m)
    → (mode : Mode) × History l f mode
Loaded-Legal f0 f l (e, (m, h)) = (m, rw e h)

module _ {W : Type 0} where
  pub Reached-Later : {k : ℕ} {s : Saved} {x : Machine W} → k ≤ 7 → Reached k s x → Later k s x
  Reached-Later {k} le (m, h) = record { done = k; mode = m; from = omega arith; to = le; at = h }

  hold_resumed-Later :
      {m : Mode} (c : Settings) (d : Node W) (s : Saved) (doc : Parsed) (x : Machine W)
      → x.file ≡ some s
      → History x.log (some s) m
      → Ends (λ t y. Later 1 t y) (hold_resumed c d s doc x)
  unfolding hold_resumed
  hold_resumed-Later {m} c d s doc x e h =
      let (n, a, b, first_n) = History-first h in
      bind-Ends _ _ x (require-At _ x (record { file = e; phases = first_n; history = h }))
        (λ _ y k. does (record { done = n; mode = m; from = a; to = b; at = k }))

  -- What `state_load.yml` found, with the log so far.
  abbrev pub Loaded : Option Saved → Machine W → Type 0
  Loaded f x = (x.file ≡ f) × ((m : Mode) × History x.log f m)

  hold_of-Later :
      (c : Settings) (d : Node W) (f : Option Saved) (doc : Parsed) (x : Machine W)
      → Loaded f x
      → Ends (λ t y. Later 1 t y) (hold_of c d f doc x)
  hold_of-Later c d none doc x (e, (m, h)) =
      weaken-Ends (hold_fresh-At c d doc x (record { file = e; history = h }))
        (λ t y k. Reached-Later (omega arith) (asked, k))
  hold_of-Later c d (some s) doc x (e, (m, h)) = hold_resumed-Later c d s doc x e h

  pub Quiet-Loaded :
      {A : Type 0} (f : Option Saved) (op : M W A) (x : Machine W)
      → Quiet op
      → Loaded f x
      → Ends (λ a y. Loaded f y) (op x)
  Quiet-Loaded f op x q h =
      Quiet-Ends (λ g l. (g ≡ f) × ((m : Mode) × History l f m)) op x (Loaded-Legal f) q h

  pub act-Loaded :
      (f : Option Saved) (a : Action) (op : W → Bool × W) (x : Machine W)
      → ((m : Mode) → History x.log f m → (n : Mode) × History (a ∷ x.log) f n)
      → Loaded f x
      → Ends (λ _ y. Loaded f y) (act a op x)
  unfolding act note
  act-Loaded f a op x step (e, (m, h)) =
      bind-Ends _ _ x (does (e, step m h))
        (λ _ y k. Quiet-Loaded f (perform op) y (perform-Quiet op) k)

  pub hold-Later :
      (c : Settings) (d : Node W) (f : Option Saved) (x : Machine W)
      → Loaded f x
      → Ends (λ t y. Later 1 t y) (hold c d f x)
  unfolding hold
  hold-Later c d f x h =
      bind-Ends _ _ x (Quiet-Loaded f (ask d.status) x (ask-Quiet d.status) h) (λ a y k.
        bind-Ends _ _ y (Quiet-Loaded f (require _) y (require-Quiet _) k)
          (λ _ z i. hold_of-Later c d f _ z i))
