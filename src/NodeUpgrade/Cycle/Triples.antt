-- ===== src/NodeUpgrade/Cycle/Triples.antt =====
-- roles/node_upgrade/tasks: what single tasks leave, as rules for the steps of a run.
use ansible_install.Prelude.{
  ℕ, zero, suc, ◌≡◌, refl, ◌∙◌, Bool, true, false, Option, none, some, List, ◌∷◌, if◌then◌else◌,
}
use ansible_install.NodeUpgrade.Cycle.Machine.{
  Saved, Action, Written, written, refused, lost, saved, Node, Machine, M, after, ◌>>=◌, pure,
  require, ask, need, perform, act, note, until, put_file, save,
}
use ansible_install.NodeUpgrade.Cycle.History.{History, Mode, Ends, fails, does, first}

module _ {W A B : Type 0} where
  after-Ends :
      {Q : A → Machine W → Type 0} {R : B → Machine W → Type 0} {r : Option A × Machine W}
      {f : A → M W B}
      → Ends Q r
      → ((a : A) (x : Machine W) → Q a x → Ends R (f a x))
      → Ends R (after r f)
  unfolding after
  after-Ends (fails l) g = fails l
  after-Ends (does {a} {x} q) g = g a x q

  pub bind-Ends :
      {Q : A → Machine W → Type 0} {R : B → Machine W → Type 0} (m : M W A) (f : A → M W B)
      (x : Machine W)
      → Ends Q (m x)
      → ((a : A) (y : Machine W) → Q a y → Ends R (f a y))
      → Ends R ((m >>= f) x)
  unfolding ◌>>=◌
  bind-Ends m f x e g = after-Ends e g

-- Tasks that leave the file and the log alone.
abbrev pub Quiet : {W A : Type 0} → M W A → Type 0
Quiet {W} m = (x : Machine W) → ((m x).1.file ≡ x.file) × ((m x).1.log ≡ x.log)

module _ {W A : Type 0} where
  pub ask-Quiet : (op : W → A × W) → Quiet (ask op)
  unfolding ask
  ask-Quiet op x = (refl, refl)

  pub need-Quiet : (o : Option A) → Quiet {W = W} (need o)
  unfolding need
  need-Quiet none x = (refl, refl)
  need-Quiet (some a) x = (refl, refl)

module _ {W A B : Type 0} where
  after-Quiet :
      (r : Option A × Machine W) (f : A → M W B)
      → ((a : A) → Quiet (f a))
      → ((after r f).1.file ≡ r.1.file) × ((after r f).1.log ≡ r.1.log)
  unfolding after
  after-Quiet (none, x) f g = (refl, refl)
  after-Quiet (some a, x) f g = g a x

  pub bind-Quiet : (m : M W A) (f : A → M W B) → Quiet m → ((a : A) → Quiet (f a)) → Quiet (m >>= f)
  unfolding ◌>>=◌
  bind-Quiet m f q g x =
      let (a, b) = after-Quiet (m x) f g in let (a', b') = q x in (a ∙ a', b ∙ b')

module _ {W : Type 0} where
  pub require-Quiet : (b : Bool) → Quiet {W = W} (require b)
  unfolding require
  require-Quiet true x = (refl, refl)
  require-Quiet false x = (refl, refl)

  pub perform-Quiet : (op : W → Bool × W) → Quiet (perform op)
  unfolding perform
  perform-Quiet op = bind-Quiet (ask op) (λ b. require b) (ask-Quiet op) require-Quiet

  choice-Quiet :
      {A : Type 0} (b : Bool) (a : A) (m : M W A) → Quiet m → Quiet (if b then pure a else m)
  choice-Quiet true a m q = λ x. (refl, refl)
  choice-Quiet false a m q = q

  pub until-Quiet :
      {A : Type 0} (n : ℕ) (test : A → Bool) (m : M W A) → Quiet m → Quiet (until n test m)
  unfolding until
  until-Quiet zero test m q = q
  until-Quiet (suc n) test m q =
      bind-Quiet m (λ a. if test a then pure a else until n test m) q
        (λ a. choice-Quiet (test a) a (until n test m) (until-Quiet n test m q))

module _ {W A : Type 0} where
  of-result :
      (P : Option Saved → List Action → Type 0) (r : Option A × Machine W)
      → ((f : Option Saved) (l : List Action) → P f l → (m : Mode) × History l f m)
      → P r.1.file r.1.log
      → Ends (λ a y. P y.file y.log) r
  of-result P (none, y) legal k = fails (legal y.file y.log k)
  of-result P (some a, y) legal k = does k

  -- What is quiet keeps a predicate of the file and the log that makes the state legal.
  pub Quiet-Ends :
      (P : Option Saved → List Action → Type 0) (m : M W A) (x : Machine W)
      → ((f : Option Saved) (l : List Action) → P f l → (mode : Mode) × History l f mode)
      → Quiet m
      → P x.file x.log
      → Ends (λ a y. P y.file y.log) (m x)
  Quiet-Ends P m x legal q h = of-result P (m x) legal (rw ((q x).0, (q x).1) h)

-- The file and the log of a run on the way.
pub record Stands (n : ℕ) (s : Saved) (m : Mode) (f : Option Saved) (l : List Action) : Type 0 where
  pub file : f ≡ some s
  pub phases : s.phases_done ≡ first n
  pub history : History l (some s) m

pub Stands-Legal :
    (n : ℕ) (s : Saved) (m : Mode) (f : Option Saved) (l : List Action)
    → Stands n s m f l
    → (mode : Mode) × History l f mode
Stands-Legal n s m f l h = (m, rw (h.file) h.history)

abbrev pub At : {W : Type 0} → ℕ → Saved → Mode → Machine W → Type 0
At n s m x = Stands n s m x.file x.log

module _ {W A : Type 0} {n : ℕ} {s : Saved} {m : Mode} where
  Quiet-At : (op : M W A) (x : Machine W) → Quiet op → At n s m x → Ends (λ a y. At n s m y) (op x)
  Quiet-At op x q h = Quiet-Ends (Stands n s m) op x (Stands-Legal n s m) q h

  pub ask-At : (op : W → A × W) (x : Machine W) → At n s m x → Ends (λ a y. At n s m y) (ask op x)
  ask-At op x h = Quiet-At (ask op) x (ask-Quiet op) h

  pub need-At : (o : Option A) (x : Machine W) → At n s m x → Ends (λ a y. At n s m y) (need o x)
  need-At o x h = Quiet-At (need o) x (need-Quiet o) h

  pub until-At :
      (k : ℕ) (test : A → Bool) (op : W → A × W) (x : Machine W)
      → At n s m x
      → Ends (λ a y. At n s m y) (until k test (ask op) x)
  until-At k test op x h =
      Quiet-At (until k test (ask op)) x (until-Quiet k test (ask op) (ask-Quiet op)) h

module _ {W : Type 0} {n : ℕ} {s : Saved} {m : Mode} where
  pub require-At : (b : Bool) (x : Machine W) → At n s m x → Ends (λ a y. At n s m y) (require b x)
  require-At b x h = Quiet-At (require b) x (require-Quiet b) h

  pub perform-At :
      (op : W → Bool × W) (x : Machine W) → At n s m x → Ends (λ a y. At n s m y) (perform op x)
  perform-At op x h = Quiet-At (perform op) x (perform-Quiet op) h

  -- An action that may follow.
  pub note-At :
      (a : Action) (m' : Mode) (x : Machine W)
      → (History x.log (some s) m → History (a ∷ x.log) (some s) m')
      → At n s m x
      → Ends (λ _ y. At n s m' y) (note a x)
  unfolding note
  note-At a m' x step h =
      does (record { file = h.file; phases = h.phases; history = step h.history })

  -- A task that acts as it may.
  pub act-At :
      (a : Action) (m' : Mode) (op : W → Bool × W) (x : Machine W)
      → (History x.log (some s) m → History (a ∷ x.log) (some s) m')
      → At n s m x
      → Ends (λ _ y. At n s m' y) (act a op x)
  unfolding act
  act-At a m' op x step h =
      bind-Ends _ _ x (note-At a m' x step h)
        (λ _ y k. Quiet-At (perform op) y (perform-Quiet op) k)

  put_file-At :
      (k : ℕ) (s' : Saved) (x : Machine W) (r : Written × W)
      → s'.phases_done ≡ first k
      → (History x.log (some s) m → History (saved s' ∷ x.log) (some s') m)
      → At n s m x
      → Ends (λ _ y. At k s' m y) (put_file s' r x)
  put_file-At k s' x (written, w) e step h =
      does (record { file = refl; phases = e; history = step h.history })
  put_file-At k s' x (lost, w) e step h = fails (m, step h.history)
  put_file-At k s' x (refused, w) e step h = fails (m, rw (h.file) h.history)

  pub save-At :
      (d : Node W) (k : ℕ) (s' : Saved) (x : Machine W)
      → s'.phases_done ≡ first k
      → (History x.log (some s) m → History (saved s' ∷ x.log) (some s') m)
      → At n s m x
      → Ends (λ _ y. At k s' m y) (save d s' x)
  unfolding save
  save-At d k s' x e step h = put_file-At k s' x (d.write s' x.world) e step h

abbrev pub Reached : {W : Type 0} → ℕ → Saved → Machine W → Type 0
Reached n s x = (m : Mode) × At n s m x

pub weaken-Ends :
    {W A : Type 0} {Q R : A → Machine W → Type 0} {r : Option A × Machine W}
    → Ends Q r
    → ((a : A) (x : Machine W) → Q a x → R a x)
    → Ends R r
weaken-Ends (fails l) g = fails l
weaken-Ends (does {a} {x} q) g = does (g a x q)
