-- ===== src/Tailscale/Laws/Popping.antt =====
-- What popping flags leaves of them.
use ansible_install.Prelude.{
  ◌≡◌, refl, sym, ◌∙◌, ◌↔◌, String, true, false, Option, List, [], ◌∷◌, ◌++◌, map, ◌==◌, eq→≡, ≡→eq,
  arith, Bool-cases, inl, inr,
}
use mathlib.Core.Path.{subst}
use ansible_install.Prelude.Split.{mem}
use ansible_install.Prelude.Lists.{All}
use ansible_install.Prelude.Dict.{Dict, get, pop, get-pop}
use ansible_install.Tailscale.Modes.{pop_all}

pub get-pop_all :
    (names : List String) (d : Dict String) (k : String)
    → mem k names ≡ false
    → get (pop_all names d) k ≡ get d k
unfolding pop_all mem
get-pop_all [] d k h = refl
get-pop_all (name ∷ names) d k h =
    get-pop_all names (pop d name) k (ground arith)
    ∙ (get-pop d name k ∙ ground (arith, eq→≡ name k, ≡→eq k name))

pub mem-All :
    (P : String → Type 0) (k : String) (xs : List String) → mem k xs ≡ true → All P xs → P k
unfolding mem
mem-All P k [] h a = absurd (ground arith)
mem-All P k (x ∷ xs) h (p, a) = elim (Bool-cases (k == x)) [
  | inl e ↦ subst P (sym (eq→≡ k x e)) p
  | inr e ↦ mem-All P k xs (ground arith) a
]

abbrev Known : List String → String × String → Type 0
Known names p = mem p.0 names ≡ true

All-pop :
    (d : Dict String) (name : String) (names : List String)
    → All (Known names) (pop d name) ↔ All (Known (name ∷ names)) d
unfolding pop mem
All-pop [] name names = (λ _. tt, λ _. tt)
All-pop ((j, w) ∷ d) name names = ground (arith, All-pop d name names)

pub pop_all-nil :
    (names : List String) (d : Dict String) → (pop_all names d ≡ []) ↔ All (Known names) d
unfolding pop_all mem
pop_all-nil [] [] = (λ _. tt, λ _. refl)
pop_all-nil [] (p ∷ d) = ground arith
pop_all-nil (name ∷ names) d =
    let (there, back) = pop_all-nil names (pop d name) in
    let (a, b) = All-pop d name names in (λ h. a (there h), λ h. back (b h))

pub pop_all-append :
    (xs ys : List String) (d : Dict String) → pop_all (xs ++ ys) d ≡ pop_all ys (pop_all xs d)
unfolding pop_all
pop_all-append [] ys d = refl
pop_all-append (x ∷ xs) ys d = pop_all-append xs ys (pop d x)

-- Of a loop that pops each flag in its round, with flags of different names: the later rounds
-- read what was given.
module _ {F : Type 0} (name : F → String) (P : F → Option String → Type 0) (d : Dict String) where
  pub All-get-pop :
      (k : String) (fs : List F)
      → mem k (map name fs) ≡ false
      → All (λ f. P f (get (pop d k) (name f))) fs ↔ All (λ f. P f (get d (name f))) fs
  unfolding mem
  All-get-pop k [] h = (λ _. tt, λ _. tt)
  All-get-pop k (f ∷ fs) h =
      let e : get (pop d k) (name f) ≡ get d (name f) = get-pop d k (name f) ∙ ground arith in
      let (there, back) = All-get-pop k fs (ground arith) in
      (λ (p, a). (subst (P f) e p, there a), λ (p, a). (subst (P f) (sym e) p, back a))
