-- ===== src/Prelude/Lists.antt =====
-- Lists as the filters use them: `any`, `all`, comprehensions, and predicates on every item.
use Prim.Native.Nat.{ℕ, suc}
use native.Mathlib.Omega.{arith}
use mathlib.Core.Path.{◌≡◌, refl, subst}
use mathlib.Core.Logic.{◌↔◌, ◌⊎◌, inl, inr}
use mathlib.Core.Bool.{Bool, true, false, ◌||◌}
use mathlib.Core.Option.{Option, none, some}
use mathlib.Core.List.{List, [], ◌∷◌, ◌++◌}
use ansible_install.Prelude.Branch.{if◌then◌else◌}

module _ {ℓ} {A : Type ℓ} where
  abbrev pub length : List A → ℕ
  length [] = 0
  length (x ∷ xs) = suc (length xs)

  -- `not xs`
  abbrev pub is_empty : List A → Bool
  is_empty [] = true
  is_empty (x ∷ xs) = false

  -- `any(p(x) for x in xs)`
  unfoldable pub any : (A → Bool) → List A → Bool
  any p [] = false
  any p (x ∷ xs) = p x || any p xs

  -- `[x for x in xs if p(x)]`
  unfoldable pub select : (A → Bool) → List A → List A
  select p [] = []
  select p (x ∷ xs) = let rest = select p xs in if p x then x ∷ rest else rest

  -- An item and the items after it, each of which may be an error.
  abbrev pub both : Option A → Option (List A) → Option (List A)
  both none rest = none
  both (some x) none = none
  both (some x) (some xs) = some (x ∷ xs)

  -- The lists one after another, each of which may be an error.
  unfoldable pub joined : List (Option (List A)) → Option (List A)
  joined [] = some []
  joined (none ∷ parts) = none
  joined (some xs ∷ parts) = elim (joined parts) [ none ↦ none | some ys ↦ some (xs ++ ys) ]

  -- Every item satisfies `P`.
  abbrev pub All {κ} : (A → Type κ) → List A → Type κ
  All P [] = Unit
  All P (x ∷ xs) = P x × All P xs

module _ {ℓ} {A : Type ℓ} where
  pub All-mono {κ μ} :
      {P : A → Type κ} {Q : A → Type μ} (xs : List A) → ((x : A) → P x → Q x) → All P xs → All Q xs
  All-mono [] f h = tt
  All-mono (x ∷ xs) f h = (f x h.0, All-mono xs f h.1)

  -- Nothing is selected exactly when every item fails the test.
  pub select-is_empty :
      (p : A → Bool) (xs : List A) → (is_empty (select p xs) ≡ true) ↔ All (λ x. p x ≡ false) xs
  unfolding select
  select-is_empty p [] = (λ _. tt, λ _. refl)
  select-is_empty p (x ∷ xs) = ground (arith, select-is_empty p xs)

  pub is_empty-eq-nil : (xs : List A) → is_empty xs ≡ true → xs ≡ []
  is_empty-eq-nil [] h = refl
  is_empty-eq-nil (x ∷ xs) h = absurd (cc)

  pub All-and {κ μ} :
      (P : A → Type κ) (Q : A → Type μ) (xs : List A)
      → All P xs
      → All Q xs
      → All (λ x. P x × Q x) xs
  All-and P Q [] h k = tt
  All-and P Q (x ∷ xs) h k = ((h.0, k.0), All-and P Q xs h.1 k.1)

  -- `x` is an item of the list.
  abbrev pub In : A → List A → Type ℓ
  In x [] = (x ≡ x) × ⊥
  In x (y ∷ ys) = (y ≡ x) ⊎ In x ys

  pub All-In {κ} : (P : A → Type κ) (x : A) (xs : List A) → All P xs → In x xs → P x
  All-In P x [] h m = absurd m.1
  All-In P x (y ∷ xs) h (inl e) = subst P e h.0
  All-In P x (y ∷ xs) h (inr m) = All-In P x xs h.1 m

  pub append-nil : (xs ys : List A) → (xs ++ ys ≡ []) ↔ ((xs ≡ []) × (ys ≡ []))
  append-nil [] ys = ground arith
  append-nil (x ∷ xs) ys = ground arith

  pub joined-nil :
      (parts : List (Option (List A)))
      → (joined parts ≡ some []) ↔ All (λ part. part ≡ some []) parts
  unfolding joined
  joined-nil [] = (λ _. tt, λ _. refl)
  joined-nil (none ∷ parts) = ground arith
  joined-nil (some xs ∷ parts) =
      let (there, back) = joined-nil parts in
      (
        λ h. let (a, b) = (step (joined parts)).0 h in (a, there b),
        λ (a, b). (step (joined parts)).1 (a, back b),
      )
    where
      step :
          (o : Option (List A))
          → (elim o as (λ _. Option (List A)) [ none ↦ none | some ys ↦ some (xs ++ ys) ] ≡ some [])
            ↔ ((some xs ≡ some []) × (o ≡ some []))
      step none = ground arith
      step (some ys) = ground (arith, append-nil xs ys)
