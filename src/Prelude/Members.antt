-- ===== src/Prelude/Members.antt =====
-- The items of a list: where `++` and a comprehension have them, and the test `x in xs` on texts.
use mathlib.Core.Path.{◌≡◌, refl, sym, subst}
use mathlib.Core.Logic.{◌⊎◌, inl, inr}
use mathlib.Core.Bool.{Bool, true, false}
use mathlib.Core.List.{List, [], ◌∷◌, ◌++◌}
use Prim.Native.String.{String}
use native.Mathlib.Omega.{arith}
use ansible_install.Prelude.Branch.{if◌then◌else◌, Bool-cases}
use ansible_install.Prelude.Lists.{is_empty, select, any, In, All}
use ansible_install.Prelude.Text.{◌==◌, eq→≡, ≡→eq}
use ansible_install.Prelude.Split.{mem}

module _ {ℓ} {A : Type ℓ} where
  kept :
      (b : Bool) (x y : A) (rest : List A)
      → In y (if b then x ∷ rest else rest)
      → ((b ≡ true) × (x ≡ y)) ⊎ In y rest
  kept true x y rest (inl e) = inl (refl, e)
  kept true x y rest (inr h) = inr h
  kept false x y rest h = inr h

  pub In-select : (p : A → Bool) (y : A) (xs : List A) → In y (select p xs) → In y xs × (p y ≡ true)
  unfolding select
  In-select p y [] h = absurd h.1
  In-select p y (x ∷ xs) h = elim (kept (p x) x y (select p xs) h) [
    | inl (e, same) ↦ (inl same, subst (λ z. p z ≡ true) same e)
    | inr m ↦ let (there, holds) = In-select p y xs m in (inr there, holds)
  ]

  kept-In : (b : Bool) (x y : A) (rest : List A) → In y rest → In y (if b then x ∷ rest else rest)
  kept-In true x y rest h = inr h
  kept-In false x y rest h = h

  pub select-In : (p : A → Bool) (x : A) (xs : List A) → In x xs → p x ≡ true → In x (select p xs)
  unfolding select
  select-In p x [] h e = absurd h.1
  select-In p x (y ∷ xs) (inl same) e = rw (subst (λ z. p z ≡ true) (sym same) e) (inl same)
  select-In p x (y ∷ xs) (inr h) e = kept-In (p y) y x _ (select-In p x xs h e)

  pub In-append-left : (x : A) (xs ys : List A) → In x xs → In x (xs ++ ys)
  In-append-left x [] ys h = absurd h.1
  In-append-left x (y ∷ xs) ys (inl e) = inl e
  In-append-left x (y ∷ xs) ys (inr h) = inr (In-append-left x xs ys h)

  pub In-append-right : (x : A) (xs ys : List A) → In x ys → In x (xs ++ ys)
  In-append-right x [] ys h = h
  In-append-right x (y ∷ xs) ys h = inr (In-append-right x xs ys h)

  pub append-In : (x : A) (xs ys : List A) → In x (xs ++ ys) → In x xs ⊎ In x ys
  append-In x [] ys h = inr h
  append-In x (y ∷ xs) ys (inl e) = inl (inl e)
  append-In x (y ∷ xs) ys (inr h) = elim (append-In x xs ys h) [
    | inl m ↦ inl (inr m)
    | inr m ↦ inr m
  ]

  pub select-true : (p : A → Bool) (xs : List A) → All (λ x. p x ≡ true) xs → select p xs ≡ xs
  unfolding select
  select-true p [] h = refl
  select-true p (x ∷ xs) h = rw (h.0, select-true p xs h.1)

  pub select-false : (p : A → Bool) (xs : List A) → All (λ x. p x ≡ false) xs → select p xs ≡ []
  unfolding select
  select-false p [] h = refl
  select-false p (x ∷ xs) h = rw (h.0, select-false p xs h.1)

  pub empty-In : (x : A) (xs : List A) → is_empty xs ≡ true → In x xs → ⊥
  empty-In x [] e h = h.1
  empty-In x (y ∷ xs) e h = absurd (cc)

  pub All_of {κ} : (P : A → Type κ) (xs : List A) → ((x : A) → In x xs → P x) → All P xs
  All_of P [] h = tt
  All_of P (x ∷ xs) h = (h x (inl refl), All_of P xs (λ y m. h y (inr m)))

  -- A test holds somewhere exactly if it holds for an item.
  pub any-In : (p : A → Bool) (xs : List A) → any p xs ≡ true → (x : A) × In x xs × (p x ≡ true)
  unfolding any
  any-In p [] h = absurd (cc)
  any-In p (x ∷ xs) h = elim (Bool-cases (p x)) [
    | inl e ↦ (x, inl refl, e)
    | inr e ↦ let (y, m, holds) = any-In p xs (rw e at h) in (y, inr m, holds)
  ]

  pub In-any : (p : A → Bool) (x : A) (xs : List A) → In x xs → p x ≡ true → any p xs ≡ true
  unfolding any
  In-any p x [] h e = absurd h.1
  In-any p x (y ∷ xs) (inl same) e = rw (subst (λ z. p z ≡ true) (sym same) e) refl
  In-any p x (y ∷ xs) (inr h) e = ground (arith, In-any p x xs h e)

pub mem→In : (x : String) (xs : List String) → mem x xs ≡ true → In x xs
unfolding mem
mem→In x [] h = cc
mem→In x (y ∷ ys) h = elim (Bool-cases (x == y)) [
  | inl e ↦ inl (sym (eq→≡ x y e))
  | inr e ↦ inr (mem→In x ys (rw e at h))
]

pub In→mem : (x : String) (xs : List String) → In x xs → mem x xs ≡ true
unfolding mem
In→mem x [] h = absurd h.1
In→mem x (y ∷ ys) (inl e) = rw (≡→eq x y (sym e))
In→mem x (y ∷ ys) (inr h) = ground (arith, In→mem x ys h)
