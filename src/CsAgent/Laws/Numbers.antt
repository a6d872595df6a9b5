-- ===== src/CsAgent/Laws/Numbers.antt =====
-- The numbers of the export settings: what the loop over the keys keeps and what it reports.
use ansible_install.Prelude.{
  ℕ, ◌≡◌, ◌≢◌, refl, sym, ◌∙◌, ◌↔◌, inl, inr, String, true, false, none, some, List, [], ◌∷◌, ◌++◌,
  ◌==◌, eq→≡, arith, Bool-cases, Option-cases, if◌then◌else◌,
}
use mathlib.Core.Path.{subst}
use ansible_install.Prelude.Lists.{All}
use ansible_install.Prelude.Dict.{Dict, get, put, get-put}
use ansible_install.Prelude.Int.{ℤ, pos, lt_int}
use ansible_install.Prelude.Json.{Fields, value_of}
use ansible_install.CsAgent.Export.{as_int, accepted_int, int_problem, collect_ints, record_int}

-- The key holds a whole number, not below the minimum.
abbrev pub HasInt : Fields → String × ℕ → Type 0
HasInt cfg (key, minimum) =
    (n : ℤ) × (as_int (value_of cfg key) ≡ some n) × (lt_int n (pos minimum) ≡ false)

pub append-nil : (xs ys : List String) → (xs ++ ys ≡ []) ↔ ((xs ≡ []) × (ys ≡ []))
append-nil [] ys = ground arith
append-nil (x ∷ xs) ys = ground arith

accepted_int-some :
    (cfg : Fields) (key : String) (minimum : ℕ) (n : ℤ)
    → (accepted_int cfg key minimum ≡ some n)
      ↔ ((as_int (value_of cfg key) ≡ some n) × (lt_int n (pos minimum) ≡ false))
unfolding accepted_int
accepted_int-some cfg key minimum n = ground arith

HasInt-none :
    (cfg : Fields) (key : String) (minimum : ℕ)
    → accepted_int cfg key minimum ≡ none
    → ¬ HasInt cfg (key, minimum)
HasInt-none cfg key minimum e (n, h, k) =
    absurd (ground (arith, (accepted_int-some cfg key minimum n).1 (h, k)))

snoc-nil : (xs : List String) (x : String) → (xs ++ (x ∷ [])) ≢ []
snoc-nil xs x e = absurd (ground (arith, append-nil xs (x ∷ [])))

abbrev pub Distinct : Dict ℕ → Type 0
Distinct [] = Unit
Distinct ((k, n) ∷ rest) = (get rest k ≡ none) × Distinct rest

get-nil {ℓ} : {V : Type ℓ} (key : String) → get {V = V} [] key ≡ none
unfolding get
get-nil key = refl

get-cons {ℓ} :
    {V : Type ℓ} (d : Dict V) (k key : String) (v : V)
    → get ((k, v) ∷ d) key ≡ (if k == key then some v else get d key)
unfolding get
get-cons d k key v = refl

module _ (cfg : Fields) where
  pub collect_ints-nil :
      (keys : Dict ℕ) (ints : Dict ℤ) (problems : List String)
      → ((collect_ints cfg ints problems keys).1 ≡ []) ↔ ((problems ≡ []) × All (HasInt cfg) keys)
  unfolding collect_ints record_int
  collect_ints-nil [] ints problems = ground arith
  collect_ints-nil ((key, minimum) ∷ rest) ints problems =
      elim (Option-cases (accepted_int cfg key minimum)) [
        | inl e ↦
            rw (collect_ints, e)
              (
                λ h. absurd (
                    snoc-nil problems (int_problem cfg key minimum)
                      ((collect_ints-nil rest ints _).0 h).0),
                λ (h, i). absurd (HasInt-none cfg key minimum e i.0),
              )
        | inr (n, e) ↦
            let ih = collect_ints-nil rest (put ints key n) problems in
            rw (collect_ints, e)
              (
                λ h.
                    let (p, a) = ih.0 h in
                    let (r, m) = (accepted_int-some cfg key minimum n).0 e in (p, ((n, r, m), a)),
                λ (p, i). ih.1 (p, i.1),
              )
      ]

  collect_ints-other :
      (keys : Dict ℕ) (ints : Dict ℤ) (problems : List String) (key : String)
      → get keys key ≡ none
      → get (collect_ints cfg ints problems keys).0 key ≡ get ints key
  unfolding collect_ints record_int
  collect_ints-other [] ints problems key fresh = refl
  collect_ints-other ((k, minimum) ∷ rest) ints problems key fresh =
      let other = get-cons rest k key minimum in
      elim (Option-cases (accepted_int cfg k minimum)) [
        | inl e ↦ rw (collect_ints, e) (collect_ints-other rest ints _ key (ground arith))
        | inr (n, e) ↦
            rw (collect_ints, e)
              (collect_ints-other rest (put ints k n) problems key (ground arith)
                ∙ (get-put ints k key n ∙ ground arith))
      ]

  same_accepted :
      (k key : String) (m minimum : ℕ)
      → k ≡ key
      → m ≡ minimum
      → accepted_int cfg k m ≡ accepted_int cfg key minimum
  same_accepted k key m minimum e f = cc

  pub collect_ints-at :
      (keys : Dict ℕ) (ints : Dict ℤ) (problems : List String) (key : String) (minimum : ℕ)
      → Distinct keys
      → get ints key ≡ none
      → get keys key ≡ some minimum
      → get (collect_ints cfg ints problems keys).0 key ≡ accepted_int cfg key minimum
  unfolding collect_ints record_int
  collect_ints-at [] ints problems key minimum distinct new at =
      absurd (ground (arith, get-nil {V = ℕ} key))
  collect_ints-at ((k, m) ∷ rest) ints problems key minimum (fresh, distinct) new at =
      let here = get-cons rest k key m in
      let again = λ (same : (k == key) ≡ true).
        same_accepted k key m minimum (eq→≡ k key same) (ground arith) in
      elim (Bool-cases (k == key)) [
        | inl same ↦ elim (Option-cases (accepted_int cfg k m)) [
          | inl e ↦
              rw (collect_ints, e)
                (collect_ints-other rest ints _ key (ground (arith, eq→≡ k key))
                  ∙ (new ∙ (sym e ∙ again same)))
          | inr (n, e) ↦
              rw (collect_ints, e)
                (collect_ints-other rest (put ints k n) _ key
                    (subst (λ x. get rest x ≡ none) (eq→≡ k key same) fresh)
                  ∙ (get-put ints k key n ∙ (rw same (sym e ∙ again same))))
        ]
        | inr differs ↦ elim (Option-cases (accepted_int cfg k m)) [
          | inl e ↦
              rw (collect_ints, e)
                (collect_ints-at rest ints _ key minimum distinct new (ground arith))
          | inr (n, e) ↦
              rw (collect_ints, e)
                (collect_ints-at rest (put ints k n) problems key minimum distinct
                  (get-put ints k key n ∙ ground arith) (ground arith))
        ]
      ]

  -- A number that reaches its minimum is kept as it was read.
  pub HasInt-kept :
      (keys : Dict ℕ) (problems : List String) (key : String) (minimum : ℕ)
      → Distinct keys
      → get keys key ≡ some minimum
      → HasInt cfg (key, minimum)
      → get (collect_ints cfg [] problems keys).0 key ≡ as_int (value_of cfg key)
  HasInt-kept keys problems key minimum distinct at (n, h, k) =
      collect_ints-at keys [] problems key minimum distinct (get-nil key) at
      ∙ ((accepted_int-some cfg key minimum n).1 (h, k) ∙ sym h)
