-- ===== src/ControllerSeed/Laws/Suffixes.antt =====
-- roles/controller_seed/filter_plugins/controller_seed_preview.py: what a pattern reads off the start
-- of a line leaves an end of it.
use Prim.Native.Char.{Char, code}
use ansible_install.Prelude.{
  ℕ, String, ◌<>◌, true, some, ◌==◌, eqb, ◌≡◌, sym, ap, ◌∙◌, inl, inr, arith, Bool-cases,
  Option-cases, eq→≡,
}
use mathlib.Core.Path.{subst}
use text.Mathlib.TextLemmas.{append_assoc, cons-append, nil-append}
use ansible_install.Prelude.Text.{strip_prefix, cut, ends_with}
use ansible_install.ControllerSeed.Patterns.{after_name, after_attribute}

abbrev pub IsSuffix : String → String → Type 0
IsSuffix m s = (x : String) × (s ≡ x <> m)

pub IsSuffix-same : (s : String) → IsSuffix s s
IsSuffix-same s = ("", sym (nil-append s))

pub IsSuffix-cons : (c : Char) (m s : String) → IsSuffix m s → IsSuffix m (String.◌∷◌ c s)
IsSuffix-cons c m s (x, e) = (String.◌∷◌ c x, ap (λ y. String.◌∷◌ c y) e ∙ sym (cons-append c x m))

pub IsSuffix-trans : (l m s : String) → IsSuffix l m → IsSuffix m s → IsSuffix l s
IsSuffix-trans l m s (x, e) (y, f) = (y <> x, f ∙ ap (λ z. y <> z) e ∙ sym (append_assoc y x l))

pub ends_with-IsSuffix : (m l : String) → ends_with m l ≡ true → IsSuffix l m
unfolding ends_with
ends_with-IsSuffix String.[] l h = subst (λ x. IsSuffix l x) (sym (eq→≡ "" l h)) (IsSuffix-same l)
ends_with-IsSuffix (String.◌∷◌ c m) l h = elim (Bool-cases (String.◌∷◌ c m == l)) [
  | inl e ↦ subst (λ x. IsSuffix l x) (sym (eq→≡ (String.◌∷◌ c m) l e)) (IsSuffix-same l)
  | inr e ↦ IsSuffix-cons c l m (ends_with-IsSuffix m l (ground arith))
]

pub strip_prefix-IsSuffix : (s t r : String) → strip_prefix s t ≡ some r → IsSuffix r s
unfolding strip_prefix
strip_prefix-IsSuffix s String.[] r h = subst (IsSuffix r) (sym (ground arith)) (IsSuffix-same r)
strip_prefix-IsSuffix String.[] (String.◌∷◌ d t) r h = absurd (ground arith)
strip_prefix-IsSuffix (String.◌∷◌ c s) (String.◌∷◌ d t) r h =
    IsSuffix-cons c r s (strip_prefix-IsSuffix s t r (ground arith))

cut-IsSuffix : (sep : ℕ) (s n r : String) → cut sep s ≡ some (n, r) → IsSuffix r s
unfolding cut
cut-IsSuffix sep String.[] n r h = absurd (ground arith)
cut-IsSuffix sep (String.◌∷◌ c s) n r h = elim (Bool-cases (eqb (code c) sep)) [
  | inl e ↦
      subst (λ x. IsSuffix x (String.◌∷◌ c s)) (ground arith)
        (IsSuffix-cons c s s (IsSuffix-same s))
  | inr e ↦ elim (Option-cases (cut sep s)) [
    | inl none_found ↦ absurd (ground arith)
    | inr ((a, b), found) ↦
        IsSuffix-cons c r s
          (subst (λ x. IsSuffix x s) (ground arith) (cut-IsSuffix sep s a b found))
  ]
]

after_name-some :
    (word name rest m : String)
    → after_name word (some (name, rest)) ≡ some m
    → strip_prefix rest word ≡ some m
unfolding after_name
after_name-some word name rest m h = ground arith

after_name-IsSuffix : (word s m : String) → after_name word (cut b':' s) ≡ some m → IsSuffix m s
unfolding after_name
after_name-IsSuffix word s m h = elim (Option-cases (cut b':' s)) [
  | inl e ↦ absurd (ground (arith, subst (λ o. after_name word o ≡ some m) e h))
  | inr ((name, rest), e) ↦
      IsSuffix-trans m rest s
        (strip_prefix-IsSuffix rest word m
          (after_name-some word name rest m (subst (λ o. after_name word o ≡ some m) e h)))
        (cut-IsSuffix b':' s name rest e)
]

pub after_attribute-IsSuffix : (word s m : String) → after_attribute word s ≡ some m → IsSuffix m s
unfolding after_attribute
after_attribute-IsSuffix word s m h = elim (Option-cases (strip_prefix s "             ")) [
  | inl e ↦ absurd (ground arith)
  | inr (r, e) ↦
      IsSuffix-trans m r s (after_name-IsSuffix word r m (named r e))
        (strip_prefix-IsSuffix s "             " r e)
]
  where
    named :
        (r : String)
        → strip_prefix s "             " ≡ some r
        → after_name word (cut b':' r) ≡ some m
    named r e = ground arith
