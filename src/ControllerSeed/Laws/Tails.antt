-- ===== src/ControllerSeed/Laws/Tails.antt =====
-- roles/controller_seed/filter_plugins/controller_seed_preview.py: the end of a line.
use Prim.Native.Char.{Char, code}
use ansible_install.Prelude.{
  String, ◌<>◌, true, false, ◌&&◌, ◌==◌, eqb, ◌≡◌, refl, sym, ap, ◌∙◌, ◌⊎◌, inl, inr, arith,
  Bool-cases, and-eq-true, eq→≡, ≡→eq,
}
use mathlib.Core.Path.{subst}
use text.Mathlib.TextLemmas.{cons-append, nil-append}
use text.Mathlib.TextEquality.{Char-path}
use ansible_install.Prelude.Text.{cons-nonempty}
use ansible_install.ControllerSeed.Patterns.{Tail, with_front, tail_of}
use ansible_install.Prelude.Int.{is_digit, all_digits}

abbrev whole : Tail → String
whole t = t.before <> (t.digits <> t.feed)

pub with_front-nonempty :
    (c : Char) (t : Tail)
    → (t.before == "") ≡ false
    → with_front c t ≡ record t { before = String.◌∷◌ c t.before }
with_front-nonempty c t h = rw h refl

pub tail_of-cons :
    (c : Char) (s : String)
    → (s == "" && eqb (code c) 10) ≡ false
    → tail_of (String.◌∷◌ c s) ≡ with_front c (tail_of s)
unfolding tail_of
tail_of-cons c s h = rw h refl

tail_of-feed_only :
    (c : Char) (s : String) → (s == "" && eqb (code c) 10) ≡ true → String.◌∷◌ c s ≡ "\n"
tail_of-feed_only c s h =
    let (empty, feed) = and-eq-true (s == "") (eqb (code c) 10) h in
    ap (λ x. String.◌∷◌ c x) (eq→≡ s "" empty)
    ∙ ap (λ x. String.◌∷◌ x "") (Char-path c "\n" (ground arith))

whole-with_front : (c : Char) (t : Tail) → whole (with_front c t) ≡ String.◌∷◌ c (whole t)
whole-with_front c t = elim (Bool-cases (t.before == "" && is_digit (code c))) [
  | inl h ↦
      let empty = eq→≡ t.before "" (and-eq-true (t.before == "") (is_digit (code c)) h).0 in
      rw h (
        ap (λ b. b <> ((String.◌∷◌ c t.digits) <> t.feed)) empty
        ∙ nil-append _
        ∙ cons-append c t.digits t.feed
        ∙ ap (λ x. String.◌∷◌ c x)
            (sym (nil-append (t.digits <> t.feed))
              ∙ ap (λ b. b <> (t.digits <> t.feed)) (sym empty)))
  | inr h ↦ rw h (cons-append c t.before (t.digits <> t.feed))
]

tail_of-newline : whole (tail_of "\n") ≡ "\n"
unfolding tail_of ◌==◌
tail_of-newline = refl

-- The three parts of a line are the line.
pub tail_of-whole : (s : String) → whole (tail_of s) ≡ s
unfolding tail_of
tail_of-whole String.[] = refl
tail_of-whole (String.◌∷◌ c s) = elim (Bool-cases (s == "" && eqb (code c) 10)) [
  | inl h ↦ subst (λ x. whole (tail_of x) ≡ x) (sym (tail_of-feed_only c s h)) tail_of-newline
  | inr h ↦
      ap whole (tail_of-cons c s h)
      ∙ whole-with_front c (tail_of s)
      ∙ ap (λ x. String.◌∷◌ c x) (tail_of-whole s)
]

abbrev Ended : Tail → Type 0
Ended t = ((t.before == "") ≡ false) × ((t.digits == "") ≡ true)

-- A line that has a text before its end, and no digits there.
abbrev pub IsClosed : String → Type 0
IsClosed s = Ended (tail_of s)

IsClosed-cons : (c : Char) (s : String) → IsClosed s → IsClosed (String.◌∷◌ c s)
unfolding tail_of
IsClosed-cons c String.[] (h, k) = absurd (ground (arith, ≡→eq "" "" refl))
IsClosed-cons c (String.◌∷◌ d s) (h, k) =
    subst Ended
      (sym (
        tail_of-cons c (String.◌∷◌ d s) (ap (λ b. b && eqb (code c) 10) (cons-nonempty d s))
        ∙ with_front-nonempty c (tail_of (String.◌∷◌ d s)) h))
      (cons-nonempty c (tail_of (String.◌∷◌ d s)).before, k)

pub IsClosed-append : (b s : String) → IsClosed s → IsClosed (b <> s)
IsClosed-append String.[] s h = rw (nil-append s) h
IsClosed-append (String.◌∷◌ c b) s h =
    rw (cons-append c b s) (IsClosed-cons c (b <> s) (IsClosed-append b s h))

feed-with_front : (c : Char) (t : Tail) → (with_front c t).feed ≡ t.feed
feed-with_front c t = ground arith

pub tail_of-feed : (s : String) → ((tail_of s).feed ≡ "") ⊎ ((tail_of s).feed ≡ "\n")
unfolding tail_of
tail_of-feed String.[] = inl refl
tail_of-feed (String.◌∷◌ c s) = elim (Bool-cases (s == "" && eqb (code c) 10)) [
  | inl h ↦ inr (rw h refl)
  | inr h ↦
      subst (λ t. (t.feed ≡ "") ⊎ (t.feed ≡ "\n")) (sym (tail_of-cons c s h))
        (rw (feed-with_front c (tail_of s)) (tail_of-feed s))
]

all_digits-cons :
    (c : Char) (d : String)
    → is_digit (code c) ≡ true
    → ((d == "") ≡ false → all_digits d ≡ true)
    → all_digits (String.◌∷◌ c d) ≡ true
unfolding all_digits
all_digits-cons c String.[] h k = h
all_digits-cons c (String.◌∷◌ e d) h k = rw h (k (cons-nonempty e d))

abbrev Numeral : String → Type 0
Numeral d = (d == "") ≡ false → all_digits d ≡ true

digits-with_front : (c : Char) (t : Tail) → Numeral t.digits → Numeral (with_front c t).digits
digits-with_front c t k = elim (Bool-cases (t.before == "" && is_digit (code c))) [
  | inl h ↦ rw h (λ e. all_digits-cons c t.digits (ground arith) k)
  | inr h ↦ rw h k
]

pub tail_of-digits :
    (s : String) → ((tail_of s).digits == "") ≡ false → all_digits (tail_of s).digits ≡ true
unfolding tail_of
tail_of-digits String.[] = λ h. absurd (ground (arith, ≡→eq "" "" refl))
tail_of-digits (String.◌∷◌ c s) = elim (Bool-cases (s == "" && eqb (code c) 10)) [
  | inl h ↦ rw h (λ k. absurd (ground (arith, ≡→eq "" "" refl)))
  | inr h ↦
      subst (λ t. Numeral t.digits) (sym (tail_of-cons c s h))
        (digits-with_front c (tail_of s) (tail_of-digits s))
]
