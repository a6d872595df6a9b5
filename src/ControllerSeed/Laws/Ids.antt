-- ===== src/ControllerSeed/Laws/Ids.antt =====
-- roles/controller_seed/filter_plugins/controller_seed_preview.py: the text before an id.
use Prim.Native.Char.{Char, code}
use ansible_install.Prelude.{
  String, ◌<>◌, Bool, true, false, not, ◌&&◌, ◌||◌, some, List, [], ◌∷◌, ◌==◌, eqb, if◌then◌else◌,
  ◌≡◌, refl, sym, ap, ◌∙◌, inl, inr, arith, Option-cases, and-eq-true,
}
use mathlib.Core.Path.{subst}
use text.Mathlib.TextLemmas.{cons-append, nil-append}
use ansible_install.Prelude.Text.{cons-nonempty}
use ansible_install.Prelude.Pieces.{left-nonempty}
use ansible_install.Prelude.Lists.{All}
use ansible_install.Prelude.Int.{is_digit, all_digits}
use ansible_install.ControllerSeed.Patterns.{
  Tail, with_front, tail_of, LinePattern, after_attribute, reads, id_placeholder, substituted,
}
use ansible_install.ControllerSeed.Preview.{patterns}
use ansible_install.ControllerSeed.Laws.Tails.{with_front-nonempty, tail_of-cons}
use ansible_install.ControllerSeed.Laws.Suffixes.{
  IsSuffix, IsSuffix-trans, ends_with-IsSuffix, strip_prefix-IsSuffix, after_attribute-IsSuffix,
}

-- A pattern whose `.*` and what follows stand at the end of the text before the number.
abbrev Reaches : LinePattern → Type 0
Reaches p = (s m : String) → p.start s ≡ some m → IsSuffix m s

reads-IsSuffix : (p : LinePattern) → Reaches p → (s : String) → reads p s ≡ true → IsSuffix p.last s
unfolding reads
reads-IsSuffix p a s h = elim (Option-cases (p.start s)) [
  | inl e ↦ absurd (ground arith)
  | inr (m, e) ↦ IsSuffix-trans p.last m s (ends_with-IsSuffix m p.last (ground arith)) (a s m e)
]

abbrev split_at : String → String → Tail
split_at b d = record { before = b; digits = d; feed = "" }

-- The text before a number that the number does not run into.
abbrev pub StopsAt : String → Type 0
StopsAt b =
    ((b == "") ≡ false) × ((d : String) → all_digits d ≡ true → tail_of (b <> d) ≡ split_at b d)

pub all_digits-nonempty : (d : String) → all_digits d ≡ true → (d == "") ≡ false
unfolding all_digits
all_digits-nonempty String.[] h = absurd (ground arith)
all_digits-nonempty (String.◌∷◌ c d) h = cons-nonempty c d

digit_front :
    (c : Char) (d : String)
    → is_digit (code c) ≡ true
    → tail_of d ≡ split_at "" d
    → tail_of (String.◌∷◌ c d) ≡ split_at "" (String.◌∷◌ c d)
unfolding is_digit ◌==◌
digit_front c d h e = tail_of-cons c d (ground arith) ∙ ap (with_front c) e ∙ rw h refl

tail_of-nothing : tail_of "" ≡ split_at "" ""
unfolding tail_of
tail_of-nothing = refl

tail_of-all_digits : (d : String) → all_digits d ≡ true → tail_of d ≡ split_at "" d
unfolding all_digits
tail_of-all_digits String.[] h = absurd (ground arith)
tail_of-all_digits (String.◌∷◌ c String.[]) h = digit_front c "" h tail_of-nothing
tail_of-all_digits (String.◌∷◌ c (String.◌∷◌ e d)) h =
    let (first, more) = and-eq-true (is_digit (code c)) (all_digits (String.◌∷◌ e d)) h in
    digit_front c (String.◌∷◌ e d) first (tail_of-all_digits (String.◌∷◌ e d) more)

no_digit_front :
    (c : Char) (d : String)
    → is_digit (code c) ≡ false
    → with_front c (split_at "" d) ≡ split_at (String.◌∷◌ c "") d
unfolding ◌==◌
no_digit_front c d h = rw h refl

last-StopsAt : (c : Char) → is_digit (code c) ≡ false → StopsAt (String.◌∷◌ c "")
last-StopsAt c h = (
  cons-nonempty c "",
  λ d n.
      ap tail_of (cons-append c "" d ∙ ap (λ x. String.◌∷◌ c x) (nil-append d))
      ∙ tail_of-cons c d (ap (λ x. x && eqb (code c) 10) (all_digits-nonempty d n))
      ∙ ap (with_front c) (tail_of-all_digits d n)
      ∙ no_digit_front c d h,
)

StopsAt-cons : (c : Char) (b : String) → StopsAt b → StopsAt (String.◌∷◌ c b)
StopsAt-cons c b (h, k) = (
  cons-nonempty c b,
  λ d n.
      ap tail_of (cons-append c b d)
      ∙ tail_of-cons c (b <> d) (ap (λ x. x && eqb (code c) 10) (left-nonempty b d h))
      ∙ ap (with_front c) (k d n)
      ∙ with_front-nonempty c (split_at b d) h,
)

StopsAt-append : (x b : String) → StopsAt b → StopsAt (x <> b)
StopsAt-append String.[] b h = rw (nil-append b) h
StopsAt-append (String.◌∷◌ c x) b h =
    rw (cons-append c x b) (StopsAt-cons c (x <> b) (StopsAt-append x b h))

-- A position of an id ends a text before its number.
abbrev pub IsIdPattern : LinePattern → Type 0
IsIdPattern p = Reaches p × StopsAt p.last

pub patterns-IsIdPattern : All IsIdPattern patterns
unfolding after_attribute is_digit
patterns-IsIdPattern = (
  (after_attribute-IsSuffix " ", StopsAt-append " →" " " (last-StopsAt " " refl)),
  (
    (
      after_attribute-IsSuffix " database ",
      StopsAt-append ", manifest" " " (last-StopsAt " " refl),
    ),
    (
      (
        (λ s m h. strip_prefix-IsSuffix s "  [link  ] " m h),
        StopsAt-append " → ProvisionDriver " "#" (last-StopsAt "#" refl),
      ),
      tt,
    ),
  ),
)

pub reads-StopsAt : (p : LinePattern) → IsIdPattern p → (b : String) → reads p b ≡ true → StopsAt b
reads-StopsAt p (a, k) b h =
    let (x, e) = reads-IsSuffix p a b h in subst StopsAt (sym e) (StopsAt-append x p.last k)

pub substituted-at :
    (p : LinePattern) (b d : String)
    → all_digits d ≡ true
    → StopsAt b
    → substituted p (b <> d) ≡ (if reads p b then b <> id_placeholder else b <> d)
unfolding substituted
substituted-at p b d n (h, k) =
    ap
      (λ t.
        if not (t.digits == "") && reads p t.before
        then t.before <> (id_placeholder <> t.feed)
        else b <> d)
      (k d n)
    ∙ rw (all_digits-nonempty d n) refl

-- Some pattern reads the text as the position of an id.
unfoldable pub reads_any : List LinePattern → String → Bool
unfolding reads
reads_any [] b = false
reads_any (p ∷ ps) b = reads p b || reads_any ps b
