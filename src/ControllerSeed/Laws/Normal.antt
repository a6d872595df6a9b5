-- ===== src/ControllerSeed/Laws/Normal.antt =====
-- roles/controller_seed/filter_plugins/controller_seed_preview.py: what becomes of one line.
use ansible_install.Prelude.{
  String, ◌<>◌, true, not, ◌&&◌, some, List, [], ◌∷◌, ◌==◌, ◌≡◌, refl, sym, ap, ◌∙◌, ◌⊎◌, inl, inr,
  arith, Bool-cases, Option-cases,
}
use mathlib.Core.Path.{subst}
use text.Mathlib.TextEquality.{Char-path}
use ansible_install.Prelude.Text.{strip_prefix}
use ansible_install.Prelude.Lists.{All}
use ansible_install.Prelude.Int.{is_digit, all_digits}
use ansible_install.ControllerSeed.Patterns.{
  tail_of, after_attribute, LinePattern, reads, id_placeholder, substituted,
}
use ansible_install.ControllerSeed.Preview.{patterns, substitute_all}
use ansible_install.ControllerSeed.Laws.Tails.{
  tail_of-whole, IsClosed, IsClosed-append, tail_of-feed, tail_of-digits,
}

-- The line ends in a number, and in the result the placeholder stands for that number.
pub record IdReplaced (line out : String) : Type 0 where
  pub before : String
  pub digits : String
  pub feed : String
  pub line_is : line ≡ before <> (digits <> feed)
  pub out_is : out ≡ before <> (id_placeholder <> feed)
  pub numeral : all_digits digits ≡ true
  pub ended : (feed ≡ "") ⊎ (feed ≡ "\n")
  pub indented : (rest : String) × (before ≡ String.◌∷◌ " " rest)

pub placeholder-IsClosed : (f : String) → (f ≡ "") ⊎ (f ≡ "\n") → IsClosed (id_placeholder <> f)
unfolding tail_of is_digit ◌==◌
placeholder-IsClosed f (inl e) = rw e (refl, refl)
placeholder-IsClosed f (inr e) = rw e (refl, refl)

pub IdReplaced-IsClosed : (line out : String) → IdReplaced line out → IsClosed out
IdReplaced-IsClosed line out r =
    subst IsClosed (sym r.out_is) (IsClosed-append r.before _ (placeholder-IsClosed r.feed r.ended))

blank_prefix :
    (s t r : String)
    → strip_prefix s (String.◌∷◌ " " t) ≡ some r
    → (rest : String) × (s ≡ String.◌∷◌ " " rest)
unfolding strip_prefix
blank_prefix String.[] t r h = absurd (ground arith)
blank_prefix (String.◌∷◌ c s) t r h = (s, ap (λ x. String.◌∷◌ x s) (Char-path c " " (ground arith)))

-- A pattern that starts with a blank.
abbrev pub IsIndented : LinePattern → Type 0
IsIndented p = (s m : String) → p.start s ≡ some m → (rest : String) × (s ≡ String.◌∷◌ " " rest)

attribute-IsIndented :
    (word s m : String)
    → after_attribute word s ≡ some m
    → (rest : String) × (s ≡ String.◌∷◌ " " rest)
unfolding after_attribute
attribute-IsIndented word s m h = elim (Option-cases (strip_prefix s "             ")) [
  | inl e ↦ absurd (ground arith)
  | inr (r, e) ↦ blank_prefix s "            " r e
]

pub patterns-IsIndented : All IsIndented patterns
unfolding after_attribute
patterns-IsIndented = (
  attribute-IsIndented " ",
  (attribute-IsIndented " database ", ((λ s m h. blank_prefix s " [link  ] " m h), tt)),
)

pub reads-indented :
    (p : LinePattern)
    → IsIndented p
    → (s : String) → reads p s ≡ true
    → (rest : String) × (s ≡ String.◌∷◌ " " rest)
unfolding reads
reads-indented p i s h = elim (Option-cases (p.start s)) [
  | inl e ↦ absurd (ground arith)
  | inr (m, e) ↦ i s m e
]

substituted-cases :
    (p : LinePattern)
    → IsIndented p
    → (line : String) → (substituted p line ≡ line) ⊎ IdReplaced line (substituted p line)
unfolding substituted
substituted-cases p i line =
    let t = tail_of line in
    elim (Bool-cases (not (t.digits == "") && reads p t.before)) [
      | inl h ↦ inr (record {
        before = t.before;
        digits = t.digits;
        feed = t.feed;
        line_is = sym (tail_of-whole line);
        out_is = rw h refl;
        numeral = tail_of-digits line (ground arith);
        ended = tail_of-feed line;
        indented = reads-indented p i t.before (ground arith);
      })
      | inr h ↦ inl (rw h refl)
    ]

substituted-closed : (p : LinePattern) (line : String) → IsClosed line → substituted p line ≡ line
unfolding substituted
substituted-closed p line (h, k) = rw k refl

pub substitute_all-closed :
    (ps : List LinePattern) (line : String) → IsClosed line → substitute_all ps line ≡ line
unfolding substitute_all
substitute_all-closed [] line h = refl
substitute_all-closed (p ∷ ps) line h =
    ap (substitute_all ps) (substituted-closed p line h) ∙ substitute_all-closed ps line h

substitute_all-cases :
    (ps : List LinePattern)
    → All IsIndented ps
    → (line : String) → (substitute_all ps line ≡ line) ⊎ IdReplaced line (substitute_all ps line)
unfolding substitute_all
substitute_all-cases [] all line = inl refl
substitute_all-cases (p ∷ ps) (i, all) line = elim (substituted-cases p i line) [
  | inl e ↦
      subst (λ x. (substitute_all ps x ≡ line) ⊎ IdReplaced line (substitute_all ps x)) (sym e)
        (substitute_all-cases ps all line)
  | inr r ↦
      inr (
        subst (IdReplaced line) (sym (substitute_all-closed ps _ (IdReplaced-IsClosed line _ r))) r)
]

-- A line stays as it is, or the number at its end gives way to the placeholder.
pub normal-cases :
    (line : String)
    → (substitute_all patterns line ≡ line) ⊎ IdReplaced line (substitute_all patterns line)
normal-cases = substitute_all-cases patterns patterns-IsIndented

pub normal_twice :
    (line : String)
    → substitute_all patterns (substitute_all patterns line) ≡ substitute_all patterns line
normal_twice line = elim (normal-cases line) [
  | inl e ↦ ap (substitute_all patterns) e
  | inr r ↦ substitute_all-closed patterns _ (IdReplaced-IsClosed line _ r)
]
