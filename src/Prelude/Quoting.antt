-- ===== src/Prelude/Quoting.antt =====
-- A quoted text is one word of a command line, and is read back as it was.
use Prim.Native.Nat.{ℕ}
use Prim.Native.Char.{Char, code}
use Prim.Native.String.{String, ◌++◌ as ◌<>◌}
use mathlib.Core.Path.{◌≡◌, refl, sym, ap, ◌∙◌}
use mathlib.Core.Logic.{inl, inr}
use mathlib.Core.Bool.{Bool, true, false}
use mathlib.Core.Option.{Option, some}
use mathlib.Core.List.{List, [], ◌∷◌}
use native.Mathlib.Omega.{arith}
use text.Mathlib.TextEquality.{Char-path}
use text.Mathlib.TextLemmas.{append-nil, append_assoc, cons-append, nil-append}
use ansible_install.Prelude.Branch.{eqb, and-eq-true, Bool-cases}
use ansible_install.Prelude.Text.{◌==◌, eq→≡}
use ansible_install.Prelude.Shell.{
  Place, between, word, single, double, Move, escaped, escaped_double, goes, leaves, move,
  first_word, split_from, is_safe, all_safe, requoted, replaced, quote,
}

abbrev resume : String → Move → Option (List String)
resume s (goes next) = split_from next s
resume s (leaves token) = first_word token (split_from between s)

-- One character, where the place goes on.
pub step :
    (p q : Place) (c : Char) (s : String)
    → move p (code c) (String.◌∷◌ c "") ≡ goes q
    → split_from p (String.◌∷◌ c s) ≡ split_from q s
unfolding split_from
step between q c s h = ap (resume s) h
step (word t b) q c s h = ap (resume s) h
step (single t) q c s h = ap (resume s) h
step (double t) q c s h = ap (resume s) h
step (escaped t b) q c s h = ap (resume s) h
step (escaped_double t) q c s h = ap (resume s) h

cons_to :
    (token : String) (c : Char) (s : String)
    → (token <> (String.◌∷◌ c "")) <> s ≡ token <> (String.◌∷◌ c s)
cons_to token c s =
    append_assoc token (String.◌∷◌ c "") s
    ∙ ap (λ x. token <> x) (cons-append c "" s ∙ ap (λ x. String.◌∷◌ c x) (nil-append s))

word_safe :
    (token : String) (quoted : Bool) (k : ℕ) (c : String)
    → is_safe k ≡ true
    → move (word token quoted) k c ≡ goes (word (token <> c) quoted)
unfolding move is_safe
word_safe token quoted k c h = ground arith

-- A run of safe characters goes into the word.
pub split_from-safe :
    (s token rest : String) (quoted : Bool)
    → all_safe s ≡ true
    → split_from (word token quoted) (s <> rest) ≡ split_from (word (token <> s) quoted) rest
unfolding all_safe
split_from-safe String.[] token rest quoted h = rw (nil-append rest) (rw (append-nil token))
split_from-safe (String.◌∷◌ c s) token rest quoted h =
    let (safe, more) = and-eq-true (is_safe (code c)) (all_safe s) h in
    rw (cons-append c s rest) (
      step _ _ c (s <> rest) (word_safe token quoted (code c) (String.◌∷◌ c "") safe)
      ∙ split_from-safe s (token <> (String.◌∷◌ c "")) rest quoted more
      ∙ ap (λ t. split_from (word t quoted) rest) (cons_to token c s))

single_other :
    (token : String) (k : ℕ) (c : String)
    → eqb k b'\'' ≡ false
    → move (single token) k c ≡ goes (single (token <> c))
unfolding move
single_other token k c h = rw h

-- A single quote leaves the quotes, stands in double quotes, and enters them again.
single_quote :
    (token rest : String)
    → split_from (single token) (requoted rest) ≡ split_from (single (token <> "'")) rest
unfolding split_from move
single_quote token rest = refl

-- A replaced text inside single quotes is the text.
split_from-replaced :
    (s token rest : String)
    → split_from (single token) (replaced s <> rest) ≡ split_from (single (token <> s)) rest
unfolding replaced
split_from-replaced String.[] token rest = rw (nil-append rest) (rw (append-nil token))
split_from-replaced (String.◌∷◌ c s) token rest = elim (Bool-cases (eqb (code c) b'\'')) [
  | inl e ↦ rw e (
      simp (cons-append) (
        single_quote token (replaced s <> rest)
        ∙ split_from-replaced s (token <> "'") rest
        ∙ ap (λ t. split_from (single t) rest)
            (rw (Char-path c "'" (ground arith)) (cons_to token "'" s))))
  | inr e ↦ rw e (
      rw (cons-append c (replaced s) rest) (
        step _ _ c (replaced s <> rest) (single_other token (code c) (String.◌∷◌ c "") e)
        ∙ split_from-replaced s (token <> (String.◌∷◌ c "")) rest
        ∙ ap (λ t. split_from (single t) rest) (cons_to token c s)))
]

empty_quotes :
    (token : String) (quoted : Bool)
    → split_from (word token quoted) "''" ≡ split_from (word token true) ""
unfolding split_from move
empty_quotes token quoted = refl

enters :
    (token rest : String) (quoted : Bool)
    → split_from (word token quoted) (String.◌∷◌ "'" rest) ≡ split_from (single token) rest
unfolding split_from move
enters token rest quoted = refl

opens :
    (token rest : String) (quoted : Bool)
    → split_from (word token quoted) ("'" <> rest) ≡ split_from (single token) rest
opens token rest quoted =
    ap (split_from (word token quoted))
      (cons-append "'" "" rest ∙ ap (λ x. String.◌∷◌ "'" x) (nil-append rest))
    ∙ enters token rest quoted

closes : (token : String) → split_from (single token) "'" ≡ split_from (word token true) ""
unfolding split_from move
closes token = refl

last_word :
    (token : String) (quoted : Bool)
    → (token == "") ≡ false
    → split_from (word token quoted) "" ≡ some (token ∷ [])
unfolding split_from
last_word token quoted h = rw h

last_quoted : (token : String) → split_from (word token true) "" ≡ some (token ∷ [])
unfolding split_from
last_quoted token = ground arith

-- Behind the start of a word, a quoted text is read as the text.
pub split_from-quote :
    (token s : String) (quoted : Bool)
    → ((token <> s) == "") ≡ false
    → split_from (word token quoted) (quote s) ≡ some ((token <> s) ∷ [])
unfolding quote
split_from-quote token s quoted h = elim (Bool-cases (s == "")) [
  | inl e ↦ rw e (
      empty_quotes token quoted
      ∙ last_quoted token
      ∙ ap (λ t. some (t ∷ [])) (sym (ap (λ x. token <> x) (eq→≡ s "" e) ∙ append-nil token)))
  | inr n ↦ rw n (elim (Bool-cases (all_safe s)) [
    | inl safe ↦ rw safe (
        ap (split_from (word token quoted)) (sym (append-nil s))
        ∙ split_from-safe s token "" quoted safe
        ∙ last_word (token <> s) quoted h)
    | inr unsafe ↦ rw unsafe (
        opens token (replaced s <> "'") quoted
        ∙ split_from-replaced s token "'"
        ∙ closes (token <> s)
        ∙ last_word (token <> s) true h)
  ])
]
