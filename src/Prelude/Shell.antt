-- ===== src/Prelude/Shell.antt =====
-- Python's `shlex.split` of a POSIX command line, and `shlex.quote`.
use Prim.Native.Nat.{ℕ}
use Prim.Native.Char.{code}
use Prim.Native.String.{String, ◌++◌ as ◌<>◌}
use mathlib.Core.Bool.{Bool, true, false, ◌&&◌, ◌||◌, not}
use mathlib.Core.Option.{Option, none, some}
use mathlib.Core.List.{List, [], ◌∷◌}
use ansible_install.Prelude.Branch.{leb, eqb, if◌then◌else◌}
use ansible_install.Prelude.Text.{◌==◌}

-- Where the reader stands: between words, in a word, in single or double quotes, behind a
-- backslash in a word or in double quotes. A flag says whether the word had quotes.
pub data Place : Type 0 where
  between : Place
  word : String → Bool → Place
  single : String → Place
  double : String → Place
  escaped : String → Bool → Place
  escaped_double : String → Place

abbrev blank : ℕ → Bool
blank c = eqb c 32 || eqb c 9 || eqb c 13 || eqb c 10

-- What comes after one character; in `leaves` a word is complete.
pub data Move : Type 0 where
  goes : Place → Move
  leaves : String → Move

-- A character outside of quotes.
plainly : String → Bool → ℕ → String → Move
plainly token quoted k c =
    if eqb k b'\''
    then goes (single token)
    else if eqb k b'"'
    then goes (double token)
    else if eqb k b'\\'
    then goes (escaped token quoted)
    else goes (word (token <> c) quoted)

unfoldable pub move : Place → ℕ → String → Move
unfolding plainly
move between k c = if blank k then goes between else plainly "" false k c
move (word token quoted) k c =
    if blank k
    then if token == "" && not quoted then goes between else leaves token
    else plainly token quoted k c
move (single token) k c = if eqb k b'\'' then goes (word token true) else goes (single (token <> c))
move (double token) k c =
    if eqb k b'"'
    then goes (word token true)
    else if eqb k b'\\'
    then goes (escaped_double token)
    else goes (double (token <> c))
move (escaped token quoted) k c = goes (word (token <> c) quoted)
move (escaped_double token) k c =
    if eqb k b'"' || eqb k b'\\'
    then goes (double (token <> c))
    else goes (double (token <> ("\\" <> c)))

abbrev pub first_word : String → Option (List String) → Option (List String)
first_word token none = none
first_word token (some rest) = some (token ∷ rest)

-- `none` is the ValueError of a quotation or an escape that the text does not close.
unfoldable pub split_from : Place → String → Option (List String)
unfolding move
split_from between String.[] = some []
split_from (word token quoted) String.[] =
    if token == "" && not quoted then some [] else some (token ∷ [])
split_from (single token) String.[] = none
split_from (double token) String.[] = none
split_from (escaped token quoted) String.[] = none
split_from (escaped_double token) String.[] = none
split_from place (String.◌∷◌ c s) = elim (move place (code c) (String.◌∷◌ c "")) [
  | goes next ↦ split_from next s
  | leaves token ↦ first_word token (split_from between s)
]

-- `shlex.split(s)`
unfoldable pub split_words : String → Option (List String)
unfolding split_from
split_words s = split_from between s

-- The characters that `shlex.quote` leaves as they are.
unfoldable pub is_safe : ℕ → Bool
is_safe c =
    (leb b'a' c && leb c b'z')
    || (leb b'A' c && leb c b'Z')
    || (leb b'0' c && leb c b'9')
    || eqb c b'_'
    || eqb c b'@'
    || eqb c b'%'
    || eqb c b'+'
    || eqb c b'='
    || eqb c b':'
    || eqb c b','
    || eqb c b'.'
    || eqb c b'/'
    || eqb c b'-'

unfoldable pub all_safe : String → Bool
all_safe String.[] = true
all_safe (String.◌∷◌ c s) = is_safe (code c) && all_safe s

-- A single quote that stands in double quotes, between texts in single quotes.
abbrev pub requoted : String → String
requoted s = String.◌∷◌ "'" (String.◌∷◌ "\"" (String.◌∷◌ "'" (String.◌∷◌ "\"" (String.◌∷◌ "'" s))))

-- `s.replace("'", "'\"'\"'")`
unfoldable pub replaced : String → String
replaced String.[] = ""
replaced (String.◌∷◌ c s) =
    let rest = replaced s in if eqb (code c) b'\'' then requoted rest else String.◌∷◌ c rest

-- `shlex.quote(s)`
unfoldable pub quote : String → String
unfolding all_safe is_safe replaced
quote s = if s == "" then "''" else if all_safe s then s else "'" <> (replaced s <> "'")
