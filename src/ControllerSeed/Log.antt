-- ===== src/ControllerSeed/Log.antt =====
-- roles/controller_seed/filter_plugins/controller_seed_preview.py: `_LOG_LINE`, one function for
-- each piece of the expression; it has what is left behind the piece. No piece is read in two
-- ways: what follows it never starts with a character that the piece could take as well.
use Prim.Native.Char.{code}
use ansible_install.Prelude.{
  ℕ, zero, suc, String, Bool, true, false, ◌||◌, Option, none, some, List, [], ◌∷◌, eqb,
  if◌then◌else◌,
}
use ansible_install.Prelude.Text.{is_space, lstrip_by, strip_prefix}
use ansible_install.Prelude.Int.{is_digit}

-- The next step, where there is a text to go on with.
infixl 20 ◌>>=◌
abbrev ◌>>=◌ {ℓ ℓ'} : {A : Type ℓ} {B : Type ℓ'} → Option A → (A → Option B) → Option B
none >>= f = none
some a >>= f = f a

-- `\x1b\[[0-9;]*m`, if the text starts with it.
in_color : String → Option String
unfolding is_digit
in_color String.[] = none
in_color (String.◌∷◌ c s) =
    let rest = in_color s in
    if eqb (code c) b'm'
    then some s
    else if is_digit (code c) || eqb (code c) b';'
    then rest
    else none

unfoldable pub after_color : String → Option String
unfolding strip_prefix in_color
after_color s = elim (strip_prefix s "\u{1b}[") [ none ↦ none | some rest ↦ in_color rest ]

abbrev skip_color : String → String
unfolding after_color
skip_color s = elim (after_color s) [ none ↦ s | some rest ↦ rest ]

first_of : List String → String → Option String
unfolding strip_prefix
first_of [] s = none
first_of (word ∷ words) s = elim (strip_prefix s word) [
  | some rest ↦ some rest
  | none ↦ first_of words s
]

-- `\s+`
spaces : String → Option String
unfolding is_space lstrip_by
spaces String.[] = none
spaces (String.◌∷◌ c s) = if is_space (code c) then some (lstrip_by is_space s) else none

-- `\s*`, a color if there is one, and `\s+`.
after_level : String → Option String
unfolding is_space lstrip_by after_color spaces
after_level s = elim (after_color (lstrip_by is_space s)) [
  | some rest ↦ spaces rest
  | none ↦ spaces s
]

-- `\d{n}`
digits : ℕ → String → Option String
unfolding is_digit
digits zero s = some s
digits (suc n) String.[] = none
digits (suc n) (String.◌∷◌ c s) = if is_digit (code c) then digits n s else none

-- `(?:\.\d+)?`
fraction : String → String
unfolding strip_prefix digits lstrip_by is_digit
fraction s = elim (strip_prefix s ".") [
  | none ↦ s
  | some rest ↦ elim (digits 1 rest) [ none ↦ s | some more ↦ lstrip_by is_digit more ]
]

log_rest : String → Option String
unfolding first_of after_level digits fraction spaces strip_prefix
log_rest s = do
  level ← first_of ("DEBUG" ∷ "INFO" ∷ "WARN" ∷ "ERROR" ∷ "FATAL" ∷ []) s
  time ← after_level level
  year ← digits 4 time
  month ← strip_prefix year "-"
  a ← digits 2 month
  day ← strip_prefix a "-"
  b ← digits 2 day
  hour ← strip_prefix b "T"
  c ← digits 2 hour
  minute ← strip_prefix c ":"
  d ← digits 2 minute
  second ← strip_prefix d ":"
  e ← digits 2 second
  zone ← strip_prefix (fraction e) "Z"
  pid ← spaces zone
  number ← strip_prefix pid "pid="
  digits 1 number

-- `_LOG_LINE.match(line)`
unfoldable pub is_log_line : String → Bool
unfolding after_color log_rest
is_log_line s = elim (log_rest (skip_color s)) [ none ↦ false | some rest ↦ true ]
