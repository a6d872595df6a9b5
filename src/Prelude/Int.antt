-- ===== src/Prelude/Int.antt =====
-- Python's `int`, as far as the filters compare and print it, over the native numbers.
use Prim.Native.Nat.{ℕ, zero, suc, ◌+◌, ◌*◌, ◌-◌, ◌/◌, ◌%◌}
use Prim.Native.Char.{code}
use Prim.Native.String.{String, ◌++◌}
use mathlib.Core.Bool.{Bool, true, false, ◌&&◌}
use mathlib.Core.Option.{Option, none, some}
use ansible_install.Prelude.Branch.{ltb, leb, eqb, if◌then◌else◌}
use ansible_install.Prelude.Text.{strip}

-- `negsuc n` is -(n + 1).
pub data ℤ : Type 0 where
  pos : ℕ → ℤ
  negsuc : ℕ → ℤ

abbrev pub is_nat : ℤ → ℕ → Bool
is_nat (pos n) k = eqb n k
is_nat (negsuc n) k = false

-- `m < n`
abbrev pub lt_int : ℤ → ℤ → Bool
lt_int (pos m) (pos n) = ltb m n
lt_int (pos m) (negsuc n) = false
lt_int (negsuc m) (pos n) = true
lt_int (negsuc m) (negsuc n) = ltb n m

-- `m - n` of two naturals, and of two integers; `-n`; `n // d`; `max(m, n)`.
abbrev pub difference : ℕ → ℕ → ℤ
difference m n = if leb n m then pos (m - n) else negsuc (n - m - 1)

abbrev pub sub_int : ℤ → ℤ → ℤ
sub_int (pos m) (pos n) = difference m n
sub_int (pos m) (negsuc n) = pos (m + suc n)
sub_int (negsuc m) (pos n) = negsuc (m + n)
sub_int (negsuc m) (negsuc n) = difference n m

abbrev pub neg_int : ℤ → ℤ
neg_int (pos zero) = pos zero
neg_int (pos (suc n)) = negsuc n
neg_int (negsuc n) = pos (suc n)

abbrev pub floor_div : ℤ → ℕ → ℤ
floor_div (pos n) d = pos (n / d)
floor_div (negsuc n) d = negsuc (n / d)

abbrev pub max_int : ℤ → ℤ → ℤ
max_int m n = if lt_int m n then n else m

abbrev digit : ℕ → String
digit d =
    if eqb d 0
    then "0"
    else if eqb d 1
    then "1"
    else if eqb d 2
    then "2"
    else if eqb d 3
    then "3"
    else if eqb d 4
    then "4"
    else if eqb d 5
    then "5"
    else if eqb d 6
    then "6"
    else if eqb d 7
    then "7"
    else if eqb d 8
    then "8"
    else "9"

-- The decimal digits; a number below the fuel has fewer digits than the fuel.
decimal : ℕ → ℕ → String
decimal zero n = ""
decimal (suc fuel) n =
    let high = decimal fuel (n / 10) in if ltb n 10 then digit n else high ++ digit (n % 10)

-- `str(n)`
unfoldable pub show_ℕ : ℕ → String
unfolding decimal
show_ℕ n = decimal (suc n) n

unfoldable pub show_ℤ : ℤ → String
unfolding show_ℕ
show_ℤ (pos n) = show_ℕ n
show_ℤ (negsuc n) = "-" ++ show_ℕ (suc n)

unfoldable pub is_digit : ℕ → Bool
is_digit c = leb 48 c && leb c 57

-- The number that a run of digits stands for. One underscore may stand between two digits.
digits_from : Bool → ℕ → String → Option ℕ
unfolding is_digit
digits_from after acc String.[] = if after then some acc else none
digits_from after acc (String.◌∷◌ c s) =
    let next = digits_from true (acc * 10 + (code c - 48)) s in
    let joined = digits_from false acc s in
    if is_digit (code c) then next else if eqb (code c) b'_' && after then joined else none

signed : (ℕ → ℤ) → Option ℕ → Option ℤ
signed sign none = none
signed sign (some n) = some (sign n)

negated : ℕ → ℤ
negated zero = pos zero
negated (suc n) = negsuc n

-- `int(s)` of a text in ASCII digits; `none` is its ValueError.
unfoldable pub parse_int : String → Option ℤ
unfolding digits_from signed negated strip
parse_int s = elim (strip s) [
  | String.[] ↦ none
  | String.◌∷◌ c rest ↦
      if eqb (code c) b'-'
      then signed negated (digits_from false 0 rest)
      else if eqb (code c) b'+'
      then signed pos (digits_from false 0 rest)
      else signed pos (digits_from false 0 (String.◌∷◌ c rest))
]

-- `s.isdigit()` of a text in ASCII, and the number that such digits stand for.
unfoldable pub all_digits : String → Bool
unfolding is_digit
all_digits String.[] = false
all_digits (String.◌∷◌ c String.[]) = is_digit (code c)
all_digits (String.◌∷◌ c (String.◌∷◌ d s)) = is_digit (code c) && all_digits (String.◌∷◌ d s)

unfoldable pub number_from : ℕ → String → ℕ
number_from acc String.[] = acc
number_from acc (String.◌∷◌ c s) = number_from (acc * 10 + (code c - 48)) s
