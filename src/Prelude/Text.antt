-- ===== src/Prelude/Text.antt =====
-- The methods of Python's `str` that the filters call. A character is told by its code point.
use Prim.Native.Nat.{ℕ, zero, suc, ◌+◌, ◌≤◌}
use Prim.Native.Char.{Char, code}
use Prim.Native.String.{String, [], ◌∷◌, ◌++◌}
use Prim.Native.String.append
use Prim.Native.String.compare
use mathlib.Core.Path.{◌≡◌, refl, ◌∙◌, sym, ap, ap₂}
use mathlib.Core.Bool.{Bool, true, false, ◌&&◌, ◌||◌}
use mathlib.Core.Option.{Option, none, some}
use native.Mathlib.Omega.{arith}
use text.Mathlib.Text.{◌==◌ as str_eq, is_eq}
use text.Mathlib.TextEquality.{eq_iff, Char-path}
use ansible_install.Prelude.Branch.{leb, eqb, if◌then◌else◌}

-- Shut in proofs, where a split on a comparison has two cases; `eq→≡` and `≡→eq` read it.
infix 50 ◌==◌
unfoldable pub ◌==◌ : String → String → Bool
s == t = str_eq s t

pub eq→≡ : (s t : String) → (s == t) ≡ true → s ≡ t
unfolding ◌==◌
eq→≡ s t h = (eq_iff s t).0 h

pub ≡→eq : (s t : String) → s ≡ t → (s == t) ≡ true
unfolding ◌==◌
≡→eq s t h = (eq_iff s t).1 h

pub cons-nonempty : (c : Char) (s : String) → ((c ∷ s) == "") ≡ false
unfolding ◌==◌
cons-nonempty c s = ap is_eq (compare.cons-nil c s)

-- `str.isspace` of one character.
unfoldable pub is_space : ℕ → Bool
is_space c =
    (leb 9 c && leb c 13)
    || (leb 28 c && leb c 32)
    || eqb c 133
    || eqb c 160
    || eqb c 5760
    || (leb 8192 c && leb c 8202)
    || eqb c 8232
    || eqb c 8233
    || eqb c 8239
    || eqb c 8287
    || eqb c 12288

-- Drop the leading characters that satisfy `p`, and the trailing ones.
unfoldable pub lstrip_by : (ℕ → Bool) → String → String
lstrip_by p [] = []
lstrip_by p (c ∷ s) = let rest = lstrip_by p s in if p (code c) then rest else c ∷ s

abbrev pub close : (ℕ → Bool) → Char → String → String
close p c [] = if p (code c) then [] else c ∷ []
close p c (d ∷ s) = c ∷ d ∷ s

unfoldable pub rstrip_by : (ℕ → Bool) → String → String
rstrip_by p [] = []
rstrip_by p (c ∷ s) = close p c (rstrip_by p s)

-- `s.strip()`
unfoldable pub strip : String → String
unfolding lstrip_by rstrip_by is_space
strip s = rstrip_by is_space (lstrip_by is_space s)

-- `s.rstrip("/")` and the like, for one character.
abbrev pub rstrip_char : ℕ → String → String
rstrip_char k = rstrip_by (λ c. eqb c k)

-- `s.lstrip("/")` and the like, for one character.
abbrev pub lstrip_char : ℕ → String → String
lstrip_char k = lstrip_by (λ c. eqb c k)

-- `"c" in s`, for one character.
unfoldable pub has : ℕ → String → Bool
has k [] = false
has k (c ∷ s) = eqb (code c) k || has k s

-- `s.startswith(t)`
unfoldable pub starts_with : String → String → Bool
starts_with s [] = true
starts_with [] (d ∷ t) = false
starts_with (c ∷ s) (d ∷ t) = eqb (code c) (code d) && starts_with s t

-- `s.endswith(t)`
unfoldable pub ends_with : String → String → Bool
ends_with [] t = [] == t
ends_with (c ∷ s) t = (c ∷ s) == t || ends_with s t

-- `t in s`
unfoldable pub contains : String → String → Bool
unfolding starts_with
contains [] t = starts_with [] t
contains (c ∷ s) t = starts_with (c ∷ s) t || contains s t

abbrev cons_cut : Char → Option (String × String) → Option (String × String)
cons_cut c none = none
cons_cut c (some (a, b)) = some (c ∷ a, b)

-- The texts on the two sides of the first character `sep`, if there is one.
unfoldable pub cut : ℕ → String → Option (String × String)
cut sep [] = none
cut sep (c ∷ s) = let rest = cut sep s in if eqb (code c) sep then some ([], s) else cons_cut c rest

pub starts_with-append : (s t : String) → starts_with (s ++ t) s ≡ true
unfolding starts_with
starts_with-append [] t = refl
starts_with-append (c ∷ s) t = rw append.cons (ground (arith, starts_with-append s t))

-- A text that starts with `t` is `t` and a rest.
pub starts_with-split : (s t : String) → starts_with s t ≡ true → (r : String) × (s ≡ t ++ r)
unfolding starts_with
starts_with-split s [] h = (s, sym (append.nil s))
starts_with-split [] (d ∷ t) h = absurd (ground arith)
starts_with-split (c ∷ s) (d ∷ t) h =
    let (r, e) = starts_with-split s t (ground arith) in
    (r, ap₂ ◌∷◌ (Char-path c d (ground arith)) e ∙ sym (append.cons d t r))

-- What follows the prefix, if the text has it.
unfoldable pub strip_prefix : String → String → Option String
strip_prefix s [] = some s
strip_prefix [] (d ∷ t) = none
strip_prefix (c ∷ s) (d ∷ t) =
    let rest = strip_prefix s t in if eqb (code c) (code d) then rest else none

abbrev lowered : ℕ → ℕ
lowered k = if leb 65 k && leb k 90 then k + 32 else k

-- `s.lower() == t`, for a text `t` of digits and of letters without "k": no character above ASCII
-- becomes one of these alone.
unfoldable pub lower_is : String → String → Bool
lower_is [] [] = true
lower_is [] (d ∷ t) = false
lower_is (c ∷ s) [] = false
lower_is (c ∷ s) (d ∷ t) = eqb (lowered (code c)) (code d) && lower_is s t

-- `len(s)` and `s[:n]`
unfoldable pub count : String → ℕ
count [] = 0
count (c ∷ s) = suc (count s)

unfoldable pub take_chars : ℕ → String → String
take_chars zero s = []
take_chars (suc n) [] = []
take_chars (suc n) (c ∷ s) = c ∷ take_chars n s

pub count-append : (s t : String) → count (s ++ t) ≡ count s + count t
unfolding count
count-append [] t = rw (append.nil t) (ground arith)
count-append (c ∷ s) t = rw append.cons (ground (arith, count-append s t))

pub count-take_chars : (n : ℕ) (s : String) → count (take_chars n s) ≤ n
unfolding count take_chars
count-take_chars zero s = ground arith
count-take_chars (suc n) [] = ground arith
count-take_chars (suc n) (c ∷ s) = ground (arith, count-take_chars n s)
