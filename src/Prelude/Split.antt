-- ===== src/Prelude/Split.antt =====
-- The methods of Python's `str` that make or take lists of texts, and `sorted` over texts.
use Prim.Native.Nat.{ℕ}
use Prim.Native.Char.{Char, code}
use Prim.Native.String.{String, ◌++◌ as ◌<>◌}
use mathlib.Core.Path.{◌≡◌}
use mathlib.Core.Logic.{◌≢◌, ◌↔◌}
use native.Mathlib.Omega.{arith}
use mathlib.Core.Bool.{Bool, true, false, ◌&&◌, ◌||◌}
use mathlib.Core.List.{List, [], ◌∷◌}
use text.Mathlib.Text.{is_le}
use Prim.Native.String.{compare}
use ansible_install.Prelude.Branch.{leb, eqb, if◌then◌else◌}
use ansible_install.Prelude.Text.{◌==◌, is_space}

abbrev head_onto : Char → List String → List String
head_onto c [] = (String.◌∷◌ c "") ∷ []
head_onto c (s ∷ rest) = (String.◌∷◌ c s) ∷ rest

-- `s.split(sep)` for a separator of one character.
unfoldable pub split : ℕ → String → List String
split sep String.[] = "" ∷ []
split sep (String.◌∷◌ c s) =
    let rest = split sep s in if eqb (code c) sep then "" ∷ rest else head_onto c rest

-- The characters at which `str.splitlines` ends a line.
unfoldable pub ends_line : ℕ → Bool
ends_line c =
    (leb 10 c && leb c 13) || (leb 28 c && leb c 30) || eqb c 133 || eqb c 8232 || eqb c 8233

abbrev starts_with_lf : String → Bool
starts_with_lf String.[] = false
starts_with_lf (String.◌∷◌ c s) = eqb (code c) 10

-- `s.splitlines()`. A carriage return before a line feed belongs to the same line end.
unfoldable pub lines : String → List String
unfolding ends_line
lines String.[] = []
lines (String.◌∷◌ c s) =
    let rest = lines s in
    if eqb (code c) 13 && starts_with_lf s
    then rest
    else if ends_line (code c)
    then "" ∷ rest
    else head_onto c rest

-- `sep.join(xs)`
unfoldable pub join : String → List String → String
join sep [] = ""
join sep (x ∷ []) = x
join sep (x ∷ y ∷ xs) = x <> (sep <> join sep (y ∷ xs))

abbrev starts_space : String → Bool
starts_space String.[] = true
starts_space (String.◌∷◌ c s) = is_space (code c)

-- `s.split()`: the maximal runs of characters that are no white space.
unfoldable pub words : String → List String
unfolding is_space
words String.[] = []
words (String.◌∷◌ c s) =
    let rest = words s in
    if is_space (code c)
    then rest
    else if starts_space s
    then (String.◌∷◌ c "") ∷ rest
    else head_onto c rest

-- `x in xs`
unfoldable pub mem : String → List String → Bool
mem x [] = false
mem x (y ∷ ys) = x == y || mem x ys

insert_text : String → List String → List String
insert_text x [] = x ∷ []
insert_text x (y ∷ ys) =
    let later = insert_text x ys in if is_le (compare x y) then x ∷ y ∷ ys else y ∷ later

-- `sorted(xs)` over texts, by code points.
unfoldable pub sorted : List String → List String
unfolding insert_text
sorted [] = []
sorted (x ∷ xs) = insert_text x (sorted xs)

insert_text-ne-nil : (x : String) (xs : List String) → insert_text x xs ≢ []
unfolding insert_text
insert_text-ne-nil x [] e = absurd (ground arith)
insert_text-ne-nil x (y ∷ ys) e = absurd (ground arith)

pub sorted-nil : (xs : List String) → (sorted xs ≡ []) ↔ (xs ≡ [])
unfolding sorted
sorted-nil [] = (λ h. h, λ h. h)
sorted-nil (x ∷ xs) = ground (arith, insert_text-ne-nil x (sorted xs))
