-- ===== src/Prelude/Canonical.antt =====
-- Python's `str` of an address of `ipaddress` that has no zone, from its documentation.
use Prim.Native.Nat.{ℕ, zero, suc, ◌+◌, ◌/◌, ◌%◌}
use Prim.Native.String.{String, ◌++◌ as ◌<>◌}
use mathlib.Core.List.{List, [], ◌∷◌, ◌++◌, map}
use ansible_install.Prelude.Branch.{leb, eqb, ltb, if◌then◌else◌}
use ansible_install.Prelude.Split.{join}
use ansible_install.Prelude.Int.{show_ℕ}
use ansible_install.Prelude.Ip.{power, Address}

digit_names : List String
digit_names =
    "0" ∷ "1" ∷ "2" ∷ "3" ∷ "4" ∷ "5" ∷ "6" ∷ "7" ∷ "8" ∷ "9" ∷ "a" ∷ "b" ∷ "c" ∷ "d" ∷ "e" ∷ "f"
    ∷ []

name_at : ℕ → List String → String
name_at n [] = ""
name_at zero (s ∷ rest) = s
name_at (suc n) (s ∷ rest) = name_at n rest

hex_digit_of : ℕ → String
unfolding digit_names name_at
hex_digit_of n = name_at n digit_names

-- `"%x" % n`, on fuel: a group has at most four digits.
hex_of : ℕ → ℕ → String
unfolding hex_digit_of
hex_of zero n = ""
hex_of (suc fuel) n =
    let front = hex_of fuel (n / 16) in
    if ltb n 16 then hex_digit_of n else front <> hex_digit_of (n % 16)

-- The groups of an address, the lowest `k` of them.
hextets : ℕ → ℕ → List ℕ
unfolding power
hextets zero n = []
hextets (suc k) n = (n / power 65536 k % 65536) ∷ hextets k n

zeros : List ℕ → ℕ
zeros [] = 0
zeros (h ∷ hs) = let more = zeros hs in if eqb h 0 then suc more else 0

-- Where the longest run of zeros starts, the first of them, and how long it is.
longest : List ℕ → ℕ × ℕ
unfolding zeros
longest [] = (0, 0)
longest (h ∷ hs) =
    let (start, length) = longest hs in
    if leb length (zeros (h ∷ hs)) then (0, zeros (h ∷ hs)) else (suc start, length)

take_texts : ℕ → List String → List String
take_texts zero ss = []
take_texts (suc n) [] = []
take_texts (suc n) (s ∷ ss) = s ∷ take_texts n ss

drop_texts : ℕ → List String → List String
drop_texts zero ss = ss
drop_texts (suc n) [] = []
drop_texts (suc n) (s ∷ ss) = drop_texts n ss

-- A run of two or more gives way to an empty text; a run at an end leaves one more there.
compressed : ℕ × ℕ → List String → List String
unfolding take_texts drop_texts
compressed (start, length) ss =
    if ltb 1 length
    then (if eqb start 0 then "" ∷ [] else take_texts start ss)
      ++ ("" ∷ (if eqb (start + length) 8 then "" ∷ [] else drop_texts (start + length) ss))
    else ss

unfoldable pub show_six : ℕ → String
unfolding hextets longest hex_of compressed join
show_six n = let hs = hextets 8 n in join ":" (compressed (longest hs) (map (hex_of 4) hs))

show_four : ℕ → String
unfolding show_ℕ power join
show_four n =
    join "." (map show_ℕ (n / power 256 3 ∷ n / power 256 2 % 256 ∷ n / 256 % 256 ∷ n % 256 ∷ []))

unfoldable pub show_address : Address → String
unfolding show_four show_six
show_address a = if a.is_six then show_six a.value else show_four a.value
