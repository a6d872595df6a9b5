-- ===== src/Prelude/Ip.antt =====
-- Python's `ipaddress`: `ip_address`, `ip_network(…, strict=False)` and `in`, from its documentation.
-- `none` is the ValueError.
use Prim.Native.Nat.{ℕ, zero, suc, ◌+◌, ◌-◌, ◌*◌, ◌/◌, ◌%◌}
use Prim.Native.Char.{code}
use Prim.Native.String.{String}
use mathlib.Core.Bool.{Bool, true, false, ◌&&◌, ◌||◌, not}
use mathlib.Core.Option.{Option, none, some}
use mathlib.Core.List.{List, [], ◌∷◌}
use ansible_install.Prelude.Branch.{leb, eqb, ltb, if◌then◌else◌}
use ansible_install.Prelude.Text.{◌==◌, has, cut, count, starts_with}
use ansible_install.Prelude.Split.{split}
use ansible_install.Prelude.Lists.{length}
use ansible_install.Prelude.Int.{all_digits, number_from}

unfoldable pub power : ℕ → ℕ → ℕ
power b zero = 1
power b (suc n) = b * power b n

pub record Address : Type 0 where
  pub is_six : Bool
  pub value : ℕ

abbrev pub bits : Bool → ℕ
bits is_six = if is_six then 128 else 32

-- An octet has at most three ASCII digits, and no zero in front.
octet : String → Option ℕ
unfolding all_digits number_from count starts_with
octet s =
    if not (all_digits s)
      || ltb 3 (count s)
      || (starts_with s "0" && not (s == "0"))
      || ltb 255 (number_from 0 s)
    then none
    else some (number_from 0 s)

octets : ℕ → List String → Option ℕ
unfolding octet
octets acc [] = some acc
octets acc (s ∷ rest) = elim (octet s) [ none ↦ none | some n ↦ octets (acc * 256 + n) rest ]

unfoldable pub parse_four : String → Option ℕ
unfolding split octets
parse_four s = let parts = split b'.' s in if eqb (length parts) 4 then octets 0 parts else none

-- A group of an IPv6 address, or one of the two that a last IPv4 address stands for.
pub data Part : Type 0 where
  text : String → Part
  number : ℕ → Part

hex_digit : ℕ → Option ℕ
hex_digit c =
    if leb b'0' c && leb c b'9'
    then some (c - 48)
    else if leb b'a' c && leb c b'f'
    then some (c - 87)
    else if leb b'A' c && leb c b'F'
    then some (c - 55)
    else none

hex_from : ℕ → String → Option ℕ
unfolding hex_digit
hex_from acc String.[] = some acc
hex_from acc (String.◌∷◌ c s) = elim (hex_digit (code c)) [
  | none ↦ none
  | some d ↦ hex_from (acc * 16 + d) s
]

group : Part → Option ℕ
unfolding hex_from count
group (number n) = some n
group (text s) = if s == "" || ltb 4 (count s) then none else hex_from 0 s

groups : ℕ → List Part → Option ℕ
unfolding group
groups acc [] = some acc
groups acc (p ∷ rest) = elim (group p) [ none ↦ none | some n ↦ groups (acc * 65536 + n) rest ]

-- The groups, with an IPv4 address in the last place taken apart.
parts_of : List String → Option (List Part)
unfolding parse_four has
parts_of [] = some []
parts_of (s ∷ []) =
    if has b'.' s
    then elim (parse_four s) [
      | none ↦ none
      | some n ↦ some (number (n / 65536) ∷ number (n % 65536) ∷ [])
    ]
    else some (text s ∷ [])
parts_of (s ∷ t ∷ rest) = elim (parts_of (t ∷ rest)) [ none ↦ none | some ps ↦ some (text s ∷ ps) ]

unfoldable pub is_gap : Part → Bool
is_gap (number n) = false
is_gap (text s) = s == ""

abbrev with_high : Part → Option (List Part × List Part) → Option (List Part × List Part)
with_high p none = none
with_high p (some (high, low)) = some (p ∷ high, low)

-- The groups around the first one that is empty, the last one aside.
gap : List Part → Option (List Part × List Part)
unfolding is_gap
gap [] = none
gap (p ∷ []) = none
gap (p ∷ q ∷ rest) =
    let later = gap (q ∷ rest) in if is_gap p then some ([], q ∷ rest) else with_high p later

-- The groups next to the gap: an empty one at the end of the address is alone there.
last_is_gap : List Part → Bool
unfolding is_gap
last_is_gap [] = false
last_is_gap (p ∷ []) = is_gap p
last_is_gap (p ∷ q ∷ rest) = last_is_gap (q ∷ rest)

side : Bool → List Part → Option (List Part)
side at_end ps = if at_end then (if eqb (length ps) 1 then some [] else none) else some ps

around : List Part → List Part → Option ℕ
unfolding groups power
around high low =
    let given = length high + length low in
    if ltb 7 given
    then none
    else elim (groups 0 high) [ none ↦ none | some n ↦ groups (n * power 65536 (8 - given)) low ]

six_from : List Part → Option ℕ
unfolding gap groups is_gap last_is_gap side around
six_from [] = none
six_from (first ∷ rest) = elim (gap rest) [
  | none ↦ if not (eqb (length rest) 7) then none else groups 0 (first ∷ rest)
  | some (high, low) ↦ elim (gap low) [
    | some again ↦ none
    | none ↦ elim (side (is_gap first) (first ∷ high)) [
      | none ↦ none
      | some above ↦ elim (side (last_is_gap low) low) [
        | none ↦ none
        | some below ↦ around above below
      ]
    ]
  ]
]

unfoldable pub parse_six : String → Option ℕ
unfolding split parts_of six_from
parse_six s =
    let found = split b':' s in
    if ltb (length found) 3 then none else elim (parts_of found) [
      | none ↦ none
      | some ps ↦ if ltb 9 (length ps) then none else six_from ps
    ]

-- The address without its zone, which is neither empty nor has a second "%".
without_zone : String → Option String
unfolding cut has
without_zone s = elim (cut b'%' s) [
  | none ↦ some s
  | some (before, zone) ↦ if zone == "" || has b'%' zone then none else some before
]

abbrev six_of : Option ℕ → Option Address
six_of none = none
six_of (some n) = some (record { is_six = true; value = n })

unfoldable pub six_address : String → Option Address
unfolding has without_zone parse_six
six_address s =
    if has b'/' s
    then none
    else elim (without_zone s) [ none ↦ none | some before ↦ six_of (parse_six before) ]

-- `ipaddress.ip_address(s)`
unfoldable pub ip_address : String → Option Address
unfolding parse_four six_address
ip_address s = elim (parse_four s) [
  | some n ↦ some (record { is_six = false; value = n })
  | none ↦ six_address s
]

-- `address.ipv4_mapped`, for an address of version 6
abbrev pub ipv4_mapped : Address → Option Address
unfolding power
ipv4_mapped a =
    if a.is_six && eqb (a.value / power 2 32) 65535
    then some (record { is_six = false; value = a.value % power 2 32 })
    else none
