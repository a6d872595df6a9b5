-- ===== src/Prelude/Networks.antt =====
-- Python's `ipaddress.ip_network(…, strict=False)` and `in`, from its documentation.
use Prim.Native.Nat.{ℕ, zero, suc, ◌+◌, ◌-◌, ◌%◌}
use Prim.Native.String.{String}
use mathlib.Core.Bool.{Bool, true, false, ◌&&◌}
use mathlib.Core.Option.{Option, none, some}
use mathlib.Core.List.{List, [], ◌∷◌}
use ansible_install.Prelude.Branch.{leb, eqb, if◌then◌else◌}
use ansible_install.Prelude.Split.{split}
use ansible_install.Prelude.Int.{all_digits, number_from}
use ansible_install.Prelude.Ip.{power, Address, bits, parse_four, six_address}

pub record Network : Type 0 where
  pub is_six : Bool
  pub start : ℕ
  pub prefix : ℕ

-- `n & netmask`, for a netmask that leaves out the low `host` bits.
unfoldable pub masked : ℕ → ℕ → ℕ
unfolding power
masked host n = n - n % power 2 host

-- The length of the prefix in a netmask or a hostmask of version 4.
mask_prefix : ℕ → ℕ → Option ℕ
unfolding power
mask_prefix n zero = if eqb n 0 then some 0 else none
mask_prefix n (suc p) =
    let shorter = mask_prefix n p in
    if eqb (n + power 2 (32 - suc p)) (power 2 32) then some (suc p) else shorter

abbrev first_some : Option ℕ → Option ℕ → Option ℕ
first_some (some n) o = some n
first_some none o = o

prefix_of : Bool → String → Option ℕ
unfolding all_digits number_from parse_four mask_prefix power
prefix_of is_six s =
    if all_digits s && leb (number_from 0 s) (bits is_six)
    then some (number_from 0 s)
    else if is_six
    then none
    else elim (parse_four s) [
      | none ↦ none
      | some n ↦ first_some (mask_prefix n 32) (mask_prefix (power 2 32 - 1 - n) 32)
    ]

abbrev pub network_at : Option Address → Option ℕ → Option Network
unfolding masked
network_at (some a) (some p) =
    some (record { is_six = a.is_six; start = masked (bits a.is_six - p) a.value; prefix = p })
network_at (some a) none = none
network_at none o = none

abbrev four_of : Option ℕ → Option Address
four_of none = none
four_of (some n) = some (record { is_six = false; value = n })

abbrev pub first_network : Option Network → Option Network → Option Network
first_network (some n) o = some n
first_network none o = o

-- The network of the texts around the slash, if there is one.
unfoldable pub network_from : List String → Option Network
unfolding parse_four six_address prefix_of masked
network_from [] = none
network_from (a ∷ []) =
    first_network (network_at (four_of (parse_four a)) (some 32))
      (network_at (six_address a) (some 128))
network_from (a ∷ p ∷ []) =
    first_network (network_at (four_of (parse_four a)) (prefix_of false p))
      (network_at (six_address a) (prefix_of true p))
network_from (a ∷ p ∷ q ∷ rest) = none

-- `ipaddress.ip_network(s, strict=False)`
unfoldable pub ip_network : String → Option Network
unfolding split network_from
ip_network s = network_from (split b'/' s)

-- `address in network`, for an address of the same version
unfoldable pub is_within : Address → Network → Bool
unfolding masked
is_within a n = eqb (masked (bits n.is_six - n.prefix) a.value) n.start
