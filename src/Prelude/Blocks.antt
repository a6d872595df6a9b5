-- ===== src/Prelude/Blocks.antt =====
-- A network is a block of addresses.
use Prim.Native.Nat.{ℕ, zero, suc, ◌+◌, ◌-◌, ◌*◌, ◌/◌, ◌%◌, ◌≤◌, ◌<◌}
use mathlib.Core.Path.{◌≡◌, ap, ◌∙◌, subst}
use mathlib.Core.Logic.{◌↔◌}
use native.Mathlib.Omega.{arith}
use native.Mathlib.Nat.{
  mod-lt, mod-le, mod-add-div, mul-mod_right, mul-add-mod_self_left, mod-eq_of_lt,
}
use Prim.Native.String.{String}
use mathlib.Core.Bool.{true}
use mathlib.Core.Option.{Option, none, some}
use mathlib.Core.List.{List, [], ◌∷◌}
use ansible_install.Prelude.Branch.{eqb}
use ansible_install.Prelude.Split.{split}
use ansible_install.Prelude.Ip.{power, Address, bits}
use ansible_install.Prelude.Networks.{
  Network, masked, network_at, first_network, network_from, ip_network, is_within,
}

pub power-positive : (n : ℕ) → 0 < power 2 n
unfolding power
power-positive zero = ground arith
power-positive (suc n) = ground (arith, power-positive n)

-- A network starts at an address whose bits behind the prefix are 0.
abbrev pub IsBlock : Network → Type 0
IsBlock n = n.start % power 2 (bits n.is_six - n.prefix) ≡ 0

left_over : (r q n : ℕ) → r + q ≡ n → n - r ≡ q
left_over r q n h = ground arith

whole_blocks : (m n : ℕ) → 0 < m → (n - n % m) % m ≡ 0
whole_blocks m n h =
    ap (λ x. x % m) (left_over (n % m) (m * (n / m)) n (mod-add-div n m)) ∙ mul-mod_right m (n / m)

masked-mod : (host n : ℕ) → masked host n % power 2 host ≡ 0
unfolding masked
masked-mod host n = whole_blocks (power 2 host) n (power-positive host)

network_at-IsBlock :
    (a : Option Address) (p : Option ℕ) (n : Network) → network_at a p ≡ some n → IsBlock n
unfolding masked
network_at-IsBlock none p n h = absurd (ground arith)
network_at-IsBlock (some a) none n h = absurd (ground arith)
network_at-IsBlock (some a) (some p) n h =
    subst IsBlock (ap (λ o. elim o [ none ↦ n | some x ↦ x ]) h)
      (masked-mod (bits a.is_six - p) a.value)

first_network-IsBlock :
    (o r : Option Network) (n : Network)
    → (o ≡ some n → IsBlock n)
    → (r ≡ some n → IsBlock n)
    → first_network o r ≡ some n
    → IsBlock n
first_network-IsBlock none r n h k e = k e
first_network-IsBlock (some m) r n h k e = h e

network_from-IsBlock : (parts : List String) (n : Network) → network_from parts ≡ some n → IsBlock n
unfolding network_from
network_from-IsBlock [] n h = absurd (ground arith)
network_from-IsBlock (a ∷ []) n h =
    first_network-IsBlock _ _ n (network_at-IsBlock _ _ n) (network_at-IsBlock _ _ n) h
network_from-IsBlock (a ∷ p ∷ []) n h =
    first_network-IsBlock _ _ n (network_at-IsBlock _ _ n) (network_at-IsBlock _ _ n) h
network_from-IsBlock (a ∷ p ∷ q ∷ rest) n h = absurd (ground arith)

pub ip_network-IsBlock : (s : String) (n : Network) → ip_network s ≡ some n → IsBlock n
unfolding ip_network
ip_network-IsBlock s n = network_from-IsBlock (split b'/' s) n

-- The multiples of `m` that are at most `v` end with the one that is less than `m` away.
below_next : (m s v : ℕ) → 0 < m → v - v % m ≡ s → (s ≤ v) × (v < s + m)
below_next m s v h e = (ground (arith, mod-le v m), ground (arith, mod-lt v h, mod-le v m))

no_rest : (r q n : ℕ) → r + q ≡ n → r ≡ 0 → n ≡ q
no_rest r q n h e = ground arith

last_multiple : (m s v : ℕ) → 0 < m → s % m ≡ 0 → s ≤ v → v < s + m → v - v % m ≡ s
last_multiple m s v h b le lt = ap (λ x. v - x) rest ∙ ground arith
  where
    multiple : s ≡ m * (s / m)
    multiple = no_rest (s % m) (m * (s / m)) s (mod-add-div s m) b

    split_off : v ≡ m * (s / m) + (v - s)
    split_off = ground (arith, multiple)

    rest : v % m ≡ v - s
    rest =
        ap (λ x. x % m) split_off
        ∙ mul-add-mod_self_left m (s / m) (v - s)
        ∙ mod-eq_of_lt (ground arith)

eqb→≡ : (m n : ℕ) → eqb m n ≡ true → m ≡ n
eqb→≡ m n h = ground arith

≡→eqb : (m n : ℕ) → m ≡ n → eqb m n ≡ true
≡→eqb m n h = ground arith

-- An address lies in a network exactly if it is one of those from its first to its last.
pub is_within-range :
    (a : Address) (n : Network)
    → IsBlock n
    → (is_within a n ≡ true)
      ↔ ((n.start ≤ a.value) × (a.value < n.start + power 2 (bits n.is_six - n.prefix)))
unfolding is_within masked
is_within-range a n block =
    let host = bits n.is_six - n.prefix in
    (
      λ h. below_next (power 2 host) n.start a.value (power-positive host) (eqb→≡ _ _ h),
      λ (le, lt).
          ≡→eqb _ _
            (last_multiple (power 2 host) n.start a.value (power-positive host) block le lt),
    )
