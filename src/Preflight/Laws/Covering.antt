-- ===== src/Preflight/Laws/Covering.antt =====
-- roles/preflight/filter_plugins/preflight_ssh.py: which sources are covered.
use ansible_install.Prelude.{
  ◌≡◌, refl, ap, ◌∙◌, ◌↔◌, ◌⊎◌, inl, inr, ◌≤◌, ◌<◌, ◌+◌, ◌-◌, Bool, true, false, Option, none, some,
  List, [], ◌∷◌, ◌++◌, ◌&&◌, if◌then◌else◌, arith, Bool-cases, Option-cases, and-eq-true,
}
use mathlib.Core.Path.{subst}
use ansible_install.Prelude.Json.{Json}
use ansible_install.Prelude.Ip.{power, Address, bits}
use ansible_install.Prelude.Networks.{Network, is_within}
use ansible_install.Prelude.Blocks.{IsBlock, ip_network-IsBlock, is_within-range}
use ansible_install.Preflight.Sources.{
  loopback, given_text, address_of, network_of, same_version, accepts, accepted_by, accepts_from,
  covered,
}

-- The entry is an address or a network of the same version, and the address is one of its own.
pub record Holds (address : Address) (entry : Json) : Type 0 where
  pub network : Network
  pub parsed : network_of entry ≡ some network
  pub version : network.is_six ≡ address.is_six
  pub from_start : network.start ≤ address.value
  pub to_end : address.value < network.start + power 2 (bits network.is_six - network.prefix)

pub data Some (address : Address) : List Json → Type 0 where
  here : {e : Json} {rest : List Json} → Holds address e → Some address (e ∷ rest)
  there : {e : Json} {rest : List Json} → Some address rest → Some address (e ∷ rest)

same_version-eq : (a b : Bool) → (same_version a b ≡ true) ↔ (a ≡ b)
same_version-eq a b = ground arith

network_of-IsBlock : (e : Json) (n : Network) → network_of e ≡ some n → IsBlock n
unfolding network_of
network_of-IsBlock e n = ip_network-IsBlock (given_text e) n

accepts-Holds : (a : Address) (e : Json) → accepts a (network_of e) ≡ true → Holds a e
unfolding accepts
accepts-Holds a e h = elim (Option-cases (network_of e)) [
  | inl o ↦ absurd (ground (arith, subst (λ x. accepts a x ≡ true) o h))
  | inr (n, o) ↦
      let (version, within) =
        and-eq-true (same_version n.is_six a.is_six) (is_within a n)
          (subst (λ x. accepts a x ≡ true) o h) in
      let (low, high) = (is_within-range a n (network_of-IsBlock e n o)).0 within in
      record {
        network = n;
        parsed = o;
        version = (same_version-eq n.is_six a.is_six).0 version;
        from_start = low;
        to_end = high;
      }
]

both_tests : (a b : Bool) → a ≡ true → b ≡ true → (a && b) ≡ true
both_tests a b h k = ground arith

Holds-accepts : (a : Address) (e : Json) → Holds a e → accepts a (network_of e) ≡ true
unfolding accepts
Holds-accepts a e r =
    ap (accepts a) r.parsed
    ∙ both_tests _ _ ((same_version-eq r.network.is_six a.is_six).1 r.version) (
        (is_within-range a r.network (network_of-IsBlock e r.network r.parsed)).1
          (r.from_start, r.to_end))

accepted_by-Some : (a : Address) (es : List Json) → (accepted_by a es ≡ true) → Some a es
unfolding accepted_by
accepted_by-Some a [] h = absurd (ground arith)
accepted_by-Some a (e ∷ es) h = elim (Bool-cases (accepts a (network_of e))) [
  | inl t ↦ here (accepts-Holds a e t)
  | inr f ↦ there (accepted_by-Some a es (later f h))
]
  where
    later :
        accepts a (network_of e) ≡ false
        → (if accepts a (network_of e) then true else accepted_by a es) ≡ true
        → accepted_by a es ≡ true
    later f h = ground arith

Some-accepted_by : (a : Address) (es : List Json) → Some a es → accepted_by a es ≡ true
unfolding accepted_by
Some-accepted_by a [] r = elim r [ ]
Some-accepted_by a (e ∷ es) (here r) = rw (Holds-accepts a e r) refl
Some-accepted_by a (e ∷ es) (there r) = ground (arith, Some-accepted_by a es r)

accepts_from-Some :
    (o : Option Address) (es : List Json)
    → accepts_from o es ≡ true
    → (a : Address) × (o ≡ some a) × Some a es
unfolding accepted_by
accepts_from-Some none es h = absurd (ground arith)
accepts_from-Some (some a) es h = (a, refl, accepted_by-Some a es h)

-- A source is covered exactly if the accept list is empty, or the source is an address and an
-- entry of the list, of the further entries or of the loopback networks holds that address.
pub covered_iff :
    (source : Json) (allow_from also : List Json)
    → (covered source allow_from also ≡ true) ↔ (
        (allow_from ≡ [])
        ⊎ ((a : Address) × (address_of source ≡ some a)
            × Some a (allow_from ++ (also ++ loopback))))
unfolding covered
covered_iff source [] also = (λ h. inl refl, λ h. refl)
covered_iff source (e ∷ es) also = (
  λ h. inr (accepts_from-Some (address_of source) ((e ∷ es) ++ (also ++ loopback)) h),
  λ h. elim h [
    | inl o ↦ absurd (ground arith)
    | inr (a, o, r) ↦
        ap (λ x. accepts_from x ((e ∷ es) ++ (also ++ loopback))) o ∙ Some-accepted_by a _ r
  ],
)
