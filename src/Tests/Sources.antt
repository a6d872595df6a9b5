-- ===== src/Tests/Sources.antt =====
-- Sources of ssh connections and accept lists.
use ansible_install.Prelude.{
  ◌≡◌, refl, ◌↔◌, ◌⊎◌, ◌++◌, String, Bool, true, false, some, List, [], ◌∷◌, ◌==◌,
}
use ansible_install.Prelude.Text.{strip, cut, has, count, starts_with}
use ansible_install.Prelude.Split.{split}
use ansible_install.Prelude.Int.{all_digits, number_from}
use ansible_install.Prelude.Json.{Json, str, truthy}
use ansible_install.Prelude.Repr.{str_of}
use ansible_install.Prelude.Ip.{
  power, Address, parse_four, parse_six, is_gap, six_address, ip_address,
}
use ansible_install.Prelude.Networks.{masked, network_from, ip_network, is_within}
use ansible_install.Preflight.Sources.{
  loopback, given_text, unzoned, address_of, network_of, unparsed, accepts, accepted_by, covered,
}
use ansible_install.Preflight.Laws.Covering.{Some, covered_iff}

abbrev offices : List Json
offices = str "192.0.2.0/24" ∷ str "10.1.0.9/255.255.0.0" ∷ str "2001:db8::/32" ∷ str "bastion" ∷ []

unfoldable is_covered : String → Bool
unfolding covered address_of accepted_by accepts network_of unzoned given_text ip_network
    network_from ip_address six_address parse_six parse_four is_gap masked is_within power strip cut
    has count starts_with split all_digits number_from truthy str_of ◌==◌
is_covered source = covered (str source) offices []

four_run : is_covered " 192.0.2.77" ≡ true
unfolding is_covered
four_run = refl

mapped_run : is_covered "::ffff:192.0.2.77" ≡ true
unfolding is_covered
mapped_run = refl

mask_run : is_covered "10.1.255.255" ≡ true
unfolding is_covered
mask_run = refl

outside_run : is_covered "10.2.0.0" ≡ false
unfolding is_covered
outside_run = refl

six_run : is_covered "2001:DB8:0:1::5%eth0" ≡ true
unfolding is_covered
six_run = refl

two_gaps_run : is_covered "2001:db8::1::5" ≡ false
unfolding is_covered
two_gaps_run = refl

loopback_run : is_covered "::1" ≡ true
unfolding is_covered
loopback_run = refl

unparsed_run : unparsed offices ≡ "bastion" ∷ []
unfolding unparsed network_of given_text ip_network network_from six_address parse_six parse_four
    is_gap masked power strip cut has count starts_with split all_digits number_from truthy str_of
    ◌==◌
unparsed_run = refl

covered_iff_example : (covered (str "192.0.2.77") offices [] ≡ true) ↔ (
    (offices ≡ [])
    ⊎ ((a : Address) × (address_of (str "192.0.2.77") ≡ some a)
        × Some a (offices ++ ([] ++ loopback))))
covered_iff_example = covered_iff (str "192.0.2.77") offices []
