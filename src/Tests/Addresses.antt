-- ===== src/Tests/Addresses.antt =====
-- Public addresses and ssh connections on concrete texts.
use ansible_install.Prelude.{◌≡◌, refl, ◌↔◌, String, ◌==◌}
use ansible_install.Prelude.Text.{strip, cut, has, count, starts_with, is_space}
use ansible_install.Prelude.Split.{split, join, words}
use ansible_install.Prelude.Int.{pos, all_digits, number_from, parse_int, show_ℕ}
use ansible_install.Prelude.Json.{str, truthy}
use ansible_install.Prelude.Repr.{str_of}
use ansible_install.Prelude.Ip.{power, parse_four, parse_six, is_gap, six_address, ip_address}
use ansible_install.Prelude.Canonical.{show_six, show_address}
use ansible_install.Preflight.Ipv6.{
  first_problem, text_tests, above, address_tests, text_problem_of, ipv6_problem,
}
use ansible_install.Preflight.Sources.{given_text, unzoned, address_of, shown, connection}
use ansible_install.Preflight.Laws.Public.{IsPublic, ipv6_problem-IsPublic}

unfoldable problem : String → String
unfolding ipv6_problem text_problem_of first_problem text_tests above address_tests show_six
    six_address parse_six parse_four is_gap power strip cut has count starts_with split join
    all_digits number_from ◌==◌
problem s = ipv6_problem (str s)

accepted_run : problem "2001:db8::1:0:0:1" ≡ ""
unfolding problem
accepted_run = refl

canonical_run :
    problem "2001:DB8:0:0:1:0:0:1"
    ≡ "it is not written in canonical (RFC 5952) form; write it as 2001:db8::1:0:0:1 -- PowerDNS and dig print that form, and the provisioner compares addresses as text"
unfolding problem
canonical_run = refl

mapped_run :
    problem "::ffff:192.0.2.1"
    ≡ "it is an IPv4-mapped address; put the IPv4 address in public_ip instead"
unfolding problem
mapped_run = refl

local_run :
    problem "febf::1"
    ≡ "it is link-local (fe80::/10), which is never reachable from outside its link"
unfolding problem
local_run = refl

unspecified_run : problem "::" ≡ "it is the unspecified address ::"
unfolding problem
unspecified_run = refl

connection_run :
    connection (str "::ffff:192.0.2.10 50022 10.0.0.1 22")
    ≡ record { address = "192.0.2.10"; port = pos 50022 }
unfolding connection shown show_address address_of unzoned given_text ip_address six_address
    parse_six parse_four is_gap power strip cut has count starts_with split join words all_digits
    number_from parse_int show_ℕ truthy str_of is_space ◌==◌
connection_run = refl

ipv6_problem-IsPublic_example : (ipv6_problem (str "2001:db8::1") ≡ "") ↔ IsPublic "2001:db8::1"
ipv6_problem-IsPublic_example = ipv6_problem-IsPublic "2001:db8::1"
