-- ===== src/Preflight/Ipv6.antt =====
-- roles/preflight/filter_plugins/preflight_ipv6.py: the addresses that a host may have.
use ansible_install.Prelude.{
  ℕ, String, ◌<>◌, Bool, true, not, Option, none, some, List, [], ◌∷◌, ◌++◌, ◌==◌, ◌/◌, eqb,
  if◌then◌else◌,
}
use ansible_install.Prelude.Text.{strip, has}
use ansible_install.Prelude.Json.{Json, null, bool, num, str, arr, obj}
use ansible_install.Prelude.Repr.{str_of}
use ansible_install.Prelude.Ip.{power, Address, six_address}
use ansible_install.Prelude.Canonical.{show_six}

-- A test of the filter, with the sentence that it returns.
abbrev pub Test : Type 0
Test = Bool × String

-- The guards in order: the sentence of the first test that holds.
unfoldable pub first_problem : List Test → String
first_problem [] = ""
first_problem ((test, sentence) ∷ rest) = if test then sentence else first_problem rest

unfoldable pub text_tests : String → List Test
unfolding strip has
text_tests s =
    (not (strip s == s), "it has leading or trailing whitespace")
    ∷ (strip s == "", "it is empty")
    ∷ (
      has b'/' (strip s),
      "it carries a prefix length; give the single address, without /128 or /64",
    )
    ∷ (has b'%' (strip s), "it carries a zone index (%...), which only a link-local address has")
    ∷ []

-- The bits above the lowest `low` ones.
unfoldable pub above : ℕ → ℕ → ℕ
unfolding power
above low n = n / power 2 low

-- The tests of an address, `none` for a text that is none.
unfoldable pub address_tests : String → Option Address → List Test
unfolding above show_six
address_tests s none = (true, "it is not an IPv6 address") ∷ []
address_tests s (some a) =
    (
      eqb (above 32 a.value) 65535,
      "it is an IPv4-mapped address; put the IPv4 address in public_ip instead",
    )
    ∷ (eqb a.value 0, "it is the unspecified address ::")
    ∷ (eqb a.value 1, "it is the loopback address ::1")
    ∷ (
      eqb (above 118 a.value) 1018,
      "it is link-local (fe80::/10), which is never reachable from outside its link",
    )
    ∷ (eqb (above 120 a.value) 255, "it is a multicast address")
    ∷ (eqb (above 118 a.value) 1019, "it is a deprecated site-local address (fec0::/10)")
    ∷ (
      not (s == show_six a.value),
      "it is not written in canonical (RFC 5952) form; write it as "
          <> (show_six a.value
              <> " -- PowerDNS and dig print that form, and the provisioner compares addresses as text"),
    )
    ∷ []

unfoldable pub text_problem_of : String → String
unfolding first_problem text_tests address_tests six_address strip
text_problem_of s = first_problem (text_tests s ++ address_tests (strip s) (six_address (strip s)))

-- `cs_ipv6_problem`
unfoldable pub ipv6_problem : Json → String
unfolding text_problem_of str_of
ipv6_problem null = "it is empty"
ipv6_problem (str s) = text_problem_of s
ipv6_problem (bool b) = text_problem_of (str_of (bool b))
ipv6_problem (num n) = text_problem_of (str_of (num n))
ipv6_problem (arr xs) = text_problem_of (str_of (arr xs))
ipv6_problem (obj doc) = text_problem_of (str_of (obj doc))
