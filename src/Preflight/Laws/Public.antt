-- ===== src/Preflight/Laws/Public.antt =====
-- roles/preflight/filter_plugins/preflight_ipv6.py: which texts are accepted.
use ansible_install.Prelude.{
  ℕ, String, Bool, true, false, not, Option, none, some, List, [], ◌∷◌, ◌++◌, ◌==◌, eqb, ◌≡◌, ◌≢◌,
  refl, sym, ap, ◌↔◌, arith, eq→≡, ≡→eq,
}
use mathlib.Core.Path.{subst}
use ansible_install.Prelude.Text.{strip, has}
use ansible_install.Prelude.Pieces.{left-nonempty}
use ansible_install.Prelude.Lists.{All}
use ansible_install.Prelude.Json.{str}
use ansible_install.Prelude.Ip.{Address, six_address}
use ansible_install.Prelude.Canonical.{show_six}
use ansible_install.Preflight.Ipv6.{
  Test, first_problem, text_tests, above, address_tests, text_problem_of, ipv6_problem,
}

-- A single public address in the form that is compared as text.
pub record IsPublic (s : String) : Type 0 where
  pub bare : strip s ≡ s
  pub given : (s == "") ≡ false
  pub no_prefix : has b'/' s ≡ false
  pub no_zone : has b'%' s ≡ false
  pub address : Address
  pub parsed : six_address s ≡ some address
  pub not_mapped : above 32 address.value ≢ 65535
  pub specified : address.value ≢ 0
  pub not_loopback : address.value ≢ 1
  pub not_link_local : above 118 address.value ≢ 1018
  pub not_multicast : above 120 address.value ≢ 255
  pub not_site_local : above 118 address.value ≢ 1019
  pub canonical : s ≡ show_six address.value

abbrev Worded : Test → Type 0
Worded t = (t.1 == "") ≡ false

abbrev Fails : Test → Type 0
Fails t = t.0 ≡ false

first_problem-nil : (ts : List Test) → All Worded ts → (first_problem ts ≡ "") ↔ All Fails ts
unfolding first_problem
first_problem-nil [] w = (λ h. tt, λ h. refl)
first_problem-nil ((true, sentence) ∷ ts) (w, ws) =
    (λ h. absurd (ground (arith, ≡→eq sentence "" h)), λ h. absurd (ground arith))
first_problem-nil ((false, sentence) ∷ ts) (w, ws) =
    let (there, back) = first_problem-nil ts ws in (λ h. (refl, there h), λ h. back h.1)

differ : (m n : ℕ) → (eqb m n ≡ false) ↔ (m ≢ n)
differ m n = ground arith

negated : (b : Bool) → not b ≡ false → b ≡ true
negated b h = ground arith

accepted :
    (s : String) (a : Address)
    → All Fails (address_tests s (some a))
    → six_address s ≡ some a
    → strip s ≡ s
    → (s == "") ≡ false
    → has b'/' s ≡ false
    → has b'%' s ≡ false
    → IsPublic s
unfolding address_tests
accepted s a (mapped, (zero, (one, (link, (multi, (site, (canonical, _))))))) parsed bare given
      slash zone =
    record {
      bare = bare;
      given = given;
      no_prefix = slash;
      no_zone = zone;
      address = a;
      parsed = parsed;
      not_mapped = (differ _ _).0 mapped;
      specified = (differ _ _).0 zero;
      not_loopback = (differ _ _).0 one;
      not_link_local = (differ _ _).0 link;
      not_multicast = (differ _ _).0 multi;
      not_site_local = (differ _ _).0 site;
      canonical = eq→≡ s (show_six a.value) (negated _ canonical);
    }

address_tests-Worded : (s : String) (o : Option Address) → All Worded (address_tests s o)
unfolding address_tests ◌==◌
address_tests-Worded s none = (refl, tt)
address_tests-Worded s (some a) = (
  refl,
  (
    refl,
    (
      refl,
      (
        refl,
        (
          refl,
          (
            refl,
            (
              left-nonempty "it is not written in canonical (RFC 5952) form; write it as " _ refl,
              tt,
            ),
          ),
        ),
      ),
    ),
  ),
)

text_tests-Worded : (s : String) (ts : List Test) → All Worded ts → All Worded (text_tests s ++ ts)
unfolding text_tests ◌==◌
text_tests-Worded s ts h = (refl, (refl, (refl, (refl, h))))

-- What the tests of the text say, with the rest of the tests.
read_text :
    (s : String) (ts : List Test)
    → All Fails (text_tests s ++ ts)
    → (strip s ≡ s)
      × ((strip s == "") ≡ false)
      × (has b'/' (strip s) ≡ false)
      × (has b'%' (strip s) ≡ false)
      × All Fails ts
unfolding text_tests
read_text s ts (bare, (empty, (slash, (zone, rest)))) =
    (eq→≡ (strip s) s (negated _ bare), empty, slash, zone, rest)

read_address :
    (s : String) (o : Option Address)
    → six_address s ≡ o
    → All Fails (address_tests s o)
    → (a : Address) × (six_address s ≡ some a) × All Fails (address_tests s (some a))
unfolding address_tests
read_address s none e h = absurd (ground arith)
read_address s (some a) e h = (a, e, h)

positive_test : (b : Bool) → b ≡ true → not b ≡ false
positive_test b h = ground arith

address-Fails : (s : String) → IsPublic s → All Fails (address_tests s (six_address s))
unfolding address_tests
address-Fails s p =
    subst (λ o. All Fails (address_tests s o)) (sym p.parsed)
      (
        (differ _ _).1 p.not_mapped,
        (
          (differ _ _).1 p.specified,
          (
            (differ _ _).1 p.not_loopback,
            (
              (differ _ _).1 p.not_link_local,
              (
                (differ _ _).1 p.not_multicast,
                (
                  (differ _ _).1 p.not_site_local,
                  (positive_test _ (≡→eq s (show_six p.address.value) p.canonical), tt),
                ),
              ),
            ),
          ),
        ),
      )

text-Fails :
    (s : String) (ts : List Test) → IsPublic s → All Fails ts → All Fails (text_tests s ++ ts)
unfolding text_tests
text-Fails s ts p h = (
  positive_test _ (≡→eq (strip s) s p.bare),
  (
    subst (λ t. (t == "") ≡ false) (sym p.bare) p.given,
    (
      subst (λ t. has b'/' t ≡ false) (sym p.bare) p.no_prefix,
      (subst (λ t. has b'%' t ≡ false) (sym p.bare) p.no_zone, h),
    ),
  ),
)

-- A text is accepted exactly if it is a public address in canonical form.
pub ipv6_problem-IsPublic : (s : String) → (ipv6_problem (str s) ≡ "") ↔ IsPublic s
unfolding ipv6_problem text_problem_of
ipv6_problem-IsPublic s =
    let tests = address_tests (strip s) (six_address (strip s)) in
    let (there, back) =
      first_problem-nil (text_tests s ++ tests)
        (text_tests-Worded s tests (address_tests-Worded (strip s) (six_address (strip s)))) in
    (
      λ h.
          let (bare, given, slash, zone, rest) = read_text s tests (there h) in
          let (a, parsed, fails) = read_address (strip s) (six_address (strip s)) refl rest in
          subst IsPublic bare (accepted (strip s) a fails parsed (ap strip bare) given slash zone),
      λ p. back (
          text-Fails s tests p (
            subst (λ t. All Fails (address_tests t (six_address t))) (sym p.bare)
              (address-Fails s p))),
    )
