-- ===== src/CsAgent/Laws/Rules.antt =====
-- When each check of the export settings passes.
use ansible_install.Prelude.{
  ◌≡◌, ◌≢◌, refl, ◌↔◌, ◌⊎◌, String, ◌<>◌, true, false, Option, none, some, List, [], ◌++◌, eq→≡,
  ≡→eq, arith,
}
use ansible_install.Prelude.Text.{starts_with}
use ansible_install.Prelude.Split.{mem}
use ansible_install.Prelude.Int.{ℤ, lt_int}
use ansible_install.Prelude.Json.{Fields, value_of}
use ansible_install.CsAgent.Laws.Numbers.{append-nil}
use ansible_install.CsAgent.Export.{
  sse_values, is_on, text_of, region_problems, key_problems, endpoint_problems, sse_problems,
  ttl_between, retention_between,
}

-- The secret is given, and is not the placeholder of the sample file.
abbrev pub HasKey : Fields → String → Type 0
HasKey cfg key =
    (is_on (value_of cfg (key <> "_set")) ≡ true)
    × (is_on (value_of cfg (key <> "_placeholder")) ≡ false)

pub key_problems-nil : (cfg : Fields) (key : String) → (key_problems cfg key ≡ []) ↔ HasKey cfg key
unfolding key_problems
key_problems-nil cfg key = ground arith

pub region_problems-nil :
    (cfg : Fields) → (region_problems cfg ≡ []) ↔ (text_of (value_of cfg "region") ≢ "")
unfolding region_problems
region_problems-nil cfg =
    ground
      (arith, eq→≡ (text_of (value_of cfg "region")) "", ≡→eq (text_of (value_of cfg "region")) "")

pub endpoint_problems-nil :
    (cfg : Fields)
    → (endpoint_problems cfg ≡ []) ↔ (
        (text_of (value_of cfg "endpoint") ≡ "")
        ⊎ (starts_with (text_of (value_of cfg "endpoint")) "https://" ≡ true))
unfolding endpoint_problems
endpoint_problems-nil cfg = ground (
  arith,
  eq→≡ (text_of (value_of cfg "endpoint")) "",
  ≡→eq (text_of (value_of cfg "endpoint")) "",
)

pub sse_problems-nil :
    (cfg : Fields)
    → (sse_problems cfg ≡ []) ↔ (mem (text_of (value_of cfg "sse")) sse_values ≡ true)
unfolding sse_problems
sse_problems-nil cfg = ground arith

pub ttl_between-nil :
    (o q : Option ℤ)
    → (ttl_between o q ≡ [])
      ↔ ((default max : ℤ) → o ≡ some default → q ≡ some max → lt_int max default ≡ false)
unfolding ttl_between
ttl_between-nil none q = (λ h d m e. absurd (cc), λ h. refl)
ttl_between-nil (some d) none = (λ h d' m e f. absurd (cc), λ h. refl)
ttl_between-nil (some d) (some m) =
    (λ h d' m' e f. ground arith, λ h. ground (arith, h d m refl refl))

pub retention_between-nil :
    (o q : Option ℤ)
    → (retention_between o q ≡ [])
      ↔ ((max retention : ℤ) → o ≡ some max → q ≡ some retention → lt_int max retention ≡ true)
unfolding retention_between
retention_between-nil none q = (λ h d m e. absurd (cc), λ h. refl)
retention_between-nil (some d) none = (λ h d' m e f. absurd (cc), λ h. refl)
retention_between-nil (some d) (some m) =
    (λ h d' m' e f. ground arith, λ h. ground (arith, h d m refl refl))

pub append-nil_five :
    (a b c d e : List String)
    → (a ++ b ++ c ++ d ++ e ≡ []) ↔ ((a ≡ []) × (b ≡ []) × (c ≡ []) × (d ≡ []) × (e ≡ []))
append-nil_five a b c d e = ground (
  arith,
  append-nil a b,
  append-nil (a ++ b) c,
  append-nil (a ++ b ++ c) d,
  append-nil (a ++ b ++ c ++ d) e,
)
