-- ===== src/CsAgent/Laws/Accepted.antt =====
-- Which export settings have no problem.
use ansible_install.Prelude.{
  ◌≡◌, ◌≢◌, refl, ◌↔◌, ◌⊎◌, inl, inr, String, true, false, some, List, [], ◌++◌, ◌==◌, eq→≡, ≡→eq,
  arith, Bool-cases,
}
use ansible_install.Prelude.Text.{starts_with}
use ansible_install.Prelude.Split.{mem}
use ansible_install.Prelude.Lists.{All}
use ansible_install.Prelude.Dict.{get}
use ansible_install.Prelude.Int.{ℤ, lt_int}
use ansible_install.Prelude.Json.{Json, Fields, value_of}
use ansible_install.CsAgent.Laws.Numbers.{
  HasInt, Distinct, append-nil, collect_ints-nil, HasInt-kept,
}
use ansible_install.CsAgent.Laws.Rules.{
  key_problems-nil, region_problems-nil, endpoint_problems-nil, sse_problems-nil, ttl_between-nil,
  retention_between-nil, append-nil_five, HasKey,
}
use ansible_install.CsAgent.Export.{
  sse_values, int_minimums, as_int, text_of, region_problems, key_problems, endpoint_problems,
  sse_problems, collect_ints, ttl_problems, retention_problems, export_problems,
}

-- What the agent needs of settings that switch the export on.
pub record IsExportable (cfg : Fields) (tasks_retention_sec : Json) : Type 0 where
  pub region : text_of (value_of cfg "region") ≢ ""
  pub access_key : HasKey cfg "access_key"
  pub secret_key : HasKey cfg "secret_key"
  pub endpoint :
      (text_of (value_of cfg "endpoint") ≡ "")
      ⊎ (starts_with (text_of (value_of cfg "endpoint")) "https://" ≡ true)
  pub sse : mem (text_of (value_of cfg "sse")) sse_values ≡ true
  pub ints : All (HasInt cfg) int_minimums
  pub ttl :
      (default max : ℤ)
      → as_int (value_of cfg "default_ttl_sec") ≡ some default
      → as_int (value_of cfg "max_ttl_sec") ≡ some max
      → lt_int max default ≡ false
  pub retention :
      (max retention : ℤ)
      → as_int (value_of cfg "max_ttl_sec") ≡ some max
      → as_int tasks_retention_sec ≡ some retention
      → lt_int max retention ≡ true

minimums-Distinct : Distinct int_minimums
unfolding get ◌==◌
minimums-Distinct = (refl, (refl, (refl, (refl, (refl, (refl, tt))))))

default_minimum : get int_minimums "default_ttl_sec" ≡ some 1
unfolding get ◌==◌
default_minimum = refl

max_minimum : get int_minimums "max_ttl_sec" ≡ some 1
unfolding get ◌==◌
max_minimum = refl

module _ (cfg : Fields) (tasks_retention_sec : Json) where
  abbrev texts : List String
  texts =
      region_problems cfg
      ++ key_problems cfg "access_key"
      ++ key_problems cfg "secret_key"
      ++ endpoint_problems cfg
      ++ sse_problems cfg

  HasTexts : Type 0
  HasTexts =
      (text_of (value_of cfg "region") ≢ "")
      × HasKey cfg "access_key"
      × HasKey cfg "secret_key"
      × ((text_of (value_of cfg "endpoint") ≡ "")
          ⊎ (starts_with (text_of (value_of cfg "endpoint")) "https://" ≡ true))
      × (mem (text_of (value_of cfg "sse")) sse_values ≡ true)

  HasLimits : Type 0
  HasLimits =
      ((default max : ℤ)
        → as_int (value_of cfg "default_ttl_sec") ≡ some default
        → as_int (value_of cfg "max_ttl_sec") ≡ some max
        → lt_int max default ≡ false)
      × ((max retention : ℤ)
          → as_int (value_of cfg "max_ttl_sec") ≡ some max
          → as_int tasks_retention_sec ≡ some retention
          → lt_int max retention ≡ true)

  texts-nil : (texts ≡ []) ↔ HasTexts
  unfolding HasTexts
  texts-nil = ground (
    arith,
    append-nil_five (region_problems cfg) (key_problems cfg "access_key")
        (key_problems cfg "secret_key") (endpoint_problems cfg) (sse_problems cfg),
    region_problems-nil cfg,
    key_problems-nil cfg "access_key",
    key_problems-nil cfg "secret_key",
    endpoint_problems-nil cfg,
    sse_problems-nil cfg,
  )

  limits-nil :
      (problems : List String)
      → All (HasInt cfg) int_minimums
      → let ints = (collect_ints cfg [] problems int_minimums).0 in
        (ttl_problems ints ++ retention_problems ints tasks_retention_sec ≡ []) ↔ HasLimits
  unfolding ttl_problems retention_problems HasLimits
  limits-nil problems i =
      rw
        (HasInt-kept cfg int_minimums problems "default_ttl_sec" 1 minimums-Distinct default_minimum
          i.1.1.1.1.0)
        (rw
          (HasInt-kept cfg int_minimums problems "max_ttl_sec" 1 minimums-Distinct max_minimum
            i.1.1.1.1.1.0)
          (
            λ h.
                let (t, r) = (append-nil _ _).0 h in
                ((ttl_between-nil _ _).0 t, (retention_between-nil _ _).0 r),
            λ (t, r).
                (append-nil _ _).1 ((ttl_between-nil _ _).1 t, (retention_between-nil _ _).1 r),
          ))

  IsExportable-iff :
      let (ints, problems) = collect_ints cfg [] texts int_minimums in
      (problems ++ (ttl_problems ints ++ retention_problems ints tasks_retention_sec) ≡ [])
      ↔ IsExportable cfg tasks_retention_sec
  unfolding HasTexts HasLimits
  IsExportable-iff = (
    λ h.
        let (problems, limits) = (append-nil _ _).0 h in
        let (first, ints) = (collect_ints-nil cfg int_minimums [] texts).0 problems in
        let (region, access_key, secret_key, endpoint, sse) = texts-nil.0 first in
        let (ttl, retention) = (limits-nil texts ints).0 limits in
        record {
          region = region;
          access_key = access_key;
          secret_key = secret_key;
          endpoint = endpoint;
          sse = sse;
          ints = ints;
          ttl = ttl;
          retention = retention;
        },
    λ a. (append-nil _ _).1 (
      (collect_ints-nil cfg int_minimums [] texts).1
          (texts-nil.1 (a.region, a.access_key, a.secret_key, a.endpoint, a.sse), a.ints),
      (limits-nil texts a.ints).1 (a.ttl, a.retention),
    ),
  )

-- The settings have no problem exactly if the export is off, with no bucket, or all that the agent
-- needs holds.
pub export_problems_iff :
    (cfg : Fields) (tasks_retention_sec : Json)
    → (export_problems cfg tasks_retention_sec ≡ [])
      ↔ ((text_of (value_of cfg "bucket") ≡ "") ⊎ IsExportable cfg tasks_retention_sec)
unfolding export_problems
export_problems_iff cfg tasks_retention_sec =
    elim (Bool-cases (text_of (value_of cfg "bucket") == "")) [
      | inl e ↦ rw e (λ h. inl (eq→≡ _ _ e), λ h. refl)
      | inr e ↦ rw e (
        λ h. inr ((IsExportable-iff cfg tasks_retention_sec).0 h),
        λ h.
            (IsExportable-iff cfg tasks_retention_sec).1
              (elim h [ inl off ↦ absurd (ground (arith, ≡→eq _ _ off)) | inr a ↦ a ]),
      )
    ]
