-- ===== src/CsAgent/Export.antt =====
-- roles/cs_agent/filter_plugins/cs_agent_export.py: the backup export settings.
use ansible_install.Prelude.{
  ℕ, String, ◌<>◌, Bool, not, ◌&&◌, ◌||◌, Option, none, some, List, [], ◌∷◌, ◌++◌, map, ◌==◌,
  if◌then◌else◌,
}
use ansible_install.Prelude.Text.{strip, starts_with, lower_is}
use ansible_install.Prelude.Split.{mem, join}
use ansible_install.Prelude.Dict.{Dict, get, put}
use ansible_install.Prelude.Int.{ℤ, pos, lt_int, show_ℤ, all_digits, number_from}
use ansible_install.Prelude.Json.{Json, null, bool, num, str, arr, obj, Fields, value_of, truthy}
use ansible_install.Prelude.Repr.{repr, repr_text, str_of}

abbrev pub sse_values : List String
sse_values = "" ∷ "AES256" ∷ "aws:kms" ∷ "aws:kms:dsse" ∷ []

abbrev pub int_minimums : List (String × ℕ)
int_minimums =
    ("workers", 1)
    ∷ ("timeout_sec", 1)
    ∷ ("part_size_mb", 5)
    ∷ ("concurrency", 1)
    ∷ ("default_ttl_sec", 1)
    ∷ ("max_ttl_sec", 1)
    ∷ []

unfoldable pub as_int : Json → Option ℤ
as_int (num n) = some n
as_int (str s) = if all_digits (strip s) then some (pos (number_from 0 (strip s))) else none
as_int _ = none

-- `_truthy`: a templated text counts by its word.
unfoldable pub is_on : Json → Bool
unfolding truthy
is_on (str s) = lower_is (strip s) "true" || lower_is (strip s) "yes" || lower_is (strip s) "1"
is_on null = truthy null
is_on (bool b) = truthy (bool b)
is_on (num n) = truthy (num n)
is_on (arr xs) = truthy (arr xs)
is_on (obj doc) = truthy (obj doc)

-- `_text`
unfoldable pub text_of : Json → String
text_of null = ""
text_of (str s) = strip (str_of (str s))
text_of (bool b) = strip (str_of (bool b))
text_of (num n) = strip (str_of (num n))
text_of (arr xs) = strip (str_of (arr xs))
text_of (obj doc) = strip (str_of (obj doc))

unfoldable pub region_problems : Fields → List String
region_problems cfg =
    if text_of (value_of cfg "region") == "" then "cs_agent_s3_export_region is empty." ∷ [] else []

unfoldable pub key_problems : Fields → String → List String
key_problems cfg key =
    if not (is_on (value_of cfg (key <> "_set")))
    then ("s3_export_" <> (key <> " is not set (vaulted secrets).")) ∷ []
    else if is_on (value_of cfg (key <> "_placeholder"))
    then ("s3_export_" <> (key <> " is still the CHANGEME sample placeholder (vaulted secrets)."))
      ∷ []
    else []

unfoldable pub endpoint_problems : Fields → List String
endpoint_problems cfg =
    let endpoint = text_of (value_of cfg "endpoint") in
    if not (endpoint == "") && not (starts_with endpoint "https://")
    then ("cs_agent_s3_export_endpoint must be an https:// URL (or empty for AWS), got "
        <> (repr_text endpoint <> "."))
      ∷ []
    else []

unfoldable pub sse_problems : Fields → List String
sse_problems cfg =
    let sse = text_of (value_of cfg "sse") in
    if mem sse sse_values
    then []
    else ("cs_agent_s3_export_sse must be one of "
        <> (join ", " (map repr_text sse_values) <> (", got " <> (repr_text sse <> "."))))
      ∷ []

-- The whole number under a key, if it reaches the minimum.
unfoldable pub accepted_int : Fields → String → ℕ → Option ℤ
accepted_int cfg key minimum = elim (as_int (value_of cfg key)) [
  | none ↦ none
  | some n ↦ if lt_int n (pos minimum) then none else some n
]

abbrev pub int_problem : Fields → String → ℕ → String
int_problem cfg key minimum =
    "cs_agent_s3_export_"
    <> (key
        <> (" must be a whole number >= "
            <> (show_ℤ (pos minimum) <> (", got " <> (repr (value_of cfg key) <> ".")))))

-- A number that was accepted is kept under its key; otherwise there is a problem.
unfoldable pub record_int : String → String → Dict ℤ → List String → Option ℤ → Dict ℤ × List String
record_int key problem ints problems none = (ints, problems ++ (problem ∷ []))
record_int key problem ints problems (some n) = (put ints key n, problems)

-- One round per key, with the numbers and the problems so far.
unfoldable pub collect_ints :
    Fields → Dict ℤ → List String → List (String × ℕ) → Dict ℤ × List String
unfolding record_int
collect_ints cfg ints problems [] = (ints, problems)
collect_ints cfg ints problems ((key, minimum) ∷ rest) =
    let seen =
      record_int key (int_problem cfg key minimum) ints problems (accepted_int cfg key minimum) in
    collect_ints cfg seen.0 seen.1 rest

unfoldable pub ttl_between : Option ℤ → Option ℤ → List String
ttl_between (some default) (some max) =
    if lt_int max default
    then ("cs_agent_s3_export_default_ttl_sec ("
        <> (show_ℤ default
            <> (") must not exceed cs_agent_s3_export_max_ttl_sec (" <> (show_ℤ max <> ")."))))
      ∷ []
    else []
ttl_between (some default) none = []
ttl_between none _ = []

unfoldable pub ttl_problems : Dict ℤ → List String
ttl_problems ints = ttl_between (get ints "default_ttl_sec") (get ints "max_ttl_sec")

unfoldable pub retention_between : Option ℤ → Option ℤ → List String
retention_between (some max) (some retention) =
    if lt_int max retention
    then []
    else ("cs_agent_s3_export_max_ttl_sec ("
        <> (show_ℤ max
            <> (") must be below cs-agent's task-row retention (tasks.retention_sec, "
                <> (show_ℤ retention
                    <> "): a completed export whose link is still live would be reaped."))))
      ∷ []
retention_between (some max) none = []
retention_between none _ = []

unfoldable pub retention_problems : Dict ℤ → Json → List String
retention_problems ints tasks_retention_sec =
    retention_between (get ints "max_ttl_sec") (as_int tasks_retention_sec)

unfoldable pub export_problems : Fields → Json → List String
export_problems cfg tasks_retention_sec =
    if text_of (value_of cfg "bucket") == ""
    then []
    else let problems =
        region_problems cfg
        ++ key_problems cfg "access_key"
        ++ key_problems cfg "secret_key"
        ++ endpoint_problems cfg
        ++ sse_problems cfg in
      let (ints, problems) = collect_ints cfg [] problems int_minimums in
      problems ++ (ttl_problems ints ++ retention_problems ints tasks_retention_sec)
