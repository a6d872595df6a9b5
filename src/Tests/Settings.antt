-- ===== src/Tests/Settings.antt =====
-- The configuration checks on concrete documents.
use ansible_install.Prelude.{◌≡◌, refl, ◌↔◌, ◌⊎◌, String, true, List, [], ◌∷◌, ◌==◌}
use ansible_install.Prelude.Int.{pos}
use ansible_install.Prelude.Json.{Json, null, bool, num, str, Fields, end, field, value_of}
use ansible_install.Prelude.Text.{strip, lstrip_by, rstrip_by, is_space, lower_is, starts_with, has}
use ansible_install.Prelude.Split.{join, mem}
use ansible_install.Prelude.Dict.{get, put}
use ansible_install.Prelude.Int.{all_digits, number_from, show_ℕ, show_ℤ}
use ansible_install.Prelude.Json.{member, truthy}
use ansible_install.Prelude.Repr.{repr, repr_text, str_of}
use ansible_install.CsAgent.Export.{
  text_of, as_int, is_on, region_problems, key_problems, endpoint_problems, sse_problems,
  accepted_int, record_int, collect_ints, ttl_between, ttl_problems, retention_between,
  retention_problems, export_problems,
}
use ansible_install.CsAgent.Laws.Accepted.{IsExportable, export_problems_iff}

abbrev limits : Fields
limits = field "workers" (num (pos 2)) (
    field "timeout_sec" (str " 3600 ") (
      field "part_size_mb" (num (pos 5)) (
        field "concurrency" (str "4")
          (field "default_ttl_sec" (num (pos 3600)) (field "max_ttl_sec" (num (pos 86400)) end)))))

abbrev with_endpoint : String → Fields
with_endpoint endpoint = field "bucket" (str "exports") (
    field "region" (str "eu-west-1") (
      field "access_key_set" (bool true) (
        field "secret_key_set" (str "True")
          (field "secret_key_placeholder" (str "false") (field "endpoint" (str endpoint) limits)))))

unfoldable problems_of : Fields → Json → List String
unfolding ◌==◌ strip lstrip_by rstrip_by is_space lower_is starts_with has join mem get put
    all_digits number_from show_ℕ show_ℤ member value_of truthy repr repr_text str_of text_of as_int
    is_on region_problems key_problems endpoint_problems sse_problems accepted_int record_int
    collect_ints ttl_between ttl_problems retention_between retention_problems export_problems
problems_of = export_problems

good_runs : problems_of (with_endpoint "https://s3.example.com") (num (pos 604800)) ≡ []
unfolding problems_of
good_runs = refl

plain_http_runs :
    problems_of (with_endpoint "http://s3.example.com") (num (pos 3600))
    ≡ "cs_agent_s3_export_endpoint must be an https:// URL (or empty for AWS), got 'http://s3.example.com'."
      ∷ "cs_agent_s3_export_max_ttl_sec (86400) must be below cs-agent's task-row retention (tasks.retention_sec, 3600): a completed export whose link is still live would be reaped."
      ∷ []
unfolding problems_of
plain_http_runs = refl

off_runs : problems_of limits null ≡ []
unfolding problems_of
off_runs = refl

export_problems_iff_example :
    (export_problems (with_endpoint "https://s3.example.com") (num (pos 604800)) ≡ []) ↔ (
      (text_of (value_of (with_endpoint "https://s3.example.com") "bucket") ≡ "")
      ⊎ IsExportable (with_endpoint "https://s3.example.com") (num (pos 604800)))
export_problems_iff_example =
    export_problems_iff (with_endpoint "https://s3.example.com") (num (pos 604800))
