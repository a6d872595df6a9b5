-- ===== src/Tests/Seed.antt =====
-- The preview of a seed on concrete lines.
use ansible_install.Prelude.{◌≡◌, refl, String, ◌<>◌, none, some, List, [], ◌∷◌, ◌==◌, ◌⊎◌}
use ansible_install.Prelude.Text.{
  is_space, strip, rstrip_by, lstrip_by, ends_with, strip_prefix, cut, has,
}
use ansible_install.Prelude.Int.{all_digits, is_digit}
use ansible_install.Prelude.Split.{lines}
use ansible_install.Prelude.Repr.{str_of}
use ansible_install.Prelude.Json.{Json, str, arr}
use ansible_install.ControllerSeed.Patterns.{
  tail_of, names_attribute, after_name, after_attribute, is_id_name, reads, substituted,
}
use ansible_install.ControllerSeed.Log.{after_color, is_log_line}
use ansible_install.ControllerSeed.Preview.{
  patterns, texts_of, output_lines, substitute_all, normal_lines, normalize, hashed_text, all_blank,
  preview_sha256,
}
use ansible_install.ControllerSeed.Laws.Normal.{IdReplaced, normal-cases}
use ansible_install.ControllerSeed.Laws.Previews.{registered_lines, normalize-normalize}
use ansible_install.ControllerSeed.Laws.Positions.{created}
use ansible_install.ControllerSeed.Laws.Fingerprint.{
  SameButIds, no_line, same_line, id_line, preview_sha256-same,
}

abbrev client : String
client = "             metric_client_id: nil → "

abbrev preview : String → List String
preview id = "Bootstrap of /tmp/manifest.yml (DRY RUN)" ∷ (client <> id) ∷ "1 created\r" ∷ []

unfoldable normalized : Json → List String
unfolding normalize output_lines texts_of lines str_of normal_lines substitute_all is_log_line
    after_color tail_of reads after_attribute after_name is_id_name names_attribute substituted
    is_space is_digit rstrip_by lstrip_by ends_with strip_prefix cut has ◌==◌
normalized output = normalize output

ids_run :
    normalized (
      str
        "             metric_client_id: nil → 17\n             zone_id: database 4, manifest 18\n  [link  ] dns → ProvisionDriver #3\nBillingResourcePrice #8")
    ≡ ("             metric_client_id: nil → <id>"
        ∷ "             zone_id: database 4, manifest <id>"
        ∷ "  [link  ] dns → ProvisionDriver #<id>" ∷ "BillingResourcePrice #8" ∷ [])
unfolding normalized
ids_run = refl

log_run :
    normalized (
      str
        "\u{1b}[32mINFO \u{1b}[0m 2026-01-02T03:04:05.678Z pid=12 tid=x: Sidekiq connecting to Redis\nINFO 2026-01-02T03:04:05 pid=12")
    ≡ "INFO 2026-01-02T03:04:05 pid=12" ∷ []
unfolding normalized
log_run = refl

blank_run : preview_sha256 (λ s. s) (str " \n\r\n") ≡ none
unfolding preview_sha256 normalized all_blank strip
blank_run = refl

preview_run : preview_sha256 (λ s. s) (str "a\r\n  b 7") ≡ some "a\n  b 7\n"
unfolding preview_sha256 normalized all_blank strip hashed_text
preview_run = refl

normalize-normalize_example :
    normalize (arr (registered_lines (normalize (str "x_id: 1\r\n  y"))))
    ≡ normalize (str "x_id: 1\r\n  y")
normalize-normalize_example = normalize-normalize (str "x_id: 1\r\n  y")

normal-cases_example :
    (substitute_all patterns (client <> "17") ≡ client <> "17")
    ⊎ IdReplaced (client <> "17") (substitute_all patterns (client <> "17"))
normal-cases_example = normal-cases (client <> "17")

previews_alike : SameButIds (preview "17") (preview "3004")
unfolding names_attribute has all_digits is_digit ◌==◌
previews_alike = same_line _ (
    id_line client "17" "3004" (created "metric_client" "nil" refl refl refl) refl refl
      (same_line _ no_line))

preview_sha256-same_example :
    preview_sha256 (λ s. s) (arr (registered_lines (preview "17")))
    ≡ preview_sha256 (λ s. s) (arr (registered_lines (preview "3004")))
preview_sha256-same_example =
    preview_sha256-same (λ s. s) (preview "17") (preview "3004") previews_alike
