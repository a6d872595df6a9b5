-- ===== src/NodeUpgrade/Decide.antt =====
-- roles/node_upgrade/filter_plugins/node_upgrade.py: must the tenant containers be stopped?
use ansible_install.Prelude.{
  String, ◌<>◌, Bool, true, false, ◌||◌, not, Option, none, some, List, [], ◌∷◌, ◌++◌, map, ◌==◌,
  if◌then◌else◌,
}
use ansible_install.Prelude.Text.{strip}
use ansible_install.Prelude.Split.{join, mem}
use ansible_install.Prelude.Lists.{is_empty}
use ansible_install.NodeUpgrade.Pins.{Drift}

pub record Inputs : Type 0 where
  pub docker_drift : List Drift
  pub docker_restart_reasons : List String
  pub reboot_pending : Bool
  pub force : Bool

pub record Decision : Type 0 where
  pub stop : Bool
  pub reasons : List String
  pub docker_restart_required : Bool
  pub docker_restart_reasons : List String
  pub drift : List Drift
  pub reboot_pending : Bool
  pub force : Bool

-- The stripped reasons, each once, in the order of their first appearance after `seen`.
unfoldable pub distinct_reasons : List String → List String → List String
distinct_reasons seen [] = seen
distinct_reasons seen (raw ∷ rest) =
    distinct_reasons
      (if strip raw == "" || mem (strip raw) seen then seen else seen ++ (strip raw ∷ [])) rest

abbrev or_word : Option String → String → String
or_word none d = d
or_word (some s) d = if s == "" then d else s

abbrev drift_words : Drift → String
drift_words d = d.name <> (" " <> (or_word d.installed "absent" <> (" -> " <> or_word d.pin "any")))

unfoldable pub drift_reason : List Drift → List String
unfolding join
drift_reason [] = []
drift_reason (d ∷ ds) =
    ("docker drifts from its pins (" <> (join "; " (map drift_words (d ∷ ds)) <> ")")) ∷ []

abbrev when_true : Bool → String → List String
when_true true reason = reason ∷ []
when_true false reason = []

unfoldable pub maintain_decide : Inputs → Decision
maintain_decide inputs =
    let restart = distinct_reasons [] inputs.docker_restart_reasons in
    let reasons =
      drift_reason inputs.docker_drift
      ++ (map (λ r. "docker must restart: " <> r) restart
          ++ (when_true inputs.reboot_pending "a reboot is pending (/var/run/reboot-required)"
              ++ when_true inputs.force "forced (maintain_force_restart)")) in
    record {
      stop = not (is_empty reasons);
      reasons = reasons;
      docker_restart_required = not (is_empty restart);
      docker_restart_reasons = restart;
      drift = inputs.docker_drift;
      reboot_pending = inputs.reboot_pending;
      force = inputs.force;
    }
