-- ===== src/NodeUpgrade/Laws/Exits.antt =====
-- What the exits of cs-agent are taken to mean.
use ansible_install.Prelude.{◌≡◌, ◌⊎◌, ◌↔◌, ℕ, String, Bool, true, false, Option, none, some, arith}
use ansible_install.Prelude.Int.{ℤ, pos, negsuc}
use ansible_install.Prelude.Json.{Json, value_of, is_present, is_true}
use ansible_install.NodeUpgrade.Cli.{Shape, status, no_shape, cli_json}
use ansible_install.NodeUpgrade.Hold.{is_rc, status_outcome, classify_parsed, classify_on, on_retry}
use ansible_install.NodeUpgrade.Agent.{error_code, agent_of_parsed, agent_status}

is_rc_iff : (rc : Option ℤ) (code : ℕ) → (is_rc rc code ≡ true) ↔ (rc ≡ some (pos code))
is_rc_iff none code = ground arith
is_rc_iff (some (pos n)) code = ground arith
is_rc_iff (some (negsuc n)) code = ground arith

module _ (loads : String → Option Json) (stdout : Option String) (rc : Option ℤ) where
  -- The document that was printed is a status document, with or without a local hold.
  abbrev pub IsStatus : Bool → Type 0
  IsStatus held =
      ((cli_json loads stdout).shape ≡ status)
      × (is_present (value_of (cli_json loads stdout).doc "local") ≡ held)

  -- The maintenance hold counts as taken exactly if a status document with a local hold came with
  -- exit status 0.
  pub classify_on-ok :
      ((classify_on loads stdout rc).ok ≡ true) ↔ (IsStatus true × (rc ≡ some (pos 0)))
  unfolding classify_on classify_parsed status_outcome
  classify_on-ok = ground (arith, is_rc_iff rc 0)

  -- The call is repeated exactly if a status document without a local hold came with exit status 4.
  pub on_retry_iff : (on_retry loads stdout rc ≡ true) ↔ (IsStatus false × (rc ≡ some (pos 4)))
  unfolding on_retry classify_on classify_parsed status_outcome
  on_retry_iff = ground (arith, is_rc_iff rc 4, is_rc_iff rc 0, is_rc_iff rc 2)

  -- Whether a hold is in place is known exactly from a status document: `held` is then whether it
  -- names a local hold, and None for any other output.
  pub classify_on-held :
      (held : Bool) → ((classify_on loads stdout rc).held ≡ some held) ↔ IsStatus held
  unfolding classify_on classify_parsed
  classify_on-held held = ground arith

  -- Both readers of cs-agent's output agree on whether a hold is in place.
  pub agent_status-held : (agent_status loads stdout rc).held ≡ (classify_on loads stdout rc).held
  unfolding agent_status agent_of_parsed classify_on classify_parsed
  agent_status-held = ground arith

  -- The agent is back exactly if a status document has the local hold and names the agent active.
  pub agent_status-ready :
      ((agent_status loads stdout rc).ready ≡ true)
      ↔ (IsStatus true × (is_true (value_of (cli_json loads stdout).doc "agent_active") ≡ true))
  unfolding agent_status agent_of_parsed
  agent_status-ready = ground arith

  -- The run waits on exactly if nothing could be read, or the error document has code 3, or the node
  -- is held and its agent is not active. A hold that is gone and any other error end the wait.
  pub agent_status-waits : ((agent_status loads stdout rc).done ≡ false) ↔ (
      ((cli_json loads stdout).shape ≡ no_shape)
      ⊎ ((cli_json loads stdout).shape ≡ Shape.error)
        × (error_code (cli_json loads stdout).doc rc ≡ some (pos 3))
      ⊎ IsStatus true × (is_true (value_of (cli_json loads stdout).doc "agent_active") ≡ false))
  unfolding agent_status agent_of_parsed
  agent_status-waits = ground (arith, is_rc_iff (error_code (cli_json loads stdout).doc rc) 3)
