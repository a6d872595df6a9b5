-- ===== src/NodeUpgrade/Agent.antt =====
-- roles/node_upgrade/filter_plugins/node_upgrade.py: waiting for the agent to come back.
use ansible_install.Prelude.{String, Bool, true, false, Option, none, some, ◌==◌, if◌then◌else◌}
use ansible_install.Prelude.Int.{ℤ, pos, parse_int}
use ansible_install.Prelude.Json.{
  Json, null, bool, num, str, Fields, member, value_of, is_present, is_true,
}
use ansible_install.NodeUpgrade.Cli.{Shape, status, no_shape, Parsed, cli_json}
use ansible_install.NodeUpgrade.Hold.{is_rc}

abbrev pub default_state_owner : String
default_state_owner = "upgrade-docker"

-- `none` is a state that is no dict; the inner one a missing or null `playbook`.
unfoldable pub state_owner : Option (Option String) → String
state_owner none = default_state_owner
state_owner (some none) = default_state_owner
state_owner (some (some owner)) = if owner == "" then default_state_owner else owner

pub data AgentState : Type 0 where
  no_output unavailable error unheld ready agent_inactive : AgentState

pub record AgentStatus : Type 0 where
  pub done : Bool
  pub ready : Bool
  pub state : AgentState
  pub held : Option Bool
  pub agent_active : Option Bool
  pub rc : Option ℤ
  pub error : Json

-- `int(code)`, or the fallback where that raises a TypeError or a ValueError.
unfoldable pub to_code : Json → Option ℤ → Option ℤ
unfolding parse_int
to_code (num n) rc = some n
to_code (bool true) rc = some (pos 1)
to_code (bool false) rc = some (pos 0)
to_code (str s) rc = elim (parse_int s) [ none ↦ rc | some n ↦ some n ]
to_code _ rc = rc

-- The code of an error document; a document without `exit_code` falls back to `rc`.
unfoldable pub error_code : Fields → Option ℤ → Option ℤ
unfolding to_code member
error_code doc rc = elim (member doc "exit_code") [ none ↦ rc | some code ↦ to_code code rc ]

abbrev waiting : Option ℤ → AgentState → Json → AgentStatus
waiting rc state message = record {
  done = false;
  ready = false;
  state = state;
  held = none;
  agent_active = none;
  rc = rc;
  error = message;
}

abbrev from_error : Option ℤ → Fields → AgentStatus
from_error rc doc =
    if is_rc (error_code doc rc) 3
    then waiting rc unavailable (value_of doc "error")
    else record (waiting rc AgentState.error (value_of doc "error")) { done = true }

abbrev with_hold : Option ℤ → Bool → Bool → AgentState → Bool → Bool → AgentStatus
with_hold rc held active state done come_back = record {
  done = done;
  ready = come_back;
  state = state;
  held = some held;
  agent_active = some active;
  rc = rc;
  error = null;
}

abbrev from_status : Option ℤ → Bool → Bool → AgentStatus
from_status rc held active =
    if held
    then if active
      then with_hold rc held active AgentState.ready true true
      else with_hold rc held active agent_inactive false false
    else with_hold rc held active unheld true false

unfoldable pub agent_of_parsed : Parsed → Option ℤ → AgentStatus
agent_of_parsed parsed rc = elim parsed.shape [
  | Shape.error ↦ from_error rc parsed.doc
  | no_shape ↦ waiting rc no_output null
  | status ↦
      from_status rc (is_present (value_of parsed.doc "local"))
        (is_true (value_of parsed.doc "agent_active"))
]

unfoldable pub agent_status : (String → Option Json) → Option String → Option ℤ → AgentStatus
agent_status loads stdout rc = agent_of_parsed (cli_json loads stdout) rc
