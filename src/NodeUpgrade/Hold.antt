-- ===== src/NodeUpgrade/Hold.antt =====
-- roles/node_upgrade/filter_plugins/node_upgrade.py: the exit of `cs-agent maintenance on --wait`.
use ansible_install.Prelude.{ℕ, String, Bool, true, false, Option, none, some, if◌then◌else◌}
use ansible_install.Prelude.Int.{ℤ, is_nat}
use ansible_install.Prelude.Json.{Json, null, arr, nil, Fields, value_of, truthy, is_present}
use ansible_install.NodeUpgrade.Cli.{Shape, status, no_shape, Parsed, cli_json}

pub data Outcome : Type 0 where
  ok timeout unconfirmed not_placed interrupted cleared failed error no_output : Outcome

-- What the source leaves at None is `none`, or `null` where it takes a value from the document.
pub record OnResult : Type 0 where
  pub rc : Option ℤ
  pub shape : Shape
  pub ok : Bool
  pub held : Option Bool
  pub local : Json
  pub controller : Json
  pub running : Json
  pub quiesce : Json
  pub controller_acked : Json
  pub error : Json
  pub outcome : Outcome

-- `rc == code`, false for None.
abbrev pub is_rc : Option ℤ → ℕ → Bool
is_rc none code = false
is_rc (some rc) code = is_nat rc code

-- The outcome of a status document, from the exit status and from whether a local hold exists.
unfoldable pub status_outcome : Option ℤ → Bool → Outcome
status_outcome rc held =
    if is_rc rc 0
    then if held then Outcome.ok else failed
    else if is_rc rc 2
    then timeout
    else if is_rc rc 4
    then if held then unconfirmed else not_placed
    else if is_rc rc 1
    then if held then interrupted else cleared
    else failed

abbrev is_ok : Outcome → Bool
is_ok Outcome.ok = true
is_ok _ = false

abbrev or_empty_list : Json → Json
or_empty_list v = if truthy v then v else arr nil

abbrev undecided : Option ℤ → Shape → Json → Outcome → OnResult
undecided rc shape message outcome = record {
  rc = rc;
  shape = shape;
  ok = false;
  held = none;
  local = null;
  controller = null;
  running = arr nil;
  quiesce = null;
  controller_acked = null;
  error = message;
  outcome = outcome;
}

abbrev of_status : Option ℤ → Fields → OnResult
of_status rc doc = record {
  rc = rc;
  shape = status;
  ok = is_ok (status_outcome rc (is_present (value_of doc "local")));
  held = some (is_present (value_of doc "local"));
  local = value_of doc "local";
  controller = value_of doc "controller";
  running = or_empty_list (value_of doc "running");
  quiesce = value_of doc "quiesce";
  controller_acked = value_of doc "controller_acked";
  error = null;
  outcome = status_outcome rc (is_present (value_of doc "local"));
}

unfoldable pub classify_parsed : Parsed → Option ℤ → OnResult
classify_parsed parsed rc = elim parsed.shape [
  | Shape.error ↦ undecided rc Shape.error (value_of parsed.doc "error") Outcome.error
  | no_shape ↦ undecided rc no_shape null no_output
  | status ↦ of_status rc parsed.doc
]

unfoldable pub classify_on : (String → Option Json) → Option String → Option ℤ → OnResult
classify_on loads stdout rc = classify_parsed (cli_json loads stdout) rc

abbrev is_not_placed : Outcome → Bool
is_not_placed not_placed = true
is_not_placed _ = false

unfoldable pub on_retry : (String → Option Json) → Option String → Option ℤ → Bool
on_retry loads stdout rc = is_not_placed (classify_on loads stdout rc).outcome
