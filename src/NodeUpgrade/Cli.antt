-- ===== src/NodeUpgrade/Cli.antt =====
-- roles/node_upgrade/filter_plugins/node_upgrade.py: one document of `cs-agent maintenance --json`.
use ansible_install.Prelude.{String, ◌&&◌, Option, none, some, List, [], ◌∷◌, ◌==◌, if◌then◌else◌}
use ansible_install.Prelude.Text.{strip}
use ansible_install.Prelude.Split.{lines}
use ansible_install.Prelude.Json.{Json, obj, Fields, end, has_key}

pub data Shape : Type 0 where
  status error no_shape : Shape

pub record Parsed : Type 0 where
  pub shape : Shape
  pub doc : Fields

first_text : List String → String
first_text [] = ""
first_text (line ∷ rest) =
    let later = first_text rest in if strip line == "" then later else strip line

-- The shape of a document: JSON shape first, the exit status is not looked at.
unfoldable pub shape_of : Fields → Shape
unfolding has_key
shape_of doc =
    if has_key doc "error"
    then error
    else if has_key doc "paused" && has_key doc "local"
    then status
    else no_shape

abbrev parsed_of : Option Json → Parsed
parsed_of (some (obj doc)) = record { shape = shape_of doc; doc = doc }
parsed_of _ = record { shape = no_shape; doc = end }

-- `loads` is `json.loads`, `none` its ValueError.
unfoldable pub cli_json : (String → Option Json) → Option String → Parsed
unfolding first_text strip lines
cli_json loads none = parsed_of none
cli_json loads (some stdout) =
    let text = first_text (lines stdout) in
    if text == "" then parsed_of none else parsed_of (loads text)
