-- ===== src/Tailscale/Backend.antt =====
-- roles/tailscale/filter_plugins/tailscale.py: `backend_state`.
use ansible_install.Prelude.{String, Option, some, if◌then◌else◌}
use ansible_install.Prelude.Json.{Json, obj, value_of, truthy}
use ansible_install.Prelude.Repr.{str_of}
use ansible_install.NodeStorage.Paths.{text_or}

-- `loads` is `json.loads`, `none` its ValueError.
unfoldable pub backend_state : (String → Option Json) → Option String → String
unfolding text_or value_of truthy str_of
backend_state loads status_stdout = elim (loads (text_or status_stdout "")) [
  | some (obj doc) ↦
      let state = value_of doc "BackendState" in if truthy state then str_of state else ""
  | _ ↦ ""
]
