-- ===== src/Preflight/Reachable.antt =====
-- roles/preflight/filter_plugins/preflight.py: the hosts that did not answer the ping.
use ansible_install.Prelude.{
  ℕ, String, ◌<>◌, Bool, true, false, Option, none, some, List, [], ◌∷◌, ◌==◌, ltb, if◌then◌else◌,
}
use ansible_install.Prelude.Text.{count, take_chars}
use ansible_install.Prelude.Split.{words, join}
use ansible_install.Prelude.Lists.{both}
use ansible_install.Prelude.Dict.{Dict, get}
use ansible_install.Prelude.Json.{Json, null, str, obj, Fields, end, value_of, truthy}
use ansible_install.Prelude.Repr.{str_of}

abbrev pub reason_max : ℕ
reason_max = 240

-- `v == t` for a text `t`
abbrev equals_text : Json → String → Bool
equals_text (str s) t = s == t
equals_text _ t = false

unfoldable pub is_pong : Json → Bool
unfolding value_of
is_pong (obj result) = equals_text (value_of result "ping") "pong"
is_pong _ = false

-- The parts that count as true, each with its white space collapsed.
unfoldable pub said : List Json → List String
unfolding truthy str_of words join
said [] = []
said (p ∷ parts) =
    let rest = said parts in if truthy p then join " " (words (str_of p)) ∷ rest else rest

unfoldable pub shorten : String → String
shorten detail =
    if ltb reason_max (count detail) then take_chars reason_max detail <> "..." else detail

unfoldable pub detail_of : Fields → String
unfolding value_of
detail_of result = shorten (
    join " " (
      said (
        value_of result "msg"
        ∷ value_of result "module_stderr"
        ∷ value_of result "module_stdout"
        ∷ [])))

-- The first words, from whether the host was unreachable and whether the ping was skipped.
unfoldable pub lead_for : Bool → Bool → String
lead_for true skipped = "unreachable"
lead_for false true = "ping skipped"
lead_for false false = "ping failed"

unfoldable pub lead_of : Fields → String
unfolding value_of truthy
lead_of result =
    lead_for (truthy (value_of result "unreachable")) (truthy (value_of result "skipped"))

abbrev pub worded : String → String → String
worded lead detail = if detail == "" then lead else lead <> (": " <> detail)

abbrev pub dropped : String
dropped = "no ping result: ansible dropped the host from the play before it ran"

abbrev pub failure : Fields → String
failure result = worded (lead_of result) (detail_of result)

-- The empty text is a ping that was answered.
unfoldable pub reason_of : Json → String
unfolding is_pong
reason_of (obj result) = if is_pong (obj result) then "" else failure result
reason_of _ = dropped

pub record Unreachable : Type 0 where
  pub host : String
  pub address : Json
  pub port : Json
  pub reason : String

-- `hostvars[host]`, or no variables on a KeyError.
unfoldable pub vars_of : Dict Json → String → Json
unfolding get
vars_of hostvars host = elim (get hostvars host) [ none ↦ obj end | some hv ↦ hv ]

abbrev pub result_in : String → Json → Json
unfolding value_of
result_in result_var (obj hv) = value_of hv result_var
result_in result_var _ = null

-- The report on one host; `none` is the AttributeError of variables that are no mapping.
unfoldable pub report : String → Json → String → Option Unreachable
unfolding value_of truthy
report host (obj hv) reason = some (record {
  host = host;
  address = if truthy (value_of hv "ansible_host") then value_of hv "ansible_host" else str host;
  port = value_of hv "ansible_port";
  reason = reason;
})
report host _ reason = none

unfoldable pub unreachable : String → Dict Json → List String → Option (List Unreachable)
unfolding reason_of
unreachable result_var hostvars [] = some []
unreachable result_var hostvars (host ∷ hosts) =
    let rest = unreachable result_var hostvars hosts in
    let hv = vars_of hostvars host in
    if reason_of (result_in result_var hv) == ""
    then rest
    else both (report host hv (reason_of (result_in result_var hv))) rest
