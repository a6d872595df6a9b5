-- ===== src/Tailscale/Compare.antt =====
-- roles/tailscale/filter_plugins/tailscale.py: `_compare` as a whole and the two filters on it.
use ansible_install.Prelude.{String, Bool, Option, none, some, List, [], ◌∷◌, map, if◌then◌else◌}
use ansible_install.Prelude.Lists.{joined}
use ansible_install.Prelude.Dict.{Dict, get}
use ansible_install.Prelude.Json.{Json, obj, Fields, value_of}
use ansible_install.NodeStorage.Paths.{text_or, is_set}
use ansible_install.Tailscale.Flags.{
  bool_flags, string_flags, bool_names, string_names, ignored_flags, must_be_default, is_yes,
  items_of, Flags, parse_args,
}
use ansible_install.Tailscale.Settings.{
  Problem, by_hand, login_problems, positional_problems, bool_problems, text_problems,
  control_problems,
}
use ansible_install.Tailscale.Routes.{sorted_pref, route_problems, flag_or, snat_problems}
use ansible_install.Tailscale.Modes.{
  netfilter_pref, netfilter_problems, wanted_tags, tag_problems, exit_problems, default_problems,
  pop_all, unknown_problems,
}

-- The flags that `_compare` pops between its two loops over flags and the last one.
abbrev pub network_names : List String
network_names =
    "login-server" ∷ "advertise-routes" ∷ "advertise-exit-node" ∷ "snat-subnet-routes"
    ∷ "netfilter-mode" ∷ "advertise-tags" ∷ "exit-node" ∷ []

unfoldable pub routes_part : Option (List String) → List String → Bool → Option (List Problem)
unfolding route_problems
routes_part none routes exit_node = none
routes_part (some have) routes exit_node = some (route_problems have routes exit_node)

unfoldable pub tags_part : Option (List String) → List String → Option (List Problem)
unfolding tag_problems
tags_part none want = none
tags_part (some have) want = some (tag_problems have want)

-- The checks with the flags that the two loops leave.
abbrev pub network_parts : Fields → Dict String → List String → List (Option (List Problem))
network_parts prefs flags tags =
    control_problems (value_of prefs "ControlURL") (get flags "login-server")
    ∷ routes_part (sorted_pref (value_of prefs "AdvertiseRoutes"))
        (items_of (flag_or flags "advertise-routes" ""))
        (is_yes (flag_or flags "advertise-exit-node" "false"))
    ∷ some (
        snat_problems (value_of prefs "NoSNAT")
          (is_yes (flag_or flags "snat-subnet-routes" "true")))
    ∷ some (netfilter_problems (netfilter_pref prefs) (flag_or flags "netfilter-mode" "on"))
    ∷ tags_part (sorted_pref (value_of prefs "AdvertiseTags"))
        (wanted_tags (flag_or flags "advertise-tags" "") tags)
    ∷ some (exit_problems prefs (get flags "exit-node"))
    ∷ some (default_problems prefs must_be_default)
    ∷ some (unknown_problems (pop_all ignored_flags (pop_all network_names flags)))
    ∷ []

unfoldable pub network_problems : Fields → Dict String → List String → Option (List Problem)
unfolding joined
network_problems prefs flags tags = joined (network_parts prefs flags tags)

-- `_compare` with the preferences and the flags read.
abbrev pub parts : Fields → Flags → List String → List (Option (List Problem))
parts prefs flags tags =
    some (login_problems prefs)
    ∷ some (positional_problems flags.positional)
    ∷ some (bool_problems prefs flags.named bool_flags)
    ∷ some (text_problems prefs (pop_all bool_names flags.named) string_flags)
    ∷ network_problems prefs (pop_all string_names (pop_all bool_names flags.named)) tags
    ∷ []

unfoldable pub compare_with : Fields → Flags → List String → Option (List Problem)
unfolding joined
compare_with prefs flags tags = joined (parts prefs flags tags)

abbrev no_document : String
no_document =
    "`tailscale debug prefs` printed no JSON document, so the node's tailscale settings cannot be compared"

-- The comparison with the document, `none` for no JSON, and with the flags, `none` for an error
-- of their parser, which is raised only where there is a document.
unfoldable pub compare_document : Option Json → Option Flags → List String → Option (List Problem)
unfolding compare_with
compare_document (some (obj prefs)) (some flags) tags = compare_with prefs flags tags
compare_document (some (obj prefs)) none tags = none
compare_document _ _ tags = some (by_hand no_document)

-- `loads` is `json.loads`, `none` its ValueError; `none` as a result is an error that is raised.
unfoldable pub compare :
    (String → Option Json) → Option String → Option String → List String → Option (List Problem)
unfolding compare_document parse_args text_or
compare loads prefs_stdout up_args tags =
    compare_document (loads (text_or prefs_stdout "")) (parse_args up_args) tags

-- `[msg for msg, _ in found]`
unfoldable pub messages : Option (List Problem) → Option (List String)
messages none = none
messages (some found) = some (map (λ (p : Problem). p.message) found)

unfoldable pub prefs_problems :
    (String → Option Json) → Option String → Option String → List String → Option (List String)
unfolding compare messages
prefs_problems loads prefs_stdout up_args tags = messages (compare loads prefs_stdout up_args tags)

pub record SetArgs : Type 0 where
  pub set : List String
  pub manual : List String

-- An empty argument counts as none.
unfoldable pub set_of : List Problem → List String
set_of [] = []
set_of (p ∷ found) =
    let rest = set_of found in if is_set p.arg then text_or p.arg "" ∷ rest else rest

unfoldable pub manual_of : List Problem → List String
manual_of [] = []
manual_of (p ∷ found) =
    let rest = manual_of found in if is_set p.arg then rest else p.message ∷ rest

unfoldable pub sorted_out : Option (List Problem) → Option SetArgs
unfolding set_of manual_of
sorted_out none = none
sorted_out (some found) = some (record { set = set_of found; manual = manual_of found })

unfoldable pub set_args :
    (String → Option Json) → Option String → Option String → List String → Option SetArgs
unfolding compare sorted_out
set_args loads prefs_stdout up_args tags = sorted_out (compare loads prefs_stdout up_args tags)
