-- ===== src/Tests/Tailscale.antt =====
-- The settings of a node and the role's flags on concrete texts.
use ansible_install.Prelude.{
  ◌≡◌, refl, ◌↔◌, String, true, false, Option, none, some, List, [], ◌∷◌, ◌==◌, map,
}
use ansible_install.Prelude.Text.{strip, starts_with, cut, lower_is, has}
use ansible_install.Prelude.Split.{mem, join, sorted, split}
use ansible_install.Prelude.Lists.{select, joined}
use ansible_install.Prelude.Dict.{get, put, pop}
use ansible_install.Prelude.Int.{pos}
use ansible_install.Prelude.Json.{
  Json, bool, num, str, arr, obj, nil, cons, Fields, end, field, member, value_of, truthy,
}
use ansible_install.Prelude.Repr.{repr_text, str_of}
use ansible_install.Prelude.Shell.{
  split_from, split_words, move, is_safe, all_safe, replaced, quote,
}
use ansible_install.NodeStorage.Paths.{text_or}
use ansible_install.Tailscale.Backend.{backend_state}
use ansible_install.Tailscale.Flags.{
  hostname, absent, parse_args, read_tokens, word_of, set_flag, add_positional, is_switch, is_yes,
  items_of, stripped,
}
use ansible_install.Tailscale.Settings.{
  Problem, text_problem, login_problems, positional_problems, bool_problems, text_problems,
  has_bool, text_pref, control_problems, url_problems, characters,
}
use ansible_install.Tailscale.Routes.{
  texts_in, sorted_pref, distinct, same_texts, route_fixes, route_problems, snat_problems, keys_of,
}
use ansible_install.Tailscale.Modes.{
  netfilter_mode, is_number, mode_problems, netfilter_problems, tag_problems, exit_problems,
  off_default, default_problems, pop_all, unknown_problems,
}
use ansible_install.Tailscale.Compare.{
  routes_part, tags_part, network_problems, compare_with, compare_document, compare, messages,
  prefs_problems, set_args,
}
use ansible_install.Tailscale.Laws.Quoting.{is_flag_name, parse_args-text_problem}
use ansible_install.Tailscale.Laws.Filters.{nothing_to_set, IsAgreed, prefs_problems-IsAgreed}

-- A node with ssh, one route, one tag and a host name with a blank.
abbrev node : Fields
node = field "LoggedOut" (bool false) (
    field "WantRunning" (bool true) (
      field "CorpDNS" (bool true) (
        field "RunSSH" (bool true) (
          field "Hostname" (str "node 1") (
            field "AdvertiseRoutes" (arr (cons (str "10.0.0.0/8") nil)) (
              field "AdvertiseTags" (arr (cons (str "tag:prod") nil))
                (field "NetfilterMode" (num (pos 2)) end)))))))

abbrev loads_node : String → Option Json
loads_node text = some (obj node)

abbrev node_args : Option String
node_args = some "--ssh --hostname 'node 1' --advertise-routes=10.0.0.0/8 --timeout=30s"

unfoldable problems : Option String → List String → Option (List String)
unfolding prefs_problems compare messages compare_document compare_with network_problems routes_part
    tags_part joined parse_args read_tokens word_of set_flag add_positional is_switch is_yes
    items_of stripped login_problems positional_problems bool_problems text_problems text_problem
    has_bool text_pref control_problems url_problems characters texts_in sorted_pref distinct
    same_texts route_fixes route_problems snat_problems keys_of netfilter_mode is_number
    mode_problems netfilter_problems tag_problems exit_problems off_default default_problems pop_all
    unknown_problems split_from split_words move quote replaced all_safe is_safe strip starts_with
    cut lower_is mem join sorted split select get put pop member value_of truthy repr_text str_of
    text_or ◌==◌
problems args tags = prefs_problems loads_node (some "{}") args tags

agreed_run : problems node_args ("prod" ∷ []) ≡ some []
unfolding problems
agreed_run = refl

differing_run :
    problems
      (some "--hostname='node 1' --advertise-routes=10.0.0.0/8 --accept-dns=false")
      ("prod" ∷ [])
    ≡ some (
        "CorpDNS is true on the node but the role's flags mean --accept-dns=false"
        ∷ "RunSSH is true on the node but the role's flags mean --ssh=false" ∷ [])
unfolding problems
differing_run = refl

-- A flag that is ignored takes no value from the next word.
timeout_run :
    problems
      (some "--ssh --hostname 'node 1' --advertise-routes=10.0.0.0/8 --timeout 30s")
      ("prod" ∷ [])
    ≡ some ("unexpected argument '30s' in the tailscale up flags" ∷ [])
unfolding problems
timeout_run = refl

unclosed_run : problems (some "--hostname='node 1") [] ≡ none
unfolding problems
unclosed_run = refl

backend_run :
    backend_state (λ s. some (obj (field "BackendState" (str "Running") end))) none ≡ "Running"
unfolding backend_state text_or value_of truthy str_of member ◌==◌
backend_run = refl

prefs_problems-IsAgreed_example :
    ((prefs_problems loads_node (some "{}") node_args ("prod" ∷ []) ≡ some [])
      ↔ IsAgreed loads_node (some "{}") node_args ("prod" ∷ []))
    × ((set_args loads_node (some "{}") node_args ("prod" ∷ []) ≡ some nothing_to_set)
        ↔ IsAgreed loads_node (some "{}") node_args ("prod" ∷ []))
prefs_problems-IsAgreed_example =
    prefs_problems-IsAgreed loads_node (some "{}") node_args ("prod" ∷ [])

hostname-IsFlagName : is_flag_name hostname.flag ≡ true
unfolding is_flag_name all_safe is_safe has starts_with ◌==◌
hostname-IsFlagName = refl

hostname_changed : ("a" == "it's $HOME") ≡ false
unfolding ◌==◌
hostname_changed = refl

parse_args-text_problem_example :
    map (λ (p : Problem). parse_args p.arg) (text_problem hostname "a" "it's $HOME")
    ≡ some (record { positional = absent; named = ("hostname", "it's $HOME") ∷ [] }) ∷ []
parse_args-text_problem_example =
    parse_args-text_problem hostname "a" "it's $HOME" hostname-IsFlagName hostname_changed
