-- ===== src/Tailscale/Laws/Spec.antt =====
-- roles/tailscale/filter_plugins/tailscale.py: when a node agrees with the role's flags, without
-- the order of the checks and without the flags that they pop.
use ansible_install.Prelude.{ℕ, ◌≡◌, String, true, false, not, none, some, List, [], ◌++◌}
use ansible_install.Prelude.Split.{mem}
use ansible_install.Prelude.Lists.{All}
use ansible_install.Prelude.Dict.{Dict, get}
use ansible_install.Prelude.Json.{Fields, value_of, truthy}
use ansible_install.Tailscale.Flags.{
  bool_flags, string_flags, bool_names, string_names, ignored_flags, netfilter_modes,
  must_be_default, is_yes, items_of, Flags,
}
use ansible_install.Tailscale.Settings.{
  positionals, has_bool, wanted_bool, text_pref, wanted_text, or_empty_text,
}
use ansible_install.Tailscale.Routes.{sorted_pref, wanted_routes, flag_or}
use ansible_install.Tailscale.Modes.{netfilter_mode, is_number, netfilter_pref, wanted_tags}
use ansible_install.Tailscale.Compare.{network_names}
use ansible_install.Tailscale.Laws.Settings.{SameControl}
use ansible_install.Tailscale.Laws.Network.{IsDefault}

-- The flags that the check knows.
abbrev pub known_names : List String
known_names = bool_names ++ (string_names ++ (network_names ++ ignored_flags))

-- The network settings of a node agree with the flags and the tags.
pub record HasNetwork (prefs : Fields) (flags : Dict String) (tags : List String) : Type 0 where
  pub control : SameControl (or_empty_text (value_of prefs "ControlURL")) (get flags "login-server")
  pub routes :
      sorted_pref (value_of prefs "AdvertiseRoutes")
      ≡ some (
          wanted_routes
            (items_of (flag_or flags "advertise-routes" ""))
            (is_yes (flag_or flags "advertise-exit-node" "false")))
  pub snat :
      truthy (value_of prefs "NoSNAT") ≡ not (is_yes (flag_or flags "snat-subnet-routes" "true"))
  pub netfilter :
      (name : String) × (code : ℕ) × (netfilter_mode netfilter_modes
          (flag_or flags "netfilter-mode" "on")
        ≡ some (name, code))
      × (is_number (netfilter_pref prefs) code ≡ true)
  pub tagged :
      sorted_pref (value_of prefs "AdvertiseTags")
      ≡ some (wanted_tags (flag_or flags "advertise-tags" "") tags)
  pub exit_node :
      (get flags "exit-node" ≡ none)
      × (truthy (value_of prefs "ExitNodeID") ≡ false)
      × (truthy (value_of prefs "ExitNodeIP") ≡ false)
  pub defaults : All (λ m. IsDefault m.default (value_of prefs m.key)) must_be_default

-- A node that is logged in and running agrees with the flags that the role applies.
pub record Agrees (prefs : Fields) (flags : Flags) (tags : List String) : Type 0 where
  pub logged_in :
      (truthy (value_of prefs "LoggedOut") ≡ false) × (truthy (value_of prefs "WantRunning") ≡ true)
  pub only_flags : positionals flags.positional ≡ []
  pub switches :
      All (λ f. has_bool prefs f.key f.default ≡ wanted_bool f (get flags.named f.flag)) bool_flags
  pub names :
      All
        (λ f. text_pref (value_of prefs f.key) ≡ wanted_text f (get flags.named f.flag))
        string_flags
  pub network : HasNetwork prefs flags.named tags
  pub known : All (λ p. mem p.0 known_names ≡ true) flags.named
