-- ===== src/Tailscale/Modes.antt =====
-- roles/tailscale/filter_plugins/tailscale.py: `_compare`, from the netfilter mode to the flags that
-- the check does not know.
use ansible_install.Prelude.{
  ℕ, String, ◌<>◌, Bool, false, not, ◌&&◌, ◌||◌, Option, none, some, List, [], ◌∷◌, ◌++◌, map, eqb,
  if◌then◌else◌,
}
use ansible_install.Prelude.Text.{starts_with, lower_is}
use ansible_install.Prelude.Split.{join, sorted}
use ansible_install.Prelude.Dict.{Dict, pop}
use ansible_install.Prelude.Int.{pos, is_nat}
use ansible_install.Prelude.Json.{Json, bool, num, Fields, member, value_of, is_present, truthy}
use ansible_install.Tailscale.Flags.{netfilter_modes, MustBeDefault, items_of}
use ansible_install.Tailscale.Settings.{Problem, by_hand, fixable, word_for, same}
use ansible_install.Tailscale.Routes.{sorted_set, same_texts, listed}

-- `_TS_NETFILTER.get(mode.lower())`, with the word that was found.
unfoldable pub netfilter_mode : List (String × ℕ) → String → Option (String × ℕ)
unfolding lower_is
netfilter_mode [] mode = none
netfilter_mode ((name, code) ∷ rest) mode =
    if lower_is mode name then some (name, code) else netfilter_mode rest mode

-- `v == n` for a small number; `True == 1` and `False == 0`.
unfoldable pub is_number : Json → ℕ → Bool
is_number (num z) n = is_nat z n
is_number (bool b) n = eqb (if b then 1 else 0) n
is_number _ n = false

-- `prefs.get(key, 2)`
abbrev pub netfilter_pref : Fields → Json
unfolding member
netfilter_pref prefs = elim (member prefs "NetfilterMode") [ none ↦ num (pos 2) | some v ↦ v ]

-- The difference in the mode, with the mode of the flag looked up.
unfoldable pub mode_problems : Json → String → Option (String × ℕ) → List Problem
unfolding is_number
mode_problems have mode none =
    by_hand ("--netfilter-mode=" <> (mode <> " is not off, nodivert or on"))
mode_problems have mode (some (name, code)) =
    if is_number have code
    then []
    else fixable ("NetfilterMode on the node differs from --netfilter-mode=" <> mode)
        ("--netfilter-mode=" <> name)

unfoldable pub netfilter_problems : Json → String → List Problem
unfolding netfilter_mode mode_problems
netfilter_problems have mode = mode_problems have mode (netfilter_mode netfilter_modes mode)

abbrev pub tagged : String → String
unfolding starts_with
tagged t = if starts_with t "tag:" then t else "tag:" <> t

abbrev pub wanted_tags : String → List String → List String
unfolding items_of
wanted_tags flag tags = sorted_set (items_of flag ++ map tagged tags)

unfoldable pub tag_problems : List String → List String → List Problem
unfolding same_texts join
tag_problems have want =
    if same_texts have want
    then []
    else by_hand (
        "AdvertiseTags on the node ("
        <> (listed have
            <> (") differ from the flags and tailscale_tags (" <> (listed want <> ")"))))

unfoldable pub exit_problems : Fields → Option String → List Problem
unfolding value_of truthy
exit_problems prefs (some node) =
    by_hand "--exit-node is set; this check cannot verify which exit node the node uses"
exit_problems prefs none =
    if truthy (value_of prefs "ExitNodeID") || truthy (value_of prefs "ExitNodeIP")
    then fixable "the node uses an exit node, and the flags have no --exit-node" "--exit-node="
    else []

abbrev pub reset_problem : MustBeDefault → String → List Problem
reset_problem m message = record { message = message; arg = m.reset } ∷ []

unfoldable pub off_default : MustBeDefault → Option Bool → Json → List Problem
unfolding truthy
off_default m none value =
    if truthy value
    then reset_problem m (m.key <> " is set on the node; no flag of the role sets it")
    else []
off_default m (some default) value =
    if is_present value && not (same (truthy value) default)
    then reset_problem m (
        m.key
        <> (" is " <> (word_for (truthy value) <> " on the node; no flag of the role sets it")))
    else []

unfoldable pub default_problems : Fields → List MustBeDefault → List Problem
unfolding off_default value_of
default_problems prefs [] = []
default_problems prefs (m ∷ rest) =
    off_default m m.default (value_of prefs m.key) ++ default_problems prefs rest

-- `flags.pop(name, None)` for each of the names.
unfoldable pub pop_all : List String → Dict String → Dict String
unfolding pop
pop_all [] flags = flags
pop_all (name ∷ names) flags = pop_all names (pop flags name)

abbrev pub unverified : String → Problem
unverified name = record {
  message =
      "--"
      <> (name
          <> " is not a flag this check can verify; compare it with `tailscale debug prefs` by hand");
  arg = none;
}

unfoldable pub unknown_problems : Dict String → List Problem
unfolding sorted
unknown_problems flags = map unverified (sorted (map (λ (p : String × String). p.0) flags))
