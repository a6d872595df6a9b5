-- ===== src/Tailscale/Laws/Network.antt =====
-- When the checks of routes, tags and modes report nothing.
use ansible_install.Prelude.{
  ℕ, ◌≡◌, refl, ◌↔◌, ◌⊎◌, String, Bool, true, false, not, Option, none, some, List, [], ◌∷◌, map,
  eq→≡, ≡→eq, arith,
}
use ansible_install.Prelude.Split.{sorted, sorted-nil}
use ansible_install.Prelude.Lists.{All, append-nil}
use ansible_install.Prelude.Dict.{Dict}
use ansible_install.Prelude.Json.{Json, Fields, value_of, is_present, truthy}
use ansible_install.Tailscale.Flags.{netfilter_modes, MustBeDefault}
use ansible_install.Tailscale.Settings.{same}
use ansible_install.Tailscale.Routes.{same_texts, wanted_routes, route_problems, snat_problems}
use ansible_install.Tailscale.Modes.{
  netfilter_mode, is_number, mode_problems, netfilter_problems, tag_problems, exit_problems,
  off_default, default_problems, unverified, unknown_problems,
}
use ansible_install.Tailscale.Compare.{routes_part, tags_part}
use ansible_install.Tailscale.Laws.Settings.{map-nil}

same-eq : (a b : Bool) → (same a b ≡ true) ↔ (a ≡ b)
same-eq a b = ground arith

same_texts-eq : (xs ys : List String) → (same_texts xs ys ≡ true) ↔ (xs ≡ ys)
unfolding same_texts
same_texts-eq [] [] = ground arith
same_texts-eq [] (y ∷ ys) = ground arith
same_texts-eq (x ∷ xs) [] = ground arith
same_texts-eq (x ∷ xs) (y ∷ ys) = ground (arith, same_texts-eq xs ys, eq→≡ x y, ≡→eq x y)

pub routes_part-nil :
    (have : Option (List String)) (routes : List String) (exit_node : Bool)
    → (routes_part have routes exit_node ≡ some []) ↔ (have ≡ some (wanted_routes routes exit_node))
unfolding routes_part route_problems
routes_part-nil none routes exit_node = ground arith
routes_part-nil (some have) routes exit_node =
    ground (arith, same_texts-eq have (wanted_routes routes exit_node))

pub tags_part-nil :
    (have : Option (List String)) (want : List String)
    → (tags_part have want ≡ some []) ↔ (have ≡ some want)
unfolding tags_part tag_problems
tags_part-nil none want = ground arith
tags_part-nil (some have) want = ground (arith, same_texts-eq have want)

pub snat_problems-nil :
    (no_snat : Json) (snat : Bool) → (snat_problems no_snat snat ≡ []) ↔ (truthy no_snat ≡ not snat)
unfolding snat_problems
snat_problems-nil no_snat snat = ground arith

mode_problems-nil :
    (have : Json) (mode : String) (found : Option (String × ℕ))
    → (mode_problems have mode found ≡ [])
      ↔ ((name : String) × (code : ℕ) × (found ≡ some (name, code)) × (is_number have code ≡ true))
unfolding mode_problems
mode_problems-nil have mode none =
    (λ h. absurd (ground arith), λ (n, c, e, s). absurd (ground arith))
mode_problems-nil have mode (some (name, code)) =
    (λ h. (name, code, refl, ground arith), λ (n, c, e, s). ground arith)

pub netfilter_problems-nil :
    (have : Json) (mode : String)
    → (netfilter_problems have mode ≡ []) ↔ (
        (name : String) × (code : ℕ) × (netfilter_mode netfilter_modes mode ≡ some (name, code))
        × (is_number have code ≡ true))
unfolding netfilter_problems
netfilter_problems-nil have mode = mode_problems-nil have mode (netfilter_mode netfilter_modes mode)

pub exit_problems-nil :
    (prefs : Fields) (flag : Option String)
    → (exit_problems prefs flag ≡ []) ↔ (
        (flag ≡ none)
        × (truthy (value_of prefs "ExitNodeID") ≡ false)
        × (truthy (value_of prefs "ExitNodeIP") ≡ false))
unfolding exit_problems
exit_problems-nil prefs none = ground arith
exit_problems-nil prefs (some node) = ground arith

-- A preference without a value, or with the value that counts as the default.
abbrev pub IsDefault : Option Bool → Json → Type 0
IsDefault none value = truthy value ≡ false
IsDefault (some default) value = (is_present value ≡ false) ⊎ (truthy value ≡ default)

off_default-nil :
    (m : MustBeDefault) (default : Option Bool) (value : Json)
    → (off_default m default value ≡ []) ↔ IsDefault default value
unfolding off_default
off_default-nil m none value = ground arith
off_default-nil m (some default) value = ground (arith, same-eq (truthy value) default)

pub default_problems-nil :
    (prefs : Fields) (ms : List MustBeDefault)
    → (default_problems prefs ms ≡ []) ↔ All (λ m. IsDefault m.default (value_of prefs m.key)) ms
unfolding default_problems
default_problems-nil prefs [] = (λ _. tt, λ _. refl)
default_problems-nil prefs (m ∷ ms) =
    let (there, back) = default_problems-nil prefs ms in
    let (first, again) = off_default-nil m m.default (value_of prefs m.key) in
    (
      λ h. let (a, b) = (append-nil _ _).0 h in (first a, there b),
      λ (a, b). (append-nil _ _).1 (again a, back b),
    )

pub unknown_problems-nil : (flags : Dict String) → (unknown_problems flags ≡ []) ↔ (flags ≡ [])
unfolding unknown_problems
unknown_problems-nil flags =
    let (a, b) = map-nil unverified (sorted (map (λ (p : String × String). p.0) flags)) in
    let (c, d) = sorted-nil (map (λ (p : String × String). p.0) flags) in
    let (e, f) = map-nil (λ (p : String × String). p.0) flags in
    (λ h. e (c (a h)), λ h. b (d (f h)))
