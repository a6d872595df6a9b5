-- ===== src/Tailscale/Routes.antt =====
-- roles/tailscale/filter_plugins/tailscale.py: `_compare`, the routes and the source NAT.
use ansible_install.Prelude.{
  String, ◌<>◌, Bool, true, false, not, ◌&&◌, Option, none, some, List, [], ◌∷◌, ◌++◌, ◌==◌,
  if◌then◌else◌,
}
use ansible_install.Prelude.Split.{mem, join, sorted}
use ansible_install.Prelude.Lists.{is_empty, select}
use ansible_install.Prelude.Dict.{Dict, get}
use ansible_install.Prelude.Int.{is_nat}
use ansible_install.Prelude.Json.{
  Json, null, bool, num, str, arr, obj, Items, nil, cons, Fields, end, field, truthy,
}
use ansible_install.NodeStorage.Paths.{text_or}
use ansible_install.Tailscale.Settings.{Problem, fixable, word_for, characters, same}

-- Every text of a JSON array; `none` where an item is no text.
unfoldable pub texts_in : Items → Option (List String)
texts_in nil = some []
texts_in (cons (str s) rest) = elim (texts_in rest) [ none ↦ none | some ss ↦ some (s ∷ ss) ]
texts_in (cons null rest) = none
texts_in (cons (bool b) rest) = none
texts_in (cons (num n) rest) = none
texts_in (cons (arr xs) rest) = none
texts_in (cons (obj doc) rest) = none

-- The keys of a mapping, each once.
unfoldable pub keys_of : Fields → List String
unfolding mem
keys_of end = []
keys_of (field k v rest) = let keys = keys_of rest in if mem k keys then keys else k ∷ keys

-- `sorted(v or [])`, where `none` is an error: of `sorted`, of `set` or of `join`, one of which
-- refuses an item that is no text.
unfoldable pub sorted_pref : Json → Option (List String)
unfolding texts_in characters keys_of sorted
sorted_pref null = some []
sorted_pref (bool b) = if b then none else some []
sorted_pref (num n) = if is_nat n 0 then some [] else none
sorted_pref (str s) = some (sorted (characters s))
sorted_pref (obj doc) = some (sorted (keys_of doc))
sorted_pref (arr xs) = elim (texts_in xs) [ none ↦ none | some ss ↦ some (sorted ss) ]

-- `sorted(set(xs))`
unfoldable pub distinct : List String → List String
unfolding mem
distinct [] = []
distinct (x ∷ xs) = let rest = distinct xs in if mem x rest then rest else x ∷ rest

abbrev pub sorted_set : List String → List String
unfolding distinct sorted
sorted_set xs = sorted (distinct xs)

-- `xs == ys`
unfoldable pub same_texts : List String → List String → Bool
same_texts [] [] = true
same_texts [] (y ∷ ys) = false
same_texts (x ∷ xs) [] = false
same_texts (x ∷ xs) (y ∷ ys) = x == y && same_texts xs ys

abbrev pub exit_routes : List String
exit_routes = "0.0.0.0/0" ∷ "::/0" ∷ []

abbrev pub wanted_routes : List String → Bool → List String
wanted_routes routes exit_node = sorted_set (routes ++ (if exit_node then exit_routes else []))

-- `", ".join(xs) or "none"`
abbrev pub listed : List String → String
unfolding join
listed xs = text_or (some (join ", " xs)) "none"

-- The parts of the `tailscale set` argument for the routes, as `fix` collects them.
unfoldable pub route_fixes : List String → List String → Bool → List String
unfolding mem sorted select same_texts join
route_fixes have routes exit_node =
    let have_exit = mem "0.0.0.0/0" have && mem "::/0" have in
    (if same_texts (sorted (select (λ r. not (mem r exit_routes)) have)) routes
      then []
      else ("--advertise-routes=" <> join "," routes) ∷ [])
    ++ (if same have_exit exit_node
        then []
        else ("--advertise-exit-node=" <> word_for exit_node) ∷ [])

-- `" ".join(fix) or None`
abbrev pub joined_fix : List String → Option String
unfolding join
joined_fix fix = if is_empty fix then none else some (join " " fix)

unfoldable pub route_problems : List String → List String → Bool → List Problem
unfolding same_texts route_fixes join
route_problems have routes exit_node =
    if same_texts have (wanted_routes routes exit_node)
    then []
    else record {
      message =
          "AdvertiseRoutes on the node ("
          <> (listed have
              <> (") differ from the flags (" <> (listed (wanted_routes routes exit_node) <> ")")));
      arg = joined_fix (route_fixes have routes exit_node);
    }
      ∷ []

abbrev pub flag_or : Dict String → String → String → String
flag_or flags name default = elim (get flags name) [ none ↦ default | some value ↦ value ]

unfoldable pub snat_problems : Json → Bool → List Problem
unfolding truthy
snat_problems no_snat snat =
    if same (truthy no_snat) (not snat)
    then []
    else fixable "NoSNAT on the node differs from --snat-subnet-routes"
        ("--snat-subnet-routes=" <> word_for snat)
