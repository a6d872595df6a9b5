-- ===== src/NodeStorage/Paths.antt =====
-- roles/node_storage/filter_plugins/node_storage.py: device paths, mount sources and mount options.
pub mod Laws
use ansible_install.Prelude.{
  ◌≡◌, String, ◌<>◌, Bool, ◌||◌, ◌&&◌, not, false, Option, none, some, List, [], ◌∷◌, ◌==◌, ℕ,
  if◌then◌else◌,
}
use ansible_install.Prelude.Text.{strip, rstrip_char, has, starts_with, ends_with, cut}
use ansible_install.Prelude.Split.{split, mem}
use ansible_install.Prelude.Lists.{any}

-- `x or d`: the text, unless it is None or empty.
unfoldable pub text_or : Option String → String → String
text_or none d = d
text_or (some s) d = if s == "" then d else s

-- `bool(x)` of a text or None.
unfoldable pub is_set : Option String → Bool
is_set none = false
is_set (some s) = not (s == "")

-- `os.path.basename`: what stands behind the last slash.
unfoldable pub basename : String → String
basename String.[] = ""
basename (String.◌∷◌ c s) =
    let shorter = basename s in if has b'/' (String.◌∷◌ c s) then shorter else String.◌∷◌ c s

unfoldable pub kname : Option String → String
unfolding text_or
kname path = basename (rstrip_char b'/' (strip (text_or path "")))

-- What follows the first bracket of `_SOURCE_RE`, without the bracket that ends the text.
abbrev without_last : String → String
without_last String.[] = ""
without_last (String.◌∷◌ c String.[]) = ""
without_last (String.◌∷◌ c (String.◌∷◌ d s)) = String.◌∷◌ c (without_last (String.◌∷◌ d s))

-- `_SOURCE_RE`: the shortest device before a bracket, the bracket's text up to the end. A dot of
-- the pattern matches no line feed.
unfoldable pub match_source : String → Option (String × String)
match_source source = elim (cut b'[' source) [
  | none ↦ none
  | some (dev, rest) ↦
      if ends_with rest "]" && not (has 10 source) then some (dev, without_last rest) else none
]

unfoldable pub split_source : Option String → String × String
unfolding match_source text_or
split_source source =
    let stripped = strip (text_or source "") in
    elim (match_source stripped) [
      | none ↦ (stripped, "/")
      | some (dev, sub) ↦ (dev, text_or (some sub) "/")
    ]

-- `base.rstrip("/") or "/"`
unfoldable pub trimmed_base : String → String
unfolding text_or
trimmed_base base = text_or (some (rstrip_char b'/' base)) "/"

unfoldable pub beneath : String → String → Bool
beneath path base =
    let trimmed = trimmed_base base in path == trimmed || starts_with path (trimmed <> "/")

abbrev pub prjquota_options : List String
prjquota_options = "prjquota" ∷ "pquota" ∷ []

unfoldable pub has_prjquota : Option String → Bool
unfolding text_or
has_prjquota options = any (λ o. mem (strip o) prjquota_options) (split b',' (text_or options ""))
