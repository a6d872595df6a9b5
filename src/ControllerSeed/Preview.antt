-- ===== src/ControllerSeed/Preview.antt =====
-- roles/controller_seed/filter_plugins/controller_seed_preview.py: the lines of a preview.
use ansible_install.Prelude.{
  String, ◌<>◌, Bool, true, false, Option, none, some, List, [], ◌∷◌, ◌==◌, if◌then◌else◌,
}
use ansible_install.Prelude.Text.{strip, rstrip_char}
use ansible_install.Prelude.Split.{lines}
use ansible_install.Prelude.Json.{Json, null, bool, num, str, arr, obj, Items, nil, cons}
use ansible_install.Prelude.Repr.{str_of}
use ansible_install.ControllerSeed.Patterns.{
  LinePattern, diff_id, drift_id, link_driver, substituted,
}
use ansible_install.ControllerSeed.Log.{is_log_line}

unfoldable pub texts_of : Items → List String
unfolding str_of
texts_of nil = []
texts_of (cons v rest) = str_of v ∷ texts_of rest

-- `_lines`
unfoldable pub output_lines : Json → List String
unfolding texts_of lines str_of
output_lines null = []
output_lines (arr xs) = texts_of xs
output_lines (str s) = lines s
output_lines (bool b) = lines (str_of (bool b))
output_lines (num n) = lines (str_of (num n))
output_lines (obj doc) = lines (str_of (obj doc))

abbrev pub patterns : List LinePattern
patterns = diff_id ∷ drift_id ∷ link_driver ∷ []

unfoldable pub substitute_all : List LinePattern → String → String
unfolding substituted
substitute_all [] line = line
substitute_all (p ∷ ps) line = substitute_all ps (substituted p line)

-- The loop over the lines.
unfoldable pub normal_lines : List String → List String
unfolding substitute_all is_log_line
normal_lines [] = []
normal_lines (line ∷ rest) =
    let later = normal_lines rest in
    let bare = rstrip_char b'\r' line in
    if is_log_line bare then later else substitute_all patterns bare ∷ later

unfoldable pub normalize : Json → List String
unfolding normal_lines output_lines
normalize output = normal_lines (output_lines output)

-- `"".join(line + "\n" for line in lines)`
unfoldable pub hashed_text : List String → String
hashed_text [] = ""
hashed_text (line ∷ rest) = line <> ("\n" <> hashed_text rest)

-- `not any(line.strip() for line in lines)`
unfoldable pub all_blank : List String → Bool
unfolding strip
all_blank [] = true
all_blank (line ∷ rest) = if strip line == "" then all_blank rest else false

-- `sha256` is the lowercase hexadecimal digest of a text in UTF-8; `none` is the AnsibleFilterError.
unfoldable pub preview_sha256 : (String → String) → Json → Option String
unfolding normalize all_blank hashed_text
preview_sha256 sha256 output =
    let found = normalize output in
    if all_blank found then none else some (sha256 (hashed_text found))
