-- ===== src/ControllerSeed/Patterns.antt =====
-- roles/controller_seed/filter_plugins/controller_seed_preview.py: the four regular expressions.
-- A class of digits is that of the ASCII digits.
use Prim.Native.Char.{Char, code}
use ansible_install.Prelude.{
  String, ◌<>◌, Bool, true, false, not, ◌&&◌, ◌||◌, Option, none, some, ◌==◌, eqb, leb,
  if◌then◌else◌,
}
use ansible_install.Prelude.Text.{has, ends_with, strip_prefix, cut}
use ansible_install.Prelude.Int.{is_digit}

-- The text that `"^" r "\d+$"` splits: what stands before the digits at the end, the digits, and
-- the one line feed that `$` leaves out.
pub record Tail : Type 0 where
  pub before : String
  pub digits : String
  pub feed : String

-- The tail of a text with one more character in front.
abbrev pub with_front : Char → Tail → Tail
with_front c t =
    if t.before == "" && is_digit (code c)
    then record t { digits = String.◌∷◌ c t.digits }
    else record t { before = String.◌∷◌ c t.before }

unfoldable pub tail_of : String → Tail
unfolding is_digit
tail_of String.[] = record { before = ""; digits = ""; feed = "" }
tail_of (String.◌∷◌ c s) =
    let rest = tail_of s in
    if s == "" && eqb (code c) 10
    then record { before = ""; digits = ""; feed = "\n" }
    else with_front c rest

-- `[a-z_]`
unfoldable pub names_attribute : String → Bool
names_attribute String.[] = true
names_attribute (String.◌∷◌ c s) =
    ((leb b'a' (code c) && leb (code c) b'z') || eqb (code c) b'_') && names_attribute s

-- `[a-z_]+_id`
unfoldable pub is_id_name : String → Bool
unfolding ends_with names_attribute
is_id_name name = names_attribute name && ends_with name "_id" && not (name == "_id")

-- What follows `word` behind an attribute of that name.
unfoldable pub after_name : String → Option (String × String) → Option String
unfolding strip_prefix is_id_name
after_name word none = none
after_name word (some (name, rest)) = if is_id_name name then strip_prefix rest word else none

-- Behind thirteen spaces, an attribute of that name and its colon, the text that follows `word`.
unfoldable pub after_attribute : String → String → Option String
unfolding strip_prefix cut after_name
after_attribute word before = elim (strip_prefix before "             ") [
  | none ↦ none
  | some attribute ↦ after_name word (cut b':' attribute)
]

-- A pattern `start .* last \d+`: the start takes what it reads off a text, if the text has it.
pub record LinePattern : Type 0 where
  pub start : String → Option String
  pub last : String

abbrev pub diff_id : LinePattern
unfolding after_attribute
diff_id = record { start = after_attribute " "; last = " → " }

abbrev pub drift_id : LinePattern
unfolding after_attribute
drift_id = record { start = after_attribute " database "; last = ", manifest " }

abbrev pub link_driver : LinePattern
unfolding strip_prefix
link_driver = record {
  start = λ before. strip_prefix before "  [link  ] ";
  last = " → ProvisionDriver #";
}

-- `.*` does not go past a line feed.
unfoldable pub reads : LinePattern → String → Bool
unfolding ends_with has
reads p before = elim (p.start before) [
  | none ↦ false
  | some middle ↦ ends_with middle p.last && not (has 10 middle)
]

abbrev pub id_placeholder : String
id_placeholder = "<id>"

-- `pattern.sub(lambda m: m.group(1) + ID_PLACEHOLDER, line)`
unfoldable pub substituted : LinePattern → String → String
unfolding tail_of reads
substituted p line =
    let t = tail_of line in
    if not (t.digits == "") && reads p t.before
    then t.before <> (id_placeholder <> t.feed)
    else line
