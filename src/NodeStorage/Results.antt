-- ===== src/NodeStorage/Results.antt =====
-- roles/node_storage/filter_plugins/node_storage.py: registered results of commands and of stat.
use ansible_install.Prelude.{
  String, Bool, false, ◌&&◌, ◌||◌, not, Option, none, some, List, [], ◌∷◌, ◌==◌, ℕ, eqb,
  if◌then◌else◌,
}
use Prim.Native.Char.{code}
use ansible_install.Prelude.Text.{strip, cut}
use ansible_install.Prelude.Split.{lines}
use ansible_install.Prelude.Dict.{Dict, put}
use ansible_install.Prelude.Int.{ℤ, is_nat, show_ℤ}
use ansible_install.NodeStorage.Paths.{text_or}

-- A registered command result. A key that is missing is `none`; `skipped` is the key's truth.
pub record Command : Type 0 where
  pub rc : Option ℤ
  pub skipped : Bool
  pub stdout : Option String
  pub stderr : Option String

-- `none` is a value that is no dict. The exit status is given if the command ran.
unfoldable pub ran : Option Command → Option ℤ
ran none = none
ran (some result) = if result.skipped then none else result.rc

unfoldable pub exited : Option Command → ℕ → Bool
exited result code = elim (ran result) [ none ↦ false | some rc ↦ is_nat rc code ]

abbrev pub stdout_of : Option Command → Option String
stdout_of none = none
stdout_of (some result) = result.stdout

abbrev pub stderr_of : Option Command → Option String
stderr_of none = none
stderr_of (some result) = result.stderr

-- `re.sub(r"\\(.)", r"\1", value)`: a backslash goes if a character other than a line feed follows.
unfoldable pub unescape : String → String
unescape String.[] = ""
unescape (String.◌∷◌ c String.[]) = String.◌∷◌ c ""
unescape (String.◌∷◌ c (String.◌∷◌ d s)) =
    let kept = unescape (String.◌∷◌ d s) in
    let dropped = unescape s in
    if eqb (code c) b'\\' && not (eqb (code d) 10) then String.◌∷◌ d dropped else String.◌∷◌ c kept

-- One line of the export: `none` if it is skipped, its key and value otherwise.
unfoldable pub parse_entry : String → Option (String × String)
unfolding unescape
parse_entry raw =
    let line = strip raw in
    if line == ""
    then none
    else elim (cut b'=' line) [ none ↦ none | some (key, value) ↦ some (strip key, unescape value) ]

parse_lines : List String → Dict String → Dict String
unfolding parse_entry
parse_lines [] out = out
parse_lines (line ∷ rest) out =
    parse_lines rest
      (elim (parse_entry line) [ none ↦ out | some (key, value) ↦ put out key value ])

unfoldable pub parse_blkid : Option String → Dict String
unfolding parse_lines text_or
parse_blkid stdout = parse_lines (lines (text_or stdout "")) []

-- `_blkid`
unfoldable pub blkid_of : Option Command → Dict String
blkid_of result = elim (ran result) [
  | none ↦ []
  | some rc ↦
      if is_nat rc 2
      then []
      else if is_nat rc 0
      then parse_blkid (stdout_of result)
      else ("BLKID_RC", show_ℤ rc) ∷ []
]

-- `_blkid_error`
unfoldable pub blkid_error_of : Option Command → String
blkid_error_of result = if exited result 2 then strip (text_or (stderr_of result) "") else ""

-- A registered `ansible.builtin.stat`. The flags are the truth of their keys.
pub record Stat : Type 0 where
  pub exists : Option Bool
  pub islnk : Bool
  pub isdir : Bool
  pub isreg : Bool
  pub isblk : Bool

pub record StatResult : Type 0 where
  pub skipped : Bool
  pub failed : Bool
  pub stat : Option Stat

pub data PathType : Type 0 where
  absent directory symlink file other unknown : PathType

unfoldable pub stat_type : Stat → PathType
stat_type st = elim st.exists [
  | none ↦ unknown
  | some there ↦
      if not there
      then absent
      else if st.islnk
      then symlink
      else if st.isdir
      then directory
      else if st.isreg
      then file
      else other
]

unfoldable pub path_type : Option StatResult → PathType
unfolding stat_type
path_type none = unknown
path_type (some result) =
    if result.skipped || result.failed
    then unknown
    else elim result.stat [ none ↦ unknown | some st ↦ stat_type st ]

-- A loop item: a path, or a bind entry with the path that it is for.
pub data Item : Type 0 where
  path : String → Item
  bind : Option String → Item

unfoldable pub item_path : Option Item → Option String
item_path none = none
item_path (some (path p)) = some p
item_path (some (bind target)) = target
