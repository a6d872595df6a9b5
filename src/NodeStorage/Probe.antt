-- ===== src/NodeStorage/Probe.antt =====
-- roles/node_storage/filter_plugins/node_storage.py: from the registered results to the probe.
use mathlib.Core.List.{head?, get_last?}
use mathlib.Core.Option
use ansible_install.Prelude.{
  String, ◌<>◌, Bool, true, false, ◌&&◌, not, Option, none, some, List, [], ◌∷◌, ◌==◌,
  if◌then◌else◌,
}
use ansible_install.Prelude.Text.{strip}
use ansible_install.Prelude.Dict.{Dict, get, put}
use ansible_install.Prelude.Int.{show_ℤ}
use ansible_install.NodeStorage.Paths.{text_or, is_set}
use ansible_install.NodeStorage.Device.{Node}
use ansible_install.NodeStorage.Results.{
  Command, ran, exited, stdout_of, blkid_of, blkid_error_of, StatResult, PathType, unknown,
  directory, path_type, Item, item_path,
}

-- What findmnt tells of one mounted filesystem.
pub record Filesystem : Type 0 where
  pub source : Option String
  pub options : Option String

-- `json.loads` on the output of the two commands, and the list under `blockdevices` and under
-- `filesystems`, empty if the key is missing. `none` is the ValueError of a text that is no JSON.
pub record Reader : Type 0 where
  pub blockdevices : String → Option (List Node)
  pub filesystems : String → Option (List Filesystem)

-- `_doc(stdout).get(key) or []`
unfoldable pub document {ℓ} :
    {A : Type ℓ} → (String → Option (List A)) → Option String → Option (List A)
unfolding text_or
document read stdout =
    let text = strip (text_or stdout "") in if text == "" then some [] else read text

module _ (reader : Reader) where
  unfoldable pub lsblk_of : Option Command → Option (Option Node)
  unfolding document exited ran
  lsblk_of result =
      if exited result 0
      then Option.map (λ devices. head? devices) (document reader.blockdevices (stdout_of result))
      else some none

  unfoldable pub findmnt_of : Command → Option (Option Filesystem)
  unfolding document exited ran
  findmnt_of result =
      if exited (some result) 0
      then Option.map (λ fs. get_last? fs) (document reader.filesystems result.stdout)
      else some none

pub record MountRow : Type 0 where
  pub item : String
  pub result : Command

pub record StatRow : Type 0 where
  pub item : Option Item
  pub result : StatResult

pub record FindRow : Type 0 where
  pub item : Option Item
  pub result : Command

abbrev pub Mounts : Type 0
Mounts = Dict (Option Filesystem)

pub record Contents : Type 0 where
  pub nonempty : Dict Bool
  pub errors : Dict String

-- A path that findmnt found nothing at, or was not asked about, has no mount.
unfoldable pub mount_at : Mounts → String → Option Filesystem
mount_at mounts path = elim (get mounts path) [ none ↦ none | some fs ↦ fs ]

unfoldable pub type_at : Dict PathType → String → PathType
type_at types path = elim (get types path) [ none ↦ unknown | some t ↦ t ]

module _ (reader : Reader) where
  unfoldable pub collect_mounts : List MountRow → Mounts → Option Mounts
  unfolding findmnt_of
  collect_mounts [] mounts = some mounts
  collect_mounts (r ∷ rows) mounts = elim (findmnt_of reader r.result) [
    | none ↦ none
    | some fs ↦ collect_mounts rows (put mounts r.item fs)
  ]

unfoldable pub collect_types : List StatRow → Dict PathType → Dict PathType
unfolding item_path path_type is_set
collect_types [] types = types
collect_types (r ∷ rows) types = collect_types rows (elim (item_path r.item) [
  | none ↦ types
  | some path ↦ if path == "" then types else put types path (path_type (some r.result))
])

abbrev pub is_directory : PathType → Bool
is_directory directory = true
is_directory _ = false

-- `find exited 1`, or that it did not run.
abbrev pub exit_words : Option Command → String
exit_words result = elim (ran result) [ none ↦ "without running" | some rc ↦ show_ℤ rc ]

abbrev pub find_failure : Command → String
find_failure r =
    text_or (some (strip (text_or r.stderr ""))) ("find exited " <> exit_words (some r))

abbrev pub is_mounted : Mounts → String → Bool
is_mounted mounts path = elim (mount_at mounts path) [ none ↦ false | some fs ↦ true ]

-- One result of the find loop, for a path that is given.
unfoldable pub record_find : Dict PathType → Mounts → Command → String → Contents → Contents
record_find types mounts r path c =
    if not (is_directory (type_at types path))
    then record c { nonempty = put c.nonempty path false }
    else if not (exited (some r) 0)
    then record {
      nonempty = put c.nonempty path false;
      errors = put c.errors path (find_failure r);
    }
    else record c {
      nonempty =
          put c.nonempty path
            (is_set (some (strip (text_or r.stdout ""))) && not (is_mounted mounts path));
    }

-- The loop's body: a result without a path is passed over.
unfoldable pub visit_find : Dict PathType → Mounts → FindRow → Contents → Contents
visit_find types mounts r c = elim (item_path r.item) [
  | none ↦ c
  | some path ↦ if path == "" then c else record_find types mounts r.result path c
]

unfoldable pub collect_contents : Dict PathType → Mounts → List FindRow → Contents → Contents
collect_contents types mounts [] c = c
collect_contents types mounts (r ∷ rows) c =
    collect_contents types mounts rows (visit_find types mounts r c)

pub record Probe : Type 0 where
  pub device_input : String
  pub device : String
  pub is_block : Bool
  pub blkid : Dict String
  pub blkid_error : String
  pub lsblk : Option Node
  pub mounts : Mounts
  pub path_types : Dict PathType
  pub dir_nonempty : Dict Bool
  pub find_error : Dict String

-- The results that tasks/probe.yml registers. `none` is a skipped or missing result.
pub record Registered : Type 0 where
  pub device_input : Option String
  pub realpath : Option Command
  pub stat : Option StatResult
  pub blkid : Option Command
  pub lsblk : Option Command
  pub findmnt : List MountRow
  pub find : List FindRow
  pub path_stat : List StatRow

abbrev pub resolved : Registered → String
resolved g = if exited g.realpath 0 then strip (text_or (stdout_of g.realpath) "") else ""

abbrev stat_is_block : Option StatResult → Bool
stat_is_block none = false
stat_is_block (some result) = elim result.stat [
  | none ↦ false
  | some st ↦ elim st.exists [ none ↦ false | some there ↦ there && st.isblk ]
]

unfoldable pub resolved_block : Registered → Bool
unfolding exited ran is_set text_or
resolved_block g = is_set (some (resolved g)) && stat_is_block g.stat

module _ (reader : Reader) where
  unfoldable pub build_probe : Registered → Option Probe
  build_probe g = elim (collect_mounts reader g.findmnt []) [
    | none ↦ none
    | some mounts ↦
        let block = resolved_block g in
        let types = collect_types g.path_stat [] in
        let contents =
          collect_contents types mounts g.find (record { nonempty = []; errors = [] }) in
        Option.map
          (λ lsblk. record {
            device_input = text_or g.device_input "";
            device = resolved g;
            is_block = block;
            blkid = if block then blkid_of g.blkid else [];
            blkid_error = if block then blkid_error_of g.blkid else "";
            lsblk = lsblk;
            mounts = mounts;
            path_types = types;
            dir_nonempty = contents.nonempty;
            find_error = contents.errors;
          })
          (if block then lsblk_of reader g.lsblk else some none)
  ]
