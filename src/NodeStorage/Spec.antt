-- ===== src/NodeStorage/Spec.antt =====
-- What the classifier of roles/node_storage/filter_plugins/node_storage.py promises of a probe,
-- said without the order in which it asks.
use ansible_install.Prelude.{◌≡◌, ◌≢◌, ◌⊎◌, String, ◌<>◌, Bool, true, false, some, List, []}
use ansible_install.Prelude.Split.{mem}
use ansible_install.Prelude.Lists.{All, any, select}
use ansible_install.Prelude.Dict.{get}
use ansible_install.NodeStorage.Paths.{is_set, kname, split_source, has_prjquota, beneath}
use ansible_install.NodeStorage.Device.{Node, nil, info, children_of, mountpoints, walk}
use ansible_install.NodeStorage.Results.{absent, directory}
use ansible_install.NodeStorage.Probe.{Probe, Filesystem, mount_at, type_at, is_mounted}
use ansible_install.NodeStorage.Disk.{Setup, allowed}
use ansible_install.NodeStorage.Signature.{signature}
use ansible_install.NodeStorage.Places.{subdir_for}
use ansible_install.NodeStorage.Contents.{holds_entries}
use ansible_install.NodeStorage.Verdict.{device_names}

-- The resolved device is a whole disk with nothing on it but perhaps one filesystem.
pub record IsWholeDisk (p : Probe) (disk : Node) : Type 0 where
  pub exists : p.device ≢ ""
  pub is_block : p.is_block ≡ true
  pub listed : p.lsblk ≡ some disk
  pub no_root : All (λ i. mem "/" (mountpoints i) ≡ false) (walk disk)
  pub whole : (info disk).type ≡ some "disk"
  pub bare : children_of disk ≡ nil
  pub readable : p.blkid_error ≡ ""
  pub unpartitioned : is_set (get p.blkid "PTTYPE") ≡ false

-- The role's own filesystem, mounted nowhere but at or beneath the role's paths; or none at all.
abbrev pub Carries : Probe → Setup → Node → Bool → Type 0
Carries p s disk true =
    (get (signature p.blkid) "TYPE" ≡ some "xfs")
    × (get (signature p.blkid) "LABEL" ≡ some s.label)
    × All (λ point. any (λ a. beneath point a) (allowed s) ≡ true) (mountpoints (info disk))
Carries p s disk false =
    (signature p.blkid ≡ []) × (is_set (info disk).fstype ≡ false) × (mountpoints (info disk) ≡ [])

-- The filesystem seen at a path is the one that the role mounts there, from this device.
abbrev pub IsOurMount : Probe → Setup → Node → String → Filesystem → Type 0
IsOurMount p s disk path m =
    (mem (kname (some (split_source m.source).0)) (device_names p (info disk)) ≡ true)
    × ((path ≡ s.mount) × ((split_source m.source).1 ≡ "/") × (has_prjquota m.options ≡ true)
        ⊎ (path ≢ s.mount) × ((split_source m.source).1 ≡ "/" <> subdir_for s.binds path))

abbrev pub MountAgrees : Probe → Setup → Node → String → Type 0
MountAgrees p s disk path =
    (m : Filesystem) → mount_at p.mounts path ≡ some m → IsOurMount p s disk path m

-- The allowed paths that findmnt shows a filesystem at.
abbrev pub mounted_paths : Probe → Setup → List String
mounted_paths p s = select (λ path. is_mounted p.mounts path) (allowed s)

-- What the root disk has at a path: nothing, or a directory that was listed and is empty.
abbrev pub IsEmptyPlace : Probe → String → Type 0
IsEmptyPlace p path =
    (type_at p.path_types path ≡ absent) × (holds_entries p.dir_nonempty path ≡ false)
    ⊎ (type_at p.path_types path ≡ directory) × (get p.dir_nonempty path ≡ some false)

abbrev pub PlaceIsSafe : Probe → Setup → String → Type 0
PlaceIsSafe p s path =
    (is_set (get p.find_error path) ≡ false)
    × ((mem path (mounted_paths p s) ≡ true) ⊎ IsEmptyPlace p path)

-- All that a verdict other than `refuse` rests on; `own` tells whose filesystem the disk carries.
pub record IsAccepted (p : Probe) (s : Setup) (disk : Node) (own : Bool) : Type 0 where
  pub disk_is_whole : IsWholeDisk p disk
  pub carries : Carries p s disk own
  pub mounts_agree : All (λ path. MountAgrees p s disk path) (allowed s)
  pub places_are_safe : All (λ path. PlaceIsSafe p s path) (allowed s)
