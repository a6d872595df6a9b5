-- ===== src/NodeStorage/Verdict.antt =====
-- roles/node_storage/filter_plugins/node_storage.py: `node_storage_classify`, the checks in the
-- order of the source, each of which may return at once.
use ansible_install.Prelude.{String, ◌<>◌, Bool, not, List, [], ◌∷◌, ◌==◌, some, if◌then◌else◌}
use ansible_install.Prelude.Split.{join, mem}
use ansible_install.Prelude.Lists.{select, is_empty}
use ansible_install.NodeStorage.Paths.{kname}
use ansible_install.NodeStorage.Device.{Info, Node, info, children_of, mountpoints}
use ansible_install.NodeStorage.Probe.{Probe}
use ansible_install.NodeStorage.Check.{
  Verdict, blank, ours, ready, Check, pass, ◌>>=◌, ◌>>◌, settle,
}
use ansible_install.NodeStorage.Disk.{
  Setup, allowed, dev_name, check_exists, check_root, check_type, check_children,
}
use ansible_install.NodeStorage.Signature.{
  check_blkid_error, check_partition_table, signature, check_signature, check_points, check_outside,
}
use ansible_install.NodeStorage.Places.{check_mounts, check_types}
use ansible_install.NodeStorage.Contents.{check_listing, check_written, check_hidden}

-- The kernel names that the device goes by.
unfoldable pub device_names : Probe → Info → List String
unfolding kname
device_names p i =
    select (λ n. not (n == "")) (kname (some p.device) ∷ kname i.path ∷ kname i.name ∷ [])

-- Everything that is asked of the device, up to whether it is the role's own.
unfoldable pub check_disk : Probe → Setup → Node → Check Bool
check_disk p s disk = do
  check_root (dev_name p) disk
  check_type (dev_name p) (info disk)
  check_children (dev_name p) p.device (children_of disk)
  check_blkid_error (dev_name p) p.device p.blkid_error
  check_partition_table (dev_name p) p.device p.blkid
  check_signature (dev_name p) p.device s.label (signature p.blkid) (info disk).fstype

-- Everything that is asked of the mounts, up to which allowed paths are mounted.
unfoldable pub check_where_mounted : Probe → Setup → Node → Bool → Check (List String)
check_where_mounted p s disk own = do
  check_points (dev_name p) own (mountpoints (info disk))
  check_outside (dev_name p) (allowed s) (mountpoints (info disk))
  check_mounts (dev_name p) s (device_names p (info disk)) p.mounts (allowed s)

-- Everything that is asked of the paths with no mount.
unfoldable pub check_root_disk : Probe → Setup → List String → Check (Unit {0})
check_root_disk p s mounted = do
  check_types (dev_name p) p mounted (allowed s)
  check_listing (dev_name p) p mounted (allowed s)
  check_written (dev_name p) p s mounted
  check_hidden (dev_name p) p s mounted

abbrev pub missing : Setup → List String → List String
missing s mounted = select (λ path. not (mem path mounted)) (allowed s)

unfoldable pub conclude : Probe → Setup → Bool → List String → Verdict
conclude p s own mounted =
    if not own
    then record {
      state = blank;
      reason =
          dev_name p
          <> (" is blank; it will be formatted XFS (label "
              <> (s.label <> (") and mounted at " <> (s.mount <> "."))));
    }
    else if not (is_empty (missing s mounted))
    then record {
      state = ours;
      reason =
          dev_name p
          <> (" holds our XFS filesystem; "
              <> (join ", " (missing s mounted) <> " will be mounted."));
    }
    else record { state = ready; reason = "" }

unfoldable pub classify_check : Probe → Setup → Check Verdict
classify_check p s = do
  disk ← check_exists p
  own ← check_disk p s disk
  mounted ← check_where_mounted p s disk own
  check_root_disk p s mounted
  pass (conclude p s own mounted)

unfoldable pub classify : Probe → Setup → Verdict
unfolding settle
classify p s = settle (classify_check p s)
