-- ===== src/Tests/Storage.antt =====
-- node_storage: a blank disk, one of the role's own, and disks that are refused.
use ansible_install.Prelude.{
  ◌↔◌, ◌≡◌, refl, String, Bool, true, false, Option, none, some, List, [], ◌∷◌, ◌==◌,
}
use ansible_install.Prelude.Text.{strip, starts_with, cut, has, ends_with}
use ansible_install.Prelude.Split.{mem, sorted, join, split}
use ansible_install.Prelude.Lists.{All, any, select, is_empty}
use ansible_install.Prelude.Dict.{get}
use ansible_install.NodeStorage.Paths.{
  text_or, is_set, basename, kname, match_source, split_source, trimmed_base, beneath, has_prjquota,
}
use ansible_install.NodeStorage.Device.{Node, node, nil, mountpoints, walk, title, held_by}
use ansible_install.NodeStorage.Results.{absent, directory, symlink}
use ansible_install.NodeStorage.Probe.{mount_at, type_at, Probe}
use ansible_install.NodeStorage.Check.{blank, ours, ready, refuse, Verdict, settle}
use ansible_install.NodeStorage.Disk.{
  Setup, allowed, dev_name, check_exists, check_root, check_root_below, check_type, check_children,
}
use ansible_install.NodeStorage.Signature.{
  check_blkid_error, check_partition_table, signature, signature_words, label_words,
  check_signature, check_points, outside_of, check_outside,
}
use ansible_install.NodeStorage.Places.{
  subdir_for, check_mount, check_mounts, check_type_at, check_types,
}
use ansible_install.NodeStorage.Contents.{
  holds_entries, is_unchecked, check_listing, written, check_written, check_hidden,
}
use ansible_install.NodeStorage.Verdict.{
  device_names, check_disk, check_where_mounted, check_root_disk, missing, conclude, classify_check,
  classify,
}
use ansible_install.NodeStorage.Spec.{IsAccepted, mounted_paths}
use ansible_install.NodeStorage.Safety.States.{
  classify-blank, classify-ours, classify-ready, classify-refuse,
}

abbrev pub setup : Setup
setup = record {
  mount = "/var/lib/docker-data";
  label = "dockerdata";
  binds =
      record { target = "/var/lib/docker"; src_subdir = "docker" }
      ∷ record { target = "/var/lib/containerd"; src_subdir = "containerd" }
      ∷ [];
}

abbrev pub xvdb : List (Option String) → Option String → Node
xvdb points fstype =
    node
      (record {
        name = some "xvdb";
        path = some "/dev/xvdb";
        type = some "disk";
        fstype = fstype;
        mountpoints = some points;
        mountpoint = none;
      })
      nil

abbrev blank_probe : Probe
blank_probe = record {
  device_input = "/dev/disk/by-id/data";
  device = "/dev/xvdb";
  is_block = true;
  blkid = ("DEVNAME", "/dev/xvdb") ∷ [];
  blkid_error = "";
  lsblk = some (xvdb (none ∷ []) none);
  mounts =
      ("/var/lib/docker-data", none)
      ∷ ("/var/lib/docker", none)
      ∷ ("/var/lib/containerd", none)
      ∷ [];
  path_types =
      ("/var/lib/docker-data", absent)
      ∷ ("/var/lib/docker", directory)
      ∷ ("/var/lib/containerd", absent)
      ∷ [];
  dir_nonempty =
      ("/var/lib/docker-data", false)
      ∷ ("/var/lib/docker", false)
      ∷ ("/var/lib/containerd", false)
      ∷ [];
  find_error = [];
}

abbrev own_probe : Probe
own_probe = record blank_probe {
  blkid = ("DEVNAME", "/dev/xvdb") ∷ ("LABEL", "dockerdata") ∷ ("TYPE", "xfs") ∷ [];
  lsblk = some (xvdb (some "/var/lib/docker-data" ∷ []) (some "xfs"));
  mounts =
      (
        "/var/lib/docker-data",
        some (record { source = some "/dev/xvdb"; options = some "rw,prjquota" }),
      )
      ∷ [];
}

abbrev ready_probe : Probe
ready_probe = record own_probe {
  lsblk = some (xvdb (some "/var/lib/docker-data" ∷ some "/var/lib/docker" ∷ []) (some "xfs"));
  mounts =
      (
        "/var/lib/docker-data",
        some (record { source = some "/dev/xvdb"; options = some "rw,prjquota" }),
      )
      ∷ ("/var/lib/docker", some (record { source = some "/dev/xvdb[/docker]"; options = none }))
      ∷ (
        "/var/lib/containerd",
        some (record { source = some "/dev/xvdb[/containerd]"; options = none }),
      )
      ∷ [];
}

-- A symlink where docker keeps its state.
abbrev linked_probe : Probe
linked_probe = record blank_probe {
  path_types = ("/var/lib/docker-data", absent) ∷ ("/var/lib/docker", symlink) ∷ [];
}

-- The classifier with everything unfolded.
unfoldable pub run : Probe → Setup → Verdict
unfolding classify classify_check settle check_exists check_disk check_where_mounted check_root_disk
    conclude check_root check_type check_children check_blkid_error check_partition_table signature
    signature_words label_words check_signature check_points outside_of check_outside subdir_for
    check_mount check_mounts check_type_at check_types holds_entries is_unchecked check_listing
    written check_written check_hidden device_names dev_name check_root_below ◌==◌ strip starts_with
    cut has ends_with mem join split any select get text_or is_set basename kname match_source
    split_source trimmed_base beneath has_prjquota mountpoints walk title held_by sorted mount_at
    type_at
run = classify

blank_runs : run blank_probe setup ≡ record {
  state = blank;
  reason =
      "docker_data_device /dev/disk/by-id/data (/dev/xvdb) is blank; it will be formatted XFS (label dockerdata) and mounted at /var/lib/docker-data.";
}
unfolding run
blank_runs = refl

ours_runs : (run own_probe setup).state ≡ ours
unfolding run
ours_runs = refl

ready_runs : run ready_probe setup ≡ record { state = ready; reason = "" }
unfolding run
ready_runs = refl

linked_runs : run linked_probe setup ≡ record {
  state = refuse;
  reason =
      "docker_data_device /dev/disk/by-id/data (/dev/xvdb) cannot be put in place: /var/lib/docker is a symlink, not a directory. Mounting over it would hide whatever it holds or points at (`ls -ld /var/lib/docker`). Move that state onto the data disk by hand or rebuild the node with the data disk attached. Nothing was changed.";
}
unfolding run
linked_runs = refl

classify-blank_example : (disk : Node) × IsAccepted blank_probe setup disk false
unfolding run
classify-blank_example = (classify-blank blank_probe setup).0 refl

classify-ours_example :
    (disk : Node) × IsAccepted own_probe setup disk true
    × (is_empty (missing setup (mounted_paths own_probe setup)) ≡ false)
unfolding run
classify-ours_example = (classify-ours own_probe setup).0 refl

classify-ready_example :
    (disk : Node) × IsAccepted ready_probe setup disk true
    × All (λ path. mem path (mounted_paths ready_probe setup) ≡ true) (allowed setup)
unfolding run
classify-ready_example = (classify-ready ready_probe setup).0 refl

classify-refuse_example :
    ((classify linked_probe setup).state ≡ refuse)
    ↔ ((disk : Node) (own : Bool) → ¬ IsAccepted linked_probe setup disk own)
classify-refuse_example = classify-refuse linked_probe setup
