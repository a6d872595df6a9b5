-- ===== src/NodeStorage/Places.antt =====
-- roles/node_storage/filter_plugins/node_storage.py: what is at the data mount and the bind targets.
use ansible_install.Prelude.{String, ◌<>◌, not, none, some, List, [], ◌∷◌, ◌==◌, if◌then◌else◌}
use ansible_install.Prelude.Split.{mem}
use ansible_install.NodeStorage.Paths.{text_or, kname, split_source, has_prjquota}
use ansible_install.NodeStorage.Results.{PathType, absent, directory, symlink, file, unknown}
use ansible_install.NodeStorage.Probe.{Probe, Filesystem, Mounts, mount_at, type_at}
use ansible_install.NodeStorage.Check.{Check, pass, refused, ◌>>=◌, ◌>>◌}
use ansible_install.NodeStorage.Disk.{Bind, Setup}

-- The subdirectory of the first bind entry for the path. A path that is no target is not asked.
unfoldable pub subdir_for : List Bind → String → String
subdir_for [] path = ""
subdir_for (b ∷ binds) path = if b.target == path then b.src_subdir else subdir_for binds path

-- The filesystem at one allowed path comes from this device, in the way the role mounts it.
unfoldable pub check_mount : String → Setup → List String → String → Filesystem → Check (Unit {0})
unfolding split_source kname has_prjquota subdir_for text_or
check_mount dev s names path m =
    let (src, sub) = split_source m.source in
    let want = "/" <> subdir_for s.binds path in
    if not (mem (kname (some src)) names)
    then refused (
        path
        <> (" is mounted from "
            <> (text_or (some src) "an unknown source"
                <> (", not from "
                    <> (dev
                        <> (". If docker_data_device changed on a built node, put it back; otherwise unmount "
                            <> (path <> " (and remove its fstab entry) first.")))))))
    else if path == s.mount
    then if not (sub == "/")
      then refused (
          path
          <> (" is mounted from "
              <> (src
                  <> ("["
                      <> (sub
                          <> ("], a subdirectory of "
                              <> (dev <> " rather than its root. Unmount it and re-run.")))))))
      else if not (has_prjquota m.options)
      then refused (
          dev
          <> (" is mounted at "
              <> (path
                  <> (" WITHOUT project quotas (options: "
                      <> (text_or m.options "none"
                          <> ("). XFS can only turn prjquota on at mount time, never on a remount: schedule a window, stop docker and containerd, unmount "
                              <> (path
                                  <> (" (and the bind mounts beneath it) and re-run, which mounts it with "
                                      <> "prjquota."))))))))
      else pass tt
    else if not (sub == want)
    then refused (
        path
        <> (" is mounted from "
            <> (src
                <> ("["
                    <> (sub
                        <> ("]; it must be the bind mount of "
                            <> (s.mount
                                <> (want
                                    <> (" on "
                                        <> (dev
                                            <> (". Unmount " <> (path <> " and re-run."))))))))))))
    else pass tt

-- Passes with the allowed paths that are mounted.
unfoldable pub check_mounts :
    String → Setup → List String → Mounts → List String → Check (List String)
check_mounts dev s names mounts [] = pass []
check_mounts dev s names mounts (path ∷ paths) =
    let later = check_mounts dev s names mounts paths in
    elim (mount_at mounts path) [
      | none ↦ later
      | some m ↦ do check_mount dev s names path m; rest ← later; pass (path ∷ rest)
    ]

abbrev type_name : PathType → String
type_name symlink = "a symlink"
type_name file = "a regular file"
type_name _ = "not a directory"

-- A path with no mount is absent or a plain directory.
unfoldable pub check_type_at : String → String → PathType → Check (Unit {0})
check_type_at dev path absent = pass tt
check_type_at dev path directory = pass tt
check_type_at dev path unknown = refused (
    dev
    <> (" cannot be put in place: "
        <> (path
            <> (" could not be checked on the node (stat failed or did not run). Check it by hand with `ls -ld "
                <> (path <> "`.")))))
check_type_at dev path t = refused (
    dev
    <> (" cannot be put in place: "
        <> (path
            <> (" is "
                <> (type_name t
                    <> (", not a directory. Mounting over it would hide whatever it holds or points at (`ls -ld "
                        <> (path
                            <> "`). Move that state onto the data disk by hand or rebuild the node with the data disk attached.")))))))

unfoldable pub check_types : String → Probe → List String → List String → Check (Unit {0})
unfolding check_type_at type_at
check_types dev p mounted [] = pass tt
check_types dev p mounted (path ∷ paths) =
    let later = check_types dev p mounted paths in
    if mem path mounted then later else do check_type_at dev path (type_at p.path_types path); later
