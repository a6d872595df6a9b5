-- ===== src/NodeStorage/Contents.antt =====
-- roles/node_storage/filter_plugins/node_storage.py: what the unmounted paths already hold.
use ansible_install.Prelude.{
  String, ◌<>◌, Bool, true, false, ◌&&◌, not, none, some, List, [], ◌∷◌, ltb, if◌then◌else◌,
}
use ansible_install.Prelude.Split.{join, mem}
use ansible_install.Prelude.Lists.{length, select, is_empty}
use ansible_install.Prelude.Dict.{Dict, get}
use ansible_install.NodeStorage.Paths.{text_or, is_set}
use ansible_install.NodeStorage.Probe.{Probe, type_at, is_directory}
use ansible_install.NodeStorage.Check.{Check, pass, refused, refuse_if}
use ansible_install.NodeStorage.Disk.{Setup, targets}

-- `nonempty.get(path)`
unfoldable pub holds_entries : Dict Bool → String → Bool
holds_entries nonempty path = elim (get nonempty path) [ none ↦ false | some b ↦ b ]

abbrev is_listed : Dict Bool → String → Bool
is_listed nonempty path = elim (get nonempty path) [ none ↦ false | some b ↦ true ]

-- A directory that the probe did not look into.
unfoldable pub is_unchecked : Probe → List String → String → Bool
unfolding type_at
is_unchecked p mounted path =
    not (mem path mounted)
    && is_directory (type_at p.path_types path)
    && not (is_listed p.dir_nonempty path)

unfoldable pub check_listing : String → Probe → List String → List String → Check (Unit {0})
unfolding is_unchecked is_set text_or
check_listing dev p mounted [] = pass tt
check_listing dev p mounted (path ∷ paths) =
    let later = check_listing dev p mounted paths in
    if is_set (get p.find_error path)
    then refused (
        dev
        <> (" cannot be put in place: the contents of "
            <> (path
                <> (" could not be listed ("
                    <> (text_or (get p.find_error path) ""
                        <> ("), so whether it already holds data cannot be told. Check it by hand with `ls -A "
                            <> (path <> "`.")))))))
    else if is_unchecked p mounted path
    then refused (
        dev
        <> (" cannot be put in place: the contents of "
            <> (path <> (" were not checked. Check it by hand with `ls -A " <> (path <> "`.")))))
    else later

-- The bind targets that hold something on the root disk.
unfoldable pub written : Probe → List String → List String → List String
unfolding holds_entries
written p mounted paths = select (λ t. not (mem t mounted) && holds_entries p.dir_nonempty t) paths

unfoldable pub check_written : String → Probe → Setup → List String → Check (Unit {0})
unfolding written
check_written dev p s mounted =
    let found = written p mounted (targets s) in
    let several = ltb 1 (length found) in
    refuse_if (not (is_empty found)) (
      dev
      <> (" cannot be put in place: "
          <> (join " and " found
              <> (" already exist"
                  <> ((if several then "" else "s")
                      <> (" and "
                          <> ((if several then "are" else "is")
                              <> " not empty, so docker or containerd has already written to the root disk. This is a node that was built without a data disk; rebuild it with the data disk attached.")))))))

unfoldable pub check_hidden : String → Probe → Setup → List String → Check (Unit {0})
unfolding holds_entries
check_hidden dev p s mounted =
    refuse_if (not (mem s.mount mounted) && holds_entries p.dir_nonempty s.mount) (
      dev
      <> (" cannot be put in place: "
          <> (s.mount
              <> (" is not mounted but already has contents on the root disk, which mounting the data disk would hide. Find out what wrote there (`ls -A "
                  <> (s.mount <> "`), move it away or remove it, and re-run.")))))
