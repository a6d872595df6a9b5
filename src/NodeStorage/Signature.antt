-- ===== src/NodeStorage/Signature.antt =====
-- roles/node_storage/filter_plugins/node_storage.py: what blkid and lsblk say is on the device.
use Prim.Native.String.{compare}
use text.Mathlib.Text.{is_le}
use ansible_install.Prelude.{
  String, ◌<>◌, Bool, true, false, not, Option, some, List, [], ◌∷◌, ◌==◌, map, if◌then◌else◌,
}
use ansible_install.Prelude.Split.{join}
use ansible_install.Prelude.Lists.{any, select, is_empty}
use ansible_install.Prelude.Dict.{Dict, get}
use ansible_install.NodeStorage.Paths.{text_or, is_set, beneath}
use ansible_install.NodeStorage.Check.{Check, pass, refused, refuse_if}
use ansible_install.NodeStorage.Disk.{is_text}

unfoldable pub check_blkid_error : String → String → String → Check (Unit {0})
unfolding is_set
check_blkid_error dev device error = refuse_if (is_set (some error)) (
    dev
    <> (" could not be read by blkid ("
        <> (error
            <> ("), so whether it already holds data cannot be told. Check the device on the node with `blkid -p "
                <> (device <> "`.")))))

unfoldable pub check_partition_table : String → String → Dict String → Check (Unit {0})
unfolding get is_set text_or
check_partition_table dev device blkid = refuse_if (is_set (get blkid "PTTYPE")) (
    dev
    <> (" carries a "
        <> (text_or (get blkid "PTTYPE") ""
            <> (" partition table. The role only uses a whole disk with no partition table; if its contents are disposable, wipe it (`wipefs -a "
                <> (device <> "`) and re-run.")))))

-- The keys that blkid reports, without those that only name the device node.
unfoldable pub signature : Dict String → Dict String
signature blkid = select (λ (k, v). not (k == "DEVNAME")) blkid

insert_entry : String × String → Dict String → Dict String
insert_entry e [] = e ∷ []
insert_entry e (f ∷ d) =
    let later = insert_entry e d in if is_le (compare e.0 f.0) then e ∷ f ∷ d else f ∷ later

sorted_entries : Dict String → Dict String
unfolding insert_entry
sorted_entries [] = []
sorted_entries (e ∷ d) = insert_entry e (sorted_entries d)

-- What the refusal of a signature that is no XFS calls it.
unfoldable pub signature_words : Dict String → String
unfolding get is_set text_or sorted_entries join
signature_words found =
    if is_set (get found "TYPE")
    then "an existing " <> (text_or (get found "TYPE") "" <> " signature")
    else "an unrecognized signature (blkid: "
      <> (join ", " (map (λ (k, v). k <> ("=" <> v)) (sorted_entries found)) <> ")")

unfoldable pub label_words : Dict String → String
unfolding get is_set text_or
label_words found =
    if is_set (get found "LABEL")
    then "label '" <> (text_or (get found "LABEL") "" <> "'")
    else "no label"

-- Passes with `ours`: whether the device carries the role's own filesystem.
unfoldable pub check_signature : String → String → String → Dict String → Option String → Check Bool
unfolding signature_words label_words get is_set text_or
check_signature dev device label found fstype =
    if is_empty found
    then if is_set fstype
      then refused (
          dev
          <> (" shows no signature to blkid but lsblk reports "
              <> (text_or fstype "" <> ". Inspect the device by hand.")))
      else pass false
    else if not (is_text (get found "TYPE") "xfs")
    then refused (
        dev
        <> (" already holds "
            <> (signature_words found
                <> (". The role never formats over existing data; if the contents are disposable, wipe it (`wipefs -a "
                    <> (device <> "`) and re-run.")))))
    else if not (is_text (get found "LABEL") label)
    then refused (
        dev
        <> (" holds an XFS filesystem with "
            <> (label_words found
                <> (", not the '"
                    <> (label
                        <> ("' this role creates, so it is not ours. If the contents are disposable, wipe it (`wipefs -a "
                            <> (device
                                <> ("`) and re-run; if it is ours, label it (`xfs_admin -L "
                                    <> (label <> (" " <> (device <> "`, unmounted).")))))))))))
    else pass true

-- A device with no filesystem is mounted nowhere.
unfoldable pub check_points : String → Bool → List String → Check (Unit {0})
check_points dev ours points = refuse_if (if is_empty points then false else not ours) (
    dev
    <> (" has no filesystem signature yet is mounted at "
        <> (join ", " points <> ". Inspect the device by hand.")))

-- The mountpoints that are no allowed path and not beneath one.
unfoldable pub outside_of : List String → List String → List String
unfolding beneath
outside_of allowed points = select (λ p. not (any (λ a. beneath p a) allowed)) points

unfoldable pub check_outside : String → List String → List String → Check (Unit {0})
unfolding outside_of
check_outside dev allowed points = refuse_if (not (is_empty (outside_of allowed points))) (
    dev
    <> (" is mounted at "
        <> (join ", " (outside_of allowed points)
            <> (", outside "
                <> (join ", " allowed
                    <> " and the paths beneath them. Unmount it there (and remove the fstab entry) before re-running.")))))
