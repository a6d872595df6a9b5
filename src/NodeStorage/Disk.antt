-- ===== src/NodeStorage/Disk.antt =====
-- roles/node_storage/filter_plugins/node_storage.py: what the classifier asks of the device itself.
use ansible_install.Prelude.{
  String, ◌<>◌, Bool, true, false, ◌&&◌, not, Option, none, some, List, [], ◌∷◌, ◌==◌, map,
  if◌then◌else◌,
}
use ansible_install.Prelude.Split.{join, mem}
use ansible_install.Prelude.Dict.{Dict, get}
use ansible_install.NodeStorage.Paths.{text_or, is_set}
use ansible_install.NodeStorage.Device.{
  Info, Node, Nodes, nil, cons, info, children_of, mountpoints, walk_children, held_by,
}
use ansible_install.NodeStorage.Probe.{Probe}
use ansible_install.NodeStorage.Check.{Check, pass, refused, refuse_if, ◌>>◌}

-- One entry of `node_storage_binds`.
pub record Bind : Type 0 where
  pub target : String
  pub src_subdir : String

-- The role's settings: where the data disk is mounted, its label, and the bind mounts.
pub record Setup : Type 0 where
  pub mount : String
  pub label : String
  pub binds : List Bind

abbrev pub targets : Setup → List String
targets s = map (λ b. b.target) s.binds

abbrev pub allowed : Setup → List String
allowed s = s.mount ∷ targets s

-- `dev`: the device as the messages name it.
unfoldable pub dev_name : Probe → String
unfolding text_or is_set
dev_name p =
    if is_set (some p.device) && is_set (some p.device_input) && not (p.device == p.device_input)
    then "docker_data_device " <> (p.device_input <> (" (" <> (p.device <> ")")))
    else "docker_data_device " <> text_or (some p.device_input) (text_or (some p.device) "(unset)")

-- The device exists, is a block device, and lsblk read it.
unfoldable pub check_exists : Probe → Check Node
check_exists p =
    if p.device == ""
    then refused (
        dev_name p
        <> " does not exist on this host. Attach the data disk, or set docker_data_device to the path the disk actually has (`lsblk` lists them).")
    else if not p.is_block
    then refused (
        dev_name p
        <> " is not a block device. Point docker_data_device at the whole data disk (e.g. /dev/vdb or /dev/disk/by-id/...).")
    else elim p.lsblk [
      | none ↦ refused (
          dev_name p
          <> (" could not be read by lsblk. Check the device on the node with `lsblk "
              <> (p.device <> "`.")))
      | some disk ↦ pass disk
    ]

abbrev pub root_words : String → String → String
root_words dev place =
    dev
    <> (" "
        <> (place
            <> " the root filesystem. docker_data_device must be a SEPARATE, empty disk; point it at the data disk instead."))

-- What `%s` prints of the path, or else of the name.
abbrev pub printed_title : Info → String
printed_title i = text_or i.path (elim i.name [ none ↦ "None" | some n ↦ n ])

unfoldable pub check_root_below : String → List Info → Check (Unit {0})
check_root_below dev [] = pass tt
check_root_below dev (i ∷ rest) =
    let later = check_root_below dev rest in
    if mem "/" (mountpoints i)
    then refused (root_words dev ("holds (" <> (printed_title i <> ")")))
    else later

-- Neither the device nor anything stacked on it carries the root filesystem.
unfoldable pub check_root : String → Node → Check (Unit {0})
unfolding check_root_below text_or
check_root dev disk = do
  refuse_if (mem "/" (mountpoints (info disk))) (root_words dev "is")
  check_root_below dev (walk_children (children_of disk))

abbrev type_words : Dict String
type_words =
    ("part", "a partition")
    ∷ ("lvm", "an LVM logical volume")
    ∷ ("crypt", "an encrypted (dm-crypt) volume")
    ∷ ("dm", "a device-mapper device")
    ∷ ("loop", "a loop device")
    ∷ ("rom", "an optical drive")
    ∷ ("md", "a software RAID array")
    ∷ ("mpath", "a multipath device")
    ∷ []

abbrev words_of_type : Option String → String
words_of_type none = "not a disk"
words_of_type (some t) = elim (get type_words t) [ none ↦ "not a disk" | some w ↦ w ]

abbrev pub is_text : Option String → String → Bool
is_text none t = false
is_text (some s) t = s == t

-- A whole disk, with nothing stacked on it.
unfoldable pub check_type : String → Info → Check (Unit {0})
unfolding get text_or
check_type dev i = refuse_if (not (is_text i.type "disk")) (
    dev
    <> (" is "
        <> (words_of_type i.type
            <> (" (lsblk TYPE "
                <> (text_or i.type "unknown"
                    <> "), not a whole disk. Point docker_data_device at a whole, unpartitioned data disk.")))))

abbrev pub has_children : Nodes → Bool
has_children nil = false
has_children (cons child rest) = true

unfoldable pub check_children : String → String → Nodes → Check (Unit {0})
unfolding held_by
check_children dev device children = refuse_if (has_children children) (
    dev
    <> (" has partitions or other devices on it ("
        <> (join ", " (held_by children)
            <> ("). This disk is laid out for something else; the role only uses a whole disk with no partition table. If its contents are disposable, wipe it (`wipefs -a` on each of those, then on "
                <> (device <> ") and re-run.")))))
