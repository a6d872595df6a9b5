-- ===== src/NodeStorage/Stages/Device.antt =====
-- The checks of the device itself pass exactly for a whole disk.
use ansible_install.Prelude.{
  ◌≡◌, refl, ◌≢◌, ◌↔◌, String, Bool, Option, true, false, some, none, List, [], ◌∷◌, arith, eq→≡,
  ≡→eq,
}
use ansible_install.Prelude.Split.{mem}
use ansible_install.Prelude.Lists.{All}
use ansible_install.Prelude.Dict.{Dict, get}
use ansible_install.NodeStorage.Paths.{is_set}
use ansible_install.NodeStorage.Device.{
  Info, Node, node, Nodes, nil, cons, mountpoints, walk, walk_children,
}
use ansible_install.NodeStorage.Probe.{Probe}
use ansible_install.NodeStorage.Check.{pass, refuse_if}
use ansible_install.NodeStorage.Disk.{
  check_exists, check_root, check_root_below, check_type, check_children, is_text,
}
use ansible_install.NodeStorage.Signature.{check_blkid_error, check_partition_table}

pub refuse_if_iff : (test : Bool) (text : String) → (refuse_if test text ≡ pass tt) ↔ (test ≡ false)
refuse_if_iff test text = ground arith

pub is_text_iff : (t : Option String) (w : String) → (is_text t w ≡ true) ↔ (t ≡ some w)
is_text_iff none w = ground arith
is_text_iff (some t) w = ground (arith, eq→≡ t w, ≡→eq t w)

pub is_set_iff : (t : String) → (is_set (some t) ≡ false) ↔ (t ≡ "")
unfolding is_set
is_set_iff t = ground (arith, eq→≡ t "", ≡→eq t "")

pub check_exists_iff :
    (p : Probe) (disk : Node)
    → (check_exists p ≡ pass disk) ↔ ((p.device ≢ "") × (p.is_block ≡ true) × (p.lsblk ≡ some disk))
unfolding check_exists
check_exists_iff p disk = ground (arith, eq→≡ p.device "", ≡→eq p.device "")

check_root_below_iff :
    (dev : String) (is : List Info)
    → (check_root_below dev is ≡ pass tt) ↔ All (λ i. mem "/" (mountpoints i) ≡ false) is
unfolding check_root_below
check_root_below_iff dev [] = (λ _. tt, λ _. refl)
check_root_below_iff dev (i ∷ is) = ground (arith, check_root_below_iff dev is)

pub check_root_iff :
    (dev : String) (disk : Node)
    → (check_root dev disk ≡ pass tt) ↔ All (λ i. mem "/" (mountpoints i) ≡ false) (walk disk)
unfolding check_root walk
check_root_iff dev (node i children) =
    ground (arith, check_root_below_iff dev (walk_children children))

pub check_type_iff :
    (dev : String) (i : Info) → (check_type dev i ≡ pass tt) ↔ (i.type ≡ some "disk")
unfolding check_type
check_type_iff dev i = ground (arith, is_text_iff i.type "disk")

pub check_children_iff :
    (dev device : String) (children : Nodes)
    → (check_children dev device children ≡ pass tt) ↔ (children ≡ nil)
unfolding check_children
check_children_iff dev device nil = ground arith
check_children_iff dev device (cons child rest) = ground arith

pub check_blkid_error_iff :
    (dev device error : String) → (check_blkid_error dev device error ≡ pass tt) ↔ (error ≡ "")
unfolding check_blkid_error
check_blkid_error_iff dev device error = ground (arith, is_set_iff error)

pub check_partition_table_iff :
    (dev device : String) (blkid : Dict String)
    → (check_partition_table dev device blkid ≡ pass tt) ↔ (is_set (get blkid "PTTYPE") ≡ false)
unfolding check_partition_table
check_partition_table_iff dev device blkid = ground arith
