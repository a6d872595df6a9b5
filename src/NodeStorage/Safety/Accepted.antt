-- ===== src/NodeStorage/Safety/Accepted.antt =====
-- The classifier passes exactly on the probes that the specification accepts.
use ansible_install.Prelude.{
  ◌≡◌, refl, sym, ap, ◌∙◌, ◌⊎◌, ◌↔◌, inl, inr, String, Bool, true, false, some, List, [], arith,
}
use mathlib.Core.Path.{subst}
use ansible_install.Prelude.Split.{mem}
use ansible_install.Prelude.Dict.{get}
use ansible_install.Prelude.Lists.{All, any}
use ansible_install.NodeStorage.Paths.{is_set, beneath}
use ansible_install.NodeStorage.Device.{Node, nil, info, children_of, mountpoints, walk}
use ansible_install.NodeStorage.Probe.{Probe}
use ansible_install.NodeStorage.Check.{pass, Verdict, >>-eq-pass, >>=-eq-pass}
use ansible_install.NodeStorage.Disk.{Setup, allowed, dev_name, check_exists}
use ansible_install.NodeStorage.Signature.{signature, check_points, check_outside}
use ansible_install.NodeStorage.Verdict.{
  device_names, check_disk, check_where_mounted, check_root_disk, conclude, classify_check,
}
use ansible_install.NodeStorage.Spec.{Carries, MountAgrees, mounted_paths, IsAccepted}
use ansible_install.NodeStorage.Stages.Device.{
  check_exists_iff, check_root_iff, check_type_iff, check_children_iff, check_blkid_error_iff,
  check_partition_table_iff,
}
use ansible_install.NodeStorage.Stages.Filesystem.{
  Holds, check_signature_iff, check_points_iff, check_outside_iff,
}
use ansible_install.NodeStorage.Stages.Mounts.{check_mounts_iff}
use ansible_install.NodeStorage.Stages.RootDisk.{IsFree, check_root_disk_iff}

pass-injective : {v w : Verdict} → pass v ≡ pass w → v ≡ w
pass-injective h = cc

module _ (p : Probe) (s : Setup) where
  check_disk_iff :
      (disk : Node) (own : Bool)
      → (check_disk p s disk ≡ pass own) ↔ (
          All (λ i. mem "/" (mountpoints i) ≡ false) (walk disk)
          × ((info disk).type ≡ some "disk")
          × (children_of disk ≡ nil)
          × (p.blkid_error ≡ "")
          × (is_set (get p.blkid "PTTYPE") ≡ false)
          × Holds s.label (signature p.blkid) (info disk).fstype own)
  unfolding check_disk
  check_disk_iff disk own = ground (
    arith,
    check_root_iff (dev_name p) disk,
    check_type_iff (dev_name p) (info disk),
    check_children_iff (dev_name p) p.device (children_of disk),
    check_blkid_error_iff (dev_name p) p.device p.blkid_error,
    check_partition_table_iff (dev_name p) p.device p.blkid,
    check_signature_iff (dev_name p) p.device s.label (signature p.blkid) (info disk).fstype own,
  )

  check_where_mounted_iff :
      (disk : Node) (own : Bool) (found : List String)
      → (check_where_mounted p s disk own ≡ pass found) ↔ (
          ((own ≡ true) ⊎ (mountpoints (info disk) ≡ []))
          × All (λ point. any (λ a. beneath point a) (allowed s) ≡ true) (mountpoints (info disk))
          × (found ≡ mounted_paths p s)
          × All (λ path. MountAgrees p s disk path) (allowed s))
  unfolding check_where_mounted
  check_where_mounted_iff disk own found = (
    λ h.
        let (points, rest) = >>-eq-pass (check_points _ own (mountpoints (info disk))) _ h in
        let (inside, found_them) =
          >>-eq-pass (check_outside _ (allowed s) (mountpoints (info disk))) _ rest in
        let (q, agree) = (check_mounts_iff _ s _ p.mounts (allowed s) found).0 found_them in
        (
          (check_points_iff _ own (mountpoints (info disk))).0 points,
          (check_outside_iff _ (allowed s) (mountpoints (info disk))).0 inside,
          q,
          agree,
        ),
    λ (points, inside, q, agree).
        rw
          (
            (check_points_iff (dev_name p) own (mountpoints (info disk))).1 points,
            (check_outside_iff (dev_name p) (allowed s) (mountpoints (info disk))).1 inside,
          )
          ((check_mounts_iff (dev_name p) s (device_names p (info disk)) p.mounts (allowed s)
              found).1
            (q, agree)),
  )

  -- Where the filesystem may be mounted, in the two cases.
  points_there :
      (disk : Node) (own : Bool)
      → Holds s.label (signature p.blkid) (info disk).fstype own
      → (own ≡ true) ⊎ (mountpoints (info disk) ≡ [])
      → All (λ point. any (λ a. beneath point a) (allowed s) ≡ true) (mountpoints (info disk))
      → Carries p s disk own
  points_there disk true (t, l) w inside = (t, l, inside)
  points_there disk false (t, l) w inside = (t, l, elim w [ inl e ↦ absurd (cc) | inr e ↦ e ])

  points_back :
      (disk : Node) (own : Bool)
      → Carries p s disk own
      → Holds s.label (signature p.blkid) (info disk).fstype own
        × ((own ≡ true) ⊎ (mountpoints (info disk) ≡ []))
        × All (λ point. any (λ a. beneath point a) (allowed s) ≡ true) (mountpoints (info disk))
  points_back disk true (t, l, inside) = ((t, l), inl refl, inside)
  points_back disk false (t, l, e) = ((t, l), inr e, rw e tt)

  abbrev Passes : Verdict → Type 0
  Passes v =
      (disk : Node) × (own : Bool) × IsAccepted p s disk own
      × (v ≡ conclude p s own (mounted_paths p s))

  accepted_there : (v : Verdict) → classify_check p s ≡ pass v → Passes v
  unfolding classify_check
  accepted_there v h =
      let (disk, e₁, h₁) = >>=-eq-pass (check_exists p) _ h in
      let (own, e₂, h₂) = >>=-eq-pass (check_disk p s disk) _ h₁ in
      let (found, e₃, h₃) = >>=-eq-pass (check_where_mounted p s disk own) _ h₂ in
      let (e₄, last) = >>-eq-pass (check_root_disk p s found) _ h₃ in
      let (exists, block, listed) = (check_exists_iff p disk).0 e₁ in
      let (root, whole, bare, readable, unpartitioned, holds) = (check_disk_iff disk own).0 e₂ in
      let (points, inside, q, agree) = (check_where_mounted_iff disk own found).0 e₃ in
      (
        disk,
        own,
        record {
          disk_is_whole = record {
            exists = exists;
            is_block = block;
            listed = listed;
            no_root = root;
            whole = whole;
            bare = bare;
            readable = readable;
            unpartitioned = unpartitioned;
          };
          carries = points_there disk own holds points inside;
          mounts_agree = agree;
          places_are_safe =
              subst (λ ms. All (IsFree p ms) (allowed s)) q ((check_root_disk_iff p s found).0 e₄);
        },
        sym (pass-injective last) ∙ ap (conclude p s own) q,
      )

  accepted_back :
      (disk : Node) (own : Bool)
      → IsAccepted p s disk own
      → classify_check p s ≡ pass (conclude p s own (mounted_paths p s))
  unfolding classify_check
  accepted_back disk own a =
      let w = a.disk_is_whole in
      let (holds, points, inside) = points_back disk own a.carries in
      rw (
        (check_exists_iff p disk).1 (w.exists, w.is_block, w.listed),
        (check_disk_iff disk own).1
            (w.no_root, w.whole, w.bare, w.readable, w.unpartitioned, holds),
        (check_where_mounted_iff disk own (mounted_paths p s)).1
            (points, inside, refl, a.mounts_agree),
        (check_root_disk_iff p s (mounted_paths p s)).1 a.places_are_safe,
      )

  -- No check returns early exactly on an accepted probe, and the verdict is then `conclude`'s.
  pub accepted_iff : (v : Verdict) → (classify_check p s ≡ pass v) ↔ Passes v
  accepted_iff v =
      (accepted_there v, λ (disk, own, a, q). accepted_back disk own a ∙ ap pass (sym q))
