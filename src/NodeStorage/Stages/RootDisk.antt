-- ===== src/NodeStorage/Stages/RootDisk.antt =====
-- The checks of the unmounted paths pass exactly if none of them hides anything.
use ansible_install.Prelude.{
  ◌≡◌, refl, ◌⊎◌, ◌↔◌, String, ◌&&◌, true, false, not, some, List, [], ◌∷◌, arith,
}
use ansible_install.Prelude.Split.{mem}
use ansible_install.Prelude.Dict.{get}
use ansible_install.Prelude.Lists.{All, All-mono, All-and, select-is_empty}
use ansible_install.NodeStorage.Paths.{is_set}
use ansible_install.NodeStorage.Results.{PathType, absent, directory}
use ansible_install.NodeStorage.Probe.{Probe, type_at}
use ansible_install.NodeStorage.Check.{pass}
use ansible_install.NodeStorage.Disk.{dev_name, Setup, targets, allowed}
use ansible_install.NodeStorage.Places.{check_type_at, check_types}
use ansible_install.NodeStorage.Contents.{
  holds_entries, is_unchecked, check_listing, check_written, check_hidden,
}
use ansible_install.NodeStorage.Verdict.{check_root_disk}
use ansible_install.NodeStorage.Stages.Device.{refuse_if_iff}
use ansible_install.NodeStorage.Stages.Filesystem.{not-eq-false}

check_type_at_iff :
    (dev path : String) (t : PathType)
    → (check_type_at dev path t ≡ pass tt) ↔ ((t ≡ absent) ⊎ (t ≡ directory))
unfolding check_type_at
check_type_at_iff dev path t = ground arith

module _ (p : Probe) (mounted : List String) where
  check_types_iff :
      (dev : String) (paths : List String)
      → (check_types dev p mounted paths ≡ pass tt)
        ↔ All
            (λ path.
              (mem path mounted ≡ true)
              ⊎ ((type_at p.path_types path ≡ absent) ⊎ (type_at p.path_types path ≡ directory)))
            paths
  unfolding check_types
  check_types_iff dev [] = (λ _. tt, λ _. refl)
  check_types_iff dev (path ∷ paths) =
      ground
        (arith, check_type_at_iff dev path (type_at p.path_types path), check_types_iff dev paths)

  check_listing_iff :
      (dev : String) (paths : List String)
      → (check_listing dev p mounted paths ≡ pass tt)
        ↔ All
            (λ path.
              (is_set (get p.find_error path) ≡ false) × (is_unchecked p mounted path ≡ false))
            paths
  unfolding check_listing
  check_listing_iff dev [] = (λ _. tt, λ _. refl)
  check_listing_iff dev (path ∷ paths) = ground (arith, check_listing_iff dev paths)

  -- A path that is mounted, or at which the root disk has nothing.
  abbrev pub IsFree : String → Type 0
  IsFree path =
      (is_set (get p.find_error path) ≡ false)
      × ((mem path mounted ≡ true)
          ⊎ ((type_at p.path_types path ≡ absent) × (holds_entries p.dir_nonempty path ≡ false)
              ⊎ (type_at p.path_types path ≡ directory) × (get p.dir_nonempty path ≡ some false)))

  abbrev HasPlainType : String → Type 0
  HasPlainType path =
      (mem path mounted ≡ true)
      ⊎ ((type_at p.path_types path ≡ absent) ⊎ (type_at p.path_types path ≡ directory))

  abbrev IsListed : String → Type 0
  IsListed path = (is_set (get p.find_error path) ≡ false) × (is_unchecked p mounted path ≡ false)

  abbrev IsUnwritten : String → Type 0
  IsUnwritten path = (not (mem path mounted) && holds_entries p.dir_nonempty path) ≡ false

  parts_iff :
      (path : String) → ((HasPlainType path × IsListed path) × IsUnwritten path) ↔ IsFree path
  unfolding is_unchecked holds_entries
  parts_iff path = ground arith

  check_written_iff :
      (dev : String) (s : Setup)
      → (check_written dev p s mounted ≡ pass tt) ↔ All IsUnwritten (targets s)
  unfolding check_written
  check_written_iff dev s = (
    λ h. (select-is_empty _ (targets s)).0 ((not-eq-false _).0 ((refuse_if_iff _ _).0 h)),
    λ w. (refuse_if_iff _ _).1 ((not-eq-false _).1 ((select-is_empty _ (targets s)).1 w)),
  )

  check_hidden_iff :
      (dev : String) (s : Setup) → (check_hidden dev p s mounted ≡ pass tt) ↔ IsUnwritten s.mount
  unfolding check_hidden
  check_hidden_iff dev s = refuse_if_iff _ _

-- What the root disk has is accepted exactly if every allowed path is free.
module _ (p : Probe) (s : Setup) (mounted : List String) where
  abbrev Stages : Type 0
  Stages =
      All (HasPlainType p mounted) (allowed s)
      × All (IsListed p mounted) (allowed s)
      × All (IsUnwritten p mounted) (allowed s)

  stages_iff : (check_root_disk p s mounted ≡ pass tt) ↔ Stages
  unfolding check_root_disk
  stages_iff = ground (
    arith,
    check_types_iff p mounted (dev_name p) (allowed s),
    check_listing_iff p mounted (dev_name p) (allowed s),
    check_written_iff p mounted (dev_name p) s,
    check_hidden_iff p mounted (dev_name p) s,
  )

  join_stages : Stages → All (IsFree p mounted) (allowed s)
  join_stages (a, b, c) =
      All-mono (allowed s) (λ path w. (parts_iff p mounted path).0 w)
        (All-and (λ path. HasPlainType p mounted path × IsListed p mounted path)
          (IsUnwritten p mounted) (allowed s)
          (All-and (HasPlainType p mounted) (IsListed p mounted) (allowed s) a b) c)

  split_stages : All (IsFree p mounted) (allowed s) → Stages
  split_stages w = (
    All-mono (allowed s) (λ path free. ((parts_iff p mounted path).1 free).0.0) w,
    All-mono (allowed s) (λ path free. ((parts_iff p mounted path).1 free).0.1) w,
    All-mono (allowed s) (λ path free. ((parts_iff p mounted path).1 free).1) w,
  )

  pub check_root_disk_iff :
      (check_root_disk p s mounted ≡ pass tt) ↔ All (IsFree p mounted) (allowed s)
  check_root_disk_iff = (λ h. join_stages (stages_iff.0 h), λ w. stages_iff.1 (split_stages w))
