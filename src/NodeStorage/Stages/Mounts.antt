-- ===== src/NodeStorage/Stages/Mounts.antt =====
-- The checks of the mounts pass exactly if each filesystem seen is the role's own mount.
use ansible_install.Prelude.{
  ◌≡◌, refl, sym, ap, ◌∙◌, ◌≢◌, ◌⊎◌, ◌↔◌, inl, inr, String, ◌<>◌, true, some, none, List, [], ◌∷◌,
  arith, eq→≡, ≡→eq, Option-cases,
}
use mathlib.Core.Path.{subst}
use mathlib.Core.Option.{some-injective}
use ansible_install.Prelude.Split.{mem}
use ansible_install.Prelude.Lists.{All, select}
use ansible_install.NodeStorage.Paths.{kname, split_source, has_prjquota}
use ansible_install.NodeStorage.Probe.{Filesystem, Mounts, mount_at, is_mounted}
use ansible_install.NodeStorage.Check.{pass, >>-eq-pass, >>=-eq-pass, ◌>>◌, ◌>>=◌}
use ansible_install.NodeStorage.Disk.{Setup}
use ansible_install.NodeStorage.Places.{check_mount, check_mounts, subdir_for}

abbrev pub IsRoleMount : Setup → List String → String → Filesystem → Type 0
IsRoleMount s names path m =
    (mem (kname (some (split_source m.source).0)) names ≡ true)
    × ((path ≡ s.mount) × ((split_source m.source).1 ≡ "/") × (has_prjquota m.options ≡ true)
        ⊎ (path ≢ s.mount) × ((split_source m.source).1 ≡ "/" <> subdir_for s.binds path))

pub check_mount_iff :
    (dev : String) (s : Setup) (names : List String) (path : String) (m : Filesystem)
    → (check_mount dev s names path m ≡ pass tt) ↔ IsRoleMount s names path m
unfolding check_mount
check_mount_iff dev s names path m = ground (
  arith,
  eq→≡ path s.mount,
  ≡→eq path s.mount,
  eq→≡ (split_source m.source).1 "/",
  ≡→eq (split_source m.source).1 "/",
  eq→≡ (split_source m.source).1 ("/" <> subdir_for s.binds path),
  ≡→eq (split_source m.source).1 ("/" <> subdir_for s.binds path),
)

abbrev Agrees : Setup → List String → Mounts → String → Type 0
Agrees s names mounts path =
    (m : Filesystem) → mount_at mounts path ≡ some m → IsRoleMount s names path m

Agrees-of_none :
    (s : Setup) (names : List String) (mounts : Mounts) (path : String)
    → mount_at mounts path ≡ none
    → Agrees s names mounts path
Agrees-of_none s names mounts path e m e' = absurd (cc)

Agrees-of_some :
    (s : Setup) (names : List String) (mounts : Mounts) (path : String) (m : Filesystem)
    → mount_at mounts path ≡ some m
    → IsRoleMount s names path m
    → Agrees s names mounts path
Agrees-of_some s names mounts path m e w n e' =
    subst (IsRoleMount s names path) (some-injective m n (sym e ∙ e')) w

module _ (dev : String) (s : Setup) (names : List String) (mounts : Mounts) where
  abbrev pub Passes : List String → List String → Type 0
  Passes paths found =
      (found ≡ select (λ path. is_mounted mounts path) paths)
      × All (λ path. Agrees s names mounts path) paths

  step_none :
      (path : String) (paths : List String)
      → mount_at mounts path ≡ none
      → check_mounts dev s names mounts (path ∷ paths) ≡ check_mounts dev s names mounts paths
  unfolding check_mounts
  step_none path paths e = rw (e, check_mounts)

  step_some :
      (path : String) (paths : List String) (m : Filesystem)
      → mount_at mounts path ≡ some m
      → check_mounts dev s names mounts (path ∷ paths) ≡ (
          check_mount dev s names path m
          >> (check_mounts dev s names mounts paths >>= λ rest. pass (path ∷ rest)))
  unfolding check_mounts
  step_some path paths m e = rw (e, check_mounts)

  select-none :
      (path : String) (paths : List String)
      → mount_at mounts path ≡ none
      → select (λ path. is_mounted mounts path) (path ∷ paths)
        ≡ select (λ path. is_mounted mounts path) paths
  unfolding select
  select-none path paths e = rw (e, is_mounted)

  select-some :
      (path : String) (paths : List String) (m : Filesystem)
      → mount_at mounts path ≡ some m
      → select (λ path. is_mounted mounts path) (path ∷ paths)
        ≡ path ∷ select (λ path. is_mounted mounts path) paths
  unfolding select
  select-some path paths m e = rw (e, is_mounted)

  check_mounts_there :
      (paths found : List String)
      → check_mounts dev s names mounts paths ≡ pass found
      → Passes paths found
  check_mounts_there [] found h = unfold check_mounts select in ground arith
  check_mounts_there (path ∷ paths) found h = elim (Option-cases (mount_at mounts path)) [
    | inl e ↦
        let (q, w) = check_mounts_there paths found (sym (step_none path paths e) ∙ h) in
        (q ∙ sym (select-none path paths e), (Agrees-of_none s names mounts path e, w))
    | inr (m, e) ↦
        let (first, rest) =
          >>-eq-pass (check_mount dev s names path m) _ (sym (step_some path paths m e) ∙ h) in
        let (later, kept, last) = >>=-eq-pass (check_mounts dev s names mounts paths) _ rest in
        let (q, w) = check_mounts_there paths later kept in
        (
          cc (select-some path paths m e),
          (
            Agrees-of_some s names mounts path m e ((check_mount_iff dev s names path m).0 first),
            w,
          ),
        )
  ]

  check_mounts_back :
      (paths : List String)
      → All (λ path. Agrees s names mounts path) paths
      → check_mounts dev s names mounts paths ≡ pass (select (λ path. is_mounted mounts path) paths)
  check_mounts_back [] w = unfold check_mounts select in refl
  check_mounts_back (path ∷ paths) (a, w) = elim (Option-cases (mount_at mounts path)) [
    | inl e ↦
        step_none path paths e
        ∙ check_mounts_back paths w
        ∙ ap pass (sym (select-none path paths e))
    | inr (m, e) ↦
        step_some path paths m e
        ∙ rw ((check_mount_iff dev s names path m).1 (a m e), check_mounts_back paths w)
            (ap pass (sym (select-some path paths m e)))
  ]

  -- The mounted paths are passed on exactly if each mount is one that the role makes.
  pub check_mounts_iff :
      (paths found : List String)
      → (check_mounts dev s names mounts paths ≡ pass found) ↔ Passes paths found
  check_mounts_iff paths found =
      (check_mounts_there paths found, λ (q, w). check_mounts_back paths w ∙ ap pass (sym q))
