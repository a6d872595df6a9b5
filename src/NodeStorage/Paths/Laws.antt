-- ===== src/NodeStorage/Paths/Laws.antt =====
-- What `_beneath` and `_split_source` decide.
use ansible_install.Prelude.{
  ◌≡◌, ◌⊎◌, inl, inr, ◌↔◌, String, ◌<>◌, Bool, ◌||◌, true, arith, ◌==◌, eq→≡, ≡→eq, Bool-cases,
}
use ansible_install.Prelude.Text.{starts_with-append, starts_with-split}
use ansible_install.NodeStorage.Paths.{beneath, trimmed_base}

or_true : (b : Bool) → (b || true) ≡ true
or_true b = ground arith

-- `_beneath` accepts the base itself and what a slash separates from it, and nothing else: with
-- the base's trailing slashes dropped, `/var/lib/docker2` is not beneath `/var/lib/docker`.
pub beneath_iff :
    (path base : String)
    → (beneath path base ≡ true) ↔ (
        (path ≡ trimmed_base base)
        ⊎ ((below : String) × (path ≡ (trimmed_base base <> "/") <> below)))
unfolding beneath
beneath_iff path base = (
  λ h. elim (Bool-cases (path == trimmed_base base)) [
    | inl same ↦ inl (eq→≡ _ _ same)
    | inr differ ↦ inr (starts_with-split path (trimmed_base base <> "/") (rw differ at h))
  ],
  λ w. elim w [
    | inl same ↦ rw (≡→eq path _ same)
    | inr (below, e) ↦ rw (e, starts_with-append) (or_true _)
  ],
)
