-- ===== src/NodeStorage/Stages/Filesystem.antt =====
-- The check of the signature passes exactly for the role's own filesystem and for a blank disk.
use ansible_install.Prelude.{
  ◌≡◌, ◌↔◌, ◌⊎◌, String, Bool, Option, true, false, not, some, List, [], ◌∷◌, arith,
}
use ansible_install.Prelude.Lists.{All, All-mono, any, select-is_empty}
use ansible_install.Prelude.Dict.{Dict, get}
use ansible_install.NodeStorage.Paths.{is_set, beneath}
use ansible_install.NodeStorage.Check.{pass}
use ansible_install.NodeStorage.Signature.{check_signature, check_points, check_outside}
use ansible_install.NodeStorage.Stages.Device.{is_text_iff, refuse_if_iff}

-- What the signature and lsblk's own reading say in the two cases.
abbrev pub Holds : String → Dict String → Option String → Bool → Type 0
Holds label found fstype true = (get found "TYPE" ≡ some "xfs") × (get found "LABEL" ≡ some label)
Holds label found fstype false = (found ≡ []) × (is_set fstype ≡ false)

pub check_signature_iff :
    (dev device label : String) (found : Dict String) (fstype : Option String) (own : Bool)
    → (check_signature dev device label found fstype ≡ pass own) ↔ Holds label found fstype own
unfolding check_signature
check_signature_iff dev device label [] fstype true = ground arith
check_signature_iff dev device label [] fstype false = ground arith
check_signature_iff dev device label (e ∷ found) fstype true =
    ground (
      arith,
      is_text_iff (get (e ∷ found) "TYPE") "xfs",
      is_text_iff (get (e ∷ found) "LABEL") label,
    )
check_signature_iff dev device label (e ∷ found) fstype false = ground arith

pub check_points_iff :
    (dev : String) (own : Bool) (points : List String)
    → (check_points dev own points ≡ pass tt) ↔ ((own ≡ true) ⊎ (points ≡ []))
unfolding check_points
check_points_iff dev own [] = ground arith
check_points_iff dev own (p ∷ points) = ground arith

pub not-eq-false : (b : Bool) → (not b ≡ false) ↔ (b ≡ true)
not-eq-false b = ground arith

pub check_outside_iff :
    (dev : String) (allowed points : List String)
    → (check_outside dev allowed points ≡ pass tt)
      ↔ All (λ point. any (λ a. beneath point a) allowed ≡ true) points
unfolding check_outside
check_outside_iff dev allowed points = (
  λ h.
      All-mono points (λ x e. (not-eq-false _).0 e)
        ((select-is_empty _ points).0 ((not-eq-false _).0 ((refuse_if_iff _ _).0 h))),
  λ w. (refuse_if_iff _ _).1 (
      (not-eq-false _).1
        ((select-is_empty _ points).1 (All-mono points (λ x e. (not-eq-false _).1 e) w))),
)
