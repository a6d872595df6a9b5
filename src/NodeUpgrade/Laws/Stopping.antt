-- ===== src/NodeUpgrade/Laws/Stopping.antt =====
-- When the tenant containers are stopped.
use ansible_install.Prelude.{
  ◌≡◌, refl, inl, inr, ◌↔◌, String, Bool, true, false, ◌||◌, List, [], ◌∷◌, ◌++◌, ◌==◌, eq→≡, ≡→eq,
  arith, Bool-cases, if◌then◌else◌,
}
use ansible_install.Prelude.Text.{strip}
use ansible_install.Prelude.Split.{mem}
use ansible_install.Prelude.Lists.{All, is_empty}
use ansible_install.NodeUpgrade.Decide.{Inputs, distinct_reasons, drift_reason, maintain_decide}

-- No text stands in the list twice.
abbrev pub NoRepeats : List String → Type 0
NoRepeats [] = Unit
NoRepeats (x ∷ xs) = (mem x xs ≡ false) × NoRepeats xs

pub mem-append : (x : String) (xs ys : List String) → mem x (xs ++ ys) ≡ (mem x xs || mem x ys)
unfolding mem
mem-append x [] ys = refl
mem-append x (y ∷ xs) ys = ground (arith, mem-append x xs ys)

pub append-NoRepeats :
    (xs : List String) (x : String) → NoRepeats xs → mem x xs ≡ false → NoRepeats (xs ++ (x ∷ []))
unfolding mem
append-NoRepeats [] x u fresh = (refl, tt)
append-NoRepeats (y ∷ xs) x (first, u) fresh =
    ground (arith, append-NoRepeats xs x u, mem-append y xs (x ∷ []), eq→≡ x y, eq→≡ y x, ≡→eq x y)

distinct_reasons-NoRepeats :
    (raws seen : List String) → NoRepeats seen → NoRepeats (distinct_reasons seen raws)
unfolding distinct_reasons
distinct_reasons-NoRepeats [] seen u = u
distinct_reasons-NoRepeats (raw ∷ raws) seen u =
    distinct_reasons-NoRepeats raws _ (elim (Bool-cases (strip raw == "" || mem (strip raw) seen)) [
      | inl e ↦ rw e u
      | inr e ↦ rw e (append-NoRepeats seen (strip raw) u (ground arith))
    ])

-- The reasons for a restart of dockerd are listed once each.
pub maintain_decide-NoRepeats :
    (inputs : Inputs) → NoRepeats (maintain_decide inputs).docker_restart_reasons
unfolding maintain_decide
maintain_decide-NoRepeats inputs = distinct_reasons-NoRepeats inputs.docker_restart_reasons [] tt

distinct_reasons-nonempty :
    (raws seen : List String)
    → is_empty seen ≡ false
    → is_empty (distinct_reasons seen raws) ≡ false
unfolding distinct_reasons
distinct_reasons-nonempty [] seen u = u
distinct_reasons-nonempty (raw ∷ raws) seen u =
    distinct_reasons-nonempty raws _ (keeps _ (strip raw) seen u)
  where
    append_nonempty : (xs : List String) (x : String) → is_empty (xs ++ (x ∷ [])) ≡ false
    append_nonempty [] x = refl
    append_nonempty (y ∷ xs) x = refl

    keeps :
        (b : Bool) (x : String) (xs : List String)
        → is_empty xs ≡ false
        → is_empty (if b then xs else xs ++ (x ∷ [])) ≡ false
    keeps true x xs h = h
    keeps false x xs h = append_nonempty xs x

restart_iff :
    (raws : List String)
    → (is_empty (distinct_reasons [] raws) ≡ true) ↔ All (λ raw. (strip raw == "") ≡ true) raws
unfolding distinct_reasons mem
restart_iff [] = (λ _. tt, λ _. refl)
restart_iff (raw ∷ raws) =
    ground (arith, restart_iff raws, distinct_reasons-nonempty raws (strip raw ∷ []) refl)

-- The tenants are left running exactly if docker has no drift, every reason for a restart is blank,
-- no reboot is pending and no restart is forced.
pub maintain_decide-stop :
    (inputs : Inputs)
    → ((maintain_decide inputs).stop ≡ false) ↔ (
        (inputs.docker_drift ≡ [])
        × All (λ raw. (strip raw == "") ≡ true) inputs.docker_restart_reasons
        × (inputs.reboot_pending ≡ false)
        × (inputs.force ≡ false))
unfolding maintain_decide drift_reason
maintain_decide-stop inputs = ground (arith, restart_iff inputs.docker_restart_reasons)
