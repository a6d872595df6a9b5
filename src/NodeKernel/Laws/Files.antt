-- ===== src/NodeKernel/Laws/Files.antt =====
-- Which files of a link name a drop-in for systemd-networkd.
use ansible_install.Prelude.{
  ◌≡◌, ◌≢◌, refl, inl, inr, ◌∙◌, sym, String, Bool, not, or-eq-false, true, false, Option, some,
  arith, Bool-cases, ◌==◌, if◌then◌else◌, eq→≡, ≡→eq,
}
use mathlib.Core.Path.{subst}
use ansible_install.Prelude.Text.{has, ends_with}
use ansible_install.Prelude.Split.{mem}
use ansible_install.Prelude.Json.{Json, null, bool, num, str, arr, obj, Fields, value_of, truthy}
use ansible_install.NodeStorage.Paths.{basename}
use ansible_install.NodeKernel.{
  managed_states, networkd, Plan, is_managed, or_empty, plan_json, by_sysctl, plan_file, plan_link,
}

pub basename-has : (s : String) → has b'/' (basename s) ≡ false
unfolding basename has
basename-has String.[] = refl
basename-has (String.◌∷◌ c s) = ground (arith, basename-has s)

-- A file that networkd matched for the link: in a managed state, and named like a network file.
abbrev pub IsNetworkFile : Fields → String → Type 0
IsNetworkFile link file =
    (state : String) × (value_of link "AdministrativeState" ≡ str state)
    × (mem state managed_states ≡ true)
    × (value_of link "NetworkFile" ≡ str file)
    × (ends_with (basename file) ".network" ≡ true)
    × (basename file ≢ ".network")

plan_file-networkd :
    (interface file : String) (plan : Plan)
    → plan_file interface file ≡ some plan
    → plan.mode ≡ networkd
    → (plan.network_file ≡ basename file)
      × (ends_with (basename file) ".network" ≡ true)
      × (basename file ≢ ".network")
unfolding plan_file
plan_file-networkd interface file plan e m =
    ground (arith, eq→≡ (basename file) ".network", ≡→eq (basename file) ".network")

is_managed-str :
    (v : Json)
    → is_managed v ≡ true
    → (state : String) × (v ≡ str state) × (mem state managed_states ≡ true)
is_managed-str null h = absurd (ground arith)
is_managed-str (bool b) h = absurd (ground arith)
is_managed-str (num n) h = absurd (ground arith)
is_managed-str (str s) h = (s, refl, h)
is_managed-str (arr xs) h = absurd (ground arith)
is_managed-str (obj doc) h = absurd (ground arith)

-- `v or ""` is managed or true only as `v` itself.
or_empty-managed : (v : Json) → is_managed (or_empty v) ≡ true → is_managed v ≡ true
unfolding mem ◌==◌
or_empty-managed v = go (truthy v)
  where
    go : (b : Bool) → is_managed (if b then v else str "") ≡ true → is_managed v ≡ true
    go true h = h
    go false h = absurd (ground arith)

or_empty-truthy : (v : Json) → truthy (or_empty v) ≡ true → or_empty v ≡ v
unfolding truthy ◌==◌
or_empty-truthy v = go (truthy v)
  where
    go : (b : Bool) → truthy (if b then v else str "") ≡ true → (if b then v else str "") ≡ v
    go true h = refl
    go false h = absurd (ground arith)

pub plan_json-some :
    (interface : String) (v : Json) (plan : Plan)
    → plan_json interface v ≡ some plan
    → (file : String) × (v ≡ str file) × (plan_file interface file ≡ some plan)
plan_json-some interface (str file) plan e = (file, refl, e)
plan_json-some interface null plan e = absurd (ground arith)
plan_json-some interface (bool b) plan e = absurd (ground arith)
plan_json-some interface (num n) plan e = absurd (ground arith)
plan_json-some interface (arr xs) plan e = absurd (ground arith)
plan_json-some interface (obj doc) plan e = absurd (ground arith)

pub not-false : (b : Bool) → not b ≡ false → b ≡ true
not-false b h = ground arith

-- A plan for networkd is not one for the sysctl.
pub otherwise :
    (b : Bool) (reason : String) (later : Option Plan) (plan : Plan)
    → (if b then by_sysctl reason else later) ≡ some plan
    → plan.mode ≡ networkd
    → (b ≡ false) × (later ≡ some plan)
otherwise true reason later plan e m = absurd (ground arith)
otherwise false reason later plan e m = (refl, e)

managed-nonempty : (s : String) → mem s managed_states ≡ true → (s == "") ≡ false
unfolding mem ◌==◌
managed-nonempty s h = elim (Bool-cases (s == "")) [
  | inl e ↦ absurd (no_state (subst (λ x. mem x managed_states ≡ true) (eq→≡ s "" e) h))
  | inr e ↦ e
]
  where
    no_state : mem "" managed_states ≡ true → ⊥
    no_state h = absurd (ground arith)

file-nonempty : (s : String) → ends_with (basename s) ".network" ≡ true → (s == "") ≡ false
unfolding basename ends_with ◌==◌
file-nonempty s h = elim (Bool-cases (s == "")) [
  | inl e ↦ absurd (no_file (subst (λ x. ends_with (basename x) ".network" ≡ true) (eq→≡ s "" e) h))
  | inr e ↦ e
]
  where
    no_file : ends_with (basename "") ".network" ≡ true → ⊥
    no_file h = absurd (ground arith)

improper : (s : String) → s ≢ ".network" → (s == ".network") ≡ false
improper s h = ground (arith, eq→≡ s ".network")

module _ (interface : String) (link : Fields) where
  pub plan_link-networkd :
      (plan : Plan)
      → plan_link interface link ≡ some plan
      → plan.mode ≡ networkd
      → (file : String) × IsNetworkFile link file × (plan.network_file ≡ basename file)
  unfolding plan_link
  plan_link-networkd plan e m =
      let (tests, g) = otherwise _ _ _ plan e m in
      let (managed, true_file) = or-eq-false _ _ tests in
      let (state, s, known) = is_managed-str _ (or_empty-managed _ (not-false _ managed)) in
      let (file, f, found) = plan_json-some interface _ plan g in
      let (base, named, proper) = plan_file-networkd interface file plan found m in
      (
        file,
        (state, s, known, sym (or_empty-truthy _ (not-false _ true_file)) ∙ f, named, proper),
        base,
      )

  pub plan_link-file :
      (file : String)
      → IsNetworkFile link file
      → (plan : Plan) × (plan_link interface link ≡ some plan)
        × (plan.mode ≡ networkd)
        × (plan.network_file ≡ basename file)
  unfolding plan_link plan_file truthy
  plan_link-file file (state, s, managed, f, named, proper) = rw s (
      rw f (
        rw (managed-nonempty state managed) (
          rw (file-nonempty file named) (
            rw managed (
              rw (file-nonempty file named)
                (rw named (rw (improper (basename file) proper) (_, refl, refl, refl))))))))
