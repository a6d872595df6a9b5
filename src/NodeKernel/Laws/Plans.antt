-- ===== src/NodeKernel/Laws/Plans.antt =====
-- When systemd-networkd is asked to accept router advertisements, and through which file.
use ansible_install.Prelude.{
  ◌≡◌, ◌≢◌, refl, ◌↔◌, inl, inr, ◌∙◌, sym, String, Bool, true, false, Option, none, some, List,
  arith, Bool-cases, Option-cases, if◌then◌else◌,
}
use ansible_install.Prelude.Text.{has, ends_with}
use ansible_install.Prelude.Split.{mem}
use ansible_install.Prelude.Json.{Json, Fields}
use ansible_install.NodeKernel.Laws.Files.{
  basename-has, IsNetworkFile, plan_link-networkd, plan_link-file, otherwise, not-false,
  plan_json-some,
}
use ansible_install.NodeStorage.Paths.{basename, text_or}
use ansible_install.NodeKernel.{
  link_record, networkd, missing, Plan, Result, succeeded, is_unknown, by_sysctl, plan_file,
  plan_link, plan_data, uplink_ra,
}

-- A plan for networkd is not that of a missing interface.
known_first :
    (b : Bool) (reason : String) (later : Option Plan) (plan : Plan)
    → (if b then some (record { mode = missing; network_file = ""; reason = reason }) else later)
      ≡ some plan
    → plan.mode ≡ networkd
    → (b ≡ false) × (later ≡ some plan)
known_first true reason later plan e m = absurd (ground arith)
known_first false reason later plan e m = (refl, e)

-- Nor is a plan for the sysctl.
past :
    (b : Bool) (reason : String) (later : Option Plan) (plan : Plan)
    → (if b then by_sysctl reason else later) ≡ some plan
    → plan.mode ≡ missing
    → later ≡ some plan
past true reason later plan e m = absurd (ground arith)
past false reason later plan e m = e

second {ℓ} : {A : Type ℓ} (b : Bool) (x y z : A) → b ≡ false → (if b then x else y) ≡ z → y ≡ z
second true x y z h e = absurd (ground arith)
second false x y z h e = e

module _ (interface : String) where
  plan_file-present :
      (file : String) (plan : Plan) → plan_file interface file ≡ some plan → plan.mode ≢ missing
  unfolding plan_file
  plan_file-present file plan e m = absurd (ground arith)

  plan_link-present :
      (link : Fields) (plan : Plan) → plan_link interface link ≡ some plan → plan.mode ≢ missing
  unfolding plan_link
  plan_link-present link plan e m =
      let (file, f, found) = plan_json-some interface _ plan (past _ _ _ plan e m) in
      plan_file-present file plan found m

  plan_data-present :
      (o : Option Json) (plan : Plan) → plan_data interface o ≡ some plan → plan.mode ≢ missing
  unfolding plan_data
  plan_data-present none plan e m = absurd (ground arith)
  plan_data-present (some document) plan e m =
      elim (Option-cases (link_record document interface)) [
        | inl u ↦ absurd (ground arith)
        | inr (link, u) ↦ plan_link-present link plan (ground arith) m
      ]

  unknown-names :
      (o : Option (List String))
      → is_unknown o interface ≡ true
      → (names : List String) × (o ≡ some names) × (mem interface names ≡ false)
  unknown-names none h = absurd (ground arith)
  unknown-names (some names) h = (names, refl, ground arith)

module _ (loads : String → Option Json) (result : Result) (interface : String)
    (interfaces : Option (List String)) where
  -- networkctl described the link, and networkd manages it with this file.
  abbrev pub HasNetworkFile : String → Type 0
  HasNetworkFile name =
      (is_unknown interfaces interface ≡ false)
      × (succeeded result.rc ≡ true)
      × (document : Json) × (loads (text_or result.stdout "") ≡ some document)
      × (link : Fields) × (link_record document interface ≡ some link)
      × (file : String) × IsNetworkFile link file
      × (name ≡ basename file)

  plan_data-networkd :
      (o : Option Json) (plan : Plan)
      → plan_data interface o ≡ some plan
      → plan.mode ≡ networkd
      → (document : Json) × (o ≡ some document)
        × (link : Fields) × (link_record document interface ≡ some link)
        × (plan_link interface link ≡ some plan)
  unfolding plan_data
  plan_data-networkd none plan e m = absurd (ground arith)
  plan_data-networkd (some document) plan e m =
      elim (Option-cases (link_record document interface)) [
        | inl u ↦ absurd (ground arith)
        | inr (link, u) ↦ (document, refl, link, u, ground arith)
      ]

  uplink_ra-link :
      (plan : Plan)
      → uplink_ra loads result interface interfaces ≡ some plan
      → plan.mode ≡ networkd
      → (is_unknown interfaces interface ≡ false)
        × (succeeded result.rc ≡ true)
        × (document : Json) × (loads (text_or result.stdout "") ≡ some document)
        × (link : Fields) × (link_record document interface ≡ some link)
        × (plan_link interface link ≡ some plan)
  unfolding uplink_ra
  uplink_ra-link plan e m =
      let (known, f) = known_first _ _ _ plan e m in
      let (ran, g) = otherwise _ _ _ plan f m in
      let (document, d, link, l, h) = plan_data-networkd _ plan g m in
      (known, not-false _ ran, document, d, link, l, h)

  -- The plan is a drop-in for networkd exactly if the interface is known, networkctl succeeded and
  -- its document has the link, in a managed state and with a file that is named like a network
  -- file; the drop-in is for the base name of that file.
  pub uplink_ra-networkd :
      (name : String)
      → ((plan : Plan) × (uplink_ra loads result interface interfaces ≡ some plan)
          × (plan.mode ≡ networkd)
          × (plan.network_file ≡ name))
        ↔ HasNetworkFile name
  unfolding uplink_ra plan_data
  uplink_ra-networkd name = (
    λ (plan, e, m, named).
        let (known, s, document, d, link, l, f) = uplink_ra-link plan e m in
        let (file, is_file, base) = plan_link-networkd interface link plan f m in
        (known, s, document, d, link, l, file, is_file, sym named ∙ base),
    λ (known, s, document, d, link, l, file, is_file, named).
        let (plan, e, m, base) = plan_link-file interface link file is_file in
        (plan, rw known (rw s (rw d (rw (l, plan_data) e))), m, base ∙ sym named),
  )

  -- The name of the file that a drop-in is made for has no slash, and is an extension of ".network".
  pub uplink_ra-basename :
      (plan : Plan)
      → uplink_ra loads result interface interfaces ≡ some plan
      → plan.mode ≡ networkd
      → (has b'/' plan.network_file ≡ false)
        × (ends_with plan.network_file ".network" ≡ true)
        × (plan.network_file ≢ ".network")
  uplink_ra-basename plan e m =
      let (known, s, document, d, link, l, f) = uplink_ra-link plan e m in
      let (file, is_file, base) = plan_link-networkd interface link plan f m in
      (rw base (basename-has file), rw base is_file.4, λ h. is_file.5 (sym base ∙ h))

  -- The interface is reported as missing exactly if the host's interfaces are known and it is none of them.
  pub uplink_ra-missing :
      ((plan : Plan) × (uplink_ra loads result interface interfaces ≡ some plan)
        × (plan.mode ≡ missing))
      ↔ ((names : List String) × (interfaces ≡ some names) × (mem interface names ≡ false))
  unfolding uplink_ra
  uplink_ra-missing = (
    λ (plan, e, m). elim (Bool-cases (is_unknown interfaces interface)) [
      | inl u ↦ unknown-names interface interfaces u
      | inr u ↦
          absurd (plan_data-present interface _ plan (past _ _ _ plan (second _ _ _ _ u e) m) m)
    ],
    λ (names, e, u). rw e (rw u (_, refl, refl)),
  )
