-- ===== src/NodeStorage/Safety/States.antt =====
-- When `node_storage_classify` answers with each of its four states.
use ansible_install.Prelude.{
  ◌≡◌, refl, sym, ap, ◌∙◌, ◌⊎◌, ◌↔◌, ◌≢◌, inl, inr, String, ◌<>◌, Bool, true, false, arith,
}
use mathlib.Core.Path.{subst}
use ansible_install.Prelude.Split.{mem}
use ansible_install.Prelude.Lists.{All, All-mono, is_empty, select-is_empty}
use ansible_install.NodeStorage.Device.{Node}
use ansible_install.NodeStorage.Probe.{Probe}
use ansible_install.NodeStorage.Check.{
  Check, pass, refused, Verdict, State, blank, ours, ready, refuse, settle, nothing_changed,
}
use ansible_install.NodeStorage.Disk.{Setup, allowed}
use ansible_install.NodeStorage.Verdict.{missing, conclude, classify_check, classify}
use ansible_install.NodeStorage.Spec.{mounted_paths, IsAccepted}
use ansible_install.NodeStorage.Stages.Filesystem.{not-eq-false}
use ansible_install.NodeStorage.Safety.Accepted.{accepted_iff}

Check-cases {ℓ} :
    {A : Type ℓ} (c : Check A) → ((a : A) × (c ≡ pass a)) ⊎ ((text : String) × (c ≡ refused text))
Check-cases (pass a) = inl (a, refl)
Check-cases (refused text) = inr (text, refl)

refused-ne-pass : {text : String} {v : Verdict} → refused text ≢ pass v
refused-ne-pass h = cc

-- The state that an accepted probe gets.
abbrev pub state_for : Probe → Setup → Bool → State
state_for p s own = (conclude p s own (mounted_paths p s)).state

module _ (p : Probe) (s : Setup) where
  abbrev pub all_mounted : Bool
  all_mounted = is_empty (missing s (mounted_paths p s))

  blank_for : (own : Bool) → (state_for p s own ≡ blank) ↔ (own ≡ false)
  unfolding conclude
  blank_for own = ground arith

  ours_for : (own : Bool) → (state_for p s own ≡ ours) ↔ ((own ≡ true) × (all_mounted ≡ false))
  unfolding conclude
  ours_for own = ground arith

  ready_for : (own : Bool) → (state_for p s own ≡ ready) ↔ ((own ≡ true) × (all_mounted ≡ true))
  unfolding conclude
  ready_for own = ground arith

  never_refuse : (own : Bool) → state_for p s own ≢ refuse
  unfolding conclude
  never_refuse own h = ground arith

  accepted_classify :
      (disk : Node) (own : Bool)
      → IsAccepted p s disk own
      → classify p s ≡ conclude p s own (mounted_paths p s)
  unfolding classify settle
  accepted_classify disk own a =
      ap settle ((accepted_iff p s (conclude p s own (mounted_paths p s))).1 (disk, own, a, refl))

  classify_passed :
      (t : State)
      → t ≢ refuse
      → (classify p s).state ≡ t
      → (disk : Node) × (own : Bool) × IsAccepted p s disk own × (state_for p s own ≡ t)
  unfolding classify settle
  classify_passed t n h = elim (Check-cases (classify_check p s)) [
    | inl (v, e) ↦
        let (disk, own, a, q) = (accepted_iff p s v).0 e in
        (
          disk,
          own,
          a,
          sym (ap (λ (w : Verdict). w.state) q)
              ∙ sym (ap (λ (c : Check Verdict). (settle c).state) e)
              ∙ h,
        )
    | inr (text, e) ↦ absurd (n (sym (sym (ap (λ (c : Check Verdict). (settle c).state) e) ∙ h)))
  ]

  -- The verdict is `blank`, the only one on which the role formats the device, exactly if some disk
  -- is accepted as a whole disk with no signature, no filesystem and no mountpoint: the device
  -- exists, is a block device of type disk that lsblk lists with nothing stacked on it and the root
  -- filesystem nowhere on it, blkid read it without an error and found nothing, what is mounted at
  -- the role's paths comes from it, and every other path of the role is absent or an empty directory.
  pub classify-blank : ((classify p s).state ≡ blank) ↔ ((disk : Node) × IsAccepted p s disk false)
  classify-blank = (
    λ h.
        let (disk, own, a, q) = classify_passed blank (λ e. cc) h in
        (disk, subst (IsAccepted p s disk) ((blank_for own).0 q) a),
    λ (disk, a). rw (accepted_classify disk false a) ((blank_for false).1 refl),
  )

  -- The verdict is `ours` exactly if some disk is accepted with the role's own filesystem on it and
  -- an allowed path is not mounted yet.
  pub classify-ours :
      ((classify p s).state ≡ ours)
      ↔ ((disk : Node) × IsAccepted p s disk true × (all_mounted ≡ false))
  classify-ours = (
    λ h.
        let (disk, own, a, q) = classify_passed ours (λ e. cc) h in
        let (mine, some_missing) = (ours_for own).0 q in
        (disk, subst (IsAccepted p s disk) mine a, some_missing),
    λ (disk, a, some_missing).
        rw (accepted_classify disk true a) ((ours_for true).1 (refl, some_missing)),
  )

  -- The verdict is `ready` exactly if some disk is accepted with the role's own filesystem on it
  -- and each allowed path is mounted.
  pub classify-ready : ((classify p s).state ≡ ready) ↔ (
      (disk : Node) × IsAccepted p s disk true
      × All (λ path. mem path (mounted_paths p s) ≡ true) (allowed s))
  classify-ready = (
    λ h.
        let (disk, own, a, q) = classify_passed ready (λ e. cc) h in
        let (mine, complete) = (ready_for own).0 q in
        (
          disk,
          subst (IsAccepted p s disk) mine a,
          All-mono (allowed s) (λ path e. (not-eq-false _).0 e)
              ((select-is_empty _ (allowed s)).0 complete),
        ),
    λ (disk, a, w). rw (accepted_classify disk true a) (
        (ready_for true).1 (
          refl,
          (select-is_empty _ (allowed s)).1
              (All-mono (allowed s) (λ path e. (not-eq-false _).1 e) w),
        )),
  )

  -- The verdict is `refuse` exactly if no disk is accepted, neither as the role's own nor as blank.
  pub classify-refuse :
      ((classify p s).state ≡ refuse) ↔ ((disk : Node) (own : Bool) → ¬ IsAccepted p s disk own)
  unfolding classify settle
  classify-refuse = elim (Check-cases (classify_check p s)) [
    | inl (v, e) ↦
        let (disk, own, a, q) = (accepted_iff p s v).0 e in
        let opened = ap (λ (c : Check Verdict). (settle c).state) e in
        (
          λ h. absurd (never_refuse own (sym (ap (λ (w : Verdict). w.state) q) ∙ sym opened ∙ h)),
          λ none_accepted. absurd (none_accepted disk own a),
        )
    | inr (text, e) ↦ (
      λ h disk own a. refused-ne-pass (
          sym e ∙ (accepted_iff p s (conclude p s own (mounted_paths p s))).1 (disk, own, a, refl)),
      λ _. ap (λ (c : Check Verdict). (settle c).state) e,
    )
  ]

  -- The reason of a refusal is a text closed by the sentence that nothing was changed.
  pub refuse-reason :
      (classify p s).state ≡ refuse
      → (text : String) × ((classify p s).reason ≡ text <> (" " <> nothing_changed))
  unfolding classify settle
  refuse-reason h = elim (Check-cases (classify_check p s)) [
    | inl (v, e) ↦
        let (disk, own, a, q) = (accepted_iff p s v).0 e in
        let opened = ap (λ (c : Check Verdict). (settle c).state) e in
        absurd (never_refuse own (sym (ap (λ (w : Verdict). w.state) q) ∙ sym opened ∙ h))
    | inr (text, e) ↦ (text, ap (λ (c : Check Verdict). (settle c).reason) e)
  ]
