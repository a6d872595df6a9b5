-- ===== src/NodeStorage/Safety/FromResults.antt =====
-- What a verdict says of the results that tasks/probe.yml registered.
use ansible_install.Prelude.Lists.{In, All-In}
use ansible_install.Prelude.{
  ◌≡◌, refl, sym, ap, ◌∙◌, ◌⊎◌, ◌↔◌, ◌≢◌, inl, inr, String, ◌<>◌, ℕ, Bool, not, true, false, Option,
  none, some, List, [], ◌∷◌, arith, ◌==◌, eq→≡, ≡→eq, Bool-cases, Option-cases, if◌then◌else◌,
}
use ansible_install.Prelude.Text.{strip}
use ansible_install.Prelude.Int.{ℤ, is_nat, show_ℤ}
use ansible_install.NodeStorage.Paths.{text_or}
use ansible_install.NodeStorage.Results.{
  Command, ran, exited, stdout_of, stderr_of, parse_blkid, blkid_of, blkid_error_of,
}
use ansible_install.NodeStorage.Probe.{
  Reader, Registered, Probe, build_probe, resolved_block, collect_contents,
}
use ansible_install.NodeStorage.Check.{blank}
use ansible_install.NodeStorage.Disk.{Setup}
use ansible_install.NodeStorage.Signature.{signature}
use ansible_install.NodeStorage.Verdict.{classify}
use ansible_install.NodeStorage.Safety.States.{classify-blank}

-- The ways in which blkid can have found nothing on a device.
abbrev pub BlkidFoundNothing : Option Command → Type 0
BlkidFoundNothing result =
    (ran result ≡ none)
    ⊎ ((exited result 2 ≡ true) × (strip (text_or (stderr_of result) "") ≡ ""))
    ⊎ ((exited result 0 ≡ true) × (signature (parse_blkid (stdout_of result)) ≡ []))

signature_of_failure : (rc : String) → signature (("BLKID_RC", rc) ∷ []) ≢ []
unfolding signature ansible_install.Prelude.Lists.select ◌==◌
signature_of_failure rc h = cc

blkid_of_rc :
    (result : Option Command) (rc : ℤ)
    → ran result ≡ some rc
    → blkid_of result ≡ (
        if is_nat rc 2
        then []
        else if is_nat rc 0
        then parse_blkid (stdout_of result)
        else ("BLKID_RC", show_ℤ rc) ∷ [])
unfolding blkid_of
blkid_of_rc result rc e = rw (e, blkid_of)

exited_rc :
    (result : Option Command) (rc : ℤ) (code : ℕ)
    → ran result ≡ some rc
    → exited result code ≡ is_nat rc code
unfolding exited
exited_rc result rc code e = rw (e, exited)

module _ (result : Option Command) (rc : ℤ) (e : ran result ≡ some rc) where
  found_nothing_rc :
      signature (blkid_of result) ≡ [] → blkid_error_of result ≡ "" → BlkidFoundNothing result
  unfolding blkid_error_of
  found_nothing_rc sig err = ground (
    arith,
    e,
    blkid_of_rc result rc e,
    exited_rc result rc 2 e,
    exited_rc result rc 0 e,
    signature_of_failure (show_ℤ rc),
  )

blkid_found_nothing :
    (result : Option Command)
    → signature (blkid_of result) ≡ []
    → blkid_error_of result ≡ ""
    → BlkidFoundNothing result
blkid_found_nothing result sig err = elim (Option-cases (ran result)) [
  | inl e ↦ inl e
  | inr (rc, e) ↦ found_nothing_rc result rc e sig err
]

-- The parts of a built probe that come from blkid and from the find loop.
pub record ComesFrom (g : Registered) (p : Probe) : Type 0 where
  pub is_block : p.is_block ≡ resolved_block g
  pub blkid : p.blkid ≡ (if resolved_block g then blkid_of g.blkid else [])
  pub blkid_error : p.blkid_error ≡ (if resolved_block g then blkid_error_of g.blkid else "")
  pub find_error :
      p.find_error
      ≡ (collect_contents p.path_types p.mounts g.find
          (record { nonempty = []; errors = [] })).errors

module _ (reader : Reader) (g : Registered) (p : Probe)
    (built : build_probe reader g ≡ some p) where
  pub comes_from : ComesFrom g p
  unfolding build_probe
  comes_from = ground arith

  -- A probe built from registered results that is classified `blank` rests on a blkid that did not
  -- run, or exited 2 with nothing on stderr, or exited 0 and printed only the device's name.
  pub blank-blkid : (s : Setup) → (classify p s).state ≡ blank → BlkidFoundNothing g.blkid
  blank-blkid s h =
      let (disk, a) = (classify-blank p s).0 h in
      let c = comes_from in
      let block = sym c.is_block ∙ a.disk_is_whole.is_block in
      blkid_found_nothing g.blkid
        (sym (ap signature (c.blkid ∙ ap (λ (b : Bool). if b then blkid_of g.blkid else []) block))
          ∙ a.carries.0)
        (sym (c.blkid_error ∙ ap (λ (b : Bool). if b then blkid_error_of g.blkid else "") block)
          ∙ a.disk_is_whole.readable)
