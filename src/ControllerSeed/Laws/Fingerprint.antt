-- ===== src/ControllerSeed/Laws/Fingerprint.antt =====
-- roles/controller_seed/filter_plugins/controller_seed_preview.py: equal fingerprints.
use ansible_install.Prelude.{
  String, ◌<>◌, true, false, none, some, List, [], ◌∷◌, eqb, if◌then◌else◌, ◌≡◌, refl, sym, ap, ◌∙◌,
  inl, inr, arith, Bool-cases,
}
use mathlib.Core.Path.{subst}
use text.Mathlib.TextLemmas.{cons-append}
use ansible_install.Prelude.Text.{close, rstrip_by, rstrip_char}
use ansible_install.Prelude.Lists.{All}
use ansible_install.Prelude.Int.{is_digit, all_digits}
use ansible_install.Prelude.Json.{arr}
use ansible_install.ControllerSeed.Patterns.{LinePattern, reads, id_placeholder}
use ansible_install.ControllerSeed.Log.{is_log_line}
use ansible_install.ControllerSeed.Preview.{
  patterns, substitute_all, output_lines, normal_lines, normalize, hashed_text, all_blank,
  preview_sha256,
}
use ansible_install.ControllerSeed.Laws.Tails.{IsClosed-append}
use ansible_install.ControllerSeed.Laws.Normal.{
  IsIndented, reads-indented, patterns-IsIndented, substitute_all-closed, placeholder-IsClosed,
}
use ansible_install.ControllerSeed.Laws.Previews.{
  rstrip-append, blank-log, registered_lines, texts_of-lines,
}
use ansible_install.ControllerSeed.Laws.Positions.{IdPosition, reads_any-IdPosition}
use ansible_install.ControllerSeed.Laws.Ids.{
  StopsAt, IsIdPattern, substituted-at, reads-StopsAt, patterns-IsIdPattern, all_digits-nonempty,
  reads_any,
}

-- What the text before an id has: it is indented, and the id does not run into it.
abbrev IsIdStart : String → Type 0
IsIdStart b = StopsAt b × ((rest : String) × (b ≡ String.◌∷◌ " " rest))

reads_any-IsIdStart :
    (ps : List LinePattern)
    → All IsIdPattern ps
    → All IsIndented ps
    → (b : String) → reads_any ps b ≡ true
    → IsIdStart b
unfolding reads_any
reads_any-IsIdStart [] all ind b h = absurd (ground arith)
reads_any-IsIdStart (p ∷ ps) (a, all) (i, ind) b h = elim (Bool-cases (reads p b)) [
  | inl e ↦ (reads-StopsAt p a b e, reads-indented p i b e)
  | inr e ↦ reads_any-IsIdStart ps all ind b (ground arith)
]

substitute_all-id :
    (ps : List LinePattern) (b d : String)
    → all_digits d ≡ true
    → StopsAt b
    → reads_any ps b ≡ true
    → substitute_all ps (b <> d) ≡ b <> id_placeholder
unfolding substitute_all reads_any
substitute_all-id [] b d n k h = absurd (ground arith)
substitute_all-id (p ∷ ps) b d n k h = elim (Bool-cases (reads p b)) [
  | inl e ↦
      ap (substitute_all ps) (substituted-at p b d n k ∙ rw e refl)
      ∙ substitute_all-closed ps _
          (IsClosed-append b id_placeholder (placeholder-IsClosed "" (inl refl)))
  | inr e ↦
      ap (substitute_all ps) (substituted-at p b d n k ∙ rw e refl)
      ∙ substitute_all-id ps b d n k (ground arith)
]

bare_digits : (d : String) → all_digits d ≡ true → rstrip_char b'\r' d ≡ d
unfolding rstrip_by all_digits is_digit
bare_digits String.[] h = refl
bare_digits (String.◌∷◌ c String.[]) h = ground arith
bare_digits (String.◌∷◌ c (String.◌∷◌ e d)) h =
    ap (close (λ k. eqb k b'\r') c) (bare_digits (String.◌∷◌ e d) (ground arith))

normal_lines-kept :
    (line : String) (ls : List String)
    → rstrip_char b'\r' line ≡ line
    → is_log_line line ≡ false
    → normal_lines (line ∷ ls) ≡ substitute_all patterns line ∷ normal_lines ls
unfolding normal_lines
normal_lines-kept line ls bare kept = rw bare (rw kept refl)

-- An id at a position of an id is replaced.
normal_lines-id :
    (b d : String) (ls : List String)
    → all_digits d ≡ true
    → reads_any patterns b ≡ true
    → normal_lines ((b <> d) ∷ ls) ≡ (b <> id_placeholder) ∷ normal_lines ls
normal_lines-id b d ls n h =
    let (k, (rest, indented)) =
      reads_any-IsIdStart patterns patterns-IsIdPattern patterns-IsIndented b h in
    normal_lines-kept (b <> d) ls
      (rstrip-append (λ k. eqb k b'\r') b d (bare_digits d n) (all_digits-nonempty d n))
      (subst (λ x. is_log_line x ≡ false) (sym (ap (λ x. x <> d) indented ∙ cons-append " " rest d))
        (blank-log (rest <> d)))
    ∙ ap (λ x. x ∷ normal_lines ls) (substitute_all-id patterns b d n k h)

-- Previews that are the same line by line, but for the ids where a line ends in one.
pub data SameButIds : List String → List String → Type 0 where
  no_line : SameButIds [] []
  same_line :
      {ls ks : List String} (line : String) → SameButIds ls ks → SameButIds (line ∷ ls) (line ∷ ks)
  id_line :
      {ls ks : List String} (b d e : String)
      → IdPosition b
      → all_digits d ≡ true
      → all_digits e ≡ true
      → SameButIds ls ks
      → SameButIds ((b <> d) ∷ ls) ((b <> e) ∷ ks)

normal_lines-same : (ls ks : List String) → SameButIds ls ks → normal_lines ls ≡ normal_lines ks
unfolding normal_lines
normal_lines-same _ _ no_line = refl
normal_lines-same _ _ (same_line line same) =
    ap
      (λ later.
        if is_log_line (rstrip_char b'\r' line)
        then later
        else substitute_all patterns (rstrip_char b'\r' line) ∷ later)
      (normal_lines-same _ _ same)
normal_lines-same _ _ (id_line b d e at n m same) =
    let h = reads_any-IdPosition b at in
    normal_lines-id b d _ n h
    ∙ ap (λ x. (b <> id_placeholder) ∷ x) (normal_lines-same _ _ same)
    ∙ sym (normal_lines-id b e _ m h)

-- Previews that differ only in the ids of rows have the same fingerprint, or are both refused.
pub preview_sha256-same :
    (sha256 : String → String) (ls ks : List String)
    → SameButIds ls ks
    → preview_sha256 sha256 (arr (registered_lines ls))
      ≡ preview_sha256 sha256 (arr (registered_lines ks))
unfolding preview_sha256 normalize output_lines
preview_sha256-same sha256 ls ks same =
    ap (λ found. if all_blank found then none else some (sha256 (hashed_text found)))
      (ap normal_lines (texts_of-lines ls)
        ∙ normal_lines-same ls ks same
        ∙ sym (ap normal_lines (texts_of-lines ks)))
