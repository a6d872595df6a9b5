-- ===== src/ControllerSeed/Laws/Previews.antt =====
-- roles/controller_seed/filter_plugins/controller_seed_preview.py: the preview as a whole.
use Prim.Native.Char.{Char, code}
use ansible_install.Prelude.{
  ℕ, String, ◌<>◌, Bool, false, List, [], ◌∷◌, ◌==◌, eqb, ◌≡◌, refl, sym, ap, ◌∙◌, ◌⊎◌, inl, inr,
  arith, Bool-cases, ≡→eq,
}
use mathlib.Core.Path.{subst, ap₂}
use text.Mathlib.TextLemmas.{cons-append, nil-append}
use ansible_install.Prelude.Text.{cons-nonempty, rstrip_by, rstrip_char, close}
use ansible_install.Prelude.Lists.{All}
use ansible_install.Prelude.Json.{Json, str, arr, Items, nil, cons}
use ansible_install.Prelude.Repr.{str_of}
use ansible_install.ControllerSeed.Patterns.{id_placeholder}
use ansible_install.ControllerSeed.Log.{is_log_line}
use ansible_install.ControllerSeed.Preview.{
  patterns, substitute_all, texts_of, output_lines, normal_lines, normalize,
}
use ansible_install.ControllerSeed.Laws.Normal.{IdReplaced, normal-cases, normal_twice}

close_twice :
    (p : ℕ → Bool) (c : Char) (s : String)
    → rstrip_by p s ≡ s
    → rstrip_by p (close p c s) ≡ close p c s
unfolding rstrip_by
close_twice p c String.[] h = elim (Bool-cases (p (code c))) [
  | inl e ↦ rw e refl
  | inr e ↦ rw e (rw e refl)
]
close_twice p c (String.◌∷◌ d s) h = ap (close p c) h

close-nonempty :
    (p : ℕ → Bool) (c : Char) (s : String) → (s == "") ≡ false → close p c s ≡ String.◌∷◌ c s
close-nonempty p c String.[] h = absurd (ground (arith, ≡→eq "" "" refl))
close-nonempty p c (String.◌∷◌ d s) h = refl

pub append-nonempty : (b s : String) → (s == "") ≡ false → ((b <> s) == "") ≡ false
append-nonempty String.[] s h = rw (nil-append s) h
append-nonempty (String.◌∷◌ c b) s h = rw (cons-append c b s) (cons-nonempty c (b <> s))

rstrip_twice : (p : ℕ → Bool) (s : String) → rstrip_by p (rstrip_by p s) ≡ rstrip_by p s
unfolding rstrip_by
rstrip_twice p String.[] = refl
rstrip_twice p (String.◌∷◌ c s) = close_twice p c (rstrip_by p s) (rstrip_twice p s)

-- A text whose end is not stripped stays as it is behind any other.
pub rstrip-append :
    (p : ℕ → Bool) (b s : String)
    → rstrip_by p s ≡ s
    → (s == "") ≡ false
    → rstrip_by p (b <> s) ≡ b <> s
unfolding rstrip_by
rstrip-append p String.[] s h k = rw (nil-append s) h
rstrip-append p (String.◌∷◌ c b) s h k =
    rw (cons-append c b s) (
      ap (close p c) (rstrip-append p b s h k)
      ∙ close-nonempty p c (b <> s) (append-nonempty b s k))

pub blank-log : (s : String) → is_log_line (String.◌∷◌ " " s) ≡ false
unfolding is_log_line
blank-log s = refl

placeholder-bare :
    (f : String)
    → (f ≡ "") ⊎ (f ≡ "\n")
    → rstrip_char b'\r' (id_placeholder <> f) ≡ id_placeholder <> f
unfolding rstrip_by
placeholder-bare f (inl e) = rw e refl
placeholder-bare f (inr e) = rw e refl

placeholder_text : (f : String) → ((id_placeholder <> f) == "") ≡ false
placeholder_text f = rw (cons-append "<" "id>" f) (cons-nonempty "<" ("id>" <> f))

-- A line that normalization keeps and leaves as it is.
record IsNormal (line : String) : Type 0 where
  pub bare : rstrip_char b'\r' line ≡ line
  pub kept : is_log_line line ≡ false
  pub fixed : substitute_all patterns line ≡ line

IdReplaced-IsNormal :
    (line out : String) → IdReplaced line out → substitute_all patterns out ≡ out → IsNormal out
IdReplaced-IsNormal line out r h = record {
  bare = rw r.out_is (
      rstrip-append (λ c. eqb c b'\r') r.before (id_placeholder <> r.feed)
        (placeholder-bare r.feed r.ended) (placeholder_text r.feed));
  kept =
      let (rest, e) = r.indented in
      subst (λ x. is_log_line x ≡ false)
        (sym (r.out_is ∙ ap (λ x. x <> (id_placeholder <> r.feed)) e ∙ cons-append " " rest _))
        (blank-log (rest <> (id_placeholder <> r.feed)));
  fixed = h;
}

substitute_all-IsNormal :
    (line : String)
    → is_log_line (rstrip_char b'\r' line) ≡ false
    → IsNormal (substitute_all patterns (rstrip_char b'\r' line))
substitute_all-IsNormal line h =
    let bare = rstrip_char b'\r' line in
    elim (normal-cases bare) [
      | inl e ↦ record {
        bare = rw e (rstrip_twice (λ c. eqb c b'\r') line);
        kept = rw e h;
        fixed = ap (substitute_all patterns) e;
      }
      | inr r ↦ IdReplaced-IsNormal bare _ r (normal_twice bare)
    ]

normal_lines-IsNormal : (ls : List String) → All IsNormal (normal_lines ls)
unfolding normal_lines
normal_lines-IsNormal [] = tt
normal_lines-IsNormal (line ∷ ls) = elim (Bool-cases (is_log_line (rstrip_char b'\r' line))) [
  | inl e ↦ rw e (normal_lines-IsNormal ls)
  | inr e ↦ rw e (substitute_all-IsNormal line e, normal_lines-IsNormal ls)
]

IsNormal-normal_lines : (ls : List String) → All IsNormal ls → normal_lines ls ≡ ls
unfolding normal_lines
IsNormal-normal_lines [] h = refl
IsNormal-normal_lines (line ∷ ls) (n, h) =
    rw n.bare (rw n.kept (ap₂ ◌∷◌ n.fixed (IsNormal-normal_lines ls h)))

-- The lines as the list that Ansible registers.
abbrev pub registered_lines : List String → Items
registered_lines [] = nil
registered_lines (line ∷ ls) = cons (str line) (registered_lines ls)

pub texts_of-lines : (ls : List String) → texts_of (registered_lines ls) ≡ ls
unfolding texts_of str_of
texts_of-lines [] = refl
texts_of-lines (line ∷ ls) = ap (λ x. line ∷ x) (texts_of-lines ls)

-- A normalized preview stays as it is when it is normalized again.
pub normalize-normalize :
    (output : Json) → normalize (arr (registered_lines (normalize output))) ≡ normalize output
unfolding normalize output_lines
normalize-normalize output =
    ap normal_lines (texts_of-lines (normal_lines (output_lines output)))
    ∙ IsNormal-normal_lines _ (normal_lines-IsNormal (output_lines output))
