-- ===== src/ControllerSeed/Laws/Positions.antt =====
-- roles/controller_seed/filter_plugins/controller_seed_preview.py: where a preview prints an id.
use ansible_install.Prelude.{
  String, ◌<>◌, true, false, some, ◌==◌, ◌≡◌, refl, sym, ap, ◌∙◌, inl, inr, arith, Bool-cases, eq→≡,
  ≡→eq,
}
use text.Mathlib.TextLemmas.{append_assoc, cons-append, nil-append}
use ansible_install.Prelude.Text.{strip_prefix, has, cut, count, count-append}
use ansible_install.Prelude.Pieces.{strip_prefix-append, ends_with-append, has-append, cut-append}
use ansible_install.ControllerSeed.Patterns.{
  names_attribute, is_id_name, after_name, after_attribute, LinePattern, diff_id, drift_id,
  link_driver, reads,
}
use ansible_install.ControllerSeed.Preview.{patterns}
use ansible_install.ControllerSeed.Laws.Ids.{reads_any}

-- The text in front of an id: of the line of a row that is created or changed, of a row that
-- drifted, and of a product module that is linked to a driver.
pub data IdPosition : String → Type 0 where
  created :
      (name before : String)
      → names_attribute name ≡ true
      → (name == "") ≡ false
      → has 10 before ≡ false
      → IdPosition ("             " <> (name <> ("_id: " <> (before <> " → "))))
  drifted :
      (name now : String)
      → names_attribute name ≡ true
      → (name == "") ≡ false
      → has 10 now ≡ false
      → IdPosition ("             " <> (name <> ("_id: database " <> (now <> ", manifest "))))
  linked :
      (text : String)
      → has 10 text ≡ false
      → IdPosition ("  [link  ] " <> (text <> " → ProvisionDriver #"))

names_attribute-append :
    (s t : String)
    → names_attribute s ≡ true
    → names_attribute t ≡ true
    → names_attribute (s <> t) ≡ true
unfolding names_attribute
names_attribute-append String.[] t h k = rw (nil-append t) k
names_attribute-append (String.◌∷◌ c s) t h k =
    rw (cons-append c s t) (ground (arith, names_attribute-append s t (ground arith) k))

no_colon : (s : String) → names_attribute s ≡ true → has b':' s ≡ false
unfolding names_attribute has
no_colon String.[] h = refl
no_colon (String.◌∷◌ c s) h = ground (arith, no_colon s (ground arith))

longer : (s t : String) → (s == "") ≡ false → ((s <> t) == t) ≡ false
unfolding count
longer String.[] t h = absurd (ground (arith, ≡→eq "" "" refl))
longer (String.◌∷◌ c s) t h = elim (Bool-cases ((String.◌∷◌ c s <> t) == t)) [
  | inl e ↦ absurd (ground (arith, count-append (String.◌∷◌ c s) t, ap count (eq→≡ _ t e)))
  | inr n ↦ n
]

id_name :
    (name : String)
    → names_attribute name ≡ true
    → (name == "") ≡ false
    → is_id_name (name <> "_id") ≡ true
unfolding is_id_name names_attribute
id_name name h k =
    rw (names_attribute-append name "_id" h refl)
      (rw (ends_with-append name "_id") (rw (longer name "_id" k) refl))

colon_first : (rest : String) → "_id:" <> rest ≡ "_id" <> String.◌∷◌ ":" rest
colon_first rest =
    append_assoc "_id" ":" rest
    ∙ ap (λ x. "_id" <> x) (cons-append ":" "" rest ∙ ap (λ x. String.◌∷◌ ":" x) (nil-append rest))

cut_name :
    (name rest : String)
    → names_attribute name ≡ true
    → cut b':' (name <> ("_id:" <> rest)) ≡ some (name <> "_id", rest)
unfolding has
cut_name name rest h =
    ap (cut b':')
      (ap (λ x. name <> x) (colon_first rest) ∙ sym (append_assoc name "_id" (String.◌∷◌ ":" rest)))
    ∙ cut-append b':' ":" (name <> "_id") rest refl
        (has-append b':' name "_id" (no_colon name h) refl)

indented_by :
    (word attribute : String)
    → after_attribute word ("             " <> attribute) ≡ after_name word (cut b':' attribute)
unfolding after_attribute
indented_by word attribute =
    rw (strip_prefix-append "             " attribute, after_attribute) refl

named_by :
    (word name rest : String)
    → is_id_name name ≡ true
    → after_name word (some (name, rest)) ≡ strip_prefix rest word
unfolding after_name
named_by word name rest h = rw (h, after_name) refl

-- What is read off a line with an attribute.
after_attribute-append :
    (name word rest : String)
    → names_attribute name ≡ true
    → (name == "") ≡ false
    → after_attribute word ("             " <> (name <> ("_id:" <> (word <> rest)))) ≡ some rest
after_attribute-append name word rest h k =
    indented_by word (name <> ("_id:" <> (word <> rest)))
    ∙ ap (after_name word) (cut_name name (word <> rest) h)
    ∙ named_by word (name <> "_id") (word <> rest) (id_name name h k)
    ∙ strip_prefix-append word rest

reads-some :
    (p : LinePattern) (s text : String)
    → p.start s ≡ some (text <> p.last)
    → has 10 text ≡ false
    → has 10 p.last ≡ false
    → reads p s ≡ true
unfolding reads
reads-some p s text h k l =
    rw (h, reads) (rw (ends_with-append text p.last) (rw (has-append 10 text p.last k l) refl))

by_diff : (b : String) → reads diff_id b ≡ true → reads_any patterns b ≡ true
unfolding reads_any
by_diff b h = rw h refl

by_drift : (b : String) → reads drift_id b ≡ true → reads_any patterns b ≡ true
unfolding reads_any
by_drift b h = rw h (ground arith)

by_link : (b : String) → reads link_driver b ≡ true → reads_any patterns b ≡ true
unfolding reads_any
by_link b h = rw h (ground arith)

-- An attribute, its colon, and the rest of the line, behind thirteen spaces.
abbrev attribute_line : String → String → String
attribute_line name rest = "             " <> (name <> ("_id:" <> rest))

regrouped :
    (name word rest : String)
    → "             " <> (name <> (("_id:" <> word) <> rest)) ≡ attribute_line name (word <> rest)
regrouped name word rest = ap (λ x. "             " <> (name <> x)) (append_assoc "_id:" word rest)

-- Each of the three positions is one that some pattern reads.
pub reads_any-IdPosition : (b : String) → IdPosition b → reads_any patterns b ≡ true
unfolding has after_attribute
reads_any-IdPosition b (created name before h k l) =
    let rest = before <> " → " in
    by_diff b (
      reads-some diff_id b before
        (ap diff_id.start (regrouped name " " rest) ∙ after_attribute-append name " " rest h k) l
        refl)
reads_any-IdPosition b (drifted name now h k l) =
    let rest = now <> ", manifest " in
    by_drift b (
      reads-some drift_id b now
        (ap drift_id.start (regrouped name " database " rest)
          ∙ after_attribute-append name " database " rest h k)
        l refl)
reads_any-IdPosition b (linked text l) = by_link b (
    reads-some link_driver b text
      (strip_prefix-append "  [link  ] " (text <> " → ProvisionDriver #")) l refl)
