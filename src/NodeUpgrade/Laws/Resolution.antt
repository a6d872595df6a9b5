-- ===== src/NodeUpgrade/Laws/Resolution.antt =====
-- How recorded containers are found again, and who may stay down.
use ansible_install.Prelude.{
  leb, ◌≡◌, refl, sym, ap, ◌∙◌, ◌⊎◌, inl, inr, ◌↔◌, ◌≢◌, ◌+◌, ◌≤◌, ◌<>◌, ◌==◌, ◌||◌, String, Bool,
  true, false, not, Option, none, some, eq→≡, ≡→eq, and-eq-true, List, [], ◌∷◌, arith, Bool-cases,
  Option-cases,
}
use ansible_install.Prelude.Text.{
  count, count-append, starts_with, starts_with-append, starts_with-split,
}
use ansible_install.Prelude.Members.{any-In, In-any}
use mathlib.Core.Option.{some-injective}
use ansible_install.Prelude.Lists.{All, In, select}
use ansible_install.NodeUpgrade.Containers.{Recorded, PsEntry}
use ansible_install.NodeUpgrade.Recorded.{
  last_with, has_id, has_name, current, Resolved, resolve, is_accepted_down, partition_accepted,
  same_text, names_id,
}

false-ne-true : ◌≡◌ {A = Bool} false true → ⊥
false-ne-true h = cc

-- An entry is found under a key exactly if the list has one, and it is one of the list's entries.
last_with-In :
    (test : PsEntry → Bool) (ps : List PsEntry) (c : PsEntry)
    → last_with test ps ≡ some c
    → In c ps × (test c ≡ true)
unfolding last_with
last_with-In test [] c h = absurd (cc)
last_with-In test (x ∷ ps) c h = elim (Option-cases (last_with test ps)) [
  | inl e ↦ elim (Bool-cases (test x)) [
    | inl t ↦
        let same : x ≡ c = some-injective x c (rw (e, t, last_with) at h) in
        (inl same, sym (ap test same) ∙ t)
    | inr t ↦ absurd (some-ne-none (sym (rw (e, t, last_with) at h)))
  ]
  | inr (later, e) ↦
      let same : later ≡ c = some-injective later c (rw (e, last_with) at h) in
      let (m, t) = last_with-In test ps later e in (inr (rw same at m), rw same at t)
]
  where
    some-ne-none : some c ≢ none
    some-ne-none k = cc

last_with-eq-none :
    (test : PsEntry → Bool) (ps : List PsEntry)
    → (last_with test ps ≡ none) ↔ All (λ c. test c ≡ false) ps
unfolding last_with
last_with-eq-none test [] = (λ _. tt, λ _. refl)
last_with-eq-none test (x ∷ ps) = ground (arith, last_with-eq-none test ps)

module _ (r : Recorded) (ps : List PsEntry) where
  found_iff : ((resolve ps r).found ≡ false) ↔ (current r ps ≡ none)
  found_iff = ground arith

  current_iff :
      (current r ps ≡ none)
      ↔ ((last_with (has_id r) ps ≡ none) × (last_with (has_name r) ps ≡ none))
  unfolding current
  current_iff = ground arith

  -- A recorded container counts as gone exactly if no listed container has its id or its name.
  pub resolve-gone :
      ((resolve ps r).found ≡ false)
      ↔ (All (λ c. has_id r c ≡ false) ps × All (λ c. has_name r c ≡ false) ps)
  resolve-gone = (
    λ h.
        let (i, n) = current_iff.0 (found_iff.0 h) in
        ((last_with-eq-none (has_id r) ps).0 i, (last_with-eq-none (has_name r) ps).0 n),
    λ (i, n). found_iff.1 (
        current_iff.1
          ((last_with-eq-none (has_id r) ps).1 i, (last_with-eq-none (has_name r) ps).1 n)),
  )

  -- The match of a container that is found: a listed entry, whose id and state the result takes. It
  -- has the recorded id, or it has the recorded name and no listed entry has the id.
  abbrev pub Match : PsEntry → Type 0
  Match c =
      In c ps
      × ((resolve ps r).current_id ≡ c.id)
      × ((resolve ps r).running ≡ c.running)
      × ((has_id r c ≡ true) ⊎ (has_name r c ≡ true) × All (λ d. has_id r d ≡ false) ps)

  result_of_current :
      (c : PsEntry)
      → current r ps ≡ some c
      → ((resolve ps r).current_id ≡ c.id) × ((resolve ps r).running ≡ c.running)
  result_of_current c e = ground arith

  by_name : last_with (has_id r) ps ≡ none → current r ps ≡ last_with (has_name r) ps
  unfolding current
  by_name e = rw (e, current)

  by_id : (c : PsEntry) → last_with (has_id r) ps ≡ some c → current r ps ≡ some c
  unfolding current
  by_id c e = rw (e, current)

  -- A container that counts as found is one of those listed, matched by its id if one has it and by
  -- its name otherwise.
  pub resolve-found : (resolve ps r).found ≡ true → (c : PsEntry) × Match c
  resolve-found h = elim (Option-cases (last_with (has_id r) ps)) [
    | inr (c, e) ↦
        let (m, t) = last_with-In (has_id r) ps c e in
        let (i, n) = result_of_current c (by_id c e) in (c, (m, i, n, inl t))
    | inl e ↦ elim (Option-cases (last_with (has_name r) ps)) [
      | inr (c, e') ↦
          let (m, t) = last_with-In (has_name r) ps c e' in
          let (i, n) = result_of_current c (by_name e ∙ e') in
          (c, (m, i, n, inr (t, (last_with-eq-none (has_id r) ps).0 e)))
      | inl e' ↦ absurd (false-ne-true (sym (found_iff.1 (by_name e ∙ e')) ∙ h))
    ]
  ]

-- A name of the accept-down list is the name of the container, or it has at least 12 characters and
-- the recorded id or the current one starts with it.
abbrev pub IsPrefix : String → Option String → Type 0
IsPrefix a id = (rest : String) × (id ≡ some (a <> rest)) × (12 ≤ count a)

abbrev pub IsNamed : Resolved → String → Type 0
IsNamed e a = (e.name ≡ some a) ⊎ IsPrefix a e.id ⊎ IsPrefix a e.current_id

names_id→prefix : (a : String) (id : Option String) → names_id a id ≡ true → IsPrefix a id
unfolding names_id
names_id→prefix a none h = absurd (cc)
names_id→prefix a (some cid) h =
    let (long, starts) =
      and-eq-true (leb 12 (count a)) (starts_with cid a) (and-eq-true (not (cid == "")) _ h).1 in
    let (rest, e) = starts_with-split cid a starts in (rest, ap some e, ground arith)

long-append : (a rest : String) → 12 ≤ count a → a <> rest ≢ ""
unfolding count
long-append a rest h e =
    let n : count a + count rest ≡ 0 = sym (count-append a rest) ∙ ap count e in omega arith

prefix→names_id : (a : String) (id : Option String) → IsPrefix a id → names_id a id ≡ true
unfolding names_id
prefix→names_id a id (rest, e, long) = rw e (
    rw (starts_with-append a rest) (elim (Bool-cases (a <> rest == "")) [
      | inl z ↦ absurd (long-append a rest long (eq→≡ _ _ z))
      | inr z ↦ rw z (ground arith)
    ]))

same_text→≡ : (a : String) (o : Option String) → same_text (some a) o ≡ true → o ≡ some a
same_text→≡ a none h = absurd (cc)
same_text→≡ a (some b) h = ap some (sym (eq→≡ a b h))

≡→same_text : (a : String) (o : Option String) → o ≡ some a → same_text (some a) o ≡ true
≡→same_text a o e = rw e (≡→eq a a refl)

IsNamed-iff :
    (e : Resolved) (a : String)
    → ((same_text (some a) e.name || (names_id a e.id || names_id a e.current_id)) ≡ true)
      ↔ IsNamed e a
IsNamed-iff e a = (
  λ h. elim (Bool-cases (same_text (some a) e.name)) [
    | inl n ↦ inl (same_text→≡ a e.name n)
    | inr n ↦ elim (Bool-cases (names_id a e.id)) [
      | inl i ↦ inr (inl (names_id→prefix a e.id i))
      | inr i ↦ inr (inr (names_id→prefix a e.current_id (ground arith)))
    ]
  ],
  λ h. elim h [
    | inl n ↦ ground (arith, ≡→same_text a e.name n)
    | inr (inl i) ↦ ground (arith, prefix→names_id a e.id i)
    | inr (inr i) ↦ ground (arith, prefix→names_id a e.current_id i)
  ],
)

-- A container may stay down exactly if a name of the list names it.
is_accepted_down_iff :
    (e : Resolved) (accepted : List String)
    → (is_accepted_down e accepted ≡ true) ↔ ((a : String) × In a accepted × IsNamed e a)
unfolding is_accepted_down
is_accepted_down_iff e accepted = (
  λ h. let (a, m, t) = any-In _ accepted h in (a, m, (IsNamed-iff e a).0 t),
  λ (a, m, n). In-any _ a accepted m ((IsNamed-iff e a).1 n),
)

partition_selects :
    (entries : List Resolved) (accepted : List String)
    → partition_accepted entries accepted ≡ record {
      required = select (λ e. not (is_accepted_down e accepted)) entries;
      accepted = select (λ e. is_accepted_down e accepted) entries;
    }
unfolding partition_accepted select
partition_selects [] accepted = refl
partition_selects (e ∷ entries) accepted = rw (partition_selects entries accepted) (ground arith)

-- The partition keeps the order of the entries: `accepted` are those that the accept-down list
-- names, `required` all the others. The list names an entry exactly if one of its names is the name
-- of the entry, or has at least 12 characters and begins its recorded id or its current one.
pub partition_accepted_lem :
    (entries : List Resolved) (accepted : List String)
    → (partition_accepted entries accepted ≡ record {
      required = select (λ e. not (is_accepted_down e accepted)) entries;
      accepted = select (λ e. is_accepted_down e accepted) entries;
    })
      × ((e : Resolved)
          → (is_accepted_down e accepted ≡ true) ↔ ((a : String) × In a accepted × IsNamed e a))
partition_accepted_lem entries accepted =
    (partition_selects entries accepted, λ e. is_accepted_down_iff e accepted)
