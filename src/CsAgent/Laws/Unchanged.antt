-- ===== src/CsAgent/Laws/Unchanged.antt =====
-- When a render leaves the immutable keys as they are, and what it reports otherwise.
use ansible_install.Prelude.{
  ◌≡◌, ◌≢◌, ap, ◌↔◌, String, Option, none, some, List, [], ◌∷◌, eq→≡, ≡→eq, arith, if◌then◌else◌,
}
use ansible_install.Prelude.Lists.{All, is_empty}
use ansible_install.Prelude.Split.{split}
use ansible_install.Prelude.Json.{Json, obj, Fields}
use ansible_install.CsAgent.Immutable.{
  immutable_keys, load, value_at, added, removed, Change, digest, change_of, change_at, changes_at,
  immutable_changes,
}

change_of-none : (a b : Option String) → (change_of a b ≡ none) ↔ (a ≡ b)
unfolding change_of
change_of-none none none = ground arith
change_of-none none (some b) = ground arith
change_of-none (some a) none = ground arith
change_of-none (some a) (some b) = ground (arith, eq→≡ a b, ≡→eq a b)

change_of-added : (a b : Option String) → (change_of a b ≡ some added) ↔ ((a ≡ none) × (b ≢ none))
unfolding change_of
change_of-added none none = ground arith
change_of-added none (some b) = ground arith
change_of-added (some a) none = ground arith
change_of-added (some a) (some b) = ground arith

change_of-removed :
    (a b : Option String) → (change_of a b ≡ some removed) ↔ ((a ≢ none) × (b ≡ none))
unfolding change_of
change_of-removed none none = ground arith
change_of-removed none (some b) = ground arith
change_of-removed (some a) none = ground arith
change_of-removed (some a) (some b) = ground arith

some-eq : {xs ys : List Change} → some xs ≡ some ys → xs ≡ ys
some-eq h = ground arith

module _ (fingerprint : Json → String) where
  -- The digest of the value of a key.
  abbrev pub digest_of : Fields → String → Option String
  unfolding digest
  digest_of doc key = digest fingerprint (value_at (split b'.' key) (obj doc))

  digest-none : (v : Option Json) → (digest fingerprint v ≡ none) ↔ (v ≡ none)
  unfolding digest
  digest-none none = ground arith
  digest-none (some v) = ground arith

  changes_at-nil :
      (cur new : Fields) (keys : List String)
      → (changes_at fingerprint cur new keys ≡ [])
        ↔ All (λ key. digest_of cur key ≡ digest_of new key) keys
  unfolding changes_at change_at
  changes_at-nil cur new [] = ground arith
  changes_at-nil cur new (key ∷ keys) =
      ground
        (arith, changes_at-nil cur new keys, change_of-none (digest_of cur key) (digest_of new key))

  -- If both documents load, no change is reported exactly if every key, of the given ones or, without
  -- any, of the immutable ones, has the same digest in both.
  pub immutable_changes-nil :
      (safe_load : String → Option Json) (current rendered : Json) (cur new : Fields)
      (keys : List String)
      → load safe_load current ≡ some cur
      → load safe_load rendered ≡ some new
      → (immutable_changes fingerprint safe_load current rendered keys ≡ some [])
        ↔ All
            (λ key. digest_of cur key ≡ digest_of new key)
            (if is_empty keys then immutable_keys else keys)
  unfolding immutable_changes
  immutable_changes-nil safe_load current rendered cur new keys c r =
      rw (c, immutable_changes)
        (rw r (
          let (there, back) =
            changes_at-nil cur new (if is_empty keys then immutable_keys else keys) in
          (λ h. there (some-eq h), λ a. ap some (back a))))

  -- A key is reported as added exactly if only the render has it, and as removed exactly if only the
  -- current document has it.
  pub change_at-absent :
      (cur new : Fields) (key : String)
      → ((change_at fingerprint cur new key ≡ some added) ↔ (
          (value_at (split b'.' key) (obj cur) ≡ none)
          × (value_at (split b'.' key) (obj new) ≢ none)))
        × ((change_at fingerprint cur new key ≡ some removed) ↔ (
            (value_at (split b'.' key) (obj cur) ≢ none)
            × (value_at (split b'.' key) (obj new) ≡ none)))
  unfolding change_at
  change_at-absent cur new key = ground (
    arith,
    change_of-added (digest_of cur key) (digest_of new key),
    change_of-removed (digest_of cur key) (digest_of new key),
    digest-none (value_at (split b'.' key) (obj cur)),
    digest-none (value_at (split b'.' key) (obj new)),
  )
