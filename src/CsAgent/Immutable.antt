-- ===== src/CsAgent/Immutable.antt =====
-- roles/cs_agent/filter_plugins/cs_agent_immutable.py: the keys of agent.yml that must not change.
use ansible_install.Prelude.{String, Option, none, some, List, [], ◌∷◌, ◌==◌, if◌then◌else◌}
use ansible_install.Prelude.Text.{strip}
use ansible_install.Prelude.Lists.{is_empty}
use ansible_install.Prelude.Split.{split}
use ansible_install.Prelude.Json.{Json, null, bool, num, str, arr, obj, Fields, end, member}
use ansible_install.Prelude.Repr.{str_of}

abbrev pub immutable_keys : List String
immutable_keys =
    "store.data_dir" ∷ "metadata.admin_token_hash" ∷ "metadata.listen_addr" ∷ "backups.key"
    ∷ "backups.borg.ssh.user" ∷ "backups.borg.ssh.host" ∷ "backups.borg.ssh.port"
    ∷ "backups.borg.ssh.host_path" ∷ []

-- What `yaml.safe_load` made of a text; `none` is an error, of the parser or of the check.
unfoldable pub mapping_of : Option Json → Option Fields
mapping_of (some (obj doc)) = some doc
mapping_of (some null) = some end
mapping_of (some (bool b)) = none
mapping_of (some (num n)) = none
mapping_of (some (str s)) = none
mapping_of (some (arr xs)) = none
mapping_of none = none

abbrev load_text : (String → Option Json) → String → Option Fields
load_text safe_load text = if strip text == "" then some end else mapping_of (safe_load text)

-- `safe_load` is `yaml.safe_load`, `none` its error.
unfoldable pub load : (String → Option Json) → Json → Option Fields
unfolding mapping_of strip str_of
load safe_load (obj doc) = some doc
load safe_load null = some end
load safe_load (str text) = load_text safe_load text
load safe_load (bool b) = load_text safe_load (str_of (bool b))
load safe_load (num n) = load_text safe_load (str_of (num n))
load safe_load (arr xs) = load_text safe_load (str_of (arr xs))

-- The value at the end of a path of keys; `none` is `_ABSENT`.
unfoldable pub value_at : List String → Json → Option Json
unfolding member
value_at [] cur = some cur
value_at (part ∷ parts) (obj doc) = elim (member doc part) [
  | none ↦ none
  | some v ↦ value_at parts v
]
value_at (part ∷ parts) _ = none

-- A scalar counts as its text.
unfoldable pub canonical : Json → Json
unfolding str_of
canonical (obj doc) = obj doc
canonical (arr xs) = arr xs
canonical null = str ""
canonical (bool b) = str (str_of (bool b))
canonical (num n) = str (str_of (num n))
canonical (str s) = str s

pub data Kind : Type 0 where
  added removed changed : Kind

pub record Change : Type 0 where
  pub key : String
  pub change : Kind

-- What became of a key, by its digests before and after.
unfoldable pub change_of : Option String → Option String → Option Kind
change_of none none = none
change_of none (some b) = some added
change_of (some a) none = some removed
change_of (some a) (some b) = if a == b then none else some changed

-- `fingerprint` is the SHA-256 in hex of the JSON text of a value, with sorted keys.
module _ (fingerprint : Json → String) where
  unfoldable pub digest : Option Json → Option String
  unfolding canonical
  digest none = none
  digest (some v) = some (fingerprint (canonical v))

  unfoldable pub change_at : Fields → Fields → String → Option Kind
  unfolding digest change_of value_at split
  change_at cur new key =
      change_of (digest (value_at (split b'.' key) (obj cur)))
        (digest (value_at (split b'.' key) (obj new)))

  unfoldable pub changes_at : Fields → Fields → List String → List Change
  unfolding change_at
  changes_at cur new [] = []
  changes_at cur new (key ∷ keys) =
      let rest = changes_at cur new keys in
      elim (change_at cur new key) [
        | none ↦ rest
        | some kind ↦ record { key = key; change = kind } ∷ rest
      ]

  -- `none` is the error of a document that does not load.
  unfoldable pub immutable_changes :
      (String → Option Json) → Json → Json → List String → Option (List Change)
  unfolding load changes_at
  immutable_changes safe_load current rendered keys = elim (load safe_load current) [
    | none ↦ none
    | some cur ↦ elim (load safe_load rendered) [
      | none ↦ none
      | some new ↦ some (changes_at cur new (if is_empty keys then immutable_keys else keys))
    ]
  ]
