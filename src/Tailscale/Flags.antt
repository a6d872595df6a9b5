-- ===== src/Tailscale/Flags.antt =====
-- roles/tailscale/filter_plugins/tailscale.py: the flags that the check knows, and their parser.
use ansible_install.Prelude.{
  ℕ, String, Bool, true, false, ◌||◌, Option, none, some, List, [], ◌∷◌, ◌++◌, map, ◌==◌,
  if◌then◌else◌,
}
use ansible_install.Prelude.Text.{strip, starts_with, lstrip_char, cut, lower_is}
use ansible_install.Prelude.Split.{mem, split, sorted}
use ansible_install.Prelude.Dict.{Dict, put}
use ansible_install.Prelude.Shell.{split_words}
use ansible_install.NodeStorage.Paths.{text_or}

pub record BoolFlag : Type 0 where
  pub flag : String
  pub key : String
  pub default : Bool

abbrev pub bool_flags : List BoolFlag
bool_flags =
    record { flag = "accept-dns"; key = "CorpDNS"; default = true }
    ∷ record { flag = "accept-routes"; key = "RouteAll"; default = false }
    ∷ record { flag = "ssh"; key = "RunSSH"; default = false }
    ∷ record { flag = "shields-up"; key = "ShieldsUp"; default = false }
    ∷ record {
      flag = "exit-node-allow-lan-access";
      key = "ExitNodeAllowLANAccess";
      default = false;
    }
    ∷ []

pub record StringFlag : Type 0 where
  pub flag : String
  pub key : String
  pub default : String

abbrev pub hostname : StringFlag
hostname = record { flag = "hostname"; key = "Hostname"; default = "" }

abbrev pub operator : StringFlag
operator = record { flag = "operator"; key = "OperatorUser"; default = "" }

abbrev pub string_flags : List StringFlag
string_flags = hostname ∷ operator ∷ []

abbrev pub bool_names : List String
bool_names = map (λ (f : BoolFlag). f.flag) bool_flags

abbrev pub string_names : List String
string_names = map (λ (f : StringFlag). f.flag) string_flags

abbrev pub default_control : List String
default_control = "" ∷ "https://controlplane.tailscale.com" ∷ "https://login.tailscale.com" ∷ []

abbrev pub netfilter_modes : List (String × ℕ)
netfilter_modes = ("off", 0) ∷ ("nodivert", 1) ∷ ("on", 2) ∷ []

abbrev pub ignored_flags : List String
ignored_flags = "timeout" ∷ "authkey" ∷ "auth-key" ∷ "qr" ∷ "json" ∷ "reset" ∷ "force-reauth" ∷ []

-- A key of the preferences with its default, None or a Boolean, and the flag that resets it.
pub record MustBeDefault : Type 0 where
  pub key : String
  pub default : Option Bool
  pub reset : Option String

abbrev pub must_be_default : List MustBeDefault
must_be_default =
    record { key = "RunWebClient"; default = some false; reset = some "--webclient=false" }
    ∷ record { key = "AdvertiseServices"; default = none; reset = none }
    ∷ record {
      key = "PostureChecking";
      default = some false;
      reset = some "--report-posture=false";
    }
    ∷ []

-- `_ts_bool`
unfoldable pub is_yes : String → Bool
unfolding strip lower_is
is_yes value =
    let text = strip value in
    lower_is text "1"
    || lower_is text "true"
    || lower_is text "t"
    || lower_is text "yes"
    || lower_is text "y"
    || lower_is text "on"

-- `[v.strip() for v in vs if v.strip()]`
unfoldable pub stripped : List String → List String
unfolding strip
stripped [] = []
stripped (v ∷ vs) = let rest = stripped vs in if strip v == "" then rest else strip v ∷ rest

-- `_ts_list`
unfoldable pub items_of : String → List String
unfolding stripped sorted split
items_of value = sorted (stripped (split b',' value))

-- `flags["_positional"]`: absent, the list that the parser fills, or the value of a flag
-- spelled `--_positional`.
pub data Positional : Type 0 where
  absent : Positional
  collected : List String → Positional
  overwritten : String → Positional

pub record Flags : Type 0 where
  pub positional : Positional
  pub named : Dict String

-- `flags.setdefault("_positional", []).append(tok)`; `none` is the AttributeError on a text.
unfoldable pub add_positional : Flags → String → Option Flags
add_positional flags tok = elim flags.positional [
  | absent ↦ some (record flags { positional = collected (tok ∷ []) })
  | collected toks ↦ some (record flags { positional = collected (toks ++ (tok ∷ [])) })
  | overwritten text ↦ none
]

-- `flags[name] = value`
unfoldable pub set_flag : Flags → String → String → Flags
unfolding put
set_flag flags name value =
    if name == "_positional"
    then record flags { positional = overwritten value }
    else record flags { named = put flags.named name value }

-- A flag that takes no value from the next word.
unfoldable pub is_switch : String → Bool
unfolding mem
is_switch name =
    mem name bool_names
    || mem name ("advertise-exit-node" ∷ "snat-subnet-routes" ∷ [])
    || mem name ignored_flags

pub data Word : Type 0 where
  loose : Word
  given : String → String → Word
  alone : String → Word

unfoldable pub word_of : String → Word
unfolding starts_with cut
word_of tok =
    if starts_with tok "-"
    then elim (cut b'=' (lstrip_char b'-' tok)) [
      | none ↦ alone (lstrip_char b'-' tok)
      | some (name, value) ↦ given name value
    ]
    else loose

-- The loop over the tokens; `none` is the error of `add_positional`.
unfoldable pub read_tokens : List String → Flags → Option Flags
unfolding word_of add_positional set_flag is_switch starts_with
read_tokens [] flags = some flags
read_tokens (tok ∷ []) flags = elim (word_of tok) [
  | loose ↦ add_positional flags tok
  | given name value ↦ some (set_flag flags name value)
  | alone name ↦ some (set_flag flags name (if is_switch name then "true" else ""))
]
read_tokens (tok ∷ next ∷ rest) flags = elim (word_of tok) [
  | loose ↦ elim (add_positional flags tok) [
    | none ↦ none
    | some more ↦ read_tokens (next ∷ rest) more
  ]
  | given name value ↦ read_tokens (next ∷ rest) (set_flag flags name value)
  | alone name ↦ elim (is_switch name) [
    | true ↦ read_tokens (next ∷ rest) (set_flag flags name "true")
    | false ↦ elim (starts_with next "-") [
      | true ↦ read_tokens (next ∷ rest) (set_flag flags name "")
      | false ↦ read_tokens rest (set_flag flags name next)
    ]
  ]
]

abbrev pub no_flags : Flags
no_flags = record { positional = absent; named = [] }

-- `none` is the error of `shlex.split` or of the loop.
unfoldable pub parse_args : Option String → Option Flags
unfolding split_words read_tokens text_or
parse_args args = elim (split_words (text_or args "")) [
  | none ↦ none
  | some tokens ↦ read_tokens tokens no_flags
]
