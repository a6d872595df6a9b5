-- ===== src/NodeKernel.antt =====
-- roles/node_kernel/filter_plugins/node_kernel.py: who handles router advertisements on the uplink.
pub mod Laws
use ansible_install.Prelude.{
  String, ◌<>◌, Bool, true, false, not, ◌&&◌, ◌||◌, Option, none, some, List, [], ◌∷◌, ◌==◌,
  if◌then◌else◌,
}
use ansible_install.Prelude.Text.{ends_with}
use ansible_install.Prelude.Split.{mem, join, sorted}
use ansible_install.Prelude.Int.{ℤ, is_nat, show_ℤ}
use ansible_install.Prelude.Json.{
  Json, null, bool, num, str, arr, obj, Items, nil, cons, Fields, value_of, truthy,
}
use ansible_install.Prelude.Repr.{str_of}
use ansible_install.NodeStorage.Paths.{basename, text_or}

abbrev pub managed_states : List String
managed_states = "pending" ∷ "initialized" ∷ "configuring" ∷ "configured" ∷ "failed" ∷ "linger" ∷ []

abbrev pub is_str : Json → String → Bool
is_str (str s) t = s == t
is_str _ t = false

unfoldable pub first_named : Items → String → Option Fields
unfolding value_of
first_named nil interface = none
first_named (cons null rest) interface = first_named rest interface
first_named (cons (bool b) rest) interface = first_named rest interface
first_named (cons (num n) rest) interface = first_named rest interface
first_named (cons (str s) rest) interface = first_named rest interface
first_named (cons (arr xs) rest) interface = first_named rest interface
first_named (cons (obj link) rest) interface =
    let later = first_named rest interface in
    if is_str (value_of link "Name") interface then some link else later

-- The link under "Interfaces" by its name, if that is a list; else the document itself.
unfoldable pub link_record : Json → String → Option Fields
unfolding value_of
link_record (obj document) interface = elim (value_of document "Interfaces") [
  | arr links ↦ first_named links interface
  | _ ↦ some document
]
link_record _ interface = none

pub data Mode : Type 0 where
  networkd sysctl missing : Mode

pub record Plan : Type 0 where
  pub mode : Mode
  pub network_file : String
  pub reason : String

pub record Result : Type 0 where
  pub rc : Option ℤ
  pub stdout : Option String

abbrev pub succeeded : Option ℤ → Bool
succeeded none = false
succeeded (some rc) = is_nat rc 0

abbrev shown_rc : Option ℤ → String
shown_rc none = "None"
shown_rc (some rc) = show_ℤ rc

abbrev pub by_sysctl : String → Option Plan
by_sysctl reason = some (record { mode = sysctl; network_file = ""; reason = reason })

-- `v or ""`
abbrev pub or_empty : Json → Json
or_empty v = if truthy v then v else str ""

abbrev pub is_managed : Json → Bool
is_managed (str state) = mem state managed_states
is_managed _ = false

-- A text that is not empty; another value that counts as true has no base name.
unfoldable pub plan_file : String → String → Option Plan
plan_file interface network_file =
    if not (ends_with (basename network_file) ".network") || basename network_file == ".network"
    then by_sysctl (
        "networkctl reported an unexpected network file '"
        <> (network_file <> ("' for " <> interface)))
    else some (record {
      mode = networkd;
      network_file = basename network_file;
      reason = "systemd-networkd manages " <> (interface <> (" with " <> network_file));
    })

abbrev pub plan_json : String → Json → Option Plan
plan_json interface (str network_file) = plan_file interface network_file
plan_json interface _ = none

-- `none` is the TypeError of `os.path.basename` on a value that is no text.
unfoldable pub plan_link : String → Fields → Option Plan
unfolding value_of truthy str_of
plan_link interface link =
    let state = or_empty (value_of link "AdministrativeState") in
    let network_file = or_empty (value_of link "NetworkFile") in
    if not (is_managed state) || not (truthy network_file)
    then by_sysctl (
        "systemd-networkd does not manage "
        <> (interface
            <> (" (state '" <> (str_of (if truthy state then state else str "unknown") <> "')"))))
    else plan_json interface network_file

unfoldable pub plan_data : String → Option Json → Option Plan
plan_data interface none = by_sysctl ("networkctl printed no JSON for " <> interface)
plan_data interface (some document) = elim (link_record document interface) [
  | none ↦ by_sysctl ("networkctl does not list " <> interface)
  | some link ↦ plan_link interface link
]

-- `interface not in interfaces`, with the interfaces known.
abbrev pub is_unknown : Option (List String) → String → Bool
is_unknown none interface = false
is_unknown (some interfaces) interface = not (mem interface interfaces)

abbrev names_of : Option (List String) → List String
names_of none = []
names_of (some interfaces) = interfaces

-- `loads` is `json.loads`, `none` its ValueError.
unfoldable pub uplink_ra :
    (String → Option Json) → Result → String → Option (List String) → Option Plan
unfolding text_or sorted
uplink_ra loads result interface interfaces =
    if is_unknown interfaces interface
    then some (record {
      mode = missing;
      network_file = "";
      reason =
          "uplink_interface '"
          <> (interface
              <> ("' is not an interface on this host (it has: "
                  <> (join ", " (sorted (names_of interfaces)) <> ")")));
    })
    else if not (succeeded result.rc)
    then by_sysctl (
        "networkctl status failed (rc "
        <> (shown_rc result.rc <> ("): networkd is not managing " <> interface)))
    else plan_data interface (loads (text_or result.stdout ""))
