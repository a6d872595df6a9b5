-- ===== src/NodeUpgrade/Containers.antt =====
-- roles/node_upgrade/filter_plugins/node_upgrade.py: which containers are stopped and started.
use ansible_install.Prelude.{
  String, Bool, false, ◌&&◌, not, Option, none, some, List, [], ◌∷◌, ◌==◌, if◌then◌else◌,
}
use ansible_install.Prelude.Text.{strip, lstrip_char}
use ansible_install.Prelude.Split.{split}
use ansible_install.Prelude.Lists.{any}
use ansible_install.Prelude.Dict.{Dict, get}

-- What `docker container inspect` tells of a container. Missing labels are no labels.
pub record Container : Type 0 where
  pub id : Option String
  pub name : Option String
  pub labels : Dict String
  pub running : Option Bool

abbrev pub role_label : String
role_label = "com.computestacks.role"

abbrev pub system_role : String
system_role = "system"

unfoldable pub is_system : Container → Bool
unfolding get
is_system c = elim (get c.labels role_label) [ none ↦ false | some role ↦ role == system_role ]

unfoldable pub name_of : Option String → String
name_of none = ""
name_of (some name) = lstrip_char b'/' name

-- What `json.loads` makes of the inspect output.
pub data Document : Type 0 where
  array : List Container → Document
  no_array : Document

-- `none` is the ValueError, of a text that is no JSON and of a document that is no array.
unfoldable pub parse_inspect : (String → Option Document) → Option String → Option (List Container)
parse_inspect loads none = some []
parse_inspect loads (some stdout) =
    let text = strip stdout in
    if text == ""
    then some []
    else elim (loads text) [ none ↦ none | some no_array ↦ none | some (array cs) ↦ some cs ]

-- A container that the run stops and starts again.
pub record Recorded : Type 0 where
  pub id : Option String
  pub name : Option String

abbrev pub is_running : Option Bool → Bool
is_running none = false
is_running (some b) = b

unfoldable pub select_running_tenants : List Container → List Recorded
unfolding is_system name_of
select_running_tenants [] = []
select_running_tenants (c ∷ cs) =
    let rest = select_running_tenants cs in
    if is_running c.running && not (is_system c)
    then record { id = c.id; name = some (name_of c.name) } ∷ rest
    else rest

unfoldable pub has_tenant_containers : List Container → Bool
unfolding is_system any
has_tenant_containers cs = any (λ c. not (is_system c)) cs

-- One row of `docker ps --format json`.
pub record PsRow : Type 0 where
  pub id : Option String
  pub names : Option String
  pub state : Option String

pub record PsEntry : Type 0 where
  pub id : Option String
  pub name : String
  pub running : Bool

abbrev first_of_names : List String → String
first_of_names [] = ""
first_of_names (n ∷ ns) = lstrip_char b'/' n

abbrev names_text : Option String → String
names_text none = ""
names_text (some names) = names

abbrev state_is_running : Option String → Bool
state_is_running none = false
state_is_running (some state) = state == "running"

abbrev ps_entry : PsRow → PsEntry
ps_entry row = record {
  id = row.id;
  name = first_of_names (split b',' (names_text row.names));
  running = state_is_running row.state;
}

-- `loads` reads one line; `none` is its ValueError.
unfoldable pub parse_ps : (String → Option PsRow) → List String → Option (List PsEntry)
unfolding strip split
parse_ps loads [] = some []
parse_ps loads (line ∷ lines) =
    let rest = parse_ps loads lines in
    if strip line == "" then rest else elim (loads (strip line)) [
      | none ↦ none
      | some row ↦ elim rest [ none ↦ none | some entries ↦ some (ps_entry row ∷ entries) ]
    ]
