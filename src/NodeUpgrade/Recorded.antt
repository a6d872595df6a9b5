-- ===== src/NodeUpgrade/Recorded.antt =====
-- roles/node_upgrade/filter_plugins/node_upgrade.py: the recorded containers after the restart.
use ansible_install.Prelude.{
  String, Bool, true, false, ◌&&◌, ◌||◌, not, Option, none, some, List, [], ◌∷◌, ◌==◌, leb, map,
  if◌then◌else◌,
}
use ansible_install.Prelude.Text.{count, strip, starts_with}
use ansible_install.Prelude.Split.{split}
use ansible_install.Prelude.Lists.{any, select}
use ansible_install.NodeUpgrade.Containers.{Recorded, PsEntry}

-- `a == b` of two texts or None.
abbrev pub same_text : Option String → Option String → Bool
same_text none none = true
same_text (some a) (some b) = a == b
same_text _ _ = false

-- `{key(c): c for c in ps}.get(k)`: of several entries with the key the last one counts.
unfoldable pub last_with : (PsEntry → Bool) → List PsEntry → Option PsEntry
last_with test [] = none
last_with test (c ∷ ps) = elim (last_with test ps) [
  | some later ↦ some later
  | none ↦ if test c then some c else none
]

pub record Resolved : Type 0 where
  pub id : Option String
  pub name : Option String
  pub current_id : Option String
  pub running : Bool
  pub found : Bool

abbrev pub has_id : Recorded → PsEntry → Bool
has_id r c = same_text c.id r.id

abbrev pub has_name : Recorded → PsEntry → Bool
has_name r c = same_text (some c.name) r.name

-- The entry with the recorded id, or else one with the recorded name.
unfoldable pub current : Recorded → List PsEntry → Option PsEntry
current r ps = elim (last_with (has_id r) ps) [ some c ↦ some c | none ↦ last_with (has_name r) ps ]

abbrev pub resolve : List PsEntry → Recorded → Resolved
resolve ps r = elim (current r ps) [
  | none ↦ record { id = r.id; name = r.name; current_id = none; running = false; found = false }
  | some c ↦ record {
    id = r.id;
    name = r.name;
    current_id = c.id;
    running = c.running;
    found = true;
  }
]

unfoldable pub resolve_recorded : List Recorded → List PsEntry → List Resolved
resolve_recorded recorded ps = map (λ r. resolve ps r) recorded

-- `-e node_upgrade_accept_down`: nothing, a text, or a list.
pub data Spec : Type 0 where
  missing : Spec
  text : String → Spec
  items : List String → Spec

abbrev clean : List String → List String
clean names = map strip (select (λ i. not (strip i == "")) names)

unfoldable pub accept_down_list : Spec → List String
unfolding strip split select
accept_down_list missing = []
accept_down_list (text spec) = clean (split b',' spec)
accept_down_list (items spec) = clean spec

-- A name from the list that is the id or a prefix of at least 12 characters of it.
unfoldable pub names_id : String → Option String → Bool
unfolding starts_with
names_id a none = false
names_id a (some cid) = not (cid == "") && (leb 12 (count a) && starts_with cid a)

unfoldable pub is_accepted_down : Resolved → List String → Bool
unfolding any
is_accepted_down entry accepted =
    any (λ a. same_text (some a) entry.name || (names_id a entry.id || names_id a entry.current_id))
      accepted

pub record Partition : Type 0 where
  pub required : List Resolved
  pub accepted : List Resolved

abbrev onto : Bool → Resolved → Partition → Partition
onto true e out = record out { accepted = e ∷ out.accepted }
onto false e out = record out { required = e ∷ out.required }

unfoldable pub partition_accepted : List Resolved → List String → Partition
partition_accepted [] accepted = record { required = []; accepted = [] }
partition_accepted (e ∷ entries) accepted =
    onto (is_accepted_down e accepted) e (partition_accepted entries accepted)
