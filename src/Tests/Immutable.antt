-- ===== src/Tests/Immutable.antt =====
-- The immutable keys on two renders of agent.yml.
use ansible_install.Prelude.{
  ◌≡◌, refl, ◌↔◌, String, Option, none, some, List, [], ◌∷◌, ◌==◌, if◌then◌else◌,
}
use ansible_install.Prelude.Text.{strip}
use ansible_install.Prelude.Lists.{All, is_empty}
use ansible_install.Prelude.Split.{split}
use ansible_install.Prelude.Int.{pos, show_ℕ, show_ℤ}
use ansible_install.Prelude.Json.{Json, num, str, obj, Fields, end, field, member}
use ansible_install.Prelude.Repr.{repr, str_of}
use ansible_install.CsAgent.Immutable.{
  immutable_keys, mapping_of, load, value_at, canonical, removed, Change, digest, change_of,
  change_at, changes_at, immutable_changes,
}
use ansible_install.CsAgent.Laws.Unchanged.{digest_of, immutable_changes-nil}

abbrev no_yaml : String → Option Json
no_yaml s = none

abbrev with_port : Json → Fields
with_port port =
    field "backups"
      (obj (
        field "key" (str "k")
          (field "borg" (obj (field "ssh" (obj (field "port" port end)) end)) end)))
      end

abbrev keyless : Fields
keyless = field "backups" (obj end) end

-- The tests tell values apart by their repr.
unfoldable changes : Json → Json → Option (List Change)
unfolding immutable_changes changes_at change_at change_of digest canonical value_at load mapping_of
    split strip member repr str_of show_ℤ show_ℕ ◌==◌
changes current rendered = immutable_changes repr no_yaml current rendered []

port_runs : changes (obj (with_port (num (pos 22)))) (obj (with_port (str "22"))) ≡ some []
unfolding changes
port_runs = refl

removed_runs :
    changes (obj (with_port (num (pos 22)))) (obj keyless)
    ≡ some (
        record { key = "backups.key"; change = removed }
        ∷ record { key = "backups.borg.ssh.port"; change = removed }
        ∷ [])
unfolding changes
removed_runs = refl

unreadable_runs : changes (str "{") (obj keyless) ≡ none
unfolding changes
unreadable_runs = refl

immutable_changes-nil_example :
    (immutable_changes repr no_yaml (obj (with_port (num (pos 22)))) (obj (with_port (str "22"))) []
      ≡ some [])
    ↔ All
        (λ key.
          digest_of repr (with_port (num (pos 22))) key ≡ digest_of repr (with_port (str "22")) key)
        (if is_empty {A = String} [] then immutable_keys else [])
unfolding load
immutable_changes-nil_example =
    immutable_changes-nil repr no_yaml (obj (with_port (num (pos 22)))) (obj (with_port (str "22")))
      (with_port (num (pos 22))) (with_port (str "22")) [] refl refl
