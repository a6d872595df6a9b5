-- ===== src/Tests/Upgrade.antt =====
-- node_upgrade: runs, and the theorems at concrete containers, documents and packages.
use ansible_install.Prelude.{
  ◌≡◌, ◌↔◌, refl, ◌⊎◌, inl, String, Bool, true, false, Option, none, some, List, [], ◌∷◌, ◌==◌, not,
  if◌then◌else◌,
}
use ansible_install.Prelude.Text.{strip, lstrip_by, cut}
use ansible_install.Prelude.Split.{mem, lines, words}
use ansible_install.Prelude.Lists.{All, In, select}
use ansible_install.Prelude.Dict.{Dict, get}
use ansible_install.Prelude.Int.{pos, all_digits, number_from}
use ansible_install.Prelude.Json.{
  Json, null, bool, str, obj, end, field, member, has_key, value_of, truthy, is_true,
}
use ansible_install.NodeUpgrade.Containers.{Container, name_of, select_running_tenants, PsEntry}
use ansible_install.NodeUpgrade.Recorded.{
  last_with, current, Resolved, text, accept_down_list, names_id, is_accepted_down,
  partition_accepted,
}
use ansible_install.NodeUpgrade.Pins.{split_pin, docker_drift, parse_dpkg_status}
use ansible_install.NodeUpgrade.Cli.{Shape, no_shape, cli_json, shape_of}
use ansible_install.NodeUpgrade.Hold.{status_outcome, classify_parsed, classify_on, on_retry}
use ansible_install.NodeUpgrade.Agent.{error_code, agent_of_parsed, agent_status}
use ansible_install.NodeUpgrade.Decide.{Inputs, distinct_reasons, drift_reason, maintain_decide}
use ansible_install.NodeUpgrade.Updates.{
  asks_for_reboot, installs, add_package, packages_from, parse_apt_sim, systemd_unix_ts,
}
use ansible_install.NodeUpgrade.Laws.Selection.{
  IsRunningTenant, recorded_of, select_running_tenants_iff, IsMet, docker_drift_iff,
}
use ansible_install.NodeUpgrade.Laws.Resolution.{
  Match, resolve-found, IsNamed, partition_accepted_lem,
}
use ansible_install.NodeUpgrade.Laws.Exits.{
  IsStatus, classify_on-ok, on_retry_iff, agent_status-ready, agent_status-waits,
}
use ansible_install.NodeUpgrade.Laws.Stopping.{NoRepeats, maintain_decide-stop}
use ansible_install.NodeUpgrade.Laws.Preview.{IsInstLine, parse_apt_sim-packages}

abbrev web : Container
web = record { id = some "aaa"; name = some "/web"; labels = []; running = some true }

abbrev cadvisor : Container
cadvisor = record {
  id = some "bbb";
  name = some "/cadvisor";
  labels = ("com.computestacks.role", "system") ∷ [];
  running = some true;
}

select_runs :
    select_running_tenants (cadvisor ∷ web ∷ [])
    ≡ record { id = some "aaa"; name = some "web" } ∷ []
unfolding select_running_tenants ◌==◌ lstrip_by
select_runs = refl

select_running_tenants_iff_example :
    (c : Container) × In c (cadvisor ∷ web ∷ [])
    × IsRunningTenant c
    × (recorded_of c ≡ recorded_of web)
unfolding select_running_tenants ◌==◌ lstrip_by
select_running_tenants_iff_example =
    (select_running_tenants_iff (recorded_of web) (cadvisor ∷ web ∷ [])).0 (inl refl)

abbrev installed : Dict String
installed = ("docker-ce", "5:29.0") ∷ ("containerd.io", "2.1") ∷ []

docker_drift_runs :
    docker_drift installed ("docker-ce=5:29.1" ∷ "containerd.io" ∷ "buildx" ∷ [])
    ≡ record { name = "docker-ce"; pin = some "5:29.1"; installed = some "5:29.0" }
      ∷ record { name = "buildx"; pin = none; installed = none }
      ∷ []
unfolding docker_drift split_pin get ◌==◌
docker_drift_runs = refl

docker_drift_iff_example : All (IsMet installed) ("docker-ce=5:29.0" ∷ "containerd.io" ∷ [])
unfolding docker_drift split_pin get ◌==◌
docker_drift_iff_example =
    (docker_drift_iff installed ("docker-ce=5:29.0" ∷ "containerd.io" ∷ [])).0 refl

parse_dpkg_runs :
    parse_dpkg_status ("docker-ce installed 5:29.0" ∷ "old config-files 1.0" ∷ [])
    ≡ ("docker-ce", "5:29.0") ∷ []
unfolding parse_dpkg_status ◌==◌
parse_dpkg_runs = refl

abbrev listed : List PsEntry
listed = record { id = some "ccc"; name = "web"; running = true } ∷ []

resolve-found_example : (c : PsEntry) × Match (recorded_of web) listed c
unfolding current last_with name_of lstrip_by ◌==◌
resolve-found_example = resolve-found (recorded_of web) listed refl

abbrev resolved_web : Resolved
resolved_web = record {
  id = some "0123456789abcdef";
  name = some "web";
  current_id = some "0123456789abcdef";
  running = false;
  found = true;
}

accept_runs : is_accepted_down resolved_web (accept_down_list (text "x, 0123456789ab")) ≡ true
unfolding is_accepted_down accept_down_list names_id ◌==◌ ansible_install.Prelude.Text.count
accept_runs = refl

partition_accepted_lem_example :
    (partition_accepted (resolved_web ∷ []) ("web" ∷ []) ≡ record {
      required = select (λ e. not (is_accepted_down e ("web" ∷ []))) (resolved_web ∷ []);
      accepted = select (λ e. is_accepted_down e ("web" ∷ [])) (resolved_web ∷ []);
    })
    × ((e : Resolved)
        → (is_accepted_down e ("web" ∷ []) ≡ true)
          ↔ ((a : String) × In a ("web" ∷ []) × IsNamed e a))
partition_accepted_lem_example = partition_accepted_lem (resolved_web ∷ []) ("web" ∷ [])

-- A `json.loads` for the two texts of this module.
abbrev loads : String → Option Json
loads line =
    if line == "held"
    then some (
        obj (
          field "paused" (bool true)
            (field "local" (str "me") (field "agent_active" (bool true) end))))
    else if line == "free"
    then some (obj (field "paused" (bool false) (field "local" null end)))
    else none

-- A reader of cs-agent's output with everything unfolded.
read : String → Bool
unfolding cli_json shape_of member has_key value_of truthy ◌==◌ status_outcome classify_parsed
    classify_on on_retry agent_of_parsed agent_status error_code strip
read stdout = (agent_status loads (some stdout) none).done

classify_on-ok_example :
    IsStatus loads (some "held") (some (pos 0)) true × (some (pos 0) ≡ some (pos 0))
unfolding read
classify_on-ok_example = (classify_on-ok loads (some "held") (some (pos 0))).0 refl

on_retry_iff_example :
    IsStatus loads (some "free") (some (pos 4)) false × (some (pos 4) ≡ some (pos 4))
unfolding read
on_retry_iff_example = (on_retry_iff loads (some "free") (some (pos 4))).0 refl

agent_status-ready_example :
    IsStatus loads (some "held") none true
    × (is_true (value_of (cli_json loads (some "held")).doc "agent_active") ≡ true)
unfolding read
agent_status-ready_example = (agent_status-ready loads (some "held") none).0 refl

agent_status-waits_example :
    ((cli_json loads (some "junk")).shape ≡ no_shape)
    ⊎ ((cli_json loads (some "junk")).shape ≡ Shape.error)
      × (error_code (cli_json loads (some "junk")).doc none ≡ some (pos 3))
    ⊎ IsStatus loads (some "junk") none true
      × (is_true (value_of (cli_json loads (some "junk")).doc "agent_active") ≡ false)
unfolding read
agent_status-waits_example = (agent_status-waits loads (some "junk") none).0 refl

abbrev inputs : Inputs
inputs = record {
  docker_drift = [];
  docker_restart_reasons = " certificate " ∷ "certificate" ∷ "" ∷ [];
  reboot_pending = false;
  force = false;
}

decide_runs : (maintain_decide inputs).reasons ≡ "docker must restart: certificate" ∷ []
unfolding maintain_decide distinct_reasons drift_reason mem strip ◌==◌
decide_runs = refl

maintain_decide-stop_example :
    (maintain_decide (record inputs { docker_restart_reasons = " " ∷ [] })).stop ≡ false
unfolding strip ◌==◌
maintain_decide-stop_example =
    (maintain_decide-stop (record inputs { docker_restart_reasons = " " ∷ [] })).1
      (refl, (refl, tt), refl, refl)

abbrev simulated : String
simulated =
    "Inst libc6 [2.41] (2.42)\nInst curl (8.1)\nConf libc6\nInst libc6:i386 (2.42)\nInst curl (8.1)\n"

apt_runs : parse_apt_sim (some simulated) ≡ record {
  count = 3;
  packages = "libc6" ∷ "curl" ∷ "libc6:i386" ∷ [];
  reboot_packages = "libc6" ∷ "libc6:i386" ∷ [];
  reboot_hint = true;
}
unfolding parse_apt_sim packages_from add_package installs lines words mem select asks_for_reboot
    ◌==◌
apt_runs = refl

parse_apt_sim-packages_example :
    ((name : String)
      → (mem name (parse_apt_sim (some simulated)).packages ≡ true)
        ↔ ((line : String) × In line (lines simulated) × IsInstLine name line))
    × NoRepeats (parse_apt_sim (some simulated)).packages
parse_apt_sim-packages_example = parse_apt_sim-packages simulated

stamp_runs : systemd_unix_ts (some "ActiveEnterTimestamp=@1791400000\n") ≡ 1791400000
unfolding systemd_unix_ts lines cut strip all_digits number_from
stamp_runs = refl
