-- ===== src/Tests/Cycle.antt =====
-- roles/node_upgrade/tasks: runs of the upgrade on a small node.
use ansible_install.Prelude.{
  ℕ, ◌≤◌, ◌≡◌, inl, refl, String, Bool, true, false, not, map, eqb, Option, none, some, List, [],
  ◌∷◌, ◌==◌, if◌then◌else◌,
}
use ansible_install.Prelude.Lists.{All, select}
use ansible_install.Prelude.Split.{lines, split}
use ansible_install.Prelude.Text.{strip}
use ansible_install.Prelude.Int.{pos}
use ansible_install.NodeUpgrade.Pins.{docker_drift}
use ansible_install.NodeUpgrade.Cli.{cli_json, shape_of}
use ansible_install.NodeUpgrade.Agent.{state_owner}
use ansible_install.NodeUpgrade.Hold.{classify_on, on_retry, classify_parsed, status_outcome}
use ansible_install.Prelude.Json.{
  member, has_key, value_of, truthy, Json, obj, null, bool, str, end, field,
}
use ansible_install.NodeUpgrade.Containers.{array, parse_ps, parse_inspect, select_running_tenants}
use ansible_install.NodeUpgrade.Recorded.{
  missing, resolve_recorded, partition_accepted, current, last_with, is_accepted_down,
}
use ansible_install.NodeUpgrade.Helper.{keys}
use ansible_install.NodeUpgrade.Cycle.Machine.{
  act, is_done, held, recorded, stopped, Saved, Answer, written, Node, Machine, ◌>>=◌, until,
  require, need, perform,
}
use ansible_install.NodeUpgrade.Cycle.Steps.{
  Settings, hold, record_running, stop, upgrade_packages, reboot_node, services, start, release,
}
use ansible_install.NodeUpgrade.Cycle.Runs.{Attempt, run, runs, archive}
use ansible_install.NodeUpgrade.Cycle.History.{Legal, plain, nothing, first}
use ansible_install.NodeUpgrade.Cycle.Conforms.{runs-Legal}
use ansible_install.NodeUpgrade.Cycle.Order.{IsOrdered, runs-IsOrdered, stage, since_archived}
use ansible_install.NodeUpgrade.Cycle.Guards.{IsGuarded, runs-IsGuarded}
use ansible_install.NodeUpgrade.Cycle.Refusals.{IsRefused, Foreign, Idle, run-IsRefused}
use ansible_install.NodeUpgrade.Cycle.Keeping.{Agrees, runs-Agrees}

-- A node with one container: whether it is held, whether the container runs, and whether packages
-- can be installed.
record Small : Type 0 where
  held : Bool
  up : Bool
  apt : Bool

status_doc : Bool → Json
status_doc b = obj (
    field "paused" (bool b) (
      field "local" (if b then str "upgrade" else null) (field "controller_acked" (bool true) end)))

read_doc : String → Option Json
unfolding status_doc
read_doc s =
    if s == "held"
    then some (status_doc true)
    else if s == "free"
    then some (status_doc false)
    else none

abbrev said : Bool → Answer
said b = record { rc = some (pos 0); stdout = some (if b then "held" else "free") }

abbrev small : Node Small
small = record {
  download = λ w. (true, w);
  status = λ w. (said w.held, w);
  info = λ w. (true, w);
  on = λ w. (said true, record w { held = true });
  inspect = λ w. (some (if w.up then "up" else "down"), w);
  helper = λ w. (true, w);
  ps = λ w. (some ((if w.up then "up" else "down") ∷ []), w);
  request = λ w. (true, w);
  stop = λ r w. (true, record w { up = false });
  install = λ w. (w.apt, w);
  installed = λ w. ([], w);
  reboot_required = λ w. (some true, w);
  reboot = λ w. (true, record w { up = false });
  services = λ w. (true, w);
  start = λ r w. (true, record w { up = true });
  off = λ w. (said false, record w { held = false });
  write = λ s w. (written, w);
  move = λ w. (written, w);
  clean = λ w. (true, w);
}

abbrev settings : Settings
settings = record {
  loads = read_doc;
  load_inspect = λ s. some (
      array (
        record { id = some "aaa"; name = some "/web"; labels = []; running = some (s == "up") }
        ∷ []));
  load_row = λ s. some (record {
    id = some "aaa";
    names = some "web";
    state = some (if s == "up" then "running" else "exited");
  });
  pins = [];
  force = false;
  accept_down = missing;
  not_placed_retries = 2;
  release_retries = 1;
  parallel = 8;
  stop_timeout = 30;
  start_wait = 600;
  start_interval = 15;
  start_retries = 5;
}

abbrev attempts : List (Attempt Small)
attempts =
    record { settings = settings; meanwhile = λ w. w; aside = false }
    ∷ record { settings = settings; meanwhile = λ w. record w { apt = true }; aside = false }
    ∷ []

abbrev fresh : Machine Small
fresh = record { world = record { held = false; up = true; apt = false }; file = none; log = [] }

-- The runs with all that they compute unfolded.
after_runs : List (Attempt Small) → Machine Small
unfolding runs act ◌>>=◌ until read_doc is_done require need docker_drift cli_json shape_of member
    has_key value_of truthy strip lines ◌==◌ classify_on on_retry classify_parsed status_outcome
    parse_ps parse_inspect select_running_tenants resolve_recorded partition_accepted current
    last_with is_accepted_down split keys perform state_owner hold record_running stop
    upgrade_packages reboot_node services start release archive
after_runs l = runs small l fresh

-- The first run fails at the packages; the second one resumes it, and archives the state.
stages_run :
    select (λ n. not (eqb n 0)) (map stage (runs small attempts fresh).log)
    ≡ 6 ∷ 5 ∷ 4 ∷ 3 ∷ 3 ∷ 2 ∷ []
unfolding after_runs select
stages_run = refl

archived_run : (runs small attempts fresh).file ≡ none
unfolding after_runs
archived_run = refl

-- The first run alone.
abbrev first_attempt : List (Attempt Small)
first_attempt = record { settings = settings; meanwhile = λ w. w; aside = false } ∷ []

abbrev stopped_file : Saved
stopped_file = record {
  playbook = some "upgrade-docker";
  phases_done = held ∷ recorded ∷ stopped ∷ [];
  recorded = record { id = some "aaa"; name = some "web" } ∷ [];
  accept_down = [];
  releasing = false;
}

first_run : (runs small first_attempt fresh).file ≡ some stopped_file
unfolding after_runs
first_run = refl

runs-Legal_example : Legal (runs small attempts fresh)
runs-Legal_example = runs-Legal small attempts fresh (plain, nothing)

-- A run on a node whose packages can be installed.
abbrev ready_node : Machine Small
ready_node = record {
  world = record { held = false; up = true; apt = true };
  file = none;
  log = [];
}

-- A node that an operator holds.
abbrev held_node : Machine Small
held_node = record { world = record { held = true; up = true; apt = true }; file = none; log = [] }

-- What the status of the node tells while it is held.
told_held : (w : Small) → w.held ≡ true → IsRefused none (cli_json read_doc (said w.held).stdout)
unfolding after_runs
told_held w e = inl (rw e refl)

held_by_operator : Foreign settings small none
held_by_operator = record {
  Holds = λ w. w.held ≡ true;
  told = told_held;
  installed_keeps = λ w h. h;
  reboot_required_keeps = λ w h. h;
  download_keeps = λ w h. h;
}

run-IsRefused_example : Idle settings small held_by_operator [] (run settings small held_node).1
unfolding held_by_operator
run-IsRefused_example = run-IsRefused settings small held_by_operator held_node refl refl

runs-IsOrdered_example : IsOrdered (runs small attempts fresh).log
runs-IsOrdered_example =
    runs-IsOrdered small attempts (record { held = false; up = true; apt = false })

runs-IsGuarded_example : IsGuarded (runs small attempts fresh).log
runs-IsGuarded_example =
    runs-IsGuarded small attempts (record { held = false; up = true; apt = false })

runs-Agrees_example :
    ((n : ℕ) × (1 ≤ n) × (n ≤ 7) × (stopped_file.phases_done ≡ first n))
    × All (Agrees stopped_file) (since_archived (runs small first_attempt fresh).log)
runs-Agrees_example =
    runs-Agrees small first_attempt (record { held = false; up = true; apt = false }) first_run
