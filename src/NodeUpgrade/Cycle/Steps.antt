-- ===== src/NodeUpgrade/Cycle/Steps.antt =====
-- roles/node_upgrade/tasks: the phases of the upgrade, one function for each task file.
use ansible_install.Prelude.{
  ℕ, String, Bool, true, false, not, ◌&&◌, ◌||◌, Option, none, some, List, [], ◌∷◌, ◌++◌, ◌==◌,
}
use ansible_install.Prelude.Lists.{is_empty, select}
use ansible_install.Prelude.Json.{Json, value_of, truthy, is_present}
use ansible_install.NodeUpgrade.Containers.{
  PsRow, PsEntry, Document, parse_ps, parse_inspect, select_running_tenants,
}
use ansible_install.NodeUpgrade.Recorded.{
  Resolved, resolve_recorded, Spec, accept_down_list, partition_accepted,
}
use ansible_install.NodeUpgrade.Pins.{docker_drift}
use ansible_install.NodeUpgrade.Cli.{Shape, Parsed, cli_json}
use ansible_install.NodeUpgrade.Hold.{classify_on, on_retry, is_rc}
use ansible_install.NodeUpgrade.Helper.{StartRequest, StopRequest, keys}
use ansible_install.NodeUpgrade.Cycle.Machine.{
  held, recorded, stopped, packages, rebooted, started, released, Saved, blank, is_done, Answer,
  Action, checked, on, reboot, off, install, Node, M, ◌>>=◌, ◌>>◌, pure, require, ask, need,
  perform, act, helper_put, request_put, services_up, note, until, save, state_phase,
}

pub record Settings : Type 0 where
  -- `json.loads`, of a document, of an inspect output and of a row of `docker ps`
  pub loads : String → Option Json
  pub load_inspect : String → Option Document
  pub load_row : String → Option PsRow
  pub pins : List String
  pub force : Bool
  pub accept_down : Spec
  pub not_placed_retries : ℕ
  pub release_retries : ℕ
  pub parallel : ℕ
  pub stop_timeout : ℕ
  pub start_wait : ℕ
  pub start_interval : ℕ
  pub start_retries : ℕ

abbrev pub this_playbook : String
this_playbook = "upgrade-docker"

abbrev pub is_status : Shape → Bool
is_status Shape.status = true
is_status _ = false

abbrev pub is_held : Parsed → Bool
is_held p = is_present (value_of p.doc "local")

-- Whether two lists of names are the same.
abbrev pub same_names : List String → List String → Bool
same_names [] [] = true
same_names (a ∷ as') (b ∷ bs) = a == b && same_names as' bs
same_names _ _ = false

-- Every row of `docker ps` has an id.
abbrev pub ids_of : List Resolved → List String
ids_of [] = []
ids_of (r ∷ rs) = elim r.current_id [ none ↦ ids_of rs | some i ↦ i ∷ ids_of rs ]

module _ {W : Type 0} (c : Settings) (d : Node W) where
  -- hold_check.yml
  unfoldable pub hold_check : M W (Unit {0})
  unfolding ask note until
  hold_check = do
    answer ← until 5 (λ a. is_status (cli_json c.loads a.stdout).shape) (ask d.status)
    require (is_status (cli_json c.loads answer.stdout).shape)
    require (is_held (cli_json c.loads answer.stdout))
    note checked

  -- `cs-agent maintenance on --wait`
  unfoldable pub ask_on : M W Answer
  unfolding ask note
  ask_on = note on >> ask d.on

  unfoldable pub hold_fresh : Parsed → M W Saved
  unfolding ask note until ask_on state_phase
  hold_fresh doc = do
    require (not (is_held doc))
    require (not (is_present (value_of doc.doc "controller")))
    perform d.info
    answer ← until c.not_placed_retries (λ a. not (on_retry c.loads a.stdout a.rc)) ask_on
    require (classify_on c.loads answer.stdout answer.rc).ok
    state_phase d held (record blank { playbook = some this_playbook })

  unfoldable pub hold_resumed : Saved → Parsed → M W Saved
  hold_resumed s doc = do require (is_held doc || (is_done released s || s.releasing)); pure s

  abbrev pub hold_of : Option Saved → Parsed → M W Saved
  hold_of none doc = hold_fresh doc
  hold_of (some s) doc = hold_resumed s doc

  -- hold.yml; `none` is a fresh run.
  unfoldable pub hold : Option Saved → M W Saved
  unfolding ask hold_fresh hold_resumed
  hold resume = do
    answer ← ask d.status
    require (is_rc answer.rc 0 && is_status (cli_json c.loads answer.stdout).shape)
    hold_of resume (cli_json c.loads answer.stdout)

  -- list.yml
  unfoldable pub list : M W (List PsEntry)
  unfolding ask
  list = do lines ← ask d.ps; rows ← need lines; need (parse_ps c.load_row rows)

  -- record.yml
  unfoldable pub record_running : Saved → M W Saved
  unfolding ask state_phase
  record_running s = do
    stdout ← ask d.inspect
    text ← need stdout
    containers ← need (parse_inspect c.load_inspect (some text))
    state_phase d recorded (record s { recorded = select_running_tenants containers })

  -- The recorded containers that run.
  unfoldable pub running_of : Saved → List PsEntry → List Resolved
  unfolding select
  running_of s ps = select (λ r. r.running) (resolve_recorded s.recorded ps)

  unfoldable pub stop_ids : StopRequest → Bool → M W (Unit {0})
  unfolding ask note
  stop_ids request true = pure tt
  stop_ids request false = do act request_put d.request; act (Action.stop request) (d.stop request)

  -- stop.yml
  unfoldable pub stop : Saved → M W Saved
  unfolding ask hold_check list running_of stop_ids state_phase
  stop s = do
    hold_check
    act helper_put d.helper
    ps ← list
    stop_ids
        (record {
          ids = some (ids_of (running_of s ps));
          parallel = some c.parallel;
          timeout = some c.stop_timeout;
        })
        (is_empty (running_of s ps))
    later ← list
    require (is_empty (running_of s later))
    state_phase d stopped s

  -- packages.yml
  unfoldable pub upgrade_packages : Saved → M W Saved
  unfolding ask note hold_check state_phase
  upgrade_packages s = do
    hold_check
    act install d.install
    have ← ask d.installed
    require (is_empty (docker_drift have c.pins))
    state_phase d packages s

  abbrev pub reboot_if : Bool → M W (Unit {0})
  reboot_if false = pure tt
  reboot_if true = do hold_check; act reboot d.reboot

  -- reboot.yml
  unfoldable pub reboot_node : Saved → M W Saved
  unfolding ask note hold_check state_phase
  reboot_node s = do
    answer ← ask d.reboot_required
    required ← need answer
    reboot_if required
    state_phase d rebooted s

  -- services.yml
  unfoldable pub services : M W (Unit {0})
  unfolding ask hold_check
  services = do act services_up d.services; hold_check

  abbrev pub save_if : Bool → Saved → M W (Unit {0})
  unfolding save
  save_if true s = pure tt
  save_if false s = save d s

  -- The names of this run and of earlier ones.
  unfoldable pub accepted_names : Saved → List String
  unfolding keys accept_down_list
  accepted_names s = keys (s.accept_down ++ accept_down_list c.accept_down)

  unfoldable pub start_request : Saved → List PsEntry → StartRequest
  unfolding select
  start_request s ps =
      let split = partition_accepted (resolve_recorded s.recorded ps) s.accept_down in
      record {
        required = some (ids_of (select (λ r. r.found) split.required));
        optional = some (ids_of (select (λ r. r.found) split.accepted));
        parallel = some c.parallel;
        wait = some c.start_wait;
        interval = some c.start_interval;
        retries = some c.start_retries;
      }

  unfoldable pub down_of : Saved → List PsEntry → List Resolved
  unfolding select
  down_of s ps =
      select (λ r. not r.running)
        (partition_accepted (resolve_recorded s.recorded ps) s.accept_down).required

  -- start.yml
  unfoldable pub start : Saved → M W Saved
  unfolding ask note list save accepted_names start_request down_of state_phase
  start s = do
    act helper_put d.helper
    ps ← list
    let s' = record s { accept_down = accepted_names s }
    save_if (same_names (accepted_names s) s.accept_down) s'
    act request_put d.request
    act (Action.start (start_request s' ps)) (d.start (start_request s' ps))
    later ← list
    require (is_empty (down_of s' later))
    state_phase d started s'

  abbrev pub is_confirmed : Parsed → Bool
  is_confirmed p =
      is_status p.shape
      && (truthy (value_of p.doc "controller_acked") && not (truthy (value_of p.doc "paused")))

  -- release.yml
  unfoldable pub release : Saved → M W Saved
  unfolding ask note until save state_phase
  release s = do
    let s' = record s { releasing = true }
    save d s'
    note off
    answer ← ask d.off
    require (is_rc answer.rc 0 && is_status (cli_json c.loads answer.stdout).shape)
    reply ← until c.release_retries (λ a. is_confirmed (cli_json c.loads a.stdout)) (ask d.status)
    require (is_confirmed (cli_json c.loads reply.stdout))
    state_phase d released s'
