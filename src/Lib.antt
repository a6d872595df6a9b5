-- ===== src/Lib.antt =====
-- The filter plugins of the ComputeStacks provisioner, the pure Python functions that decide what a
-- playbook may do to a host, and the upgrade of a node, the playbook that they steer. A task file
-- feeds a filter what a node printed and acts on its answer. Each plugin is a component of its own;
-- the playbooks connect them through facts.
--
-- Prelude: the names shared by all, and the parts of Python that the plugins call: `str` methods
--   (Prelude/Text, Prelude/Split) on the code points of a text, `dict` as a list of items in
--   insertion order (Prelude/Dict), `int` (Prelude/Int), parsed JSON (Prelude/Json), and `repr`
--   (Prelude/Repr), which takes every character above ASCII to be printable.
-- NodeStorage: roles/node_storage/filter_plugins/node_storage.py. Paths has `_kname`,
--   `_split_source`, `_beneath` and `_has_prjquota`; Device the tree of lsblk; Results the registered
--   results with `parse_blkid`, `_blkid`, `_blkid_error`, `_path_type`; Probe is
--   `node_storage_build_probe`. `node_storage_classify` is the chain `classify_check` of Verdict: each
--   `return _refuse(...)` is a check of Disk, Signature, Places or Contents, in the order of the
--   source, and a refused check ends the chain (Check). Spec says without that order what a verdict
--   rests on, Stages when each check passes, and Safety relates the two.
-- NodeUpgrade: roles/node_upgrade/filter_plugins/node_upgrade.py. Containers selects and reads
--   containers, Recorded resolves them and splits off those that may stay down, Pins compares
--   packages, Cli reads one JSON document of cs-agent, Hold and Agent judge it, Decide says whether
--   the tenants are stopped, Updates reads the simulated upgrade and the times.
--   Helper is roles/node_upgrade/files/node-upgrade-containers: `stop` and `start` with dockerd and
--   the clock as a parameter (Docker). Laws holds the proofs.
--   Cycle is the upgrade of a node by the task files of roles/node_upgrade/tasks: Machine has the
--   state file, the actions and the monad of tasks that may fail, Steps one function for each phase,
--   Runs cycle.yml, main.yml and archive.yml, and runs one after another. Every command of the node is
--   a parameter (Node) that may answer anything, fail, or be the last of a run that is cut off. The
--   commands that change the node are logged as actions, readings are not, save those that find the
--   hold in place. Between runs anything may happen to the node, and an operator may move the state file
--   aside (Attempt); a state file that is repaired by hand or written by anybody else is not modelled.
--   History is the specification, Triples the rules for steps; Phases, Holding, Skips and Conforms show
--   that the runs follow it, and Order, Guards, Keeping and
--   Refusals say what it comes to.
-- CsAgent: roles/cs_agent/filter_plugins. Export is cs_agent_export.py: one function per block of
--   `cs_agent_export_problems`, in its order, and `collect_ints` for the loop over the keys with the
--   `ints` it fills. Laws/Numbers has the loop, Laws/Rules the other
--   checks, Laws/Accepted the settings that pass.
--   Immutable is cs_agent_immutable.py, with `yaml.safe_load` and the SHA-256 of a value's JSON text as
--   parameters; documents in bytes are left out. Laws/Unchanged has what it reports.
-- NodeKernel: roles/node_kernel/filter_plugins/node_kernel.py. `uplink_ra` is `node_kernel_uplink_ra`,
--   in four pieces for its blocks of returns; `none` is the TypeError of a file that is no text.
--   Laws/Files has what a link's file must be, Laws/Plans the plan as a whole.
-- Preflight: roles/preflight/filter_plugins. Reachable is preflight.py, where `none` is the
--   AttributeError of host variables that are no mapping; Rollback is `preflight_rollback_pending` of
--   preflight_ssh.py, where `none` is the error of an elapse that is no integer. Sources is the check
--   of ssh sources there and Ipv6 is preflight_ipv6.py, both over `ipaddress` in Prelude/Ip,
--   Prelude/Networks and Prelude/Canonical. Laws holds the proofs.
-- Tailscale: roles/tailscale/filter_plugins/tailscale.py. Backend is `backend_state`, Flags the tables
--   of flags and `_ts_parse_args`, with `shlex` in Prelude/Shell; Settings, Routes and Modes are the
--   blocks of `_compare`, one function for each, and Compare composes them in the order of the source.
--   A block that pops a flag hands on what is left; `none` is an error that Python raises.
--   Laws/Spec says which node agrees with its flags, and Prelude/Quoting is about quoted words.
-- ControllerSeed: roles/controller_seed/filter_plugins/controller_seed_preview.py. Patterns has the three
--   expressions for ids, each split at the number that ends the line, Log the expression for log lines,
--   Preview the loop and the fingerprint, with SHA-256 as a parameter. Laws holds the proofs.
-- Tests: runs of the definitions, and each theorem at concrete data.
--
-- A registered result, a container or a document entry is a record whose missing and null keys are
-- `none`. `json.loads` is a parameter of the functions that call it, and `none` is its ValueError;
-- for lsblk and findmnt the parameter (Reader) also takes the list out of the document, and no entry
-- of findmnt's list is an empty object. All loops are
-- recursions on a list or on a text. The only fuel is in the digits of a number: n + 1 rounds
-- for the decimal digits of n (`show_ℕ`), and 4 for a group of an IPv6 address, which is below 16^4
-- (`hex_of`). The loop of `start` in the container helper has
-- one round more than the attempts of all containers together (`fuel_for`), since every round but the
-- last uses one up. Numbers in JSON documents are integers; `int()` and
-- `isdigit()` and `\d` are those of ASCII digits; modification times are whole microseconds.
--
-- Of the task files only those of the upgrade cycle are modelled. The words of its messages, modes
-- and owners of files, check mode and the pauses are left out; `until` with n retries makes n + 1 attempts, and
-- the retries of `docker ps`, of the inspection and of the services belong to the parameters. The state
-- has the fields that a later run reads, and every row of `docker ps` an id.
--
-- Not modelled: the other YAML tasks, templates and shell scripts, which run the filters on hosts;
-- tests/check_pins.py, which asks upstream servers; and tests/filter_plugins/maintain_static.py, the
-- checks that the tests make of the task files.
pub mod Prelude
pub mod NodeStorage
pub mod NodeUpgrade
pub mod CsAgent
pub mod NodeKernel
pub mod Preflight
pub mod Tailscale
pub mod ControllerSeed
pub mod Tests
