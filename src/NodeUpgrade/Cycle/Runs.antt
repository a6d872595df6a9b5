-- ===== src/NodeUpgrade/Cycle/Runs.antt =====
-- roles/node_upgrade/tasks/main.yml, cycle.yml, state_load.yml and archive.yml: a run of the playbook
-- on a node, and runs one after another.
use ansible_install.Prelude.{Bool, true, false, not, ◌||◌, Option, none, some, List, [], ◌∷◌, ◌==◌}
use ansible_install.Prelude.Lists.{is_empty}
use ansible_install.NodeUpgrade.Pins.{docker_drift}
use ansible_install.NodeUpgrade.Agent.{state_owner}
use ansible_install.NodeUpgrade.Helper.{or_default}
use ansible_install.NodeUpgrade.Cycle.Machine.{
  recorded, stopped, packages, rebooted, started, released, Saved, blank, is_done, Written, written,
  refused, lost, begun, archived, Node, Machine, M, ◌>>=◌, ◌>>◌, pure, require, ask, need, act,
  downloaded, cleaned, set_aside, note, unless,
}
use ansible_install.NodeUpgrade.Cycle.Steps.{
  Settings, this_playbook, hold, record_running, stop, upgrade_packages, reboot_node, services,
  start, release,
}

abbrev pub perform_unless : {W : Type 0} → Bool → M W (Unit {0}) → M W (Unit {0})
perform_unless true m = pure tt
perform_unless false m = m

abbrev pub move_file : {W : Type 0} → Written × W → M W (Unit {0})
move_file (written, w) x = (some tt, record x { world = w; file = none; log = archived ∷ x.log })
move_file (lost, w) x = (none, record x { world = w; file = none; log = archived ∷ x.log })
move_file (refused, w) x = (none, record x { world = w })

-- The `mv` of archive.yml.
unfoldable pub move : {W : Type 0} → Node W → M W (Unit {0})
move d x = move_file (d.move x.world) x

-- archive.yml
unfoldable pub archive : {W : Type 0} → Node W → M W (Unit {0})
unfolding move act
archive d = move d >> act cleaned d.clean

module _ {W : Type 0} (c : Settings) (d : Node W) where
  -- cycle.yml, where `none` is a fresh run.
  unfoldable pub cycle : Option Saved → M W (Unit {0})
  unfolding ask
  cycle resume = do
    perform_unless (is_done packages (or_default resume blank)) (act downloaded d.download)
    s0 ← hold c d resume
    s1 ← unless (is_done recorded s0) (record_running c d s0) s0
    s2 ← unless (is_done stopped s1 || (is_done packages s1 || is_done started s1)) (stop c d s1) s1
    s3 ← unless (is_done packages s2) (upgrade_packages c d s2) s2
    s4 ← unless (is_done rebooted s3) (reboot_node c d s3) s3
    perform_unless (is_done started s4) (services c d)
    s5 ← unless (is_done started s4) (start c d s4) s4
    s6 ← unless (is_done released s5) (release c d s5) s5
    archive d

  -- The gate of state_load.yml.
  abbrev pub is_own : Option Saved → Bool
  is_own none = true
  is_own (some s) = state_owner (some s.playbook) == this_playbook

  abbrev pub is_resumed : Option Saved → Bool
  is_resumed none = false
  is_resumed (some s) = true

  -- main.yml, on the file that state_load.yml found.
  unfoldable pub main : Option Saved → M W (Unit {0})
  unfolding ask cycle state_owner
  main file = do
    require (is_own file)
    have ← ask d.installed
    answer ← ask d.reboot_required
    pending ← need answer
    perform_unless
        (not
          (not (is_empty (docker_drift have c.pins)) || (pending || (is_resumed file || c.force))))
        (cycle file)

  unfoldable pub run : M W (Unit {0})
  unfolding main note
  run x = (note begun >> main x.file) x

-- A run, with its settings and with what happens before it: to the node, and whether an operator
-- moves the state file aside. Nobody else writes that file.
pub record Attempt (W : Type 0) : Type 0 where
  pub settings : Settings
  pub meanwhile : W → W
  pub aside : Bool

abbrev pub put_aside : {W : Type 0} → Bool → Machine W → Machine W
put_aside false x = x
put_aside true x = record x { file = none; log = set_aside ∷ x.log }

-- The state in which a run finds the node.
abbrev pub prepared : {W : Type 0} → Attempt W → Machine W → Machine W
prepared a x = put_aside a.aside (record x { world = a.meanwhile x.world })

unfoldable pub runs : {W : Type 0} → Node W → List (Attempt W) → Machine W → Machine W
unfolding run
runs d [] x = x
runs d (a ∷ later) x = runs d later (run a.settings d (prepared a x)).1
