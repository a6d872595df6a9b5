-- ===== src/NodeUpgrade/Cycle/Machine.antt =====
-- roles/node_upgrade/tasks: the node, the upgrade state and its file, and what a failed task does.
use ansible_install.Prelude.{
  ℕ, zero, suc, String, Bool, true, false, Option, none, some, List, [], ◌∷◌, ◌++◌, eqb,
  if◌then◌else◌,
}
use ansible_install.Prelude.Lists.{any}
use ansible_install.Prelude.Int.{ℤ}
use ansible_install.Prelude.Dict.{Dict}
use ansible_install.NodeUpgrade.Containers.{Recorded}
use ansible_install.NodeUpgrade.Helper.{StartRequest, StopRequest}

pub data Phase : Type 0 where
  held recorded stopped packages rebooted started released : Phase

abbrev pub rank : Phase → ℕ
rank held = 0
rank recorded = 1
rank stopped = 2
rank packages = 3
rank rebooted = 4
rank started = 5
rank released = 6

-- What state.json holds that a later run reads.
pub record Saved : Type 0 where
  pub playbook : Option String
  pub phases_done : List Phase
  pub recorded : List Recorded
  pub accept_down : List String
  pub releasing : Bool

-- `{}`
abbrev pub blank : Saved
blank = record {
  playbook = none;
  phases_done = [];
  recorded = [];
  accept_down = [];
  releasing = false;
}

unfoldable pub is_done : Phase → Saved → Bool
unfolding any
is_done p s = any (λ q. eqb (rank p) (rank q)) s.phases_done

-- `(phases_done + [phase]) | unique`
unfoldable pub mark : Phase → Saved → Saved
unfolding is_done
mark p s = record s { phases_done = if is_done p s then s.phases_done else s.phases_done ++ p ∷ [] }

-- An exit status and stdout; `none` where there is none.
pub record Answer : Type 0 where
  pub rc : Option ℤ
  pub stdout : Option String

-- A file that was replaced, was not, or was while the answer got lost.
pub data Written : Type 0 where
  written refused lost : Written

-- What a run does to the node, `checked` being a reading of the hold that found it in place, and
-- `set_aside` the move of the state file by an operator between two runs. Other readings are not
-- among the actions.
pub data Action : Type 0 where
  begun checked on reboot off archived install : Action
  downloaded helper_put request_put services_up cleaned set_aside : Action
  stop : StopRequest → Action
  start : StartRequest → Action
  saved : Saved → Action

-- The node, with the actions and readings of the tasks. A task may fail, and the run may be cut off
-- at any of them: `false`, `none`, `refused` and `lost`.
pub record Node (W : Type 0) : Type 0 where
  pub download : W → Bool × W
  pub status : W → Answer × W
  pub info : W → Bool × W
  pub on : W → Answer × W
  pub inspect : W → Option String × W
  pub helper : W → Bool × W
  pub ps : W → Option (List String) × W
  pub request : W → Bool × W
  pub stop : StopRequest → W → Bool × W
  pub install : W → Bool × W
  pub installed : W → Dict String × W
  pub reboot_required : W → Option Bool × W
  pub reboot : W → Bool × W
  pub services : W → Bool × W
  pub start : StartRequest → W → Bool × W
  pub off : W → Answer × W
  pub write : Saved → W → Written × W
  pub move : W → Written × W
  pub clean : W → Bool × W

pub record Machine (W : Type 0) : Type 0 where
  pub world : W
  pub file : Option Saved
  -- the newest first
  pub log : List Action

-- `none` is a task that failed: the run ends.
abbrev pub M : Type 0 → Type 0 → Type 0
M W A = Machine W → Option A × Machine W

unfoldable pub after : {W A B : Type 0} → Option A × Machine W → (A → M W B) → Option B × Machine W
after (none, x) f = (none, x)
after (some a, x) f = f a x

infixl 5 ◌>>=◌ ◌>>◌
unfoldable pub ◌>>=◌ : {W A B : Type 0} → M W A → (A → M W B) → M W B
unfolding after
◌>>=◌ m f x = after (m x) f

abbrev pub ◌>>◌ : {W B : Type 0} → M W (Unit {0}) → M W B → M W B
◌>>◌ m k = m >>= λ _. k

abbrev pub pure : {W A : Type 0} → A → M W A
pure a x = (some a, x)

-- An assertion.
unfoldable pub require : {W : Type 0} → Bool → M W (Unit {0})
require true x = (some tt, x)
require false x = (none, x)

-- A task that reads or prepares, and its result.
unfoldable pub ask : {W A : Type 0} → (W → A × W) → M W A
ask op x = let (a, w) = op x.world in (some a, record x { world = w })

unfoldable pub need : {W A : Type 0} → Option A → M W A
need none x = (none, x)
need (some a) x = (some a, x)

unfoldable pub perform : {W : Type 0} → (W → Bool × W) → M W (Unit {0})
perform op = ask op >>= λ b. require b

unfoldable pub note : {W : Type 0} → Action → M W (Unit {0})
note a x = (some tt, record x { log = a ∷ x.log })

-- A task that acts.
unfoldable pub act : {W : Type 0} → Action → (W → Bool × W) → M W (Unit {0})
unfolding note perform ask
act a op = note a >> perform op

-- `until` with so many retries.
unfoldable pub until : {W A : Type 0} → ℕ → (A → Bool) → M W A → M W A
until zero test m = m
until (suc n) test m = let again = until n test m in m >>= λ a. if test a then pure a else again

abbrev pub put_file : {W : Type 0} → Saved → Written × W → M W (Unit {0})
put_file s (written, w) x = (some tt, record x { world = w; file = some s; log = saved s ∷ x.log })
put_file s (lost, w) x = (none, record x { world = w; file = some s; log = saved s ∷ x.log })
put_file s (refused, w) x = (none, record x { world = w })

-- state_save.yml
unfoldable pub save : {W : Type 0} → Node W → Saved → M W (Unit {0})
save d s x = put_file s (d.write s x.world) x

-- state_phase.yml, on the state with its update
unfoldable pub state_phase : {W : Type 0} → Node W → Phase → Saved → M W Saved
unfolding mark save
state_phase d p s = save d (mark p s) >> pure (mark p s)

-- A step that only runs while its test fails.
abbrev pub unless : {W : Type 0} → Bool → M W Saved → Saved → M W Saved
unless true m s = pure s
unless false m s = m
