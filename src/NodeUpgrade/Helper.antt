-- ===== src/NodeUpgrade/Helper.antt =====
-- roles/node_upgrade/files/node-upgrade-containers: the batches that stop and start containers.
-- The request is the role's, so its numbers are naturals; times are whole seconds.
use ansible_install.Prelude.{
  ℕ, zero, suc, ◌+◌, ◌-◌, ◌*◌, String, Bool, not, ◌&&◌, ◌||◌, Option, none, some, List, [], ◌∷◌,
  ◌++◌, map, ◌==◌, ltb, leb, if◌then◌else◌,
}
use ansible_install.Prelude.Split.{mem}
use ansible_install.Prelude.Lists.{length, is_empty, select}
use ansible_install.Prelude.Int.{ℤ, is_nat}

-- The exit status of one `docker` command and what it printed to stderr.
pub record Reply : Type 0 where
  pub rc : ℤ
  pub error : String

-- The node: its dockerd and its clock. `W` is its state, which every command may change.
pub record Docker (W : Type 0) : Type 0 where
  -- `docker ps -q --no-trunc`, `none` where it fails
  pub ps : W → Option (List String) × W
  -- `docker start` and `docker stop -t` of the ids, so many at a time
  pub start : ℕ → List String → W → (String → Reply) × W
  pub stop : ℕ → ℕ → List String → W → (String → Reply) × W
  -- `time.monotonic()` and `time.sleep`
  pub now : W → ℕ
  pub sleep : ℕ → W → W

abbrev pub or_default {ℓ} : {A : Type ℓ} → Option A → A → A
or_default none default = default
or_default (some a) default = a

-- The keys of `dict(zip(ids, ...))`: each id once, where it first stands.
unfoldable pub keys : List String → List String
unfolding select
keys [] = []
keys (i ∷ ids) = i ∷ select (λ j. not (j == i)) (keys ids)

abbrev pub at_least_one : ℕ → ℕ
at_least_one zero = 1
at_least_one (suc n) = suc n

pub record StopRequest : Type 0 where
  pub ids : Option (List String)
  pub parallel : Option ℕ
  pub timeout : Option ℕ

pub record StopError : Type 0 where
  pub id : String
  pub error : String

pub record Stopped : Type 0 where
  pub stopped : List String
  pub errors : List StopError

abbrev pub succeeds : Reply → Bool
succeeds r = is_nat r.rc 0

abbrev stop_errors : (String → Reply) → List String → List StopError
unfolding select
stop_errors res ids =
    map (λ i. record { id = i; error = (res i).error }) (select (λ i. not (succeeds (res i))) ids)

unfoldable pub stop : {W : Type 0} → Docker W → StopRequest → W → Stopped × W
unfolding select keys
stop d cfg w =
    let ids = or_default cfg.ids [] in
    let (res, later) =
      d.stop (at_least_one (or_default cfg.parallel 8)) (or_default cfg.timeout 30) ids w in
    (
      record {
        stopped = select (λ i. succeeds (res i)) (keys ids);
        errors = stop_errors res (keys ids);
      },
      later,
    )

pub record StartRequest : Type 0 where
  pub required : Option (List String)
  pub optional : Option (List String)
  pub parallel : Option ℕ
  pub wait : Option ℕ
  pub interval : Option ℕ
  pub retries : Option ℕ

-- The request with its defaults.
pub record Plan : Type 0 where
  pub required : List String
  pub optional : List String
  pub everyone : List String
  pub retries : ℕ
  pub interval : ℕ
  pub parallel : ℕ

unfoldable pub plan_of : StartRequest → Plan
unfolding select mem
plan_of cfg =
    let required = or_default cfg.required [] in
    let optional = or_default cfg.optional [] in
    record {
      required = required;
      optional = optional;
      everyone = required ++ select (λ i. not (mem i required)) optional;
      retries = or_default cfg.retries 5;
      interval = or_default cfg.interval 15;
      parallel = at_least_one (or_default cfg.parallel 8);
    }

-- `attempts` and `last_error`
pub record Tries : Type 0 where
  pub attempts : String → ℕ
  pub errors : String → String

-- The results of one batch, noted.
abbrev pub tried : (String → Reply) → List String → Tries → Tries
tried res ids t = record {
  attempts = λ i. if mem i ids then suc (t.attempts i) else t.attempts i;
  errors = λ i. if mem i ids && not (succeeds (res i)) then (res i).error else t.errors i;
}

-- How the loop ends: out of fuel, by the RuntimeError of `docker ps`, or by a `break`.
pub data Loop (W : Type 0) : Type 0 where
  spent : Loop W
  fault : Loop W
  left : Tries → W → Loop W

abbrev pub is_down : List String → String → Bool
is_down up i = not (mem i up)

unfoldable pub startable_of : Plan → Tries → List String → List String
unfolding select mem
startable_of p t up = select (λ i. ltb (t.attempts i) p.retries) (select (is_down up) p.everyone)

-- The first `break`: every required id runs, and no optional one is to be started.
unfoldable pub is_settled : Plan → List String → List String → Bool
unfolding select mem
is_settled p up startable =
    is_empty (select (is_down up) p.required) && is_empty (select (λ i. mem i p.optional) startable)

abbrev pub smaller : ℕ → ℕ → ℕ
smaller a b = if leb a b then a else b

-- A batch of starts and the sleep after it.
unfoldable pub batch : {W : Type 0} → Docker W → Plan → ℕ → Tries → List String → W → Tries × W
unfolding mem
batch d p deadline t ids w =
    let (res, later) = d.start p.parallel ids w in
    (tried res ids t, d.sleep (smaller p.interval (deadline - d.now later)) later)

-- One round, with what `docker ps` printed; `again` is the rest of the loop.
unfoldable pub round :
    {W : Type 0}
    → Docker W
    → Plan
    → ℕ
    → (Tries × W → Loop W)
    → Tries
    → Option (List String) × W
    → Loop W
unfolding startable_of is_settled batch
round d p deadline again t (none, w) = fault
round d p deadline again t (some up, w) =
    let ids = startable_of p t up in
    if is_settled p up ids
    then left t w
    else if is_empty ids || leb deadline (d.now w)
    then left t w
    else again (batch d p deadline t ids w)

unfoldable pub rounds : {W : Type 0} → Docker W → Plan → ℕ → ℕ → Tries × W → Loop W
unfolding round
rounds d p deadline zero (t, w) = spent
rounds d p deadline (suc fuel) (t, w) = round d p deadline (rounds d p deadline fuel) t (d.ps w)

pub record Down : Type 0 where
  pub id : String
  pub attempts : ℕ
  pub error : String

pub record Started : Type 0 where
  pub running : List String
  pub down : List Down

-- `none` is the RuntimeError of `docker ps`.
unfoldable pub report_of : Plan → Tries → Option (List String) → Option Started
unfolding select mem
report_of p t none = none
report_of p t (some up) = some (record {
  running = select (λ i. mem i up) p.everyone;
  down =
      map (λ i. record { id = i; attempts = t.attempts i; error = t.errors i })
        (select (is_down up) p.everyone);
})

abbrev pub untried : Tries
untried = record { attempts = λ i. 0; errors = λ i. "" }

-- What `start` comes to; `spent` stands for a loop that goes on.
pub data Ended : Type 0 where
  spent : Ended
  fault : Ended
  done : Started → Ended

abbrev pub ended : Option Started → Ended
ended none = fault
ended (some r) = done r

abbrev pub at_end : {W : Type 0} → Docker W → Plan → Loop W → Ended
unfolding report_of
at_end d p Loop.spent = Ended.spent
at_end d p Loop.fault = Ended.fault
at_end d p (left t w) = let (up, later) = d.ps w in ended (report_of p t up)

-- One round more than there are attempts.
unfoldable pub fuel_for : Plan → ℕ
fuel_for p = suc (length p.everyone * p.retries)

unfoldable pub start : {W : Type 0} → Docker W → StartRequest → W → Ended
unfolding plan_of rounds fuel_for report_of
start d cfg w =
    let p = plan_of cfg in
    at_end d p (rounds d p (d.now w + or_default cfg.wait 600) (fuel_for p) (untried, w))
