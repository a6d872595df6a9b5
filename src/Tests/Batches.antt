-- ===== src/Tests/Batches.antt =====
-- roles/node_upgrade/files/node-upgrade-containers: runs of `start` and `stop` on small nodes.
use ansible_install.Prelude.{
  ℕ, ◌+◌, ◌≡◌, ◌≢◌, refl, String, Bool, not, none, some, List, [], ◌∷◌, ◌++◌, ◌==◌, if◌then◌else◌,
}
use ansible_install.Prelude.Split.{mem}
use ansible_install.Prelude.Lists.{select}
use ansible_install.Prelude.Int.{pos}
use ansible_install.NodeUpgrade.Helper.{
  Docker, StartRequest, StopRequest, stop, start, plan_of, Ended, done, Started, Tries, untried,
  left, rounds, fuel_for,
}
use ansible_install.NodeUpgrade.Laws.Rounds.{start-returns}
use ansible_install.NodeUpgrade.Laws.Batches.{start-Ending, Ending}
use ansible_install.NodeUpgrade.Laws.Counting.{Counted, counting, IsCounted, start-attempts}
use ansible_install.NodeUpgrade.Laws.Reliable.{Reliable}

-- A node: what runs, and its clock.
record Node : Type 0 where
  running : List String
  clock : ℕ

-- A container on this node runs on if it is no app, or if its database already runs.
abbrev runs_on : List String → String → Bool
runs_on up i = if i == "app" then mem "db" up else not (i == "broken")

-- Starting takes three seconds, stopping one, and a broken container does not start.
abbrev shop : Docker Node
shop = record {
  ps = λ w. (some w.running, w);
  start = λ n ids w. (
    λ i.
        if i == "broken"
        then record { rc = pos 1; error = "no image" }
        else record { rc = pos 0; error = "" },
    record { running = select (runs_on w.running) ids ++ w.running; clock = w.clock + 3 },
  );
  stop = λ n t ids w. (
    λ i.
        if mem i w.running
        then record { rc = pos 0; error = "" }
        else record { rc = pos 1; error = "no such container" },
    record { running = select (λ i. not (mem i ids)) w.running; clock = w.clock + 1 },
  );
  now = λ w. w.clock;
  sleep = λ t w. record w { clock = w.clock + t };
}

abbrev request : List String → List String → StartRequest
request required optional = record {
  required = some required;
  optional = some optional;
  parallel = none;
  wait = some 60;
  interval = some 10;
  retries = some 2;
}

abbrev idle : Node
idle = record { running = []; clock = 100 }

-- The app stays up at its second attempt, when its database is there.
abbrev app_report : Started
app_report = record { running = "app" ∷ "db" ∷ []; down = [] }

app_run : start shop (request ("app" ∷ "db" ∷ []) []) idle ≡ done app_report
unfolding start mem select ◌==◌
app_run = refl

-- A broken container is tried twice and reported with the last error.
abbrev broken_report : Started
broken_report = record {
  running = "db" ∷ [];
  down = record { id = "broken"; attempts = 2; error = "no image" } ∷ [];
}

broken_run : start shop (request ("db" ∷ []) ("broken" ∷ [])) idle ≡ done broken_report
unfolding start mem select ◌==◌
broken_run = refl

-- A node on which every container starts.
abbrev steady : Docker Node
steady = record shop {
  start = λ n ids w. (
    λ i. record { rc = pos 0; error = "" },
    record { running = ids ++ w.running; clock = w.clock + 3 },
  );
}

start-returns_example : start shop (request ("db" ∷ []) ("broken" ∷ [])) idle ≢ Ended.spent
start-returns_example = start-returns shop (request ("db" ∷ []) ("broken" ∷ [])) idle

start-Ending_example : Ending shop (plan_of (request ("db" ∷ []) ("broken" ∷ []))) 160 broken_report
start-Ending_example = start-Ending shop (request ("db" ∷ []) ("broken" ∷ [])) idle broken_run

start-attempts_example :
    (start (counting shop) (request ("db" ∷ []) ("broken" ∷ [])) (idle, λ i. 0)
      ≡ done broken_report)
    × ((t : Tries) × (x : Counted Node) × (rounds
            (counting shop)
            (plan_of (request ("db" ∷ []) ("broken" ∷ [])))
            160
            (fuel_for (plan_of (request ("db" ∷ []) ("broken" ∷ []))))
            (untried, (idle, λ i. 0))
          ≡ left t x)
        × IsCounted (plan_of (request ("db" ∷ []) ("broken" ∷ []))) broken_report x.1)
start-attempts_example = start-attempts shop (request ("db" ∷ []) ("broken" ∷ [])) idle broken_run

abbrev stop_request : StopRequest
stop_request = record { ids = some ("db" ∷ "gone" ∷ "db" ∷ []); parallel = none; timeout = none }

stop_run : stop shop stop_request (record { running = "db" ∷ "web" ∷ []; clock = 0 }) ≡ (
  record { stopped = "db" ∷ []; errors = record { id = "gone"; error = "no such container" } ∷ [] },
  record { running = "web" ∷ []; clock = 1 },
)
unfolding stop mem ◌==◌
stop_run = refl
