-- ===== src/Tests/Preflight.antt =====
-- The checks before a run on concrete results.
use ansible_install.Prelude.{
  ◌≡◌, ◌≢◌, ≡→eq, Bool, false, refl, ◌≤◌, String, true, not, Option, none, some, List, [], ◌∷◌,
  ◌==◌, map,
}
use ansible_install.Prelude.Text.{count, take_chars, ends_with}
use ansible_install.Prelude.Split.{words, join}
use ansible_install.Prelude.Lists.{select}
use ansible_install.Prelude.Dict.{Dict, get}
use ansible_install.Prelude.Int.{pos, parse_int}
use ansible_install.Prelude.Json.{
  Json, null, bool, num, str, arr, obj, Items, nil, cons, Fields, end, field, member, value_of,
  truthy,
}
use ansible_install.Prelude.Repr.{str_of}
use ansible_install.Preflight.Reachable.{
  is_pong, said, detail_of, lead_of, lead_for, shorten, reason_of, Unreachable, vars_of, report,
  unreachable,
}
use ansible_install.Preflight.Rollback.{
  int_of, now_of, unit_of, seconds_of, Pending, is_waiting, pending_timer, collect_pending,
  pending_in, pending_listed, rollback_pending,
}
use ansible_install.Preflight.Laws.Answers.{answered, count-reason_of, unreachable_lem}
use ansible_install.Preflight.Laws.Timers.{Timer, AllPrint, AreDue, printed, rollback_pending_lem}

abbrev pinged : Dict Json
pinged =
    ("node1", obj (field "ping" (obj (field "ping" (str "pong") end)) end))
    ∷ (
      "node2",
      obj (
          field "ansible_host" (str "192.0.2.7") (
            field "ping"
              (obj (
                field "unreachable" (bool true)
                  (field "msg" (str "Failed to connect:\n  timed out") end)))
              end)),
    )
    ∷ []

unfoldable unanswered : List String → Option (List Unreachable)
unfolding unreachable report reason_of is_pong said detail_of lead_of lead_for shorten vars_of get
    str_of value_of member truthy words join count take_chars ◌==◌
unanswered = unreachable "ping" pinged

unanswered_runs :
    unanswered ("node1" ∷ "node2" ∷ "node3" ∷ [])
    ≡ some (
        record {
          host = "node2";
          address = str "192.0.2.7";
          port = null;
          reason = "unreachable: Failed to connect: timed out";
        }
        ∷ record {
          host = "node3";
          address = str "node3";
          port = null;
          reason = "no ping result: ansible dropped the host from the play before it ran";
        }
        ∷ [])
unfolding unanswered
unanswered_runs = refl

abbrev timers : Items
timers =
    cons
      (obj
        (field "unit" (str "cs-firewall-rollback-1.timer") (field "next" (num (pos 5000001)) end)))
      (cons (obj (field "unit" (str "cs-firewall-rollback-0.timer") (field "next" null end))) nil)

abbrev listing : Fields
listing = field "now" (num (pos 3000000)) (field "timers" (arr timers) end)

abbrev no_loads : String → Option Json
no_loads s = none

unfoldable pending : Json → Option (List Pending)
unfolding rollback_pending pending_listed pending_in collect_pending pending_timer is_waiting
    seconds_of unit_of now_of int_of parse_int str_of value_of member truthy ends_with count
    take_chars ◌==◌
pending = rollback_pending no_loads

pending_runs :
    pending (obj listing) ≡ some (record { unit = "cs-firewall-rollback-1"; seconds = pos 3 } ∷ [])
unfolding pending
pending_runs = refl

unparsed_runs : pending (str "Failed to connect to bus") ≡ some []
unfolding pending
unparsed_runs = refl

unreachable_lem_example :
    (found : List Unreachable) × (unreachable "ping" pinged ("node1" ∷ "node2" ∷ []) ≡ some found)
    × (map (λ (u : Unreachable). u.host) found
        ≡ select (λ host. not (answered "ping" pinged host)) ("node1" ∷ "node2" ∷ []))
unfolding get vars_of ◌==◌
unreachable_lem_example = unreachable_lem "ping" pinged ("node1" ∷ "node2" ∷ []) (refl, (refl, tt))

count-reason_of_example : count (reason_of null) ≤ 257
count-reason_of_example = count-reason_of null

abbrev reads_listing : String → Option Json
reads_listing s = some (obj listing)

abbrev planned : List Timer
planned =
    record { name = "cs-firewall-rollback-1"; next = some 5000001 }
    ∷ record { name = "cs-firewall-rollback-0"; next = none }
    ∷ []

full : ◌≢◌ {A = String} "{...}" ""
unfolding ◌==◌
full e = false-ne-true (≡→eq "{...}" "" e)
  where
    false-ne-true : ◌≡◌ {A = Bool} false true → ⊥
    false-ne-true h = cc

printed_timers : AllPrint planned timers
unfolding value_of member ◌==◌
printed_timers = (_, _, refl, (refl, refl), (_, _, refl, (refl, refl), refl))

clock : (value_of listing "now" ≡ num (pos 3000000)) × (value_of listing "timers" ≡ arr timers)
unfolding value_of member ◌==◌
clock = (refl, refl)

rollback_pending_lem_example :
    (found : List Pending) × (rollback_pending reads_listing (str "{...}") ≡ some found)
    × AreDue 3000000 planned found
rollback_pending_lem_example =
    rollback_pending_lem reads_listing listing timers 3000000 planned (printed "{...}" full refl)
      clock.0 clock.1 printed_timers
