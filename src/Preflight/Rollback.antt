-- ===== src/Preflight/Rollback.antt =====
-- roles/preflight/filter_plugins/preflight_ssh.py: the firewall rollbacks that wait to fire.
use ansible_install.Prelude.{
  String, Bool, false, ◌-◌, Option, none, some, List, [], ◌==◌, if◌then◌else◌,
}
use ansible_install.Prelude.Text.{ends_with, count, take_chars}
use ansible_install.Prelude.Lists.{both}
use ansible_install.Prelude.Int.{ℤ, pos, sub_int, neg_int, floor_div, max_int, parse_int}
use ansible_install.Prelude.Json.{
  Json, null, bool, num, str, arr, obj, Items, nil, cons, Fields, value_of, truthy,
}
use ansible_install.Prelude.Repr.{str_of}

-- `int(v)`; `none` is its ValueError or TypeError.
unfoldable pub int_of : Json → Option ℤ
unfolding parse_int
int_of (num n) = some n
int_of (bool b) = some (if b then pos 1 else pos 0)
int_of (str s) = parse_int s
int_of _ = none

abbrev or_zero : Option ℤ → ℤ
or_zero none = pos 0
or_zero (some n) = n

unfoldable pub now_of : Fields → ℤ
unfolding int_of value_of truthy
now_of listing =
    let now = value_of listing "now" in or_zero (int_of (if truthy now then now else num (pos 0)))

unfoldable pub unit_of : Fields → String
unfolding value_of truthy str_of ends_with
unit_of timer =
    let unit = value_of timer "unit" in
    let text = str_of (if truthy unit then unit else str "") in
    if ends_with text ".timer" then take_chars (count text - 6) text else text

-- `max(0, -(-left // 1000000))`
unfoldable pub seconds_of : ℤ → ℤ
seconds_of left = max_int (pos 0) (neg_int (floor_div (neg_int left) 1000000))

pub record Pending : Type 0 where
  pub unit : String
  pub seconds : ℤ

-- `isinstance(timer, dict) and timer.get("next")`
unfoldable pub is_waiting : Json → Bool
unfolding value_of truthy
is_waiting (obj timer) = truthy (value_of timer "next")
is_waiting _ = false

unfoldable pub pending_timer : ℤ → Json → Option Pending
unfolding unit_of int_of seconds_of value_of
pending_timer now (obj timer) = elim (int_of (value_of timer "next")) [
  | none ↦ none
  | some next ↦ some (record { unit = unit_of timer; seconds = seconds_of (sub_int next now) })
]
pending_timer now _ = none

-- `none` is the error of a `next` that is no integer.
unfoldable pub collect_pending : ℤ → Items → Option (List Pending)
unfolding is_waiting
collect_pending now nil = some []
collect_pending now (cons timer rest) =
    let later = collect_pending now rest in
    if is_waiting timer then both (pending_timer now timer) later else later

-- The loop over `timers`: the items of a text and the keys of a mapping are no mappings, and a
-- number is a TypeError.
unfoldable pub pending_in : ℤ → Json → Option (List Pending)
unfolding collect_pending truthy
pending_in now (arr timers) = collect_pending now timers
pending_in now (str s) = some []
pending_in now (obj doc) = some []
pending_in now null = some []
pending_in now (bool b) = if b then none else some []
pending_in now (num n) = if truthy (num n) then none else some []

unfoldable pub pending_listed : Json → Option (List Pending)
unfolding now_of value_of
pending_listed (obj listing) = pending_in (now_of listing) (value_of listing "timers")
pending_listed _ = some []

-- `loads` is `json.loads`, `none` its ValueError.
unfoldable pub rollback_pending : (String → Option Json) → Json → Option (List Pending)
unfolding pending_listed
rollback_pending loads (str text) = elim (loads (if text == "" then "{}" else text)) [
  | none ↦ some []
  | some listing ↦ pending_listed listing
]
rollback_pending loads (obj listing) = pending_listed (obj listing)
rollback_pending loads _ = some []
