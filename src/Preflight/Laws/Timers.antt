-- ===== src/Preflight/Laws/Timers.antt =====
-- Which rollback timers are pending, and how long they still wait.
use ansible_install.Prelude.{
  ℕ, zero, suc, ◌≡◌, refl, inl, inr, ◌⊎◌, ◌+◌, ◌-◌, ◌*◌, ◌/◌, ◌≤◌, ◌<◌, ◌≢◌, sym, ap, ◌∙◌, ◌<>◌,
  ◌==◌, eq→≡, ≡→eq, String, true, Option, none, some, List, [], ◌∷◌, leb, arith, Bool-cases,
}
use mathlib.Core.Path.{ap₂}
use Prim.Native.String.append
use ansible_install.Prelude.Text.{ends_with, take_chars, count, count-append}
use ansible_install.Prelude.Repr.{str_of}
use ansible_install.Prelude.Int.{pos, negsuc, sub_int, neg_int, max_int}
use ansible_install.Prelude.Json.{
  Json, null, num, str, arr, obj, Items, nil, cons, Fields, value_of, truthy,
}
use ansible_install.Preflight.Rollback.{
  int_of, now_of, unit_of, seconds_of, Pending, is_waiting, pending_timer, collect_pending,
  pending_in, pending_listed, rollback_pending,
}

seconds_of-ahead : (d : ℕ) → seconds_of (pos (suc d)) ≡ pos (suc (d / 1000000))
unfolding seconds_of
seconds_of-ahead d = ground arith

seconds_of-past : (d : ℕ) → seconds_of (negsuc d) ≡ pos 0
unfolding seconds_of
seconds_of-past d = go (suc d / 1000000)
  where
    go : (q : ℕ) → max_int (pos 0) (neg_int (pos q)) ≡ pos 0
    go zero = refl
    go (suc q) = refl

rounded :
    (d next now : ℕ)
    → next ≡ now + suc d
    → (next ≤ now + suc (d / 1000000) * 1000000) × (now + (suc (d / 1000000) - 1) * 1000000 < next)
rounded d next now h = (omega arith, omega arith)

-- The seconds are those from now to the elapse, rounded up, and 0 for an elapse in the past.
seconds_of_lem :
    (next now : ℕ)
    → (k : ℕ) × (seconds_of (sub_int (pos next) (pos now)) ≡ pos k)
      × (next ≤ now + k * 1000000)
      × ((k ≡ 0) ⊎ (now + (k - 1) * 1000000 < next))
unfolding seconds_of
seconds_of_lem next now = elim (Bool-cases (leb now next)) [
  | inl l ↦ rw l (ahead (next - now) (ground arith))
  | inr l ↦ rw l (0, seconds_of-past (now - next - 1), ground arith, inl refl)
]
  where
    ahead :
        (d : ℕ)
        → next ≡ now + d
        → (k : ℕ) × (seconds_of (pos d) ≡ pos k)
          × (next ≤ now + k * 1000000)
          × ((k ≡ 0) ⊎ (now + (k - 1) * 1000000 < next))
    ahead zero h = (0, refl, omega arith, inl refl)
    ahead (suc d) h =
        let (up, down) = rounded d next now h in
        (suc (d / 1000000), seconds_of-ahead d, up, inr down)

ends_with-append : (s t : String) → ends_with (s <> t) t ≡ true
unfolding ends_with
ends_with-append String.[] String.[] = rw (append.nil "") (≡→eq "" "" refl)
ends_with-append String.[] (String.◌∷◌ c t) =
    rw (append.nil (String.◌∷◌ c t)) (ground (arith, ≡→eq (String.◌∷◌ c t) (String.◌∷◌ c t) refl))
ends_with-append (String.◌∷◌ c s) t = rw (append.cons c s t) (ground (arith, ends_with-append s t))

take_chars-append : (s t : String) → take_chars (count s) (s <> t) ≡ s
unfolding take_chars count
take_chars-append String.[] t = refl
take_chars-append (String.◌∷◌ c s) t = rw (append.cons c s t) (rw (take_chars-append s t) refl)

six : count ".timer" ≡ 6
unfolding count
six = refl

-- A timer of systemd: its name without the suffix, and its next elapse if it has one.
pub record Timer : Type 0 where
  pub name : String
  pub next : Option ℕ

abbrev pub next_doc : Option ℕ → Json
next_doc none = null
next_doc (some n) = num (pos n)

-- A row of `systemctl list-timers --output=json`.
abbrev pub Prints : Timer → Fields → Type 0
Prints t row =
    (value_of row "unit" ≡ str (t.name <> ".timer")) × (value_of row "next" ≡ next_doc t.next)

abbrev pub AllPrint : List Timer → Items → Type 0
AllPrint [] items = items ≡ nil
AllPrint (t ∷ ts) items =
    (row : Fields) × (rest : Items) × (items ≡ cons (obj row) rest)
    × Prints t row
    × AllPrint ts rest

-- The seconds `k` from `now` to `next`, in microseconds, rounded up, and 0 for the past.
abbrev pub IsWait : ℕ → ℕ → ℕ → Type 0
IsWait now next k = (next ≤ now + k * 1000000) × ((k ≡ 0) ⊎ (now + (k - 1) * 1000000 < next))

-- The rows for the timers that still wait, in their order: one without a next elapse, or with 0, has
-- fired or was cancelled.
abbrev pub AreDue : ℕ → List Timer → List Pending → Type 0
AreDue now [] found = found ≡ []
AreDue now (t ∷ ts) found = elim t.next [
  | none ↦ AreDue now ts found
  | some zero ↦ AreDue now ts found
  | some (suc n) ↦
      (k : ℕ) × (rest : List Pending) × (found ≡ record { unit = t.name; seconds = pos k } ∷ rest)
      × IsWait now (suc n) k
      × AreDue now ts rest
]

named : (name : String) → name <> ".timer" ≢ ""
unfolding count
named name e =
    let n : count name + count ".timer" ≡ 0 = sym (count-append name ".timer") ∙ ap count e in
    omega (arith, six)

unit_of_lem :
    (name : String) (row : Fields)
    → value_of row "unit" ≡ str (name <> ".timer")
    → unit_of row ≡ name
unfolding unit_of truthy str_of
unit_of_lem name row e = rw e (elim (Bool-cases (name <> ".timer" == "")) [
  | inl z ↦ absurd (named name (eq→≡ _ _ z))
  | inr z ↦
      rw (z, ends_with-append name ".timer", count-append name ".timer", six)
        (rw (back (count name)) (take_chars-append name ".timer"))
])
  where
    back : (n : ℕ) → (n + 6) - 6 ≡ n
    back n = omega arith

truthy-suc : (n : ℕ) → truthy (num (pos (suc n))) ≡ true
unfolding truthy
truthy-suc n = ground arith

module _ (now : ℕ) (name : String) (ts : List Timer) (row : Fields) (rest : Items)
    (found : List Pending) where
  timer_row :
      (m : ℕ)
      → value_of row "next" ≡ num (pos (suc m))
      → pending_timer (pos now) (obj row)
        ≡ some
            (record { unit = unit_of row; seconds = seconds_of (sub_int (pos (suc m)) (pos now)) })
  unfolding pending_timer int_of
  timer_row m n = rw (pending_timer, n) refl

  add_row :
      (o : Option ℕ)
      → value_of row "unit" ≡ str (name <> ".timer")
      → value_of row "next" ≡ next_doc o
      → collect_pending (pos now) rest ≡ some found
      → AreDue now ts found
      → (all : List Pending) × (collect_pending (pos now) (cons (obj row) rest) ≡ some all)
        × AreDue now (record { name = name; next = o } ∷ ts) all
  unfolding collect_pending is_waiting
  add_row none u n e due = rw (collect_pending, is_waiting, n) (found, e, due)
  add_row (some zero) u n e due = rw (collect_pending, is_waiting, n) (found, e, due)
  add_row (some (suc m)) u n e due =
      let (k, s, up, down) = seconds_of_lem (suc m) now in
      let row' : Pending = record { unit = name; seconds = pos k } in
      let made : pending_timer (pos now) (obj row) ≡ some row' =
        timer_row m n
        ∙ ap₂ (λ a b. some (record { unit = a; seconds = b })) (unit_of_lem name row u) s in
      rw (collect_pending, is_waiting, n)
        (rw (truthy-suc m) (rw (made, e) (row' ∷ found, refl, (k, found, refl, (up, down), due))))

collect_pending_lem :
    (now : ℕ) (ts : List Timer) (items : Items)
    → AllPrint ts items
    → (found : List Pending) × (collect_pending (pos now) items ≡ some found) × AreDue now ts found
unfolding collect_pending
collect_pending_lem now [] items e = rw e ([], refl, refl)
collect_pending_lem now (t ∷ ts) items (row, rest, e, (u, n), all) =
    let (found, same, due) = collect_pending_lem now ts rest all in
    rw e (add_row now t.name ts row rest found t.next u n same due)

-- The input: a parsed listing, or its text.
pub data Reads (loads : String → Option Json) (listing : Fields) : Json → Type 0 where
  parsed : Reads loads listing (obj listing)
  printed :
      (text : String) → text ≢ "" → loads text ≡ some (obj listing) → Reads loads listing (str text)

now_of_lem :
    (now : ℕ) (listing : Fields) → value_of listing "now" ≡ num (pos now) → now_of listing ≡ pos now
unfolding now_of truthy int_of
now_of_lem zero listing e = rw e refl
now_of_lem (suc n) listing e = rw e (rw (truthy-suc n) refl)

-- If the input is a listing, as text or parsed, whose clock is a natural number and whose timers are
-- printed as systemctl does, what is pending are the timers with a next elapse that is not 0, in
-- their order: each by its name without the suffix, with the seconds until it elapses, rounded up,
-- or 0 if that time is past.
pub rollback_pending_lem :
    (loads : String → Option Json) {doc : Json} (listing : Fields) (items : Items) (now : ℕ)
    (ts : List Timer)
    → Reads loads listing doc
    → value_of listing "now" ≡ num (pos now)
    → value_of listing "timers" ≡ arr items
    → AllPrint ts items
    → (found : List Pending) × (rollback_pending loads doc ≡ some found) × AreDue now ts found
unfolding rollback_pending pending_listed pending_in
rollback_pending_lem loads listing items now ts parsed c t all =
    rw (t, now_of_lem now listing c) (collect_pending_lem now ts items all)
rollback_pending_lem loads listing items now ts (printed text e l) c t all =
    elim (Bool-cases (text == "")) [
      | inl z ↦ absurd (e (eq→≡ text "" z))
      | inr z ↦
          rw (rollback_pending, z, l)
            (rw (t, now_of_lem now listing c) (collect_pending_lem now ts items all))
    ]
