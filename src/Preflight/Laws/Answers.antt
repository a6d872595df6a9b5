-- ===== src/Preflight/Laws/Answers.antt =====
-- Which hosts are reported as unreachable, and with what reason.
use ansible_install.Prelude.{
  ◌≡◌, refl, ap, inl, inr, ◌+◌, ◌≤◌, ◌<◌, String, ◌<>◌, Bool, true, false, not, some, List, [], ◌∷◌,
  map, ◌==◌, eq→≡, ltb, arith, Bool-cases,
}
use mathlib.Core.Path.{ap₂}
use ansible_install.Prelude.Text.{count, take_chars, count-append, count-take_chars}
use ansible_install.Prelude.Lists.{All, select}
use ansible_install.Prelude.Dict.{Dict}
use ansible_install.Prelude.Json.{Json, null, bool, num, str, arr, obj, Fields}
use ansible_install.Preflight.Reachable.{
  reason_max, is_pong, detail_of, lead_for, lead_of, shorten, worded, failure, reason_of,
  Unreachable, vars_of, result_in, report, unreachable,
}

abbrev pub is_mapping : Json → Bool
is_mapping (obj hv) = true
is_mapping _ = false

nonempty : (s : String) → 0 < count s → (s == "") ≡ false
unfolding count
nonempty s h = elim (Bool-cases (s == "")) [
  | inl e ↦ absurd (ground (arith, ap count (eq→≡ s "" e)))
  | inr e ↦ e
]

lead_for-count : (a b : Bool) → (11 ≤ count (lead_for a b)) × (count (lead_for a b) ≤ 12)
unfolding lead_for count
lead_for-count true b = ground arith
lead_for-count false true = ground arith
lead_for-count false false = ground arith

lead_of-count : (result : Fields) → (11 ≤ count (lead_of result)) × (count (lead_of result) ≤ 12)
unfolding lead_of
lead_of-count result = lead_for-count _ _

shorten-count : (detail : String) → count (shorten detail) ≤ 243
unfolding shorten count
shorten-count detail = elim (Bool-cases (ltb reason_max (count detail))) [
  | inl e ↦
      rw e (ground (arith, count-append (take_chars 240 detail) "...", count-take_chars 240 detail))
  | inr e ↦ rw e (ground arith)
]

worded-count :
    (lead detail : String)
    → (count lead ≤ count (worded lead detail))
      × (count (worded lead detail) ≤ count lead + (2 + count detail))
unfolding count
worded-count lead detail = elim (Bool-cases (detail == "")) [
  | inl e ↦ rw e (ground arith)
  | inr e ↦ rw e (ground (arith, count-append lead (": " <> detail), count-append ": " detail))
]

detail_of-count : (result : Fields) → count (detail_of result) ≤ 243
unfolding detail_of
detail_of-count result = shorten-count _

failure-count : (result : Fields) → (11 ≤ count (failure result)) × (count (failure result) ≤ 257)
failure-count result = ground (
  arith,
  lead_of-count result,
  detail_of-count result,
  worded-count (lead_of result) (detail_of result),
)

reason_of-pong : (result : Json) → (reason_of result == "") ≡ is_pong result
unfolding reason_of is_pong ◌==◌
reason_of-pong (obj result) = elim (Bool-cases (is_pong (obj result))) [
  | inl e ↦ rw e refl
  | inr e ↦ rw e (nonempty (failure result) (ground (arith, failure-count result)))
]
reason_of-pong null = refl
reason_of-pong (bool b) = refl
reason_of-pong (num n) = refl
reason_of-pong (str s) = refl
reason_of-pong (arr xs) = refl

-- The reason on a host is at most 257 characters long, whatever ssh printed.
pub count-reason_of : (result : Json) → count (reason_of result) ≤ 257
unfolding reason_of count
count-reason_of (obj result) = elim (Bool-cases (is_pong (obj result))) [
  | inl e ↦ rw e (ground arith)
  | inr e ↦ rw e (failure-count result).1
]
count-reason_of null = ground arith
count-reason_of (bool b) = ground arith
count-reason_of (num n) = ground arith
count-reason_of (str s) = ground arith
count-reason_of (arr xs) = ground arith

module _ (result_var : String) (hostvars : Dict Json) where
  abbrev pub answered : String → Bool
  answered host = is_pong (result_in result_var (vars_of hostvars host))

  report-mapping :
      (host : String) (hv : Json) (reason : String)
      → is_mapping hv ≡ true
      → (found : Unreachable) × (report host hv reason ≡ some found)
        × (found.host ≡ host)
        × (found.reason ≡ reason)
  unfolding report
  report-mapping host (obj hv) reason h = (_, refl, refl, refl)
  report-mapping host null reason h = absurd (ground arith)
  report-mapping host (bool b) reason h = absurd (ground arith)
  report-mapping host (num n) reason h = absurd (ground arith)
  report-mapping host (str s) reason h = absurd (ground arith)
  report-mapping host (arr xs) reason h = absurd (ground arith)

  -- If the variables of every host are a mapping, the hosts that are reported are those without an
  -- answered ping, in the order of the hosts.
  pub unreachable_lem :
      (hosts : List String)
      → All (λ host. is_mapping (vars_of hostvars host) ≡ true) hosts
      → (found : List Unreachable) × (unreachable result_var hostvars hosts ≡ some found)
        × (map (λ (u : Unreachable). u.host) found ≡ select (λ host. not (answered host)) hosts)
  unfolding unreachable select
  unreachable_lem [] all = ([], refl, refl)
  unreachable_lem (host ∷ hosts) (here, all) =
      let (found, e, m) = unreachable_lem hosts all in
      elim (Bool-cases (answered host)) [
        | inl a ↦
            rw (reason_of-pong (result_in result_var (vars_of hostvars host))) (rw a (found, e, m))
        | inr a ↦
            let (u, r, named, because) =
              report-mapping host (vars_of hostvars host)
                (reason_of (result_in result_var (vars_of hostvars host))) here in
            rw (reason_of-pong (result_in result_var (vars_of hostvars host)))
              (rw a (rw r (rw e (u ∷ found, refl, ap₂ ◌∷◌ named m))))
      ]
