-- ===== src/NodeUpgrade/Laws/Selection.antt =====
-- Which containers are recorded, and which packages count as drifted.
use ansible_install.Prelude.{
  ◌≡◌, refl, sym, ap, ◌∙◌, ◌⊎◌, inl, inr, ◌↔◌, String, Bool, true, false, ◌&&◌, not, Option, none,
  some, List, [], ◌∷◌, eq→≡, ≡→eq, arith, Bool-cases,
}
use ansible_install.Prelude.Lists.{All, In, any}
use ansible_install.Prelude.Dict.{Dict, get}
use ansible_install.NodeUpgrade.Containers.{
  Container, is_system, is_running, name_of, Recorded, select_running_tenants,
  has_tenant_containers,
}
use ansible_install.NodeUpgrade.Pins.{split_pin, drifts, docker_drift}

-- The record of a container, and whether it has to be stopped.
abbrev pub recorded_of : Container → Recorded
recorded_of c = record { id = c.id; name = some (name_of c.name) }

abbrev pub IsRunningTenant : Container → Type 0
IsRunningTenant c = (c.running ≡ some true) × (is_system c ≡ false)

is_running_iff : (r : Option Bool) → (is_running r ≡ true) ↔ (r ≡ some true)
is_running_iff none = ground arith
is_running_iff (some b) = ground arith

abbrev is_recorded : Container → Bool
is_recorded c = is_running c.running && not (is_system c)

is_recorded_iff : (c : Container) → (is_recorded c ≡ true) ↔ IsRunningTenant c
is_recorded_iff c = ground (arith, is_running_iff c.running)

false-ne-true : ◌≡◌ {A = Bool} false true → ⊥
false-ne-true h = cc

-- A record is made exactly of the containers that are running and do not carry the system role: a
-- stopped container is never recorded, and so never started.
pub select_running_tenants_iff :
    (r : Recorded) (cs : List Container)
    → In r (select_running_tenants cs)
      ↔ ((c : Container) × In c cs × IsRunningTenant c × (recorded_of c ≡ r))
unfolding select_running_tenants
select_running_tenants_iff r [] = (λ h. absurd h.1, λ w. absurd w.1.1)
select_running_tenants_iff r (c ∷ cs) = elim (Bool-cases (is_recorded c)) [
  | inl e ↦
      rw (e, select_running_tenants)
        (
          λ h. elim h [
            | inl q ↦ (c, inl refl, (is_recorded_iff c).0 e, q)
            | inr m ↦ later ((select_running_tenants_iff r cs).0 m)
          ],
          λ (d, m, t, q). elim m [
            | inl same ↦ inl (ap recorded_of same ∙ q)
            | inr m' ↦ inr ((select_running_tenants_iff r cs).1 (d, m', t, q))
          ],
        )
  | inr e ↦
      rw (e, select_running_tenants)
        (
          λ h. later ((select_running_tenants_iff r cs).0 h),
          λ (d, m, t, q). elim m [
            | inl same ↦
                absurd (false-ne-true (sym e ∙ ap is_recorded same ∙ (is_recorded_iff d).1 t))
            | inr m' ↦ (select_running_tenants_iff r cs).1 (d, m', t, q)
          ],
        )
]
  where
    later :
        (d : Container) × In d cs × IsRunningTenant d × (recorded_of d ≡ r)
        → (d : Container) × In d (c ∷ cs) × IsRunningTenant d × (recorded_of d ≡ r)
    later (d, m, t, q) = (d, inr m, t, q)

-- A node without tenant containers has nothing to record.
pub no_tenants-select :
    (cs : List Container) → has_tenant_containers cs ≡ false → select_running_tenants cs ≡ []
unfolding select_running_tenants has_tenant_containers any
no_tenants-select [] h = refl
no_tenants-select (c ∷ cs) h = ground (arith, no_tenants-select cs)

-- A pin is met if the package is installed, at the pinned version if there is one.
abbrev pub IsMet : Dict String → String → Type 0
IsMet installed entry =
    (version : String) × (get installed (split_pin entry).0 ≡ some version)
    × (((split_pin entry).1 ≡ none) ⊎ ((split_pin entry).1 ≡ some version))

drifts_iff :
    (have pin : Option String)
    → (drifts have pin ≡ false)
      ↔ ((version : String) × (have ≡ some version) × ((pin ≡ none) ⊎ (pin ≡ some version)))
unfolding drifts
drifts_iff none pin = ground arith
drifts_iff (some have) none = (λ h. (have, refl, inl refl), λ h. refl)
drifts_iff (some have) (some pin) = (
  λ h. (have, refl, inr (ground (arith, eq→≡ have pin))),
  λ (v, e, w). ground (arith, ≡→eq have pin),
)

-- There is no drift exactly if every pinned package is installed as its pin asks.
pub docker_drift_iff :
    (installed : Dict String) (pins : List String)
    → (docker_drift installed pins ≡ []) ↔ All (IsMet installed) pins
unfolding docker_drift
docker_drift_iff installed [] = (λ _. tt, λ _. refl)
docker_drift_iff installed (entry ∷ pins) = ground (
  arith,
  drifts_iff (get installed (split_pin entry).0) (split_pin entry).1,
  docker_drift_iff installed pins,
)
