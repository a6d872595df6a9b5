-- ===== src/NodeUpgrade/Cycle/Keeping.antt =====
-- roles/node_upgrade/tasks: the recorded containers stay as they were recorded, in phases that come
-- one after another.
use ansible_install.Prelude.{
  ℕ, ◌≤◌, ◌≡◌, refl, sym, ap, ◌∙◌, ◌⊎◌, inl, inr, Option, none, some, List, [], arith,
}
use mathlib.Core.Path.{subst}
use ansible_install.Prelude.Lists.{length, All, All-mono}
use ansible_install.NodeUpgrade.Cycle.Machine.{
  Saved, Action, begun, checked, on, reboot, off, archived, install, saved, downloaded, helper_put,
  request_put, services_up, cleaned, set_aside, Node,
}
use ansible_install.NodeUpgrade.Cycle.History.{
  History, Mode, plain, first, nothing, begins, holds, makes, checks, stops, installs, reboots,
  starts, clears, marks, amends, archives, downloads, puts_helper, puts_request, awaits, cleans,
  leaves,
}
use ansible_install.NodeUpgrade.Cycle.Runs.{Attempt, runs}
use ansible_install.NodeUpgrade.Cycle.Conforms.{runs-Legal}
use ansible_install.NodeUpgrade.Cycle.Holding.{History-first}
use ansible_install.NodeUpgrade.Cycle.Order.{since_archived, weight, Below, History-Below}

-- A state file that was written in this cycle has at most the first phase, or it has recorded what
-- the last one has recorded.
abbrev pub Agrees : Saved → Action → Type 0
Agrees s (saved t) = (length t.phases_done ≤ 1) ⊎ (t.recorded ≡ s.recorded)
Agrees s _ = Unit

-- Files with the same recorded containers.
Agrees-same : (s s' : Saved) → s'.recorded ≡ s.recorded → (a : Action) → Agrees s a → Agrees s' a
Agrees-same s s' e (saved t) (inl h) = inl h
Agrees-same s s' e (saved t) (inr h) = inr (h ∙ sym e)
Agrees-same s s' e begun h = tt
Agrees-same s s' e checked h = tt
Agrees-same s s' e on h = tt
Agrees-same s s' e reboot h = tt
Agrees-same s s' e off h = tt
Agrees-same s s' e archived h = tt
Agrees-same s s' e install h = tt
Agrees-same s s' e downloaded h = tt
Agrees-same s s' e helper_put h = tt
Agrees-same s s' e request_put h = tt
Agrees-same s s' e services_up h = tt
Agrees-same s s' e cleaned h = tt
Agrees-same s s' e set_aside h = tt
Agrees-same s s' e (Action.stop r) h = tt
Agrees-same s s' e (Action.start r) h = tt

Agrees-early : (s : Saved) (a : Action) → weight a ≤ 1 → Agrees s a
Agrees-early s (saved t) h = inl h
Agrees-early s begun h = tt
Agrees-early s checked h = tt
Agrees-early s on h = tt
Agrees-early s reboot h = tt
Agrees-early s off h = tt
Agrees-early s archived h = tt
Agrees-early s install h = tt
Agrees-early s downloaded h = tt
Agrees-early s helper_put h = tt
Agrees-early s request_put h = tt
Agrees-early s services_up h = tt
Agrees-early s cleaned h = tt
Agrees-early s set_aside h = tt
Agrees-early s (Action.stop r) h = tt
Agrees-early s (Action.start r) h = tt

some-injective : (s t : Saved) → some s ≡ some t → s ≡ t
some-injective s t e = cc

-- What came before the second phase.
early :
    (s : Saved) (n : ℕ) (l : List Action) → n ≤ 1 → Below n l → All (Agrees s) (since_archived l)
early s n l le h = All-mono (since_archived l) (λ a b. Agrees-early s a (omega arith)) h

-- A file that is written in place of another.
replaced :
    (s s' : Saved) (l : List Action)
    → s'.recorded ≡ s.recorded
    → All (Agrees s) (since_archived l)
    → All (Agrees s') (since_archived l)
replaced s s' l e h = All-mono (since_archived l) (λ a b. Agrees-same s s' e a b) h

History-Agrees :
    {l : List Action} {f : Option Saved} {m : Mode}
    → History l f m
    → (s : Saved) → f ≡ some s
    → All (Agrees s) (since_archived l)
unfolding since_archived
History-Agrees nothing s e = absurd (cc)
History-Agrees (begins h) s e = (tt, History-Agrees h s e)
History-Agrees (holds h) s e = absurd (cc)
History-Agrees (makes {l} t h a r) s e = (
  inr (ap (λ (z : Saved). z.recorded) (some-injective t s e)),
  early s 0 l (omega arith) (History-Below h),
)
History-Agrees (checks h) s e = (tt, History-Agrees h s e)
History-Agrees (stops r h a) s e = (tt, History-Agrees h s e)
History-Agrees (installs h a) s e = (tt, History-Agrees h s e)
History-Agrees (reboots h a) s e = (tt, History-Agrees h s e)
History-Agrees (starts r h a) s e = (tt, History-Agrees h s e)
History-Agrees (clears h a r) s e = (tt, History-Agrees h s e)
History-Agrees (marks {l} {s = t} n t' h lt a b rec rel) s e =
    let same : t'.recorded ≡ s.recorded = ap (λ (z : Saved). z.recorded) (some-injective t' s e) in
    (
      inr same,
      elim rec [
        | inl one ↦
            early s (length t.phases_done) l (omega (arith, ap length (a ∙ ap first one)))
              (History-Below h)
        | inr kept ↦ replaced t s l (sym same ∙ kept) (History-Agrees h t refl)
      ],
    )
History-Agrees (amends {l} {s = t} t' h a rec rel) s e =
    let same : t'.recorded ≡ s.recorded = ap (λ (z : Saved). z.recorded) (some-injective t' s e) in
    (inr same, replaced t s l (sym same ∙ rec) (History-Agrees h t refl))
History-Agrees (downloads h) s e = (tt, History-Agrees h s e)
History-Agrees (puts_helper h) s e = (tt, History-Agrees h s e)
History-Agrees (puts_request h) s e = (tt, History-Agrees h s e)
History-Agrees (awaits h) s e = (tt, History-Agrees h s e)
History-Agrees (cleans h) s e = (tt, History-Agrees h s e)
History-Agrees (leaves h) s e = absurd (cc)
History-Agrees (archives h a) s e = absurd (cc)

-- Suppose that between runs nobody writes the state file, though an operator may move it aside. If
-- runs from the fresh state of a node on leave a state file, it has the first phases in their order,
-- at least one, and every state file that was written since the last one was archived or moved aside
-- had at most the first phase or the same recorded containers.
pub runs-Agrees :
    {W : Type 0} (d : Node W) (attempts : List (Attempt W)) (w : W) {s : Saved}
    → (runs d attempts (record { world = w; file = none; log = [] })).file ≡ some s
    → ((n : ℕ) × (1 ≤ n) × (n ≤ 7) × (s.phases_done ≡ first n))
      × All
          (Agrees s)
          (since_archived (runs d attempts (record { world = w; file = none; log = [] })).log)
runs-Agrees d attempts w {s} e =
    let (m, h) =
      runs-Legal d attempts (record { world = w; file = none; log = [] }) (plain, nothing) in
    let log : List Action = (runs d attempts (record { world = w; file = none; log = [] })).log in
    (History-first (subst (λ f. History log f m) e h), History-Agrees h s e)
