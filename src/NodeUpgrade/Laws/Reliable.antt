-- ===== src/NodeUpgrade/Laws/Reliable.antt =====
-- roles/node_upgrade/files/node-upgrade-containers: `start` on a node whose dockerd does its work.
use ansible_install.Prelude.{ℕ, ◌<◌, ◌≡◌, ◌⊎◌, String, true, some, List}
use ansible_install.Prelude.Split.{mem}
use ansible_install.Prelude.Lists.{In}
use ansible_install.NodeUpgrade.Helper.{Docker, Plan, Tries, start}

-- A dockerd that answers `docker ps`, starts what it is asked to start, and keeps running what it
-- runs. Its commands may take any time.
pub record Reliable {W : Type 0} (d : Docker W) : Type 0 where
  pub up : W → List String
  pub listed : (w : W) → d.ps w ≡ (some (up w), w)
  pub started :
      (n : ℕ) (ids : List String) (w : W) (i : String)
      → In i ids
      → mem i (up (d.start n ids w).1) ≡ true
  pub stays :
      (n : ℕ) (ids : List String) (w : W) (i : String)
      → mem i (up w) ≡ true
      → mem i (up (d.start n ids w).1) ≡ true
  pub asleep : (t : ℕ) (w : W) → up (d.sleep t w) ≡ up w

module _ {W : Type 0} (d : Docker W) (r : Reliable d) (p : Plan) (deadline : ℕ) where
  -- Every container of the plan runs.
  abbrev AllUp : W → Type 0
  AllUp w = (i : String) → In i p.everyone → mem i (r.up w) ≡ true

  -- Before the first batch, and after it.
  abbrev Fresh : Tries → W → Type 0
  Fresh t w = (((i : String) → t.attempts i ≡ 0) × (d.now w < deadline)) ⊎ AllUp w
