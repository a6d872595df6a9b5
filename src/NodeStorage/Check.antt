-- ===== src/NodeStorage/Check.antt =====
-- roles/node_storage/filter_plugins/node_storage.py: early returns as a result type.
use ansible_install.Prelude.{◌≡◌, refl, Bool, String, ◌<>◌, if◌then◌else◌}

pub data State : Type 0 where
  blank ours ready refuse : State

pub record Verdict : Type 0 where
  pub state : State
  pub reason : String

abbrev pub nothing_changed : String
nothing_changed = "Nothing was changed."

-- A check passes with what the later ones need, or returns `_refuse(text)` at once.
pub data Check {ℓ} (A : Type ℓ) : Type ℓ where
  pass : A → Check A
  refused : String → Check A

infixl 5 ◌>>=◌ ◌>>◌
abbrev pub ◌>>=◌ {ℓ κ} : {A : Type ℓ} {B : Type κ} → Check A → (A → Check B) → Check B
pass a >>= f = f a
refused text >>= f = refused text

abbrev pub ◌>>◌ {ℓ} : {B : Type ℓ} → Check (Unit {0}) → Check B → Check B
m >> k = m >>= λ _. k

-- `if test: return _refuse(text)`
abbrev pub refuse_if : Bool → String → Check (Unit {0})
refuse_if test text = if test then refused text else pass tt

-- The filter's result: a refusal's text is closed by a fixed sentence.
unfoldable pub settle : Check Verdict → Verdict
settle (pass v) = v
settle (refused text) = record { state = refuse; reason = text <> (" " <> nothing_changed) }

-- Inversion of a passed chain.
pub >>=-eq-pass {ℓ κ} :
    {A : Type ℓ} {B : Type κ} (m : Check A) (f : A → Check B) {b : B}
    → (m >>= f) ≡ pass b
    → (a : A) × (m ≡ pass a) × (f a ≡ pass b)
>>=-eq-pass (pass a) f h = (a, refl, h)
>>=-eq-pass (refused text) f h = absurd (cc)

pub >>-eq-pass {ℓ} :
    {B : Type ℓ} (m : Check (Unit {0})) (k : Check B) {b : B}
    → (m >> k) ≡ pass b
    → (m ≡ pass tt) × (k ≡ pass b)
>>-eq-pass (pass tt) k h = (refl, h)
>>-eq-pass (refused text) k h = absurd (cc)
