-- ===== src/Prelude/Json.antt =====
-- A parsed JSON document. Numbers are integers: no filter reads another one.
use Prim.Native.String.{String}
use mathlib.Core.Bool.{Bool, true, false, not}
use mathlib.Core.Option.{Option, none, some}
use ansible_install.Prelude.Branch.{if◌then◌else◌}
use ansible_install.Prelude.Text.{◌==◌}
use ansible_install.Prelude.Int.{ℤ, is_nat}

mutual
  pub data Json : Type 0 where
    null : Json
    bool : Bool → Json
    num : ℤ → Json
    str : String → Json
    arr : Items → Json
    obj : Fields → Json

  pub data Items : Type 0 where
    nil : Items
    cons : Json → Items → Items

  pub data Fields : Type 0 where
    end : Fields
    field : String → Json → Fields → Fields

-- `doc.get(key)` with a missing key as `none`. Of a key that is repeated the last value counts.
unfoldable pub member : Fields → String → Option Json
member end key = none
member (field k v rest) key = elim (member rest key) [
  | some later ↦ some later
  | none ↦ if k == key then some v else none
]

-- `key in doc`
unfoldable pub has_key : Fields → String → Bool
unfolding member
has_key doc key = elim (member doc key) [ none ↦ false | some v ↦ true ]

-- `doc.get(key)`: None is null.
unfoldable pub value_of : Fields → String → Json
unfolding member
value_of doc key = elim (member doc key) [ none ↦ null | some v ↦ v ]

-- `v is not None`
abbrev pub is_present : Json → Bool
is_present null = false
is_present _ = true

-- `v is True`
abbrev pub is_true : Json → Bool
is_true (bool b) = b
is_true _ = false

-- `bool(v)`
unfoldable pub truthy : Json → Bool
truthy null = false
truthy (bool b) = b
truthy (num n) = not (is_nat n 0)
truthy (str s) = not (s == "")
truthy (arr nil) = false
truthy (arr (cons x xs)) = true
truthy (obj end) = false
truthy (obj (field k v rest)) = true
