-- ===== src/Prelude/Repr.antt =====
-- Python's `repr` and `str` of a JSON value. A character above ASCII is taken to be printable.
use Prim.Native.Nat.{ℕ, ◌/◌, ◌%◌}
use Prim.Native.Char.{code}
use Prim.Native.String.{String, ◌++◌ as ◌<>◌}
use mathlib.Core.Bool.{true, false, ◌&&◌, ◌||◌, not}
use ansible_install.Prelude.Branch.{ltb, eqb, if◌then◌else◌}
use ansible_install.Prelude.Text.{has}
use ansible_install.Prelude.Int.{show_ℕ, show_ℤ}
use ansible_install.Prelude.Json.{Json, null, bool, num, str, arr, obj, Items, Fields}

hex_digit : ℕ → String
unfolding show_ℕ
hex_digit d =
    if ltb d 10
    then show_ℕ d
    else if eqb d 10
    then "a"
    else if eqb d 11
    then "b"
    else if eqb d 12
    then "c"
    else if eqb d 13
    then "d"
    else if eqb d 14
    then "e"
    else "f"

-- One character between quotes whose code is `quote`.
escaped : ℕ → String → ℕ → String
unfolding hex_digit
escaped quote c k =
    if eqb k quote || eqb k b'\\'
    then "\\" <> c
    else if eqb k 10
    then "\\n"
    else if eqb k 13
    then "\\r"
    else if eqb k 9
    then "\\t"
    else if ltb k 32 || eqb k 127
    then "\\x" <> (hex_digit (k / 16) <> hex_digit (k % 16))
    else c

escape_all : ℕ → String → String
unfolding escaped
escape_all quote String.[] = ""
escape_all quote (String.◌∷◌ c s) = escaped quote (String.◌∷◌ c "") (code c) <> escape_all quote s

-- `repr(s)`: double quotes exactly if the text has a single quote and no double quote.
unfoldable pub repr_text : String → String
unfolding escape_all has
repr_text s =
    if has b'\'' s && not (has b'"' s)
    then "\"" <> (escape_all b'"' s <> "\"")
    else "'" <> (escape_all b'\'' s <> "'")

unfoldable mutual
  unfolding repr_text show_ℤ

  -- `repr(v)`
  pub repr : Json → String
  repr null = "None"
  repr (bool true) = "True"
  repr (bool false) = "False"
  repr (num n) = show_ℤ n
  repr (str s) = repr_text s
  repr (arr xs) = "[" <> (repr_items xs <> "]")
  repr (obj doc) = "{" <> (repr_fields doc <> "}")

  repr_items : Items → String
  repr_items Items.nil = ""
  repr_items (Items.cons x xs) = repr x <> repr_more xs

  repr_more : Items → String
  repr_more Items.nil = ""
  repr_more (Items.cons x xs) = ", " <> (repr x <> repr_more xs)

  repr_fields : Fields → String
  repr_fields Fields.end = ""
  repr_fields (Fields.field k v doc) = repr_text k <> (": " <> (repr v <> repr_more_fields doc))

  repr_more_fields : Fields → String
  repr_more_fields Fields.end = ""
  repr_more_fields (Fields.field k v doc) =
      ", " <> (repr_text k <> (": " <> (repr v <> repr_more_fields doc)))

-- `str(v)`
unfoldable pub str_of : Json → String
unfolding repr
str_of (str s) = s
str_of null = repr null
str_of (bool b) = repr (bool b)
str_of (num n) = repr (num n)
str_of (arr xs) = repr (arr xs)
str_of (obj doc) = repr (obj doc)
