-- ===== src/Im/Json.antt =====
-- JSON values, in place of their encoding: a request body or a payload is the value that
-- encoding/json writes, and a response body is what it reads, if it reads one. `number` is a number
-- without fraction and exponent, `decimal` one that has any, as its text.
use Prim.Native.String.{String}
use text.Mathlib.Text.{◌==◌ as same}
use jian_yu_server_lib.Base.{ℕ, Bool, Option, none, some, List, [], ◌∷◌, map, if◌then◌else◌}
use jian_yu_server_lib.Base.Int.{ℤ, pos}
use jian_yu_server_lib.Strings.{Str}

mutual
  pub data Json : Type 0 where
    null : Json
    bool : Bool → Json
    string : Str → Json
    number : ℤ → Json
    decimal : Str → Json
    array : Items → Json
    fields : Fields → Json

  pub data Items : Type 0 where
    nil : Items
    cons : Json → Items → Items

  pub data Fields : Type 0 where
    end : Fields
    field : String → Json → Fields → Fields

abbrev pub to_items : List Json → Items
to_items [] = nil
to_items (j ∷ js) = cons j (to_items js)

abbrev pub to_fields : List (String × Json) → Fields
to_fields [] = end
to_fields ((k, j) ∷ rest) = field k j (to_fields rest)

-- A `map[string]interface{}` with these keys.
abbrev pub object : List (String × Json) → Json
object entries = fields (to_fields entries)

abbrev pub list : List Json → Json
list js = array (to_items js)

abbrev pub nat : ℕ → Json
nat n = number (pos n)

abbrev pub texts : List Str → Json
texts ss = list (map string ss)

-- `m[key]` of a map that encoding/json has read, `none` for a missing key: of a key that stands twice
-- the last value counts.
unfoldable pub lookup : String → Fields → Option Json
lookup key end = none
lookup key (field k j rest) = elim (lookup key rest) [
  | some later ↦ some later
  | none ↦ if same k key then some j else none
]

-- The value at a key of an object.
abbrev pub at : String → Json → Option Json
at key (fields fs) = lookup key fs
at key j = none
