-- ===== src/Core/Json.antt =====
-- `serde_json::Value`, with the accessors that the crates call. A float is its 64-bit pattern, and an
-- object is a list of fields: a `Map` of serde_json.
use langshell.Common.{ℕ, Bool, String, ◌==◌, Option, none, some, List, [], ◌∷◌, if◌then◌else◌}

-- `as_i64` succeeds on an integer in the range of `i64`, `as_u64` on `pos_int`; `neg_int n` is -(n + 1).
pub data Number : Type 0 where
  pos_int neg_int float : ℕ → Number

mutual
  pub data Value : Type 0 where
    null : Value
    bool : Bool → Value
    number : Number → Value
    string : String → Value
    array : Items → Value
    object : Fields → Value

  pub data Items : Type 0 where
    nil : Items
    cons : Value → Items → Items

  pub data Fields : Type 0 where
    end : Fields
    field : String → Value → Fields → Fields

abbrev pub to_items : List Value → Items
to_items [] = nil
to_items (v ∷ vs) = cons v (to_items vs)

abbrev pub from_items : Items → List Value
from_items nil = []
from_items (cons v vs) = v ∷ from_items vs

abbrev pub from_fields : Fields → List (String × Value)
from_fields end = []
from_fields (field k v fs) = (k, v) ∷ from_fields fs

abbrev pub to_fields : List (String × Value) → Fields
to_fields [] = end
to_fields ((k, v) ∷ fs) = field k v (to_fields fs)

-- `Map::insert`.
unfoldable pub insert_field : String → Value → Fields → Fields
insert_field k v end = field k v end
insert_field k v (field j w fs) = if j == k then field k v fs else field j w (insert_field k v fs)

unfoldable pub get_field : String → Fields → Option Value
get_field k end = none
get_field k (field j v fs) = if j == k then some v else get_field k fs

-- `Value::get`, `as_str`, `as_bool`, `as_u64` and `as_object`.
unfoldable pub get : String → Value → Option Value
unfolding get_field
get k (object fs) = get_field k fs
get k _ = none

abbrev pub as_str : Value → Option String
as_str (string s) = some s
as_str _ = none

abbrev pub as_bool : Value → Option Bool
as_bool (bool b) = some b
as_bool _ = none

abbrev pub as_u64 : Value → Option ℕ
as_u64 (number (Number.pos_int n)) = some n
as_u64 _ = none

abbrev pub as_object : Value → Option Fields
as_object (object fs) = some fs
as_object _ = none
