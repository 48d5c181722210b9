-- ===== src/Monty/Convert.antt =====
-- `json_to_monty`, `is_plain_json` and `monty_to_json_checked` of crates/langshell-monty/src/lib.rs.
pub mod Plain
use langshell.Common.{
  ℕ, ◌+◌, ◌*◌, ◌/◌, ◌%◌, ◌^◌, Bool, true, false, not, ◌&&◌, String, Option, none, some, Result, ok,
  err, map_err, map_ok, ensure, ltb, eqb, if◌then◌else◌, ◌<>◌, ◌>>=◌, ◌>>◌,
}
use langshell.Core.{Value, Number, Items, Fields, ErrorObject, new_error, with_hint}
use langshell.Monty.Objects.{ℤ, MontyObject, Objects, Pairs, Library}

abbrev pub i64_limit : ℕ
i64_limit = 2 ^ 63

-- The exponent of an `f64` is not all ones.
abbrev pub is_finite : ℕ → Bool
is_finite bits = not (eqb (bits / 2 ^ 52 % 2 ^ 11) 2047)

-- `as_i64`, then `as_u64` with `i64::try_from`, then `as_f64`, which always succeeds: the TYPE_ERROR
-- after it is never reached, and has no counterpart here.
unfoldable pub number_to_monty : (ℕ → ℕ) → Number → MontyObject
number_to_monty as_f64 (Number.pos_int n) =
    if ltb n i64_limit then MontyObject.int (ℤ.pos n) else MontyObject.float (as_f64 n)
number_to_monty as_f64 (Number.neg_int n) = MontyObject.int (ℤ.negsuc n)
number_to_monty as_f64 (Number.float bits) = MontyObject.float bits

unfoldable mutual
  pub json_to_monty : (ℕ → ℕ) → Value → Result ErrorObject MontyObject
  json_to_monty as_f64 Value.null = ok MontyObject.none
  json_to_monty as_f64 (Value.bool b) = ok (MontyObject.bool b)
  json_to_monty as_f64 (Value.number n) = ok (number_to_monty as_f64 n)
  json_to_monty as_f64 (Value.string s) = ok (MontyObject.string s)
  json_to_monty as_f64 (Value.array items) = map_ok MontyObject.list (items_to_monty as_f64 items)
  json_to_monty as_f64 (Value.object fields) =
      map_ok MontyObject.dict (fields_to_monty as_f64 fields)

  pub items_to_monty : (ℕ → ℕ) → Items → Result ErrorObject Objects
  items_to_monty as_f64 Items.nil = ok Objects.nil
  items_to_monty as_f64 (Items.cons v items) =
      json_to_monty as_f64 v >>= λ o. map_ok (Objects.cons o) (items_to_monty as_f64 items)

  pub fields_to_monty : (ℕ → ℕ) → Fields → Result ErrorObject Pairs
  fields_to_monty as_f64 Fields.end = ok Pairs.end
  fields_to_monty as_f64 (Fields.field k v fields) = json_to_monty as_f64 v >>= λ o.
      map_ok (Pairs.pair (MontyObject.string k) o) (fields_to_monty as_f64 fields)

abbrev is_string : MontyObject → Bool
is_string (MontyObject.string s) = true
is_string _ = false

unfoldable mutual
  pub is_plain_json : MontyObject → Bool
  is_plain_json MontyObject.none = true
  is_plain_json (MontyObject.bool b) = true
  is_plain_json (MontyObject.int n) = true
  is_plain_json (MontyObject.big_int n) = true
  is_plain_json (MontyObject.string s) = true
  is_plain_json (MontyObject.float bits) = is_finite bits
  is_plain_json (MontyObject.list items) = all_plain items
  is_plain_json (MontyObject.dict pairs) = pairs_plain pairs
  is_plain_json (MontyObject.function name doc) = false
  is_plain_json (MontyObject.other name) = false

  pub all_plain : Objects → Bool
  all_plain Objects.nil = true
  all_plain (Objects.cons o items) = is_plain_json o && all_plain items

  pub pairs_plain : Pairs → Bool
  pairs_plain Pairs.end = true
  pairs_plain (Pairs.pair k v pairs) = (is_string k && is_plain_json v) && pairs_plain pairs

-- `type_name` of the objects that are never plain, and of the others as Python names them.
abbrev pub type_name : MontyObject → String
type_name MontyObject.none = "NoneType"
type_name (MontyObject.bool b) = "bool"
type_name (MontyObject.int n) = "int"
type_name (MontyObject.big_int n) = "int"
type_name (MontyObject.float bits) = "float"
type_name (MontyObject.string s) = "str"
type_name (MontyObject.list items) = "list"
type_name (MontyObject.dict pairs) = "dict"
type_name (MontyObject.function name doc) = "function"
type_name (MontyObject.other name) = name

unfoldable pub monty_to_json_lossy : Library → MontyObject → Result ErrorObject Value
monty_to_json_lossy lib value =
    map_err
      (λ e.
        new_error "RESULT_NOT_SERIALIZABLE" ("Monty value could not be converted to JSON: " <> e))
      (lib.to_value value)

pub not_serializable : MontyObject → ErrorObject
not_serializable value =
    with_hint
      (new_error "RESULT_NOT_SERIALIZABLE"
        ("result contains non-JSON value of type " <> type_name value <> "."))
      "Convert result to dict, list, str, int, float, bool, or None before returning."

unfoldable pub monty_to_json_checked : Library → MontyObject → Result ErrorObject Value
unfolding monty_to_json_lossy is_plain_json not_serializable
monty_to_json_checked lib value =
    if is_plain_json value then monty_to_json_lossy lib value else err (not_serializable value)
