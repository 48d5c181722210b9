-- ===== src/Monty/Convert/Plain.antt =====
-- Every JSON value becomes a plain Monty object.
use langshell.Common.{map_ok, ℕ, ◌≡◌, refl, ap, true, ok, arith, and-eq-true_iff}
use langshell.Core.{Value, Number, Items, Fields}
use langshell.Monty.Objects.{MontyObject, Objects, Pairs, Library}
use langshell.Monty.Convert.{
  is_finite, number_to_monty, json_to_monty, items_to_monty, fields_to_monty, is_plain_json,
  all_plain, pairs_plain, monty_to_json_checked, monty_to_json_lossy,
}

abbrev pub FiniteNumber : Number → Type 0
FiniteNumber (Number.float bits) = is_finite bits ≡ true
FiniteNumber _ = Unit

-- The floats of a value are finite, as JSON has no others.
unfoldable mutual
  pub FiniteValue : Value → Type 0
  FiniteValue Value.null = Unit
  FiniteValue (Value.bool b) = Unit
  FiniteValue (Value.number n) = FiniteNumber n
  FiniteValue (Value.string s) = Unit
  FiniteValue (Value.array items) = FiniteItems items
  FiniteValue (Value.object fields) = FiniteFields fields

  pub FiniteItems : Items → Type 0
  FiniteItems Items.nil = Unit
  FiniteItems (Items.cons v items) = FiniteValue v × FiniteItems items

  pub FiniteFields : Fields → Type 0
  FiniteFields Fields.end = Unit
  FiniteFields (Fields.field k v fields) = FiniteValue v × FiniteFields fields

module _ (as_f64 : ℕ → ℕ) (finite : (n : ℕ) → is_finite (as_f64 n) ≡ true) where
  number_to_monty-plain :
      (n : Number) → FiniteNumber n → is_plain_json (number_to_monty as_f64 n) ≡ true
  unfolding number_to_monty is_plain_json
  number_to_monty-plain (Number.pos_int n) h = ground (arith, finite n)
  number_to_monty-plain (Number.neg_int n) h = refl
  number_to_monty-plain (Number.float bits) h = h

  mutual
    unfolding json_to_monty is_plain_json FiniteValue

    json_to_monty_plain :
        (v : Value)
        → FiniteValue v
        → (o : MontyObject) × (json_to_monty as_f64 v ≡ ok o) × (is_plain_json o ≡ true)
    json_to_monty_plain Value.null h = (_, refl, refl)
    json_to_monty_plain (Value.bool b) h = (_, refl, refl)
    json_to_monty_plain (Value.number n) h = (_, refl, number_to_monty-plain n h)
    json_to_monty_plain (Value.string s) h = (_, refl, refl)
    json_to_monty_plain (Value.array items) h =
        let (o, eq, plain) = items_to_monty_plain items h in
        (_, ap (map_ok MontyObject.list) eq, plain)
    json_to_monty_plain (Value.object fields) h =
        let (o, eq, plain) = fields_to_monty_plain fields h in
        (_, ap (map_ok MontyObject.dict) eq, plain)

    items_to_monty_plain :
        (items : Items)
        → FiniteItems items
        → (os : Objects) × (items_to_monty as_f64 items ≡ ok os) × (all_plain os ≡ true)
    items_to_monty_plain Items.nil h = (_, refl, refl)
    items_to_monty_plain (Items.cons v items) h =
        let (o, eq, plain) = json_to_monty_plain v h.0 in
        let (os, eqs, plains) = items_to_monty_plain items h.1 in
        (Objects.cons o os, rw (eq, eqs) refl, (and-eq-true_iff _ _).1 (plain, plains))

    fields_to_monty_plain :
        (fields : Fields)
        → FiniteFields fields
        → (ps : Pairs) × (fields_to_monty as_f64 fields ≡ ok ps) × (pairs_plain ps ≡ true)
    fields_to_monty_plain Fields.end h = (_, refl, refl)
    fields_to_monty_plain (Fields.field k v fields) h =
        let (o, eq, plain) = json_to_monty_plain v h.0 in
        let (os, eqs, plains) = fields_to_monty_plain fields h.1 in
        (
          Pairs.pair (MontyObject.string k) o os,
          rw (eq, eqs) refl,
          (and-eq-true_iff _ _).1 ((and-eq-true_iff _ _).1 (refl, plain), plains),
        )

  -- When the conversion of a `u64` to an `f64` is finite, `json_to_monty` converts every JSON value whose
  -- floats are finite without an error, and the object that results is plain JSON, so that
  -- `monty_to_json_checked` answers what `monty_to_json_lossy` does with it.
  pub monty_to_json_checked-json_to_monty :
      (lib : Library) (v : Value)
      → FiniteValue v
      → (o : MontyObject) × (json_to_monty as_f64 v ≡ ok o)
        × (monty_to_json_checked lib o ≡ monty_to_json_lossy lib o)
  unfolding monty_to_json_checked
  monty_to_json_checked-json_to_monty lib v h =
      let (o, eq, plain) = json_to_monty_plain v h in (o, eq, rw plain)
