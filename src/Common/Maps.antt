-- ===== src/Common/Maps.antt =====
-- The laws of the maps, of sorting and of deduplication.
use Prim.Native.String.{String}
use text.Mathlib.Text.{◌==◌}
use text.Mathlib.TextEquality.{eq_iff}
use mathlib.Core.Path.{◌≡◌, refl}
use mathlib.Core.Bool.{true}
use mathlib.Core.Option.{none, some}
use mathlib.Core.List.{List, [], ◌∷◌}
use native.Mathlib.Omega.{arith}
use langshell.Common.Tests.{if◌then◌else◌, is_some}
use langshell.Common.Order.{
  str_lt, str_lt_total, Above, Above-trans, IsSorted, contains, keys, lookup, insert, remove, put,
}

module _ {ℓ} {V : Type ℓ} where
  pub lookup-insert :
      (key other : String) (value : V) (entries : List (String × V))
      → lookup other (insert key value entries)
        ≡ (if key == other then some value else lookup other entries)
  unfolding insert lookup
  lookup-insert key other value [] = refl
  lookup-insert key other value ((first, w) ∷ entries) = ground (
    arith,
    lookup-insert key other value entries,
    eq_iff first other,
    eq_iff first key,
    eq_iff key other,
  )

  pub lookup-remove :
      (k j : String) (m : List (String × V))
      → lookup j (remove k m) ≡ (if k == j then none else lookup j m)
  unfolding lookup remove
  lookup-remove k j [] = ground arith
  lookup-remove k j ((i, w) ∷ m) =
      ground (arith, eq_iff k j, eq_iff i k, eq_iff i j, lookup-remove k j m)

  pub remove-remove : (k : String) (m : List (String × V)) → remove k (remove k m) ≡ remove k m
  unfolding remove
  remove-remove k [] = refl
  remove-remove k ((j, w) ∷ m) = ground (arith, remove-remove k m)

  pub lookup-put :
      (k j : String) (v : V) (m : List (String × V))
      → lookup j (put k v m) ≡ (if k == j then some v else lookup j m)
  unfolding lookup put
  lookup-put k j v m = ground (arith, lookup-remove k j m)

  pub contains-keys :
      (k : String) (m : List (String × V)) → contains (keys m) k ≡ is_some (lookup k m)
  unfolding lookup
  contains-keys k [] = refl
  contains-keys k ((j, v) ∷ m) = ground (arith, contains-keys k m)

  Above-insert :
      (i k : String) (v : V) (m : List (String × V))
      → str_lt i k ≡ true
      → Above i (keys m)
      → Above i (keys (insert k v m))
  unfolding insert
  Above-insert i k v [] h a = (h, tt)
  Above-insert i k v ((j, w) ∷ m) h a = ground (arith, Above-insert i k v m h a.1)

  pub insert-IsSorted :
      (k : String) (v : V) (m : List (String × V))
      → IsSorted (keys m)
      → IsSorted (keys (insert k v m))
  unfolding insert
  insert-IsSorted k v [] s = (tt, tt)
  insert-IsSorted k v ((j, w) ∷ m) s = ground (
    arith,
    eq_iff j k,
    Above-trans k j (keys m),
    str_lt_total j k,
    insert-IsSorted k v m s.1,
    Above-insert j k v m,
  )
