-- ===== src/Common/Order.antt =====
-- `str::cmp` as a Boolean order, sorting and deduplicating texts, and `BTreeMap<String, V>` as a list
-- of pairs with ascending keys.
use Prim.Native.Char.{code}
use Prim.Native.String.{String, [] as nil, ◌∷◌ as ◌::◌}
use text.Mathlib.Text.{◌==◌}
use text.Mathlib.TextEquality.{Char-path}
use mathlib.Core.Path.{◌≡◌, refl, ap₂}
use mathlib.Core.Bool.{Bool, true, false, ◌&&◌, ◌||◌}
use mathlib.Core.Option.{Option, none, some}
use mathlib.Core.List.{List, [], ◌∷◌}
use native.Mathlib.Omega.{arith}
use langshell.Common.Tests.{ltb, eqb, if◌then◌else◌}
use langshell.Common.Lists.{All, All-map}

-- Strictly before, by the code points: the order of the UTF-8 bytes.
unfoldable pub str_lt : String → String → Bool
str_lt nil nil = false
str_lt nil (d :: t) = true
str_lt (c :: s) nil = false
str_lt (c :: s) (d :: t) = ltb (code c) (code d) || (eqb (code c) (code d) && str_lt s t)

pub str_lt_trans : (s t u : String) → str_lt s t ≡ true → str_lt t u ≡ true → str_lt s u ≡ true
unfolding str_lt
str_lt_trans nil nil u h k = cc
str_lt_trans nil (d :: t) nil h k = cc
str_lt_trans nil (d :: t) (e :: u) h k = refl
str_lt_trans (c :: s) nil u h k = cc
str_lt_trans (c :: s) (d :: t) nil h k = cc
str_lt_trans (c :: s) (d :: t) (e :: u) h k = ground (arith, str_lt_trans s t u)

pub str_lt_irrefl : (s : String) → str_lt s s ≡ false
unfolding str_lt
str_lt_irrefl nil = refl
str_lt_irrefl (c :: s) = ground (arith, str_lt_irrefl s)

pub str_lt_total : (s t : String) → str_lt s t ≡ false → str_lt t s ≡ false → s ≡ t
unfolding str_lt
str_lt_total nil nil h k = refl
str_lt_total nil (d :: t) h k = cc
str_lt_total (c :: s) nil h k = cc
str_lt_total (c :: s) (d :: t) h k =
    ap₂ ◌::◌ (Char-path c d (ground arith)) (str_lt_total s t (ground arith) (ground arith))

-- Strictly ascending.
abbrev pub Above : String → List String → Type 0
Above k = All (λ j. str_lt k j ≡ true)

abbrev pub IsSorted : List String → Type 0
IsSorted [] = Unit
IsSorted (k ∷ ks) = Above k ks × IsSorted ks

pub Above-trans : (j k : String) (ks : List String) → str_lt j k ≡ true → Above k ks → Above j ks
Above-trans j k ks h = All-map _ _ ks (λ i. str_lt_trans j k i h)

abbrev pub contains : List String → String → Bool
contains [] k = false
contains (j ∷ ks) k = (j == k) || contains ks k

-- `ids.sort_by(|a, b| a.cmp(b))`: equal texts cannot be told apart, so any sort gives this result.
unfoldable pub insert_sorted : String → List String → List String
insert_sorted k [] = k ∷ []
insert_sorted k (j ∷ ks) = if str_lt j k then j ∷ insert_sorted k ks else k ∷ j ∷ ks

unfoldable pub sort : List String → List String
unfolding insert_sorted
sort [] = []
sort (k ∷ ks) = insert_sorted k (sort ks)

unfoldable pub drop_same : String → List String → List String
drop_same k [] = k ∷ []
drop_same k (j ∷ ks) = if k == j then j ∷ ks else k ∷ j ∷ ks

-- `ids.dedup()`: of each run of equal texts one is kept.
unfoldable pub dedup : List String → List String
unfolding drop_same
dedup [] = []
dedup (k ∷ ks) = drop_same k (dedup ks)

-- `BTreeMap<String, V>`.
module _ {ℓ} {V : Type ℓ} where
  abbrev pub keys : List (String × V) → List String
  keys [] = []
  keys ((k, v) ∷ m) = k ∷ keys m

  abbrev pub values : List (String × V) → List V
  values [] = []
  values ((k, v) ∷ m) = v ∷ values m

  unfoldable pub lookup : String → List (String × V) → Option V
  lookup key [] = none
  lookup key ((first, value) ∷ entries) =
      let later = lookup key entries in if first == key then some value else later

  -- `BTreeMap::insert`: a key that is there has its value replaced.
  unfoldable pub insert : String → V → List (String × V) → List (String × V)
  insert key value [] = (key, value) ∷ []
  insert key value ((first, w) ∷ entries) =
      let later = insert key value entries in
      if first == key
      then (key, value) ∷ entries
      else if str_lt key first
      then (key, value) ∷ (first, w) ∷ entries
      else (first, w) ∷ later

  -- `HashMap::remove`; a key occurs once.
  unfoldable pub remove : String → List (String × V) → List (String × V)
  remove k [] = []
  remove k ((j, v) ∷ m) = let rest = remove k m in if j == k then rest else (j, v) ∷ rest

  -- `HashMap::insert`, of which only the lookups are observed: entries have no order.
  unfoldable pub put : String → V → List (String × V) → List (String × V)
  unfolding remove
  put k v m = (k, v) ∷ remove k m
