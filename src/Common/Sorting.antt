-- ===== src/Common/Sorting.antt =====
-- Sorting and deduplicating texts: the result is strictly ascending and has the same members.
use Prim.Native.String.{String}
use text.Mathlib.Text.{◌==◌}
use text.Mathlib.TextEquality.{eq_iff}
use mathlib.Core.Path.{◌≡◌, refl}
use mathlib.Core.Logic.{inl, inr}
use mathlib.Core.Bool.{true, false, ◌||◌}
use mathlib.Core.List.{List, [], ◌∷◌}
use native.Mathlib.Omega.{arith}
use langshell.Common.Tests.{Bool-cases}
use langshell.Common.Lists.{All, All-map}
use langshell.Common.Order.{
  str_lt, str_lt_total, str_lt_trans, str_lt_irrefl, Above-trans, IsSorted, contains, insert_sorted,
  sort, drop_same, dedup,
}

contains-insert_sorted :
    (k j : String) (ks : List String)
    → contains (insert_sorted k ks) j ≡ ((k == j) || contains ks j)
unfolding insert_sorted
contains-insert_sorted k j [] = refl
contains-insert_sorted k j (i ∷ ks) = ground (arith, contains-insert_sorted k j ks)

pub contains-sort : (j : String) (ks : List String) → contains (sort ks) j ≡ contains ks j
unfolding sort
contains-sort j [] = refl
contains-sort j (k ∷ ks) = ground (arith, contains-insert_sorted k j (sort ks), contains-sort j ks)

contains-drop_same :
    (k j : String) (ks : List String) → contains (drop_same k ks) j ≡ ((k == j) || contains ks j)
unfolding drop_same
contains-drop_same k j [] = refl
contains-drop_same k j (i ∷ ks) = ground (arith, eq_iff k i, eq_iff i j, eq_iff k j)

pub contains-dedup : (j : String) (ks : List String) → contains (dedup ks) j ≡ contains ks j
unfolding dedup
contains-dedup j [] = refl
contains-dedup j (k ∷ ks) = ground (arith, contains-drop_same k j (dedup ks), contains-dedup j ks)

str_lt_asymm : (s t : String) → str_lt s t ≡ true → str_lt t s ≡ false
str_lt_asymm s t h = ground (arith, str_lt_trans s t s h, str_lt_irrefl s)

not_lt_trans : (i j k : String) → str_lt i j ≡ false → str_lt j k ≡ false → str_lt i k ≡ false
not_lt_trans i j k h g = elim (Bool-cases (str_lt i k)) [
  | inl lt ↦ elim (Bool-cases (str_lt k j)) [
    | inl later ↦ ground (arith, str_lt_trans i k j lt later)
    | inr same ↦ rw (str_lt_total k j same g) h
  ]
  | inr done ↦ done
]

-- Ascending, with repeats.
abbrev pub NotBelow : String → List String → Type 0
NotBelow k = All (λ j. str_lt j k ≡ false)

abbrev pub IsOrdered : List String → Type 0
IsOrdered [] = Unit
IsOrdered (k ∷ ks) = NotBelow k ks × IsOrdered ks

NotBelow-insert_sorted :
    (i k : String) (ks : List String)
    → str_lt k i ≡ false
    → NotBelow i ks
    → NotBelow i (insert_sorted k ks)
unfolding insert_sorted
NotBelow-insert_sorted i k [] h a = (h, tt)
NotBelow-insert_sorted i k (j ∷ ks) h a = ground (arith, NotBelow-insert_sorted i k ks h a.1)

insert_sorted-IsOrdered :
    (k : String) (ks : List String) → IsOrdered ks → IsOrdered (insert_sorted k ks)
unfolding insert_sorted
insert_sorted-IsOrdered k [] o = (tt, tt)
insert_sorted-IsOrdered k (j ∷ ks) o = ground (
  arith,
  insert_sorted-IsOrdered k ks o.1,
  str_lt_asymm j k,
  NotBelow-insert_sorted j k ks,
  λ (g : str_lt j k ≡ false).
      All-map _ (λ i. str_lt i k ≡ false) ks (λ i h. not_lt_trans i j k h g) o.0,
)

pub sort-IsOrdered : (ks : List String) → IsOrdered (sort ks)
unfolding sort
sort-IsOrdered [] = tt
sort-IsOrdered (k ∷ ks) = insert_sorted-IsOrdered k (sort ks) (sort-IsOrdered ks)

NotBelow-drop_same :
    (i k : String) (ks : List String)
    → str_lt k i ≡ false
    → NotBelow i ks
    → NotBelow i (drop_same k ks)
unfolding drop_same
NotBelow-drop_same i k [] h a = (h, tt)
NotBelow-drop_same i k (j ∷ ks) h a = ground arith

NotBelow-dedup : (i : String) (ks : List String) → NotBelow i ks → NotBelow i (dedup ks)
unfolding dedup
NotBelow-dedup i [] a = tt
NotBelow-dedup i (k ∷ ks) a = NotBelow-drop_same i k (dedup ks) a.0 (NotBelow-dedup i ks a.1)

drop_same-IsSorted :
    (k : String) (ks : List String) → IsSorted ks → NotBelow k ks → IsSorted (drop_same k ks)
unfolding drop_same
drop_same-IsSorted k [] s a = (tt, tt)
drop_same-IsSorted k (j ∷ ks) s a = ground (arith, eq_iff k j, str_lt_total k j, Above-trans k j ks)

dedup-IsSorted : (ks : List String) → IsOrdered ks → IsSorted (dedup ks)
unfolding dedup
dedup-IsSorted [] o = tt
dedup-IsSorted (k ∷ ks) o =
    drop_same-IsSorted k (dedup ks) (dedup-IsSorted ks o.1) (NotBelow-dedup k ks o.0)

-- `sort` and then `dedup` leave each text once, in ascending order.
pub dedup-sort-IsSorted : (ks : List String) → IsSorted (dedup (sort ks))
dedup-sort-IsSorted ks = dedup-IsSorted (sort ks) (sort-IsOrdered ks)
