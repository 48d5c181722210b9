-- ===== src/Sdk/Sessions.antt =====
-- The sessions that `LangShell` lists and the snapshots that it finds.
use langshell.Common.{
  ◌≡◌, refl, ◌∙◌, ap, Bool, ◌||◌, String, List, [], ◌∷◌, ◌++◌, map, contains, contains-sort,
  contains-dedup, IsSorted, dedup, sort, dedup-sort-IsSorted, arith, any,
}
use langshell.Sdk.{LanguageRuntime, LangShell, string_ids, ids_or_none, collect_ids, list_sessions}

map-ids : (ids : List String) → string_ids (map (λ id. record { id = id }) ids) ≡ ids
map-ids [] = refl
map-ids (id ∷ ids) = ap (λ rest. id ∷ rest) (map-ids ids)

contains-append :
    (xs ys : List String) (k : String) → contains (xs ++ ys) k ≡ (contains xs k || contains ys k)
contains-append [] ys k = refl
contains-append (x ∷ xs) ys k = ground (arith, contains-append xs ys k)

module _ {S W : Type 0} (rt : LanguageRuntime S W) where
  -- Whether a runtime lists an id.
  abbrev pub lists : String → S → Bool
  lists k s = contains (ids_or_none rt (rt.list_sessions s)) k

  contains-collect_ids :
      (ss : List S) (k : String) → contains (collect_ids rt ss) k ≡ any (lists k) ss
  unfolding collect_ids
  contains-collect_ids [] k = refl
  contains-collect_ids (s ∷ ss) k =
      contains-append (ids_or_none rt (rt.list_sessions s)) (collect_ids rt ss) k
      ∙ ap (λ b. lists k s || b) (contains-collect_ids ss k)

  -- `list_sessions` gives its ids in strictly ascending order of their bytes, so that none is there twice,
  -- and an id is among them exactly when some runtime lists it without an error.
  pub list_sessions-IsSorted :
      (shell : LangShell S) (k : String)
      → IsSorted (string_ids (list_sessions rt shell))
        × (contains (string_ids (list_sessions rt shell)) k ≡ any (lists k) shell.runtimes)
  unfolding list_sessions
  list_sessions-IsSorted shell k =
      let ids = collect_ids rt shell.runtimes in
      rw (map-ids (dedup (sort ids))) (
        dedup-sort-IsSorted ids,
        contains-dedup k (sort ids) ∙ contains-sort k ids ∙ contains-collect_ids shell.runtimes k,
      )
