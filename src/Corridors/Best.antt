-- ===== src/Corridors/Best.antt =====
-- The corridor that a key gets (internal/corridors/corridor.go, `RefreshCorridorCacheByType` and
-- `GetBestCorridor`) against a description of the table's rows.
use torq.Prelude.{
  ℕ, ◌≤◌, ◌≡◌, refl, ◌≢◌, ◌⊎◌, inl, inr, true, false, Option, none, some, Option-cases, List, [],
  Memᴰ, arith, All, All-of_Memᴰ, All-Memᴰ, subst, sym, ap, ◌∙◌, nat_eq, ◌&&◌,
}
use torq.Prelude.Map.{lookup, keys, insert, lookup-insert, All-lookup}
use torq.Runtime.{returns}
use torq.Corridors.Types.{key_eq, CorridorKey, Corridor, type_eq}
use torq.Corridors.Priority.{calculate_priority, equals}
use torq.Corridors.Cache.{
  construct_key, value_of, Staging, entries, add_all, sort_descending, ByType, Cache,
  refresh_corridor_cache_by_type, finalize_corridor_cache_by_type, refers_to, is_match, find_entry,
  or_default, find_corridor, best_of, default_corridor, get_best_corridor,
}
use torq.Corridors.Staging.{Stored, IsSound, entries-AllStored, add_all-IsSound, add_all-IsHeld}
use torq.Corridors.Search.{
  at, find_entry-found, find_entry-none, find_corridor-found, find_corridor-none, keys-lookup,
  sort_descending-IsDescending, All-of_sort_descending,
}
use torq.Corridors.Fits.{Fits, IsOfType, construct_key-typed, is_match_iff}

-- The best of the rows: one that fits and that fixes the most important parts, or the default
-- where none fits.
abbrev pub IsBest : List Corridor → CorridorKey → Corridor → Type 0
IsBest rows key b =
    (Memᴰ b rows
      × Fits key b
      × ((c : Corridor) → Memᴰ c rows → Fits key c → calculate_priority c ≤ calculate_priority b))
    ⊎ ((b ≡ default_corridor key.corridor_type) × ((c : Corridor) → Memᴰ c rows → ¬ Fits key c))

-- What the refresh leaves for the type.
abbrev filled : List Corridor → ByType
filled rows =
    let s = add_all rows [] in record { cache_map = s; sorted_keys = sort_descending (keys s) }

value_of-some : (o : Option ℕ) (v : ℕ) → value_of o ≡ v → v ≢ 0 → o ≡ some v
value_of-some none v e nz = ground arith
value_of-some (some i) v e nz = ap some e

-- What holds of every key, and of each priority where nothing is found, holds everywhere.
everywhere :
    (key : CorridorKey) (s : Staging) (Q : ℕ → Type 0)
    → ((q : ℕ) → at key s q ≡ none → Q q)
    → All Q (keys s)
    → (p : ℕ) → Q p
unfolding find_entry
everywhere key s Q of_none h p = elim (Option-cases (lookup p s)) [
  | inl missing ↦ of_none p (ap (λ o. find_entry key p (entries o)) missing)
  | inr (m, found) ↦ keys-lookup Q s p m h found
]

module _ (rows : List Corridor) (key : CorridorKey)
    (typed : All (IsOfType key.corridor_type) rows) where
  abbrev staging : Staging
  staging = add_all rows []

  staging-IsSound : IsSound (λ c. Memᴰ c rows) staging
  staging-IsSound =
      add_all-IsSound (λ c. Memᴰ c rows) rows [] (All-of_Memᴰ (λ c. Memᴰ c rows) rows (λ c at. at))
        tt

  row_type : (c : Corridor) → Memᴰ c rows → IsOfType key.corridor_type c
  row_type c row = All-Memᴰ (IsOfType key.corridor_type) rows typed row

  -- What is found is a row that fits, at its own priority.
  at-Fits :
      (p : ℕ) (b : Corridor)
      → at key staging p ≡ some b
      → Memᴰ b rows × Fits key b × (calculate_priority b ≡ p)
  at-Fits p b found =
      let r =
        find_entry-found (Stored (λ c. Memᴰ c rows) p) key p (entries (lookup p staging)) b
          (entries-AllStored (λ c. Memᴰ c rows) staging p staging-IsSound) found in
      let test : is_match key (calculate_priority b) (construct_key b) b ≡ true =
        ap (λ q. is_match key q (construct_key b) b) r.1.2
        ∙ ap (λ k. is_match key p k b) r.1.3
        ∙ r.2 in
      (r.1.0, (is_match_iff key b (row_type b r.1.0) r.1.1).0 test, r.1.2)

  -- Where a row fits, something is found at its priority.
  at-not_none :
      (c : Corridor)
      → key.reference_id ≢ 0
      → Memᴰ c rows
      → Fits key c
      → at key staging (calculate_priority c) ≢ none
  at-not_none c nz row fits missing =
      let p = calculate_priority c in
      let k = construct_key c in
      let held = add_all-IsHeld rows c [] row fits.0 in
      let d = held.0 in
      let stored : Stored (λ x. Memᴰ x rows) p k d =
        All-lookup (λ e. Stored (λ x. Memᴰ x rows) p e.0 e.1) k d (entries (lookup p staging))
          (entries-AllStored (λ x. Memᴰ x rows) staging p staging-IsSound) held.1 in
      let key_d = construct_key-typed key.corridor_type d (row_type d stored.0) in
      let key_c = construct_key-typed key.corridor_type c (row_type c row) in
      let value : value_of d.reference_id ≡ key.reference_id =
        ap (λ x. x.reference_id) (sym key_d ∙ stored.3 ∙ key_c) ∙ ap value_of fits.1 in
      let refers : d.reference_id ≡ some key.reference_id =
        value_of-some d.reference_id key.reference_id value nz in
      let match_c = (is_match_iff key c (row_type c row) fits.0).1 fits in
      let match_d : is_match key p k d ≡ true =
        ap (λ o. refers_to o key.reference_id && equals key p k) (refers ∙ sym fits.1) ∙ match_c in
      let no_match = find_entry-none key k p (entries (lookup p staging)) d missing held.1 in cc

  best_of-IsBest : key.reference_id ≢ 0 → IsBest rows key (best_of key (filled rows))
  unfolding best_of
  best_of-IsBest nz =
      elim (Option-cases (find_corridor key staging (sort_descending (keys staging)))) [
        | inl missing ↦
            let all = find_corridor-none key staging (sort_descending (keys staging)) missing in
            let nowhere =
              everywhere key staging (λ q. at key staging q ≡ none) (λ q h. h)
                (All-of_sort_descending (λ q. at key staging q ≡ none) (keys staging) all) in
            inr (
              ap (or_default key.corridor_type) missing,
              λ c row fits. at-not_none c nz row fits (nowhere (calculate_priority c)),
            )
        | inr (b, found) ↦
            let sorted = sort_descending-IsDescending (keys staging) in
            let r =
              find_corridor-found key staging (sort_descending (keys staging)) b sorted found in
            let Q : ℕ → Type 0 = λ q. (q ≤ r.0) ⊎ (at key staging q ≡ none) in
            let above =
              everywhere key staging Q (λ q h. inr h)
                (All-of_sort_descending Q (keys staging) r.2) in
            let good = at-Fits r.0 b r.1 in
            subst (IsBest rows key) (sym (ap (or_default key.corridor_type) found)) (
              inl (
                good.0,
                good.1,
                λ c row fits. elim (above (calculate_priority c)) [
                  | inl le ↦ let e : calculate_priority b ≡ r.0 = good.2 in omega (arith, le, e)
                  | inr missing ↦ elim (at-not_none c nz row fits missing) [ ]
                ],
              ))
      ]

-- After a refresh of a cached type with rows of that type, the corridor of a key whose reference id
-- is not 0 is the best of the rows: it is a row that is not inverse, is about the key's thing and
-- agrees with the key on every part that it fixes, and no such row has a higher priority; or there
-- is no such row, and it is the type's default.
pub get_best_corridor-IsBest :
    (rows : List Corridor) (key : CorridorKey) (cache : Cache) (old : ByType)
    → All (IsOfType key.corridor_type) rows
    → key.reference_id ≢ 0
    → lookup key.corridor_type cache ≡ some old
    → (after : Cache) × (b : Corridor) × (refresh_corridor_cache_by_type key.corridor_type
          (some rows)
          cache
        ≡ returns (after, false))
      × (get_best_corridor key after ≡ returns b)
      × IsBest rows key b
unfolding refresh_corridor_cache_by_type finalize_corridor_cache_by_type get_best_corridor
get_best_corridor-IsBest rows key cache old typed nz found =
    let t = key.corridor_type in
    let read : lookup t (insert t (filled rows) cache) ≡ some (filled rows) =
      ground (arith, lookup-insert t t (filled rows) cache, type_eq.beq_iff t t) in
    (
      insert t (filled rows) cache,
      best_of key (filled rows),
      rw found refl,
      rw read refl,
      best_of-IsBest rows key typed nz,
    )
