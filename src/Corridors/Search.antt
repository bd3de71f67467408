-- ===== src/Corridors/Search.antt =====
-- The search by falling priority (internal/corridors/corridor.go, `getBestCorridor`) and the order
-- of `finalizeCorridorCacheByType`.
use torq.Prelude.{
  ℕ, ◌≤◌, ltb, ◌≡◌, refl, ◌⊎◌, inl, inr, true, false, Bool-cases, Option, none, some, Option-cases,
  List, [], ◌∷◌, arith, All, subst, ap, ◌∙◌, nat_eq,
}
use torq.Prelude.Map.{Map, lookup, keys, All-lookup}
use torq.Corridors.Types.{key_eq, type_eq, CorridorKey, Corridor}
use torq.Corridors.Cache.{
  insert_sorted, sort_descending, is_match, find_entry, find_corridor, Staging, entries,
}

-- No element is below a later one.
abbrev pub IsDescending : List ℕ → Type 0
IsDescending [] = Unit
IsDescending (k ∷ l) = All (λ j. j ≤ k) l × IsDescending l

module _ {κ} (P : ℕ → Type κ) where
  All-insert_sorted : (k : ℕ) (l : List ℕ) → P k → All P l → All P (insert_sorted k l)
  unfolding insert_sorted
  All-insert_sorted k [] g h = (g, tt)
  All-insert_sorted k (j ∷ l) g h = elim (Bool-cases (ltb k j)) [
    | inl below ↦ rw below (h.0, All-insert_sorted k l g h.1)
    | inr above ↦ rw above (g, h)
  ]

  All-of_insert_sorted : (k : ℕ) (l : List ℕ) → All P (insert_sorted k l) → P k × All P l
  unfolding insert_sorted
  All-of_insert_sorted k [] h = h
  All-of_insert_sorted k (j ∷ l) h = elim (Bool-cases (ltb k j)) [
    | inl below ↦
        let e : insert_sorted k (j ∷ l) ≡ j ∷ insert_sorted k l = rw below refl in
        let g : All P (j ∷ insert_sorted k l) = subst (All P) e h in
        let r = All-of_insert_sorted k l g.1 in (r.0, (g.0, r.1))
    | inr above ↦ let e : insert_sorted k (j ∷ l) ≡ k ∷ j ∷ l = rw above refl in subst (All P) e h
  ]

  -- Sorting loses no key.
  pub All-of_sort_descending : (l : List ℕ) → All P (sort_descending l) → All P l
  unfolding sort_descending
  All-of_sort_descending [] h = tt
  All-of_sort_descending (k ∷ l) h =
      let r = All-of_insert_sorted k (sort_descending l) h in (r.0, All-of_sort_descending l r.1)

All-le : (j k : ℕ) (l : List ℕ) → j ≤ k → All (λ i. i ≤ j) l → All (λ i. i ≤ k) l
All-le j k [] h g = tt
All-le j k (i ∷ l) h g = let a : i ≤ j = g.0 in (omega (arith, a, h), All-le j k l h g.1)

insert_sorted-IsDescending :
    (k : ℕ) (l : List ℕ) → IsDescending l → IsDescending (insert_sorted k l)
unfolding insert_sorted
insert_sorted-IsDescending k [] h = (tt, tt)
insert_sorted-IsDescending k (j ∷ l) h = elim (Bool-cases (ltb k j)) [
  | inl below ↦
      let le : k ≤ j = ground arith in
      rw below (All-insert_sorted (λ i. i ≤ j) k l le h.0, insert_sorted-IsDescending k l h.1)
  | inr above ↦ let le : j ≤ k = ground arith in rw above ((le, All-le j k l le h.0), h)
]

pub sort_descending-IsDescending : (l : List ℕ) → IsDescending (sort_descending l)
unfolding sort_descending
sort_descending-IsDescending [] = tt
sort_descending-IsDescending (k ∷ l) =
    insert_sorted-IsDescending k (sort_descending l) (sort_descending-IsDescending l)

-- An entry that is found is one of the list, and matches.
pub find_entry-found :
    (P : CorridorKey → Corridor → Type 0) (key : CorridorKey) (p : ℕ) (m : Map CorridorKey Corridor)
    (c : Corridor)
    → All (λ e. P e.0 e.1) m
    → find_entry key p m ≡ some c
    → (k : CorridorKey) × P k c × (is_match key p k c ≡ true)
unfolding find_entry
find_entry-found P key p [] c h found = cc
find_entry-found P key p ((k, d) ∷ m) c h found = elim (Bool-cases (is_match key p k d)) [
  | inl match ↦
      let e : d ≡ c = ground (arith, match, found) in
      (k, subst (P k) e h.0, subst (λ x. is_match key p k x ≡ true) e match)
  | inr other ↦
      let rest : find_entry key p m ≡ some c = ground (arith, other, found) in
      find_entry-found P key p m c h.1 rest
]

-- Where nothing is found, what the map holds does not match.
pub find_entry-none :
    (key k : CorridorKey) (p : ℕ) (m : Map CorridorKey Corridor) (c : Corridor)
    → find_entry key p m ≡ none
    → lookup k m ≡ some c
    → is_match key p k c ≡ false
unfolding find_entry
find_entry-none key k p m c h =
    All-lookup (λ e. is_match key p e.0 e.1 ≡ false) k c m (no_match m h)
  where
    no_match :
        (l : Map CorridorKey Corridor)
        → find_entry key p l ≡ none
        → All (λ e. is_match key p e.0 e.1 ≡ false) l
    no_match [] g = tt
    no_match ((j, d) ∷ l) g = elim (Bool-cases (is_match key p j d)) [
      | inl match ↦ ground (arith, match, g)
      | inr other ↦
          let rest : find_entry key p l ≡ none = ground (arith, other, g) in
          (other, no_match l rest)
    ]

-- What the search finds at one priority.
abbrev pub at : CorridorKey → Staging → ℕ → Option Corridor
at key s p = find_entry key p (entries (lookup p s))

All-lower :
    (key : CorridorKey) (s : Staging) (p : ℕ) (l : List ℕ)
    → All (λ q. q ≤ p) l
    → All (λ q. (q ≤ p) ⊎ (at key s q ≡ none)) l
All-lower key s p [] h = tt
All-lower key s p (q ∷ l) h = (inl h.0, All-lower key s p l h.1)

-- Nothing is found at a higher priority.
pub find_corridor-found :
    (key : CorridorKey) (s : Staging) (l : List ℕ) (c : Corridor)
    → IsDescending l
    → find_corridor key s l ≡ some c
    → (p : ℕ) × (at key s p ≡ some c) × All (λ q. (q ≤ p) ⊎ (at key s q ≡ none)) l
unfolding find_corridor
find_corridor-found key s [] c d h = cc
find_corridor-found key s (p ∷ l) c d h = elim (Option-cases (at key s p)) [
  | inl missing ↦
      let rest : find_corridor key s l ≡ some c = ground (arith, missing, h) in
      let r = find_corridor-found key s l c d.1 rest in (r.0, r.1, (inr missing, r.2))
  | inr (b, found) ↦
      let e : b ≡ c = ground (arith, found, h) in
      (p, found ∙ ap some e, (inl (omega arith), All-lower key s p l d.0))
]

pub find_corridor-none :
    (key : CorridorKey) (s : Staging) (l : List ℕ)
    → find_corridor key s l ≡ none
    → All (λ q. at key s q ≡ none) l
unfolding find_corridor
find_corridor-none key s [] h = tt
find_corridor-none key s (p ∷ l) h = elim (Option-cases (at key s p)) [
  | inl missing ↦
      let rest : find_corridor key s l ≡ none = ground (arith, missing, h) in
      (missing, find_corridor-none key s l rest)
  | inr (b, found) ↦ ground (arith, found, h)
]

-- What holds of every key of the map holds of one that it has.
pub keys-lookup {κ} :
    (P : ℕ → Type κ) (s : Staging) (p : ℕ) (m : Map CorridorKey Corridor)
    → All P (keys s)
    → lookup p s ≡ some m
    → P p
keys-lookup P s p m h = All-lookup (λ e. P e.0) p m s (of_keys s h)
  where
    of_keys : (l : Staging) → All P (keys l) → All (λ e. P e.0) l
    of_keys [] g = tt
    of_keys (e ∷ l) g = (g.0, of_keys l g.1)
