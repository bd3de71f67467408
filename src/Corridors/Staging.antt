-- ===== src/Corridors/Staging.antt =====
-- What the corridor cache holds after its rows are added (internal/corridors/corridor.go).
use mathlib.Core.List.Memᴰ.{head, tail}
use torq.Prelude.{
  ℕ, ◌≡◌, refl, sym, subst, inl, inr, true, false, Bool-cases, Option, some, Option-cases, List, [],
  ◌∷◌, Memᴰ, arith, All, ap, nat_eq, if◌then◌else◌, ◌==◌, ◌&&◌,
}
use torq.Prelude.Map.{Map, lookup, insert, All-insert, All-lookup, lookup-insert}
use torq.Corridors.Types.{key_eq, type_eq, CorridorKey, Corridor, same_key, same_key_iff}
use torq.Corridors.Priority.{calculate_priority}
use torq.Corridors.Cache.{
  construct_key, Staging, entries, put_corridor, add_to_corridor_cache, add_all,
}

-- An entry: a corridor with the property that is not inverse, under its priority and its key.
abbrev pub Stored : (Corridor → Type 0) → ℕ → CorridorKey → Corridor → Type 0
Stored P p k c = P c × (c.inverse ≡ false) × (calculate_priority c ≡ p) × (construct_key c ≡ k)

abbrev pub AllStored : (Corridor → Type 0) → ℕ → Map CorridorKey Corridor → Type 0
AllStored P p m = All (λ e. Stored P p e.0 e.1) m

abbrev pub IsSound : (Corridor → Type 0) → Staging → Type 0
IsSound P s = All (λ e. AllStored P e.0 e.1) s

-- Some corridor stands where c goes.
abbrev pub IsHeld : Corridor → Staging → Type 0
IsHeld c s =
    (d : Corridor) × (lookup (construct_key c) (entries (lookup (calculate_priority c) s)) ≡ some d)

add-direct :
    (c : Corridor) (s : Staging) → c.inverse ≡ false → add_to_corridor_cache c s ≡ put_corridor c s
unfolding add_to_corridor_cache
add-direct c s h = ap (λ b. if b then s else put_corridor c s) h

add-inverse : (c : Corridor) (s : Staging) → c.inverse ≡ true → add_to_corridor_cache c s ≡ s
unfolding add_to_corridor_cache
add-inverse c s h = ap (λ b. if b then s else put_corridor c s) h

module _ (P : Corridor → Type 0) where
  pub entries-AllStored : (s : Staging) (p : ℕ) → IsSound P s → AllStored P p (entries (lookup p s))
  entries-AllStored s p h = elim (Option-cases (lookup p s)) [
    | inl missing ↦ rw missing tt
    | inr (m, found) ↦ rw found (All-lookup (λ e. AllStored P e.0 e.1) p m s h found)
  ]

  pub add_to_corridor_cache-IsSound :
      (c : Corridor) (s : Staging) → P c → IsSound P s → IsSound P (add_to_corridor_cache c s)
  add_to_corridor_cache-IsSound c s given h = elim (Bool-cases c.inverse) [
    | inl inverse ↦ subst (IsSound P) (sym (add-inverse c s inverse)) h
    | inr direct ↦
        let p = calculate_priority c in
        let old = entries (lookup p s) in
        let inner =
          All-insert (λ e. Stored P p e.0 e.1) (construct_key c) c old (entries-AllStored s p h)
            (given, direct, refl, refl) in
        subst (IsSound P) (sym (add-direct c s direct))
          (All-insert (λ e. AllStored P e.0 e.1) p (insert (construct_key c) c old) s h inner)
  ]

  pub add_all-IsSound :
      (rows : List Corridor) (s : Staging) → All P rows → IsSound P s → IsSound P (add_all rows s)
  unfolding add_all
  add_all-IsSound [] s given h = h
  add_all-IsSound (c ∷ rows) s given h =
      add_all-IsSound rows (add_to_corridor_cache c s) given.1
        (add_to_corridor_cache-IsSound c s given.0 h)

-- What a priority and a key hold.
abbrev held_at : ℕ → CorridorKey → Staging → Option Corridor
held_at p k s = lookup k (entries (lookup p s))

-- What a row changes there.
held_at-put :
    (c : Corridor) (s : Staging) (p : ℕ) (k : CorridorKey)
    → held_at p k (put_corridor c s) ≡ (
        if calculate_priority c == p && same_key (construct_key c) k then some c else held_at p k s)
held_at-put c s p k =
    let q = calculate_priority c in
    let outer = lookup-insert q p (insert (construct_key c) c (entries (lookup q s))) s in
    let inner = lookup-insert (construct_key c) k c (entries (lookup q s)) in
    ground (arith, outer, inner)

add-own : (c : Corridor) (s : Staging) → c.inverse ≡ false → IsHeld c (add_to_corridor_cache c s)
add-own c s direct =
    let e = held_at-put c s (calculate_priority c) (construct_key c) in
    let k = same_key_iff (construct_key c) (construct_key c) in
    (c, rw (add-direct c s direct) (ground (arith, e, k)))

add-IsHeld : (c d : Corridor) (s : Staging) → IsHeld d s → IsHeld d (add_to_corridor_cache c s)
add-IsHeld c d s h = elim (Bool-cases c.inverse) [
  | inl inverse ↦ subst (IsHeld d) (sym (add-inverse c s inverse)) h
  | inr direct ↦
      let e = held_at-put c s (calculate_priority d) (construct_key d) in
      subst (IsHeld d) (sym (add-direct c s direct))
        (elim (Bool-cases (
          calculate_priority c == calculate_priority d
          && same_key (construct_key c) (construct_key d))) [
            | inl same ↦ (c, ground (arith, e, same))
            | inr other ↦ (h.0, ground (arith, e, other, h.1))
          ])
]

add_all-keeps :
    (rows : List Corridor) (c : Corridor) (s : Staging) → IsHeld c s → IsHeld c (add_all rows s)
unfolding add_all
add_all-keeps [] c s h = h
add_all-keeps (d ∷ rows) c s h =
    add_all-keeps rows c (add_to_corridor_cache d s) (add-IsHeld d c s h)

-- Every row that is not inverse has an entry under its priority and its key, its own or a later one.
pub add_all-IsHeld :
    (rows : List Corridor) (c : Corridor) (s : Staging)
    → Memᴰ c rows
    → c.inverse ≡ false
    → IsHeld c (add_all rows s)
unfolding add_all
add_all-IsHeld [] c s at direct = elim at [ ]
add_all-IsHeld (d ∷ rows) c s (head e) direct =
    subst (λ x. IsHeld c (add_all rows (add_to_corridor_cache x s))) e
      (add_all-keeps rows c (add_to_corridor_cache c s) (add-own c s direct))
add_all-IsHeld (d ∷ rows) c s (tail t) direct =
    add_all-IsHeld rows c (add_to_corridor_cache d s) t direct
