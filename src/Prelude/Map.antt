-- ===== src/Prelude/Map.antt =====
-- A Go map as an association list. `range` walks it in list order, where Go leaves the order open.
use mathlib.Core.Path.{◌≡◌, refl, subst}
use mathlib.Core.Logic.{inl, inr}
use mathlib.Core.Option.{Option, none, some}
use mathlib.Core.List.{List, [], ◌∷◌, map}
use native.Mathlib.Omega.{arith}
use torq.Prelude.Tests.{if◌then◌else◌, Bool-cases}
use torq.Prelude.Lists.{All}
use torq.Prelude.Equality.{Eq}

abbrev pub Map {ℓ κ} : Type ℓ → Type κ → Type (ℓ ⊔ κ)
Map K V = List (K × V)

module _ {ℓ κ} {K : Type ℓ} {V : Type κ} where
  abbrev pub values : Map K V → List V
  values m = map (λ e. e.1) m

  abbrev pub keys : Map K V → List K
  keys m = map (λ e. e.0) m

module _ {ℓ κ} {K : Type ℓ} {V : Type κ} ⦃e : Eq K⦄ where
  -- `v, exists := m[k]`
  unfoldable pub lookup : K → Map K V → Option V
  lookup k [] = none
  lookup k ((j, v) ∷ m) = if e.beq j k then some v else lookup k m

  -- `m[k] = v`
  unfoldable pub insert : K → V → Map K V → Map K V
  insert k v [] = (k, v) ∷ []
  insert k v ((j, w) ∷ m) = if e.beq j k then (k, v) ∷ m else (j, w) ∷ insert k v m

  -- `delete(m, k)`
  unfoldable pub delete : K → Map K V → Map K V
  delete k [] = []
  delete k ((j, w) ∷ m) = let rest = delete k m in if e.beq j k then rest else (j, w) ∷ rest

  pub lookup-insert :
      (k j : K) (v : V) (m : Map K V)
      → lookup j (insert k v m) ≡ (if e.beq k j then some v else lookup j m)
  unfolding lookup insert
  lookup-insert k j v [] = refl
  lookup-insert k j v ((i, w) ∷ m) =
      ground (arith, e.beq_iff k j, e.beq_iff i k, e.beq_iff i j, lookup-insert k j v m)

  pub lookup-delete :
      (k j : K) (m : Map K V) → lookup j (delete k m) ≡ (if e.beq k j then none else lookup j m)
  unfolding lookup delete
  lookup-delete k j [] = ground arith
  lookup-delete k j ((i, w) ∷ m) =
      ground (arith, e.beq_iff k j, e.beq_iff i k, e.beq_iff i j, lookup-delete k j m)

  module _ {μ} (P : K × V → Type μ) where
    -- A property of all entries, as the list holds them.
    pub All-insert : (k : K) (v : V) (m : Map K V) → All P m → P (k, v) → All P (insert k v m)
    unfolding insert
    All-insert k v [] h g = (g, tt)
    All-insert k v ((j, w) ∷ m) h g = elim (Bool-cases (e.beq j k)) [
      | inl same ↦ rw same (g, h.1)
      | inr other ↦ rw other (h.0, All-insert k v m h.1 g)
    ]

    pub All-lookup : (k : K) (v : V) (m : Map K V) → All P m → lookup k m ≡ some v → P (k, v)
    unfolding lookup
    All-lookup k v [] h found = cc
    All-lookup k v ((j, w) ∷ m) h found = elim (Bool-cases (e.beq j k)) [
      | inl same ↦
          let key : j ≡ k = (e.beq_iff j k).0 same in
          let value : w ≡ v = ground arith in
          subst (λ i. P (i, v)) key (subst (λ u. P (j, u)) value h.0)
      | inr other ↦ let rest : lookup k m ≡ some v = ground arith in All-lookup k v m h.1 rest
    ]

  -- A Go map has one entry for a key.
  abbrev pub HasOneEach : Map K V → Type κ
  HasOneEach [] = Unit
  HasOneEach ((k, v) ∷ m) = (lookup k m ≡ none) × HasOneEach m
