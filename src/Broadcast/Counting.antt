-- ===== src/Broadcast/Counting.antt =====
-- How often a channel stands among the listeners (pkg/broadcast/broadcast.go), under the changes
-- that the loop makes.
use torq.Prelude.{
  ℕ, zero, suc, ◌+◌, ◌≤◌, ◌≡◌, refl, ap, Bool, true, false, Option, none, some, Option-cases, inl,
  inr, Bool-cases, List, [], ◌∷◌, ◌++◌, arith, ◌==◌, ==_iff, any,
}
use torq.Broadcast.Serve.{same_channel, position, set_at, last_or, drop_last}

abbrev pub one_if : Bool → ℕ
one_if true = 1
one_if false = 0

unfoldable pub count : Option ℕ → List (Option ℕ) → ℕ
count ch [] = 0
count ch (x ∷ l) = one_if (same_channel x ch) + count ch l

pub count-append :
    (ch : Option ℕ) (a b : List (Option ℕ)) → count ch (a ++ b) ≡ count ch a + count ch b
unfolding count
count-append ch [] b = omega arith
count-append ch (x ∷ a) b = omega (arith, count-append ch a b)

pub same_channel_sound : (a b : Option ℕ) → same_channel a b ≡ true → a ≡ b
same_channel_sound none none h = refl
same_channel_sound none (some b) h = cc
same_channel_sound (some a) none h = cc
same_channel_sound (some a) (some b) h = ap some ((==_iff a b).0 h)

count-set_at :
    (y x z : Option ℕ) (i : ℕ) (l : List (Option ℕ))
    → position x l ≡ some i
    → count y (set_at i z l) + one_if (same_channel x y) ≡ count y l + one_if (same_channel z y)
unfolding count position set_at
count-set_at y x z i [] h = cc
count-set_at y x z zero (w ∷ l) h = elim (Bool-cases (same_channel w x)) [
  | inl same ↦
      let e : one_if (same_channel w y) ≡ one_if (same_channel x y) =
        ap (λ c. one_if (same_channel c y)) (same_channel_sound w x same) in
      omega (arith, e)
  | inr other ↦ elim (Option-cases (position x l)) [
    | inl absent ↦ let clash = rw (other, absent) at h in cc
    | inr (k, at) ↦ let clash = rw (other, at) at h in cc
  ]
]
count-set_at y x z (suc i) (w ∷ l) h = elim (Bool-cases (same_channel w x)) [
  | inl same ↦ let clash = rw same at h in cc
  | inr other ↦ elim (Option-cases (position x l)) [
    | inl absent ↦ let clash = rw (other, absent) at h in cc
    | inr (k, at) ↦
        let there = rw (other, at) at h in
        let index : position x l ≡ some i = ground (arith, at) in
        omega (arith, count-set_at y x z i l index)
  ]
]

count-drop_last :
    (y x : Option ℕ) (l : List (Option ℕ))
    → count y (drop_last (x ∷ l)) + one_if (same_channel (last_or x l) y) ≡ count y (x ∷ l)
unfolding count drop_last last_or
count-drop_last y x [] = omega arith
count-drop_last y x (z ∷ l) = omega (arith, count-drop_last y z l)

-- The last element stays the last where it also takes another place.
last-set_at :
    (d x w : Option ℕ) (i : ℕ) (l : List (Option ℕ))
    → last_or d (set_at i (last_or x (w ∷ l)) (w ∷ l)) ≡ last_or x (w ∷ l)
unfolding last_or set_at
last-set_at d x w zero [] = refl
last-set_at d x w (suc i) [] = refl
last-set_at d x w zero (v ∷ l) = refl
last-set_at d x w (suc i) (v ∷ l) = last-set_at w w v i l

position_empty : (x : Option ℕ) (i : ℕ) → ¬ (position x [] ≡ some i)
unfolding position
position_empty x i h = cc

-- The removal by the last element takes one occurrence away.
pub count-removed :
    (y x : Option ℕ) (i : ℕ) (l : List (Option ℕ))
    → position x l ≡ some i
    → count y (drop_last (set_at i (last_or x l) l)) + one_if (same_channel x y) ≡ count y l
unfolding set_at last_or
count-removed y x i [] h = absurd (position_empty x i h)
count-removed y x zero (w ∷ l) h =
    let z = last_or w l in
    let last : one_if (same_channel (last_or z l) y) ≡ one_if (same_channel z y) =
      ap (λ c. one_if (same_channel c y)) (last-set_at x x w zero l) in
    omega (arith, count-drop_last y z l, count-set_at y x z zero (w ∷ l) h, last)
count-removed y x (suc i) (w ∷ l) h =
    let z = last_or w l in
    let last : one_if (same_channel (last_or w (set_at i z l)) y) ≡ one_if (same_channel z y) =
      ap (λ c. one_if (same_channel c y)) (last-set_at x x w (suc i) l) in
    omega (arith, count-drop_last y w (set_at i z l), count-set_at y x z (suc i) (w ∷ l) h, last)

-- A channel that has no position is not there.
pub count_absent : (x : Option ℕ) (l : List (Option ℕ)) → position x l ≡ none → count x l ≡ 0
unfolding count position
count_absent x [] h = refl
count_absent x (w ∷ l) h = elim (Bool-cases (same_channel w x)) [
  | inl same ↦ let clash = rw same at h in cc
  | inr other ↦ elim (Option-cases (position x l)) [
    | inl absent ↦ let rest = count_absent x l absent in rw other (omega (arith, rest))
    | inr (k, at) ↦ let clash = rw (other, at) at h in cc
  ]
]

pub same_channel_self : (x : Option ℕ) → same_channel x x ≡ true
same_channel_self none = refl
same_channel_self (some a) = (==_iff a a).1 refl

-- A channel that has a position is there.
pub count_present :
    (x : Option ℕ) (i : ℕ) (l : List (Option ℕ)) → position x l ≡ some i → 1 ≤ count x l
count_present x i l h =
    let self : one_if (same_channel x x) ≡ 1 = ap one_if (same_channel_self x) in
    omega (arith, count-removed x x i l h, self)

-- How often a channel was closed.
unfoldable pub closings : ℕ → List ℕ → ℕ
closings y [] = 0
closings y (x ∷ l) = one_if (x == y) + closings y l

pub closings_none : (y : ℕ) (l : List ℕ) → closings y l ≡ 0 → any (λ x. x == y) l ≡ false
unfolding closings any
closings_none y [] h = refl
closings_none y (x ∷ l) h = ground (arith, closings_none y l)
