-- ===== src/Services/Merge.antt =====
-- What the statuses of a service and of its streams come to (pkg/commons/services.go, the loops of
-- `GetStatus` and `GetChannelBalanceCacheStreamStatus`).
use mathlib.Core.List.Memᴰ.{head, tail}
use torq.Prelude.{
  ℕ, ◌≡◌, refl, ◌≢◌, ◌⊎◌, ◌↔◌, inl, inr, true, false, Bool-cases, Option, none, some, List, [], ◌∷◌,
  Memᴰ, arith, All, sym, ap, ◌∙◌, nat_eq, ==_iff, ◌==◌, if◌then◌else◌,
}
use torq.Constants.{
  Status, inactive, active, pending, deleted, initializing, status_eq, status_code, is_active,
}
use torq.Services.Reads.{all_active, merge_statuses, all_active}

status_cases : (s : Status) → (s ≡ active) ⊎ ((s ≢ active) × (is_active s ≡ false))
status_cases active = inl refl
status_cases inactive = inr (λ h. cc, refl)
status_cases pending = inr (λ h. cc, refl)
status_cases deleted = inr (λ h. cc, refl)
status_cases initializing = inr (λ h. cc, refl)

abbrev of_code : ℕ → Status
of_code i =
    if i == 0
    then inactive
    else if i == 1
    then active
    else if i == 2
    then pending
    else if i == 3
    then deleted
    else initializing

of_code-status_code : (s : Status) → of_code (status_code s) ≡ s
of_code-status_code inactive = refl
of_code-status_code active = refl
of_code-status_code pending = refl
of_code-status_code deleted = refl
of_code-status_code initializing = refl

pub status_eq_iff : (s t : Status) → (status_eq s t ≡ true) ↔ (s ≡ t)
status_eq_iff s t = (sound, λ e. (==_iff (status_code s) (status_code t)).1 (ap status_code e))
  where
    sound : status_eq s t ≡ true → s ≡ t
    sound h =
        sym (of_code-status_code s)
        ∙ ap of_code ((==_iff (status_code s) (status_code t)).0 h)
        ∙ of_code-status_code t

not_active : (s : Status) → s ≢ active → is_active s ≡ false
not_active s n = elim (status_cases s) [ inl e ↦ elim (n e) [ ] | inr p ↦ p.1 ]

-- One turn of the loop.
merge-skip :
    (acc : Option Status) (l : List Status) → merge_statuses acc (active ∷ l) ≡ merge_statuses acc l
unfolding merge_statuses
merge-skip acc l = refl

merge-first :
    (s : Status) (l : List Status)
    → s ≢ active
    → merge_statuses none (s ∷ l) ≡ merge_statuses (some s) l
unfolding merge_statuses
merge-first s l n =
    let a : is_active s ≡ false = not_active s n in
    let b : status_eq s s ≡ true = (status_eq_iff s s).1 refl in rw (a, b) refl

merge-same :
    (s : Status) (l : List Status)
    → s ≢ active
    → merge_statuses (some s) (s ∷ l) ≡ merge_statuses (some s) l
unfolding merge_statuses
merge-same s l n =
    let a : is_active s ≡ false = not_active s n in
    let b : status_eq s s ≡ true = (status_eq_iff s s).1 refl in rw (a, b) refl

merge-differ :
    (s t : Status) (l : List Status)
    → t ≢ active
    → t ≢ s
    → merge_statuses (some s) (t ∷ l) ≡ pending
unfolding merge_statuses
merge-differ s t l n d =
    let a : is_active t ≡ false = not_active t n in
    elim (Bool-cases (status_eq s t)) [
      | inl e ↦ elim (d (sym ((status_eq_iff s t).0 e))) [ ]
      | inr b ↦ rw (a, b) refl
    ]

abbrev pub IsActiveOr : Status → Status → Type 0
IsActiveOr s t = (t ≡ active) ⊎ (t ≡ s)

-- Where all are active.
pub merge-active : (l : List Status) → All (λ t. t ≡ active) l → merge_statuses none l ≡ active
unfolding merge_statuses
merge-active [] h = refl
merge-active (t ∷ l) h = let e : t ≡ active = h.0 in rw e (merge-active l h.1)

-- Where all that are not active are s, which was met.
merge_repeated :
    (s : Status) (l : List Status)
    → s ≢ active
    → All (IsActiveOr s) l
    → merge_statuses (some s) l ≡ s
unfolding merge_statuses
merge_repeated s [] n h = refl
merge_repeated s (t ∷ l) n h =
    let rest = merge_repeated s l n h.1 in
    elim h.0 [
      | inl e ↦ ap (λ x. merge_statuses (some s) (x ∷ l)) e ∙ merge-skip (some s) l ∙ rest
      | inr e ↦ ap (λ x. merge_statuses (some s) (x ∷ l)) e ∙ merge-same s l n ∙ rest
    ]

-- Where s was met and another comes.
merge-other :
    (s t : Status) (l : List Status)
    → s ≢ active
    → Memᴰ t l
    → t ≢ active
    → t ≢ s
    → merge_statuses (some s) l ≡ pending
merge-other s t [] n at m d = elim at [ ]
merge-other s t (x ∷ l) n (head e) m d =
    ap (λ y. merge_statuses (some s) (y ∷ l)) (sym e) ∙ merge-differ s t l m d
merge-other s t (x ∷ l) n (tail at) m d = elim (status_cases x) [
  | inl e ↦
      ap (λ y. merge_statuses (some s) (y ∷ l)) e
      ∙ merge-skip (some s) l
      ∙ merge-other s t l n at m d
  | inr p ↦ elim (Bool-cases (status_eq x s)) [
    | inl b ↦
        ap (λ y. merge_statuses (some s) (y ∷ l)) ((status_eq_iff x s).0 b)
        ∙ merge-same s l n
        ∙ merge-other s t l n at m d
    | inr b ↦ merge-differ s x l p.0 (λ e. let c = (status_eq_iff x s).1 e in ground arith)
  ]
]

-- Where one status that is not active is there, and all others are active or the same.
pub merge-one :
    (s : Status) (l : List Status)
    → Memᴰ s l
    → s ≢ active
    → All (IsActiveOr s) l
    → merge_statuses none l ≡ s
merge-one s [] at n h = elim at [ ]
merge-one s (x ∷ l) (head e) n h =
    ap (λ y. merge_statuses none (y ∷ l)) (sym e) ∙ merge-first s l n ∙ merge_repeated s l n h.1
merge-one s (x ∷ l) (tail at) n h = elim h.0 [
  | inl e ↦ ap (λ y. merge_statuses none (y ∷ l)) e ∙ merge-skip none l ∙ merge-one s l at n h.1
  | inr e ↦ ap (λ y. merge_statuses none (y ∷ l)) e ∙ merge-first s l n ∙ merge_repeated s l n h.1
]

-- Where two that are not active differ.
pub merge-two :
    (s t : Status) (l : List Status)
    → Memᴰ s l
    → Memᴰ t l
    → s ≢ active
    → t ≢ active
    → s ≢ t
    → merge_statuses none l ≡ pending
merge-two s t [] at_s at_t n m d = elim at_s [ ]
merge-two s t (x ∷ l) (head e) (head f) n m d = elim (d (e ∙ sym f)) [ ]
merge-two s t (x ∷ l) (head e) (tail at) n m d =
    ap (λ y. merge_statuses none (y ∷ l)) (sym e)
    ∙ merge-first s l n
    ∙ merge-other s t l n at m (λ h. d (sym h))
merge-two s t (x ∷ l) (tail at) (head f) n m d =
    ap (λ y. merge_statuses none (y ∷ l)) (sym f) ∙ merge-first t l m ∙ merge-other t s l m at n d
merge-two s t (x ∷ l) (tail at_s) (tail at_t) n m d = elim (status_cases x) [
  | inl e ↦
      ap (λ y. merge_statuses none (y ∷ l)) e ∙ merge-skip none l ∙ merge-two s t l at_s at_t n m d
  | inr p ↦ merge-first x l p.0 ∙ elim (Bool-cases (status_eq s x)) [
    | inl b ↦ let e = (status_eq_iff s x).0 b in merge-other x t l p.0 at_t m (λ h. d (e ∙ sym h))
    | inr b ↦ merge-other x s l p.0 at_s n (λ e. let c = (status_eq_iff s x).1 e in ground arith)
  ]
]

-- Once a status that is not active is met, the answer is not Active.
merge-not_active : (s : Status) (l : List Status) → s ≢ active → merge_statuses (some s) l ≢ active
merge-not_active s [] n h = n (sym merge-last ∙ h)
  where
    merge-last : merge_statuses (some s) [] ≡ s
    merge-last = merge_repeated s [] n tt
merge-not_active s (x ∷ l) n h = elim (status_cases x) [
  | inl e ↦
      merge-not_active s l n
        (sym (merge-skip (some s) l) ∙ ap (λ y. merge_statuses (some s) (y ∷ l)) (sym e) ∙ h)
  | inr p ↦ elim (Bool-cases (status_eq x s)) [
    | inl b ↦
        let e = (status_eq_iff x s).0 b in
        merge-not_active s l n
          (sym (merge-same s l n) ∙ ap (λ y. merge_statuses (some s) (y ∷ l)) (sym e) ∙ h)
    | inr b ↦
        let differ =
          merge-differ s x l p.0 (λ e. let c = (status_eq_iff x s).1 e in ground arith) in
        cc
  ]
]

-- The answer is Active just if all are.
pub merge_active_iff : (l : List Status) → (merge_statuses none l ≡ active) ↔ (all_active l ≡ true)
unfolding all_active
merge_active_iff l = (forward l, λ h. merge-active l (of_all l h))
  where
    forward : (k : List Status) → merge_statuses none k ≡ active → all_active k ≡ true
    forward [] h = refl
    forward (x ∷ k) h = elim (status_cases x) [
      | inl e ↦
          rw e (
            forward k (sym (merge-skip none k) ∙ ap (λ y. merge_statuses none (y ∷ k)) (sym e) ∙ h))
      | inr p ↦ elim (merge-not_active x k p.0 (sym (merge-first x k p.0) ∙ h)) [ ]
    ]

    of_all : (k : List Status) → all_active k ≡ true → All (λ t. t ≡ active) k
    of_all [] h = tt
    of_all (x ∷ k) h = elim (status_cases x) [
      | inl e ↦ (e, of_all k (ground (arith, e, h)))
      | inr p ↦ let e = p.1 in ground (arith, e, h)
    ]
