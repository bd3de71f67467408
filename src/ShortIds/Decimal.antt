-- ===== src/ShortIds/Decimal.antt =====
-- Decimal numbers and their reading (pkg/commons/functions.go).
use torq.Prelude.{
  ℕ, zero, suc, ◌+◌, ◌-◌, ◌*◌, ◌/◌, ◌%◌, ◌≤◌, ◌<◌, ◌≡◌, ◌≢◌, refl, sym, ap, ◌∙◌, subst, ltb, leb,
  ◌==◌, true, false, Bool-cases, some, [], ◌∷◌, ◌++◌, inl, inr, arith, All,
}
use torq.Prelude.Text.{Text}
use torq.Words.{sign_bit}
use torq.ShortIds.Text.{decimal, format_uint, read_digits, in_range, atoi, before, split}

-- The bound that a number of digits sets.
abbrev pub ten_to : ℕ → ℕ
ten_to zero = 1
ten_to (suc f) = ten_to f * 10

abbrev pub IsDigit : ℕ → Type 0
IsDigit c = (48 ≤ c) × (c < 58)

digit_read :
    (n d : ℕ) (t : Text) → d < 10 → read_digits n ((48 + d) ∷ t) ≡ read_digits (n * 10 + d) t
unfolding read_digits
digit_read n d t h =
    let a : leb 48 (48 + d) ≡ true = ground arith in
    let b : ltb (48 + d) 58 ≡ true = ground arith in
    let c : 48 + d - 48 ≡ d = omega arith in rw (a, b, c) refl

-- What is written is read.
read-decimal : (f n : ℕ) (t : Text) → n < ten_to f → read_digits 0 (decimal f n t) ≡ read_digits n t
unfolding decimal
read-decimal zero n t h = let z : 0 ≡ n = omega (arith, h) in ap (λ x. read_digits x t) z
read-decimal (suc f) n t h =
    let digit = digit_read (n / 10) (n % 10) t (omega arith) in
    let whole : n / 10 * 10 + n % 10 ≡ n = omega arith in
    elim (Bool-cases (ltb n 10)) [
      | inl small ↦
          let lt : n < 10 = ground arith in
          let z : 0 ≡ n / 10 = omega (arith, lt) in
          rw small (
            ap (λ x. read_digits x ((48 + n % 10) ∷ t)) z ∙ digit ∙ ap (λ x. read_digits x t) whole)
      | inr large ↦ rw large (
          read-decimal f (n / 10) ((48 + n % 10) ∷ t) (omega (arith, h))
          ∙ digit
          ∙ ap (λ x. read_digits x t) whole)
    ]

decimal-All : (f n : ℕ) (t : Text) → All IsDigit t → All IsDigit (decimal f n t)
unfolding decimal
decimal-All zero n t h = h
decimal-All (suc f) n t h =
    let d : IsDigit (48 + n % 10) = (omega arith, omega arith) in
    elim (Bool-cases (ltb n 10)) [
      | inl small ↦ rw small (d, h)
      | inr large ↦ rw large (decimal-All f (n / 10) ((48 + n % 10) ∷ t) (d, h))
    ]

-- The digits stand before the text.
decimal-append : (f n : ℕ) (s t : Text) → decimal f n (s ++ t) ≡ decimal f n s ++ t
unfolding decimal
decimal-append zero n s t = refl
decimal-append (suc f) n s t = elim (Bool-cases (ltb n 10)) [
  | inl small ↦ rw small refl
  | inr large ↦ rw large (decimal-append f (n / 10) ((48 + n % 10) ∷ s) t)
]

abbrev IsLonger : Text → Type 0
IsLonger s = (c : ℕ) × (r : Text) × (s ≡ c ∷ r)

decimal-IsLonger : (f n c : ℕ) (t : Text) → IsLonger (decimal f n (c ∷ t))
unfolding decimal
decimal-IsLonger zero n c t = (c, t, refl)
decimal-IsLonger (suc f) n c t = elim (Bool-cases (ltb n 10)) [
  | inl small ↦ rw small ((48 + n % 10), (c ∷ t), refl)
  | inr large ↦ rw large (decimal-IsLonger f (n / 10) (48 + n % 10) (c ∷ t))
]

decimal-not_empty : (f n : ℕ) → IsLonger (decimal (suc f) n [])
unfolding decimal
decimal-not_empty f n = elim (Bool-cases (ltb n 10)) [
  | inl small ↦ rw small ((48 + n % 10), [], refl)
  | inr large ↦ rw large (decimal-IsLonger f (n / 10) (48 + n % 10) [])
]

atoi-digits : (c : ℕ) (t : Text) → IsDigit c → atoi (c ∷ t) ≡ in_range (read_digits 0 (c ∷ t))
unfolding atoi
atoi-digits c t h =
    let minus : (c == 45) ≡ false = ground arith in
    let plus : (c == 43) ≡ false = ground arith in rw (minus, plus) refl

-- `Atoi` reads what `FormatUint` writes, for an int that is not negative.
pub atoi-format_uint : (n : ℕ) → n < sign_bit → atoi (format_uint n) ≡ some n
unfolding read_digits
atoi-format_uint n h =
    let text = decimal-not_empty 19 n in
    let digits = subst (All IsDigit) text.2 (decimal-All 20 n [] tt) in
    let read = read-decimal 20 n [] (omega (arith, h)) in
    let small : ltb n sign_bit ≡ true = ground arith in
    ap atoi text.2
    ∙ atoi-digits text.0 text.1 digits.0
    ∙ ap (λ s. in_range (read_digits 0 s)) (sym text.2)
    ∙ ap in_range read
    ∙ rw small refl

-- A separator that is no digit ends a number, and one that is not in a text ends it.
pub split-before :
    (sep : ℕ) (s t : Text) → All (λ c. c ≢ sep) s → split sep (s ++ sep ∷ t) ≡ s ∷ split sep t
unfolding split
split-before sep [] t h = let e : (sep == sep) ≡ true = ground arith in rw e refl
split-before sep (c ∷ s) t h =
    let other : (c == sep) ≡ false = ground arith in
    rw other (ap (before c) (split-before sep s t h.1))

pub split-last : (sep : ℕ) (s : Text) → All (λ c. c ≢ sep) s → split sep s ≡ s ∷ []
unfolding split
split-last sep [] h = refl
split-last sep (c ∷ s) h =
    let other : (c == sep) ≡ false = ground arith in rw other (ap (before c) (split-last sep s h.1))

All-IsDigit-≢ : (sep : ℕ) (s : Text) → 58 ≤ sep → All IsDigit s → All (λ c. c ≢ sep) s
All-IsDigit-≢ sep [] h g = tt
All-IsDigit-≢ sep (c ∷ s) h g =
    let lt : c < 58 = g.0.1 in ((λ e. omega (arith, lt, e, h)), All-IsDigit-≢ sep s h g.1)

pub format_uint-≢ : (sep n : ℕ) → 58 ≤ sep → All (λ c. c ≢ sep) (format_uint n)
format_uint-≢ sep n h = All-IsDigit-≢ sep (format_uint n) h (decimal-All 20 n [] tt)
