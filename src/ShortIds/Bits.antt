-- ===== src/ShortIds/Bits.antt =====
-- The or of words that share no bits.
use Prim.Native.Nat.{max, bit_or, digits, bit_or-bitwise}
use torq.Prelude.{ℕ, zero, suc, ◌+◌, ◌*◌, ◌/◌, ◌%◌, ◌≤◌, ◌<◌, ◌≡◌, refl, sym, ap, ◌∙◌, arith}

-- The or by binary digits, at most `fuel` of them.
abbrev joined : (a b fuel : ℕ) → ℕ
joined a b fuel = digits (λ rest. rest) max fuel a b

joined_step :
    (m b fuel : ℕ)
    → joined (suc m) b (suc fuel) ≡ joined (suc m / 2) (b / 2) fuel * 2 + max (suc m % 2) (b % 2)
joined_step m b fuel = refl

-- Any two fuels that are enough give the same.
joined_fuel : (f a b g : ℕ) → a ≤ f → a ≤ g → joined a b f ≡ joined a b g
joined_fuel f zero b g below_f below_g = none_left f ∙ sym (none_left g)
  where
    none_left : (h : ℕ) → joined zero b h ≡ b
    none_left zero = refl
    none_left (suc h) = refl
joined_fuel zero (suc a) b g below_f below_g = absurd (omega (arith, below_f))
joined_fuel (suc f) (suc a) b zero below_f below_g = absurd (omega (arith, below_g))
joined_fuel (suc f) (suc a) b (suc g) below_f below_g =
    let half = suc a / 2 in
    let same = joined_fuel f half (b / 2) g (omega (arith, below_f)) (omega (arith, below_g)) in
    omega (arith, same)

bit_or-joined : (a b fuel : ℕ) → a ≤ fuel → bit_or a b ≡ joined a b fuel
bit_or-joined a b fuel enough =
    let native = bit_or-bitwise a b in
    let same = joined_fuel a a b fuel (omega arith) enough in omega (arith, native, same)

-- The lowest digit of a double is the one of the other word.
bit_or-double : (a b : ℕ) → bit_or (a * 2) b ≡ bit_or a (b / 2) * 2 + b % 2
bit_or-double zero b =
    let whole = bit_or-joined 0 b 0 (omega arith) in
    let rest = bit_or-joined 0 (b / 2) 0 (omega arith) in omega (arith, whole, rest)
bit_or-double (suc a) b =
    let m = suc (a * 2) in
    let word : suc a * 2 ≡ suc m = omega arith in
    let whole = bit_or-joined (suc m) b (suc (suc m)) (omega arith) in
    let half : suc m / 2 ≡ suc a = omega arith in
    let moved = ap (λ x. joined x (b / 2) (suc m)) half in
    let rest = bit_or-joined (suc a) (b / 2) (suc m) (omega arith) in
    ap (λ x. bit_or x b) word ∙ omega (arith, whole, joined_step m b (suc m), rest, moved)

bit_or-zero : (fuel a : ℕ) → a ≤ fuel → joined a 0 fuel ≡ a
bit_or-zero zero zero h = refl
bit_or-zero (suc fuel) zero h = refl
bit_or-zero zero (suc a) h = absurd (omega (arith, h))
bit_or-zero (suc fuel) (suc a) h =
    let rest = bit_or-zero fuel (suc a / 2) (omega (arith, h)) in omega (arith, rest)

-- a shifted left by k.
abbrev pub shift : ℕ → ℕ → ℕ
shift zero a = a
shift (suc k) a = shift k a * 2

-- A word with k zero bits at its end, or a word of k bits, is their sum.
pub bit_or-shift : (k a b : ℕ) → b < shift k 1 → bit_or (shift k a) b ≡ shift k a + b
bit_or-shift zero a b h =
    let z : b ≡ 0 = omega (arith, h) in
    let whole = bit_or-joined a 0 a (omega arith) in
    rw z (omega (arith, whole, bit_or-zero a a (omega arith)))
bit_or-shift (suc k) a b h =
    let rest = bit_or-shift k a (b / 2) (omega (arith, h)) in
    omega (arith, bit_or-double (shift k a) b, rest)
