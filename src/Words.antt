-- ===== src/Words.antt =====
-- Go's 64-bit integers, as the bit patterns that the machine holds: numbers below 2 ^ 64.
-- An `int` or `int64` is read as signed where the code compares or divides it, and nowhere else.
use torq.Prelude.{ℕ, ◌+◌, ◌-◌, ◌*◌, ◌/◌, ◌%◌, ◌<◌, ◌≡◌, Bool, arith, leb, if◌then◌else◌}

abbrev pub word : ℕ
word = 18446744073709551616

abbrev pub sign_bit : ℕ
sign_bit = 9223372036854775808

-- a + b, a - b, -a and a * b, which wrap around.
abbrev pub add64 : ℕ → ℕ → ℕ
add64 a b = (a + b) % word

abbrev pub sub64 : ℕ → ℕ → ℕ
sub64 a b = (a + (word - b % word)) % word

abbrev pub neg64 : ℕ → ℕ
neg64 a = sub64 0 a

abbrev pub mul64 : ℕ → ℕ → ℕ
mul64 a b = a * b % word

abbrev pub is_negative : ℕ → Bool
is_negative a = leb sign_bit a

abbrev pub magnitude : ℕ → ℕ
magnitude a = if is_negative a then neg64 a else a

-- a / b for signed operands, which truncates toward 0. The code panics where b is 0.
abbrev pub div64 : ℕ → ℕ → ℕ
div64 a b =
    let q = magnitude a / magnitude b in
    if is_negative a
    then (if is_negative b then q % word else neg64 q)
    else (if is_negative b then neg64 q else q % word)

-- a + b - b is a, whatever wraps.
pub sub64-add64 : (a b : ℕ) → a < word → sub64 (add64 a b) b ≡ a
sub64-add64 a b h = omega arith

pub add64-sub64 : (a b : ℕ) → a < word → add64 (sub64 a b) b ≡ a
add64-sub64 a b h = omega arith
