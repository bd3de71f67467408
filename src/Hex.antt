-- ===== src/Hex.antt =====
-- `hex.DecodeString` and `hex.EncodeToString` of Go's standard library, as internal/channels,
-- internal/payments and internal/invoices call them.
use torq.Prelude.{
  ℕ, ◌+◌, ◌-◌, ◌*◌, ◌/◌, ◌%◌, ◌<◌, ◌≡◌, refl, ◌&&◌, Option, none, some, List, [], ◌∷◌, All, arith,
  leb, ltb, if◌then◌else◌,
}
use torq.Prelude.Text.{Text}

-- The value of a digit: 0 to 9, a to f, A to F.
abbrev pub digit_value : ℕ → Option ℕ
digit_value c =
    if leb 48 c && leb c 57
    then some (c - 48)
    else if leb 97 c && leb c 102
    then some (c - 87)
    else if leb 65 c && leb c 70
    then some (c - 55)
    else none

abbrev pub byte_of : Option ℕ → Option ℕ → Option (List ℕ) → Option (List ℕ)
byte_of (some a) (some b) (some l) = some ((16 * a + b) ∷ l)
byte_of _ _ _ = none

-- An odd number of digits is an error, and so is any other character.
unfoldable pub decode_string : Text → Option (List ℕ)
decode_string [] = some []
decode_string (a ∷ []) = none
decode_string (a ∷ b ∷ t) = byte_of (digit_value a) (digit_value b) (decode_string t)

abbrev pub digit : ℕ → ℕ
digit n = if ltb n 10 then n + 48 else n + 87

unfoldable pub encode_to_string : List ℕ → Text
encode_to_string [] = []
encode_to_string (b ∷ l) = digit (b / 16) ∷ digit (b % 16) ∷ encode_to_string l

digit_value-digit : (n : ℕ) → n < 16 → digit_value (digit n) ≡ some n
digit_value-digit n h = ground arith

-- What was encoded is decoded.
pub decode_string-encode_to_string :
    (l : List ℕ) → All (λ b. b < 256) l → decode_string (encode_to_string l) ≡ some l
unfolding decode_string encode_to_string
decode_string-encode_to_string [] h = refl
decode_string-encode_to_string (b ∷ l) h =
    let whole : 16 * (b / 16) + b % 16 ≡ b = omega arith in
    let small : b / 16 < 16 = omega (arith, h.0) in
    rw (
      digit_value-digit (b / 16) small,
      digit_value-digit (b % 16) (omega arith),
      decode_string-encode_to_string l h.1,
      whole,
    )
