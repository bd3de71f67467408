-- ===== src/ShortIds/Text.antt =====
-- What pkg/commons/functions.go uses of Go's standard library: decimal numbers and the splitting of
-- strings.
use torq.Prelude.{
  ℕ, zero, suc, ◌+◌, ◌-◌, ◌*◌, ◌/◌, ◌%◌, ltb, leb, ◌==◌, if◌then◌else◌, ◌&&◌, Option, none, some,
  List, [], ◌∷◌,
}
use torq.Prelude.Text.{Text}
use torq.Words.{sign_bit, neg64, is_negative}

-- The decimal digits of n before a text, for numbers with at most as many digits as the fuel.
unfoldable pub decimal : ℕ → ℕ → Text → Text
decimal zero n t = t
decimal (suc f) n t =
    let d = 48 + n % 10 in let rest = decimal f (n / 10) (d ∷ t) in if ltb n 10 then d ∷ t else rest

-- `strconv.FormatUint(n, 10)`. A number below 2 ^ 64 has at most 20 digits.
abbrev pub format_uint : ℕ → Text
format_uint n = decimal 20 n []

-- `fmt.Sprintf("%v", ..)` of an int.
abbrev pub format_int : ℕ → Text
format_int n = if is_negative n then 45 ∷ format_uint (neg64 n) else format_uint n

-- The number of decimal digits after those that are read.
unfoldable pub read_digits : ℕ → Text → Option ℕ
read_digits n [] = some n
read_digits n (c ∷ t) =
    let rest = read_digits (n * 10 + (c - 48)) t in if leb 48 c && ltb c 58 then rest else none

abbrev pub in_range : Option ℕ → Option ℕ
in_range none = none
in_range (some n) = if ltb n sign_bit then some n else none

abbrev pub negated : Option ℕ → Option ℕ
negated none = none
negated (some n) = if leb n sign_bit then some (neg64 n) else none

abbrev pub unsigned : Text → Option ℕ
unsigned [] = none
unsigned (c ∷ t) = read_digits 0 (c ∷ t)

-- `strconv.Atoi`: none is an error.
unfoldable pub atoi : Text → Option ℕ
atoi [] = none
atoi (c ∷ t) =
    if c == 45
    then negated (unsigned t)
    else if c == 43
    then in_range (unsigned t)
    else in_range (unsigned (c ∷ t))

abbrev pub before : ℕ → List Text → List Text
before c [] = []
before c (p ∷ l) = (c ∷ p) ∷ l

-- `strings.Split` by one byte.
unfoldable pub split : ℕ → Text → List Text
split sep [] = [] ∷ []
split sep (c ∷ t) = let rest = split sep t in if c == sep then [] ∷ rest else before c rest
