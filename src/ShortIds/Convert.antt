-- ===== src/ShortIds/Convert.antt =====
-- The conversions of pkg/commons/functions.go: short channel ids as LND and as people write them,
-- channel points, networks and chains.
use Prim.Native.Nat.{bit_or}
use torq.Prelude.{
  ℕ, zero, suc, ◌^◌, ◌+◌, ◌*◌, ◌/◌, ◌%◌, ◌<◌, leb, ◌≡◌, ◌≢◌, refl, ap, ◌∙◌, if◌then◌else◌, false,
  Option, none, some, List, [], ◌∷◌, ◌++◌, arith, All,
}
use torq.Prelude.Text.{Text, bytes, same_text}
use torq.Words.{word, sign_bit}
use torq.Runtime.{Outcome, returns, panics, ◌>>=◌}
use torq.Constants.{
  Network, main_net, test_net, reg_test, sig_net, sim_net, Chain, bitcoin, litecoin,
}
use torq.ShortIds.Text.{format_uint, format_int, atoi, split}
use torq.ShortIds.Bits.{shift, bit_or-shift}
use torq.ShortIds.Decimal.{atoi-format_uint, format_uint-≢, split-before, split-last}

unfoldable pub get_network : Text → Network
get_network network =
    if same_text network (bytes "testnet")
    then test_net
    else if same_text network (bytes "signet")
    then sig_net
    else if same_text network (bytes "simnet")
    then sim_net
    else if same_text network (bytes "regtest")
    then reg_test
    else main_net

unfoldable pub get_chain : Text → Chain
get_chain chain = if same_text chain (bytes "litecoin") then litecoin else bitcoin

-- The three parts of an id. A conversion to `uint32` or `uint16` keeps the low bits, and
-- `& 0xFFFFFF` the low 24.
abbrev pub block_height : ℕ → ℕ
block_height id = id / 2 ^ 40 % 2 ^ 32

abbrev pub tx_index : ℕ → ℕ
tx_index id = id / 2 ^ 16 % 2 ^ 32 % 2 ^ 24

abbrev pub output_index : ℕ → ℕ
output_index id = id % 2 ^ 16

unfoldable pub convert_lnd_short_channel_id : ℕ → Text
convert_lnd_short_channel_id id =
    format_uint (block_height id)
    ++ (bytes "x" ++ (format_uint (tx_index id) ++ (bytes "x" ++ format_uint (output_index id))))

-- `parts[i]`, which panics out of range.
abbrev pub part : ℕ → List Text → Outcome Text
part i [] = panics
part zero (p ∷ l) = returns p
part (suc i) (p ∷ l) = part i l

abbrev pub or_error : Option ℕ → (ℕ → Outcome (Option ℕ)) → Outcome (Option ℕ)
or_error none f = returns none
or_error (some n) f = f n

-- The three shifted parts.
abbrev pub packed : (height index position : ℕ) → ℕ
packed height index position =
    bit_or (bit_or (height * 2 ^ 40 % word) (index * 2 ^ 16 % word)) position

-- The result none is an error.
abbrev pub of_parts : List Text → Outcome (Option ℕ)
of_parts parts = part 0 parts >>= λ p. or_error (atoi p) λ height. part 1 parts >>= λ q.
    or_error (atoi q) λ index. part 2 parts >>= λ r.
    or_error (atoi r) λ position. returns (some (packed height index position))

unfoldable pub convert_short_channel_id_to_lnd : Text → Outcome (Option ℕ)
convert_short_channel_id_to_lnd id = of_parts (split 120 id)

-- The parts of disjoint bits are the digits of the id.
packed-parts : (id : ℕ) → id < word → packed (block_height id) (tx_index id) (output_index id) ≡ id
packed-parts id h =
    let height = block_height id in
    let index = tx_index id in
    let high : height * 2 ^ 40 % word ≡ shift 40 height = omega (arith, h) in
    let middle : index * 2 ^ 16 % word ≡ shift 16 index = omega arith in
    let first = bit_or-shift 40 height (shift 16 index) (omega arith) in
    let sum : shift 40 height + shift 16 index ≡ shift 16 (shift 24 height + index) = omega arith in
    let second = bit_or-shift 16 (shift 24 height + index) (output_index id) (omega arith) in
    let whole : shift 16 (shift 24 height + index) + output_index id ≡ id = omega (arith, h) in
    ap (λ x. bit_or (bit_or x (index * 2 ^ 16 % word)) (output_index id)) high
    ∙ ap (λ x. bit_or (bit_or (shift 40 height) x) (output_index id)) middle
    ∙ ap (λ x. bit_or x (output_index id)) (first ∙ sum)
    ∙ second
    ∙ whole

split-parts :
    (a b c : ℕ)
    → split 120 (format_uint a ++ 120 ∷ (format_uint b ++ 120 ∷ format_uint c))
      ≡ format_uint a ∷ format_uint b ∷ format_uint c ∷ []
split-parts a b c =
    split-before 120 (format_uint a) (format_uint b ++ 120 ∷ format_uint c)
      (format_uint-≢ 120 a (omega arith))
    ∙ ap (λ l. format_uint a ∷ l)
        (split-before 120 (format_uint b) (format_uint c) (format_uint-≢ 120 b (omega arith))
          ∙ ap (λ l. format_uint b ∷ l)
              (split-last 120 (format_uint c) (format_uint-≢ 120 c (omega arith))))

-- Every 64-bit short channel id is read back from the text that it is written as: the conversion
-- back neither panics nor gives an error.
pub convert-roundtrip :
    (id : ℕ)
    → id < word
    → convert_short_channel_id_to_lnd (convert_lnd_short_channel_id id) ≡ returns (some id)
unfolding convert_short_channel_id_to_lnd convert_lnd_short_channel_id
convert-roundtrip id h =
    let a = atoi-format_uint (block_height id) (omega arith) in
    let b = atoi-format_uint (tx_index id) (omega arith) in
    let c = atoi-format_uint (output_index id) (omega arith) in
    ap of_parts (split-parts (block_height id) (tx_index id) (output_index id))
    ∙ rw (a, b, c) (ap (λ n. returns (some n)) (packed-parts id h))

-- The prefix of a channel point and its index, `("", 0)` where it is none.
abbrev pub point_of : Text → List Text → Text × ℕ
point_of hash (text ∷ []) = or_nothing (atoi text)
  where
    or_nothing : Option ℕ → Text × ℕ
    or_nothing none = ([], 0)
    or_nothing (some n) = (hash, n)
point_of hash _ = ([], 0)

-- The tests for "" and for a colon hold where there are two parts.
abbrev pub point_of_parts : List Text → Text × ℕ
point_of_parts [] = ([], 0)
point_of_parts (hash ∷ l) = point_of hash l

unfoldable pub parse_channel_point : Text → Text × ℕ
parse_channel_point channel_point = point_of_parts (split 58 channel_point)

unfoldable pub create_channel_point : Text → ℕ → Text
create_channel_point hash index = hash ++ (bytes ":" ++ format_int index)

-- A channel point is read back from its transaction hash and its output index, where the hash has
-- no colon and the index is an int that is not negative.
pub channel_point-roundtrip :
    (hash : Text) (index : ℕ)
    → All (λ c. c ≢ 58) hash
    → index < sign_bit
    → parse_channel_point (create_channel_point hash index) ≡ (hash, index)
unfolding parse_channel_point create_channel_point
channel_point-roundtrip hash index no_colon h =
    let positive : leb sign_bit index ≡ false = ground arith in
    let parts =
      split-before 58 hash (format_uint index) no_colon
      ∙ ap (λ l. hash ∷ l)
          (split-last 58 (format_uint index) (format_uint-≢ 58 index (omega arith))) in
    let read = atoi-format_uint index h in rw positive (ap point_of_parts parts ∙ rw read refl)

-- A text without an x panics where it is a number, and else is an error.
pub convert-without_x :
    (text : Text)
    → All (λ c. c ≢ 120) text
    → ((n : ℕ) → atoi text ≡ some n → convert_short_channel_id_to_lnd text ≡ panics)
      × (atoi text ≡ none → convert_short_channel_id_to_lnd text ≡ returns none)
unfolding convert_short_channel_id_to_lnd
convert-without_x text no_x =
    let one = split-last 120 text no_x in
    (λ n read. ap of_parts one ∙ rw read refl, λ bad. ap of_parts one ∙ rw bad refl)
