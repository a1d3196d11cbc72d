-- ===== src/Wire/Float.antt =====
-- utils/float16.go: 16-bit floating point numbers with 5 bits of exponent and 11 of mantissa.
pub mod Rounding
use quic_go.Base.{
  ℕ, zero, suc, ◌+◌, ◌-◌, ◌*◌, ◌/◌, ◌%◌, ◌^◌, List, [], ◌∷◌, ok, ◌>>=◌, ltb, leb, if◌then◌else◌,
}
use quic_go.Wire.{Reads, read_uint16, write_uint16}

-- uFloat16MaxValue
abbrev pub float_max_value : ℕ
float_max_value = 0x3FFC0000000

-- The value of 16 bits. A shift to the left is a product in 64 bits.
unfoldable pub float_value : ℕ → ℕ
float_value val =
    if ltb val (2 ^ 12)
    then val
    else let exponent = val / 2 ^ 11 - 1 in
      (val - exponent * 2 ^ 11 % 2 ^ 64) * 2 ^ exponent % 2 ^ 64

unfoldable pub read_ufloat16 : List ℕ → Reads ℕ
unfolding read_uint16 float_value
read_ufloat16 r = do (val, r') ← read_uint16 r; ok (float_value val, r')

-- A round of the search for the highest bit, and the loop over the offsets 16, 8, 4, 2 and 1.
unfoldable pub shift_round : ℕ → ℕ × ℕ → ℕ × ℕ
shift_round offset (value, exponent) =
    if leb (2 ^ (11 + offset)) value
    then (value / 2 ^ offset, exponent + offset)
    else (value, exponent)

unfoldable pub shift_loop : List ℕ → ℕ × ℕ → ℕ × ℕ
unfolding shift_round
shift_loop [] w = w
shift_loop (offset ∷ offsets) w = shift_loop offsets (shift_round offset w)

unfoldable pub float_bits : ℕ → ℕ
unfolding shift_loop
float_bits value =
    let (mantissa, exponent) = shift_loop (16 ∷ 8 ∷ 4 ∷ 2 ∷ 1 ∷ []) (value, 0) in
    if ltb value (2 ^ 12)
    then value % 2 ^ 16
    else if leb float_max_value value
    then 65535
    else (mantissa % 2 ^ 16 + exponent * 2 ^ 11 % 2 ^ 16) % 2 ^ 16

unfoldable pub write_ufloat16 : List ℕ → ℕ → List ℕ
unfolding write_uint16 float_bits
write_ufloat16 b value = write_uint16 b (float_bits value)
