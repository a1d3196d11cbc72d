-- ===== src/Wire/Runs.antt =====
-- Concrete runs of the readers and writers, and the theorems at concrete inputs.
use quic_go.Base.{◌≡◌, inr, ◌*◌, ◌/◌, ◌^◌, refl, arith, List, [], ◌∷◌, ◌++◌, ok, ℕ}
use quic_go.Wire.{
  read_uint_n, read_uint32, write_uint16, write_uint24, write_uint32, write_uint40, write_uint48,
  write_uint56, write_uint64,
}
use quic_go.Wire.RoundTrip.{read_uint_n-write_uint}
use quic_go.Wire.Float.{float_value, float_bits, read_ufloat16, write_ufloat16}
use quic_go.Wire.Float.Rounding.{read_ufloat16-write_ufloat16}

-- The inputs of utils_test.go.
read_uint32_test : read_uint32 (0x12 ∷ 0x35 ∷ 0xab ∷ 0xff ∷ []) ≡ ok (0xffab3512, [])
unfolding read_uint32
read_uint32_test = refl

read_uint_n_test : read_uint_n (0x12 ∷ 0xf0 ∷ 0x17 ∷ 0x47 ∷ []) 3 ≡ ok (0x17f012, 0x47 ∷ [])
unfolding read_uint_n
read_uint_n_test = refl

write_uint48_test : write_uint48 [] 0x1234567890ab ≡ 0xab ∷ 0x90 ∷ 0x78 ∷ 0x56 ∷ 0x34 ∷ 0x12 ∷ []
unfolding write_uint48
write_uint48_test = refl

abbrev five_bytes : List ℕ
five_bytes = 1 ∷ 2 ∷ 3 ∷ 4 ∷ 255 ∷ []

read_uint_n-write_uint_example :
    (read_uint_n (write_uint16 [] 0x12abcd ++ (7 ∷ [])) 2 ≡ ok (0xabcd, 7 ∷ []))
    × (read_uint_n (write_uint24 [] 0x12abcd ++ (7 ∷ [])) 3 ≡ ok (0x12abcd, 7 ∷ []))
    × (read_uint_n (write_uint32 [] 0x12abcd ++ (7 ∷ [])) 4 ≡ ok (0x12abcd, 7 ∷ []))
    × (read_uint_n (write_uint40 [] 0x12abcd ++ (7 ∷ [])) 5 ≡ ok (0x12abcd, 7 ∷ []))
    × (read_uint_n (write_uint48 [] 0x12abcd ++ (7 ∷ [])) 6 ≡ ok (0x12abcd, 7 ∷ []))
    × (read_uint_n (write_uint56 [] 0x12abcd ++ (7 ∷ [])) 7 ≡ ok (0x12abcd, 7 ∷ []))
    × (read_uint_n (write_uint64 [] 0x12abcd ++ (7 ∷ [])) 8 ≡ ok (0x12abcd, 7 ∷ []))
read_uint_n-write_uint_example = read_uint_n-write_uint 0x12abcd (7 ∷ [])

-- Inputs of float16_test.go.
float_value_test : float_value 0xffff ≡ 0x3ffc0000000
unfolding float_value
float_value_test = refl

float_bits_test : float_bits 0x1fff ≡ 0x17ff
unfolding float_bits
float_bits_test = refl

read_ufloat16-write_ufloat16_example :
    read_ufloat16 (write_ufloat16 [] 0x12345 ++ (7 ∷ [])) ≡ ok (0x12345 / 2 ^ 5 * 2 ^ 5, 7 ∷ [])
read_ufloat16-write_ufloat16_example =
    read_ufloat16-write_ufloat16 5 0x12345 (7 ∷ []) (omega arith) (omega arith) (inr (omega arith))
