-- ===== src/Wire.antt =====
-- utils/utils.go: unsigned integers in little-endian byte order; the children also have float16.go.
-- A reader is the list of the bytes not read yet, a buffer the list of the bytes written so far.
-- A byte is a number below 256.
pub mod Codes
pub mod Bounds
pub mod RoundTrip
mod Runs
pub mod Float
use quic_go.Base.{
  ℕ, zero, suc, ◌+◌, ◌*◌, ◌/◌, ◌%◌, ◌^◌, bit_xor, List, [], ◌∷◌, ◌++◌, Result, ok, err, eof, ◌>>=◌,
}

-- A reader returns its value and what it leaves.
abbrev pub Reads {ℓ} : Type ℓ → Type ℓ
Reads A = Result (A × List ℕ)

-- `ReadByte` of bytes.Reader.
unfoldable pub read_byte : List ℕ → Reads ℕ
read_byte [] = err eof
read_byte (b ∷ r) = ok (b, r)

-- The loop of `ReadUintN` with `left` rounds to go; `i` is a uint8, and so is `i * 8`.
pub read_uint_n_loop : ℕ → ℕ → ℕ → List ℕ → Reads ℕ
unfolding read_byte
read_uint_n_loop zero i res r = ok (res, r)
read_uint_n_loop (suc left) i res r = do
  (bt, r') ← read_byte r
  read_uint_n_loop left (i + 1) (bit_xor res (bt * 2 ^ (i * 8 % 256) % 2 ^ 64)) r'

unfoldable pub read_uint_n : List ℕ → ℕ → Reads ℕ
unfolding read_uint_n_loop
read_uint_n r len = read_uint_n_loop len 0 0 r

-- The sums do not wrap: each byte is below 256.
unfoldable pub read_uint64 : List ℕ → Reads ℕ
unfolding read_byte
read_uint64 r = do
  (b1, r1) ← read_byte r
  (b2, r2) ← read_byte r1
  (b3, r3) ← read_byte r2
  (b4, r4) ← read_byte r3
  (b5, r5) ← read_byte r4
  (b6, r6) ← read_byte r5
  (b7, r7) ← read_byte r6
  (b8, r8) ← read_byte r7
  ok (
    b1
        + b2 * 2 ^ 8
        + b3 * 2 ^ 16
        + b4 * 2 ^ 24
        + b5 * 2 ^ 32
        + b6 * 2 ^ 40
        + b7 * 2 ^ 48
        + b8 * 2 ^ 56,
    r8,
  )

unfoldable pub read_uint32 : List ℕ → Reads ℕ
unfolding read_byte
read_uint32 r = do
  (b1, r1) ← read_byte r
  (b2, r2) ← read_byte r1
  (b3, r3) ← read_byte r2
  (b4, r4) ← read_byte r3
  ok (b1 + b2 * 2 ^ 8 + b3 * 2 ^ 16 + b4 * 2 ^ 24, r4)

unfoldable pub read_uint16 : List ℕ → Reads ℕ
unfolding read_byte
read_uint16 r = do (b1, r1) ← read_byte r; (b2, r2) ← read_byte r1; ok (b1 + b2 * 2 ^ 8, r2)

-- `uint8(i >> (8 * k))`
abbrev byte_at : ℕ → ℕ → ℕ
byte_at i k = i / 2 ^ (8 * k) % 256

unfoldable pub write_uint16 : List ℕ → ℕ → List ℕ
write_uint16 b i = b ++ (byte_at i 0 ∷ byte_at i 1 ∷ [])

unfoldable pub write_uint24 : List ℕ → ℕ → List ℕ
write_uint24 b i = b ++ (byte_at i 0 ∷ byte_at i 1 ∷ byte_at i 2 ∷ [])

unfoldable pub write_uint32 : List ℕ → ℕ → List ℕ
write_uint32 b i = b ++ (byte_at i 0 ∷ byte_at i 1 ∷ byte_at i 2 ∷ byte_at i 3 ∷ [])

unfoldable pub write_uint40 : List ℕ → ℕ → List ℕ
write_uint40 b i = b ++ (byte_at i 0 ∷ byte_at i 1 ∷ byte_at i 2 ∷ byte_at i 3 ∷ byte_at i 4 ∷ [])

unfoldable pub write_uint48 : List ℕ → ℕ → List ℕ
write_uint48 b i =
    b ++ (byte_at i 0 ∷ byte_at i 1 ∷ byte_at i 2 ∷ byte_at i 3 ∷ byte_at i 4 ∷ byte_at i 5 ∷ [])

unfoldable pub write_uint56 : List ℕ → ℕ → List ℕ
write_uint56 b i =
    b
    ++ (byte_at i 0
        ∷ byte_at i 1
        ∷ byte_at i 2
        ∷ byte_at i 3
        ∷ byte_at i 4
        ∷ byte_at i 5
        ∷ byte_at i 6
        ∷ [])

unfoldable pub write_uint64 : List ℕ → ℕ → List ℕ
write_uint64 b i =
    b
    ++ (byte_at i 0
        ∷ byte_at i 1
        ∷ byte_at i 2
        ∷ byte_at i 3
        ∷ byte_at i 4
        ∷ byte_at i 5
        ∷ byte_at i 6
        ∷ byte_at i 7
        ∷ [])
