-- ===== src/Wire/RoundTrip.antt =====
-- Each writer of utils.go is undone by the readers.
use quic_go.Base.{ℕ, ◌%◌, ◌^◌, ◌≤◌, ◌<◌, ◌≡◌, refl, arith, List, [], ◌++◌, ok}
use quic_go.Wire.{
  read_uint_n, read_uint64, read_uint32, read_uint16, write_uint16, write_uint24, write_uint32,
  write_uint40, write_uint48, write_uint56, write_uint64,
}
use quic_go.Wire.Codes.{le_bytes, read_uint_n-le_bytes}

-- What each writer appends.
module _ (b : List ℕ) (v : ℕ) where
  pub write_uint16-le_bytes : write_uint16 b v ≡ b ++ le_bytes 2 v
  unfolding write_uint16
  write_uint16-le_bytes = ground arith

  pub write_uint24-le_bytes : write_uint24 b v ≡ b ++ le_bytes 3 v
  unfolding write_uint24
  write_uint24-le_bytes = ground arith

  pub write_uint32-le_bytes : write_uint32 b v ≡ b ++ le_bytes 4 v
  unfolding write_uint32
  write_uint32-le_bytes = ground arith

  pub write_uint40-le_bytes : write_uint40 b v ≡ b ++ le_bytes 5 v
  unfolding write_uint40
  write_uint40-le_bytes = ground arith

  pub write_uint48-le_bytes : write_uint48 b v ≡ b ++ le_bytes 6 v
  unfolding write_uint48
  write_uint48-le_bytes = ground arith

  pub write_uint56-le_bytes : write_uint56 b v ≡ b ++ le_bytes 7 v
  unfolding write_uint56
  write_uint56-le_bytes = ground arith

  pub write_uint64-le_bytes : write_uint64 b v ≡ b ++ le_bytes 8 v
  unfolding write_uint64
  write_uint64-le_bytes = ground arith

pub ruleset writers = (
  write_uint16-le_bytes, write_uint24-le_bytes, write_uint32-le_bytes, write_uint40-le_bytes,
  write_uint48-le_bytes, write_uint56-le_bytes, write_uint64-le_bytes,
)

-- What each reader reads back, and that it leaves what follows.
module _ (v : ℕ) (rest : List ℕ) where
  pub read_uint16-le_bytes : v < 2 ^ 16 → read_uint16 (le_bytes 2 v ++ rest) ≡ ok (v, rest)
  unfolding read_uint16
  read_uint16-le_bytes h = ground arith

  pub read_uint32-le_bytes : v < 2 ^ 32 → read_uint32 (le_bytes 4 v ++ rest) ≡ ok (v, rest)
  unfolding read_uint32
  read_uint32-le_bytes h = ground arith

  pub read_uint64-le_bytes : v < 2 ^ 64 → read_uint64 (le_bytes 8 v ++ rest) ≡ ok (v, rest)
  unfolding read_uint64
  read_uint64-le_bytes h = ground arith

wrapped :
    (k m v : ℕ) (rest : List ℕ)
    → k ≤ 8
    → m ≡ 256 ^ k
    → 0 < m
    → le_bytes k v ≡ le_bytes k (v % m)
    → read_uint_n (le_bytes k v ++ rest) k ≡ ok (v % m, rest)
wrapped k m v rest h e p low =
    rw low (read_uint_n-le_bytes k (v % m) rest h (rw (← e) (omega arith)))

-- What WriteUint16 to WriteUint64 wrote of a number is read back by ReadUintN with that many bytes,
-- reduced modulo the power of two that the bytes can hold; what follows it stays unread.
pub read_uint_n-write_uint :
    (v : ℕ) (rest : List ℕ)
    → (read_uint_n (write_uint16 [] v ++ rest) 2 ≡ ok (v % 2 ^ 16, rest))
      × (read_uint_n (write_uint24 [] v ++ rest) 3 ≡ ok (v % 2 ^ 24, rest))
      × (read_uint_n (write_uint32 [] v ++ rest) 4 ≡ ok (v % 2 ^ 32, rest))
      × (read_uint_n (write_uint40 [] v ++ rest) 5 ≡ ok (v % 2 ^ 40, rest))
      × (read_uint_n (write_uint48 [] v ++ rest) 6 ≡ ok (v % 2 ^ 48, rest))
      × (read_uint_n (write_uint56 [] v ++ rest) 7 ≡ ok (v % 2 ^ 56, rest))
      × (read_uint_n (write_uint64 [] v ++ rest) 8 ≡ ok (v % 2 ^ 64, rest))
read_uint_n-write_uint v rest = (
  rw write_uint16-le_bytes
      (wrapped 2 (2 ^ 16) v rest (omega arith) refl (omega arith) (ground arith)),
  rw write_uint24-le_bytes
      (wrapped 3 (2 ^ 24) v rest (omega arith) refl (omega arith) (ground arith)),
  rw write_uint32-le_bytes
      (wrapped 4 (2 ^ 32) v rest (omega arith) refl (omega arith) (ground arith)),
  rw write_uint40-le_bytes
      (wrapped 5 (2 ^ 40) v rest (omega arith) refl (omega arith) (ground arith)),
  rw write_uint48-le_bytes
      (wrapped 6 (2 ^ 48) v rest (omega arith) refl (omega arith) (ground arith)),
  rw write_uint56-le_bytes
      (wrapped 7 (2 ^ 56) v rest (omega arith) refl (omega arith) (ground arith)),
  rw write_uint64-le_bytes
      (wrapped 8 (2 ^ 64) v rest (omega arith) refl (omega arith) (ground arith)),
)
