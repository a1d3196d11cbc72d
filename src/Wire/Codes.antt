-- ===== src/Wire/Codes.antt =====
-- The readers and writers of utils.go against one description of little-endian numbers.
use quic_go.Base.{
  ℕ, zero, suc, ◌+◌, ◌*◌, ◌/◌, ◌%◌, ◌^◌, ◌≤◌, ◌<◌, ◌≡◌, refl, sym, ap, ◌∙◌, arith, List, [], ◌∷◌,
  ◌++◌, ok, err, eof, length, All, IsByte, bit_xor,
}
use quic_go.Base.Bits.{bit_xor-shifted}
use quic_go.Wire.{read_uint_n_loop, read_uint_n, read_uint64, read_uint32, read_uint16}
use native.Mathlib.Nat.{pow-suc, mod-eq_of_lt, mul-le-mul_right, pow-le-pow_right}
use native.Mathlib.Numerals.{towards_suc}

-- The `k` low bytes of `v`, lowest first.
abbrev pub le_bytes : ℕ → ℕ → List ℕ
le_bytes zero v = []
le_bytes (suc k) v = (v % 256) ∷ le_bytes k (v / 256)

abbrev pub le_value : List ℕ → ℕ
le_value [] = 0
le_value (b ∷ bs) = b + 256 * le_value bs

pub length-le_bytes : (k v : ℕ) → length (le_bytes k v) ≡ k
length-le_bytes zero v = refl
length-le_bytes (suc k) v = omega (arith, length-le_bytes k (v / 256))

pub le_bytes-IsByte : (k v : ℕ) → All IsByte (le_bytes k v)
le_bytes-IsByte zero v = tt
le_bytes-IsByte (suc k) v = (omega arith, le_bytes-IsByte k (v / 256))

pub le_value-le_bytes : (k v : ℕ) → v < 256 ^ k → le_value (le_bytes k v) ≡ v
le_value-le_bytes zero v h = omega arith
le_value-le_bytes (suc k) v h =
    omega (arith, le_value-le_bytes k (v / 256) (omega (arith, pow-suc 256 k)))

pow_bytes : (s : ℕ) → 2 ^ (s + 8) ≡ 256 * 2 ^ s
pow_bytes s = simp towards_suc (omega arith)

pow_room : (i : ℕ) → i < 8 → 256 * 2 ^ (i * 8) ≤ 2 ^ 64
pow_room i h =
    rw (← pow_bytes (i * 8)) (pow-le-pow_right {n = 2} (omega arith) {j = 64} (omega arith))

-- One round of the loop puts the next byte above those read so far.
pub round_value :
    (i res b : ℕ)
    → i < 8
    → b < 256
    → res < 2 ^ (i * 8)
    → bit_xor res (b * 2 ^ (i * 8 % 256) % 2 ^ 64) ≡ res + b * 2 ^ (i * 8)
round_value i res b hi hb hr =
    let room : b * 2 ^ (i * 8) < 2 ^ 64 = grind (arith, pow_room i hi) in
    let shift : i * 8 % 256 ≡ i * 8 = omega arith in
    rw (shift, mod-eq_of_lt room) (bit_xor-shifted (i * 8) res b hr)

pub next_pow : (i : ℕ) → 2 ^ ((i + 1) * 8) ≡ 256 * 2 ^ (i * 8)
next_pow i = let e : (i + 1) * 8 ≡ i * 8 + 8 = omega arith in rw e (pow_bytes (i * 8))

pub next_below :
    (i res b : ℕ) → b < 256 → res < 2 ^ (i * 8) → res + b * 2 ^ (i * 8) < 2 ^ ((i + 1) * 8)
next_below i res b hb hr =
    let top : b * 2 ^ (i * 8) ≤ 255 * 2 ^ (i * 8) = mul-le-mul_right _ (omega arith) in
    omega (arith, next_pow i)

next_value :
    (i res b v : ℕ)
    → res + b * 2 ^ (i * 8) + v * 2 ^ ((i + 1) * 8) ≡ res + (b + 256 * v) * 2 ^ (i * 8)
next_value i res b v = omega (arith, ap (λ (t : ℕ). v * t) (next_pow i))

-- The loop reads exactly the bytes asked for, whatever follows them.
read_uint_n_loop-value :
    (bs : List ℕ) (i res : ℕ) (rest : List ℕ)
    → All IsByte bs
    → res < 2 ^ (i * 8)
    → i + length bs ≤ 8
    → read_uint_n_loop (length bs) i res (bs ++ rest) ≡ ok (res + le_value bs * 2 ^ (i * 8), rest)
unfolding read_uint_n_loop
read_uint_n_loop-value [] i res rest hb hr hi = ap (λ (n : ℕ). ok (n, rest)) (omega arith)
read_uint_n_loop-value (b ∷ bs) i res rest hb hr hi =
    rw (round_value i res b (omega arith) hb.0 hr) (
      read_uint_n_loop-value bs (i + 1) (res + b * 2 ^ (i * 8)) rest hb.1
        (next_below i res b hb.0 hr) (omega arith)
      ∙ ap (λ (n : ℕ). ok (n, rest)) (next_value i res b (le_value bs)))

read_uint_n_loop-short :
    (r : List ℕ) (k i res : ℕ) → length r < k → read_uint_n_loop k i res r ≡ err eof
unfolding read_uint_n_loop
read_uint_n_loop-short r zero i res h = absurd (omega arith)
read_uint_n_loop-short [] (suc k) i res h = refl
read_uint_n_loop-short (b ∷ r) (suc k) i res h = read_uint_n_loop-short r k (i + 1) _ (omega arith)

read_uint_n-value :
    (bs rest : List ℕ) (k : ℕ)
    → All IsByte bs
    → length bs ≡ k
    → k ≤ 8
    → read_uint_n (bs ++ rest) k ≡ ok (le_value bs, rest)
unfolding read_uint_n
read_uint_n-value bs rest k hb e h = ground (arith, read_uint_n_loop-value bs 0 0 rest)

-- Reading back `k` bytes of a number that fits them.
pub read_uint_n-le_bytes :
    (k v : ℕ) (rest : List ℕ)
    → k ≤ 8
    → v < 256 ^ k
    → read_uint_n (le_bytes k v ++ rest) k ≡ ok (v, rest)
read_uint_n-le_bytes k v rest h hv =
    read_uint_n-value (le_bytes k v) rest k (le_bytes-IsByte k v) (length-le_bytes k v) h
    ∙ ap (λ (n : ℕ). ok (n, rest)) (le_value-le_bytes k v hv)

read_uint_n-short : (r : List ℕ) (k : ℕ) → length r < k → read_uint_n r k ≡ err eof
unfolding read_uint_n
read_uint_n-short r k h = read_uint_n_loop-short r k 0 0 h

read_uint16-eq-read_uint_n : (r : List ℕ) → All IsByte r → read_uint16 r ≡ read_uint_n r 2
unfolding read_uint16
read_uint16-eq-read_uint_n [] h = sym (read_uint_n-short _ 2 (omega arith))
read_uint16-eq-read_uint_n (_ ∷ []) h = sym (read_uint_n-short _ 2 (omega arith))
read_uint16-eq-read_uint_n (b1 ∷ b2 ∷ r) h =
    ap (λ (n : ℕ). ok (n, r)) (omega arith)
    ∙ sym (read_uint_n-value (b1 ∷ b2 ∷ []) r 2 (omega arith) (omega arith) (omega arith))

read_uint32-eq-read_uint_n : (r : List ℕ) → All IsByte r → read_uint32 r ≡ read_uint_n r 4
unfolding read_uint32
read_uint32-eq-read_uint_n [] h = sym (read_uint_n-short _ 4 (omega arith))
read_uint32-eq-read_uint_n (_ ∷ []) h = sym (read_uint_n-short _ 4 (omega arith))
read_uint32-eq-read_uint_n (_ ∷ _ ∷ []) h = sym (read_uint_n-short _ 4 (omega arith))
read_uint32-eq-read_uint_n (_ ∷ _ ∷ _ ∷ []) h = sym (read_uint_n-short _ 4 (omega arith))
read_uint32-eq-read_uint_n (b1 ∷ b2 ∷ b3 ∷ b4 ∷ r) h =
    ap (λ (n : ℕ). ok (n, r)) (omega arith)
    ∙ sym (read_uint_n-value (b1 ∷ b2 ∷ b3 ∷ b4 ∷ []) r 4 (omega arith) (omega arith) (omega arith))

read_uint64-eq-read_uint_n : (r : List ℕ) → All IsByte r → read_uint64 r ≡ read_uint_n r 8
unfolding read_uint64
read_uint64-eq-read_uint_n [] h = sym (read_uint_n-short _ 8 (omega arith))
read_uint64-eq-read_uint_n (_ ∷ []) h = sym (read_uint_n-short _ 8 (omega arith))
read_uint64-eq-read_uint_n (_ ∷ _ ∷ []) h = sym (read_uint_n-short _ 8 (omega arith))
read_uint64-eq-read_uint_n (_ ∷ _ ∷ _ ∷ []) h = sym (read_uint_n-short _ 8 (omega arith))
read_uint64-eq-read_uint_n (_ ∷ _ ∷ _ ∷ _ ∷ []) h = sym (read_uint_n-short _ 8 (omega arith))
read_uint64-eq-read_uint_n (_ ∷ _ ∷ _ ∷ _ ∷ _ ∷ []) h = sym (read_uint_n-short _ 8 (omega arith))
read_uint64-eq-read_uint_n (_ ∷ _ ∷ _ ∷ _ ∷ _ ∷ _ ∷ []) h =
    sym (read_uint_n-short _ 8 (omega arith))
read_uint64-eq-read_uint_n (_ ∷ _ ∷ _ ∷ _ ∷ _ ∷ _ ∷ _ ∷ []) h =
    sym (read_uint_n-short _ 8 (omega arith))
read_uint64-eq-read_uint_n (b1 ∷ b2 ∷ b3 ∷ b4 ∷ b5 ∷ b6 ∷ b7 ∷ b8 ∷ r) h =
    ap (λ (n : ℕ). ok (n, r)) (omega arith)
    ∙ sym (
        read_uint_n-value (b1 ∷ b2 ∷ b3 ∷ b4 ∷ b5 ∷ b6 ∷ b7 ∷ b8 ∷ []) r 8 (omega arith)
          (omega arith) (omega arith))

-- On every reader of bytes, also one that ends too early, ReadUint16, ReadUint32 and ReadUint64
-- give the value, the rest and the error that ReadUintN gives for 2, 4 and 8 bytes.
pub read_uints-eq-read_uint_n :
    (r : List ℕ)
    → All IsByte r
    → (read_uint16 r ≡ read_uint_n r 2)
      × (read_uint32 r ≡ read_uint_n r 4)
      × (read_uint64 r ≡ read_uint_n r 8)
read_uints-eq-read_uint_n r h =
    (read_uint16-eq-read_uint_n r h, read_uint32-eq-read_uint_n r h, read_uint64-eq-read_uint_n r h)
