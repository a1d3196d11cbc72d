-- ===== src/Wire/Bounds.antt =====
-- What a reader that succeeds has taken, and the bounds of what it read.
use quic_go.Base.{
  ℕ, zero, suc, ◌+◌, ◌*◌, ◌^◌, ◌≤◌, ◌<◌, ◌≡◌, refl, arith, sym, List, [], ◌∷◌, ok, err, Error,
  length, All, IsByte, ◌>>=◌,
}
use quic_go.Wire.{
  Reads, read_byte, read_uint_n, read_uint_n_loop, read_uint16, read_uint32, read_uint64,
}
use quic_go.Wire.Codes.{round_value, next_below}

read_uint_n_loop-length :
    (k i res : ℕ) (r : List ℕ) (v : ℕ) (r' : List ℕ)
    → read_uint_n_loop k i res r ≡ ok (v, r')
    → (length r' + k ≡ length r)
unfolding read_uint_n_loop read_byte
read_uint_n_loop-length zero i res r v r' h = ground arith
read_uint_n_loop-length (suc k) i res [] v r' h = ground arith
read_uint_n_loop-length (suc k) i res (b ∷ r) v r' h =
    omega (arith, read_uint_n_loop-length k _ _ r v r' h)

read_uint_n_loop-IsByte :
    (k i res : ℕ) (r : List ℕ) (v : ℕ) (r' : List ℕ)
    → All IsByte r
    → read_uint_n_loop k i res r ≡ ok (v, r')
    → All IsByte r'
unfolding read_uint_n_loop read_byte
read_uint_n_loop-IsByte zero i res r v r' a h = ground arith
read_uint_n_loop-IsByte (suc k) i res [] v r' a h = ground arith
read_uint_n_loop-IsByte (suc k) i res (b ∷ r) v r' a h = read_uint_n_loop-IsByte k _ _ r v r' a.1 h

-- Each byte is taken into a number that has as many bytes.
read_uint_n_loop-lt :
    (k i res : ℕ) (r : List ℕ) (v : ℕ) (r' : List ℕ)
    → All IsByte r
    → i + k ≤ 8
    → res < 2 ^ (i * 8)
    → read_uint_n_loop k i res r ≡ ok (v, r')
    → v < 2 ^ ((i + k) * 8)
unfolding read_uint_n_loop read_byte
read_uint_n_loop-lt zero i res r v r' a l u h =
    let e : (i + 0) * 8 ≡ i * 8 = omega arith in rw e (ground arith)
read_uint_n_loop-lt (suc k) i res [] v r' a l u h = ground arith
read_uint_n_loop-lt (suc k) i res (b ∷ r) v r' a l u h =
    let e : (i + suc k) * 8 ≡ (i + 1 + k) * 8 = omega arith in
    rw e (
      read_uint_n_loop-lt k (i + 1) _ r v r' a.1 (omega arith)
        (rw (round_value i res b (omega arith) a.0 u) (next_below i res b a.0 u)) h)

pub read_uint_n-lt :
    (k : ℕ) (r : List ℕ) (v : ℕ) (r' : List ℕ)
    → All IsByte r
    → k ≤ 8
    → read_uint_n r k ≡ ok (v, r')
    → v < 2 ^ (k * 8)
unfolding read_uint_n
read_uint_n-lt k r v r' a l h =
    let e : (0 + k) * 8 ≡ k * 8 = omega arith in
    rw (sym e) (read_uint_n_loop-lt k 0 0 r v r' a (omega arith) (omega arith) h)

pub read_uint_n-length :
    (k : ℕ) (r : List ℕ) (v : ℕ) (r' : List ℕ)
    → read_uint_n r k ≡ ok (v, r')
    → length r' + k ≡ length r
unfolding read_uint_n
read_uint_n-length k r v r' h = read_uint_n_loop-length k 0 0 r v r' h

pub read_uint_n-IsByte :
    (k : ℕ) (r : List ℕ) (v : ℕ) (r' : List ℕ)
    → All IsByte r
    → read_uint_n r k ≡ ok (v, r')
    → All IsByte r'
unfolding read_uint_n
read_uint_n-IsByte k r v r' a h = read_uint_n_loop-IsByte k 0 0 r v r' a h

-- The last step of a chain of reads that succeeds.
pub ok-bind {ℓ κ} :
    {A : Type ℓ} {B : Type κ} (x : Reads A) (f : A × List ℕ → Reads B) (b : B) (r' : List ℕ)
    → (x >>= f) ≡ ok (b, r')
    → (a : A) × (r : List ℕ) × (x ≡ ok (a, r)) × (f (a, r) ≡ ok (b, r'))
ok-bind (ok (a, r)) f b r' h = (a, r, refl, h)
ok-bind (err e) f b r' h = absurd (cc)

pub read_byte-length :
    (r : List ℕ) (v : ℕ) (r' : List ℕ) → read_byte r ≡ ok (v, r') → length r' + 1 ≡ length r
unfolding read_byte
read_byte-length [] v r' h = absurd (cc)
read_byte-length (b ∷ r) v r' h = ground arith

pub read_byte-IsByte :
    (r : List ℕ) (v : ℕ) (r' : List ℕ)
    → All IsByte r
    → read_byte r ≡ ok (v, r')
    → (v < 256) × All IsByte r'
unfolding read_byte
read_byte-IsByte [] v r' a h = absurd (cc)
read_byte-IsByte (b ∷ r) v r' a h = ground arith

pub read_uint16-length :
    (r : List ℕ) (v : ℕ) (r' : List ℕ) → read_uint16 r ≡ ok (v, r') → length r' + 2 ≡ length r
unfolding read_uint16 read_byte
read_uint16-length [] v r' h = absurd (cc)
read_uint16-length (a ∷ []) v r' h = absurd (cc)
read_uint16-length (a ∷ b ∷ r) v r' h = ground arith

pub read_uint16-IsByte :
    (r : List ℕ) (v : ℕ) (r' : List ℕ) → All IsByte r → read_uint16 r ≡ ok (v, r') → All IsByte r'
unfolding read_uint16 read_byte
read_uint16-IsByte [] v r' w h = absurd (cc)
read_uint16-IsByte (a ∷ []) v r' w h = absurd (cc)
read_uint16-IsByte (a ∷ b ∷ r) v r' w h = ground arith

pub read_uint32-length :
    (r : List ℕ) (v : ℕ) (r' : List ℕ) → read_uint32 r ≡ ok (v, r') → length r' + 4 ≡ length r
unfolding read_uint32 read_byte
read_uint32-length [] v r' h = absurd (cc)
read_uint32-length (a ∷ []) v r' h = absurd (cc)
read_uint32-length (a ∷ b ∷ []) v r' h = absurd (cc)
read_uint32-length (a ∷ b ∷ c ∷ []) v r' h = absurd (cc)
read_uint32-length (a ∷ b ∷ c ∷ d ∷ r) v r' h = ground arith

pub read_uint64-length :
    (r : List ℕ) (v : ℕ) (r' : List ℕ) → read_uint64 r ≡ ok (v, r') → length r' < length r
unfolding read_uint64
read_uint64-length r v r' h =
    let (b1, r1, e1, h1) = ok-bind (read_byte r) _ v r' h in
    let (b2, r2, e2, h2) = ok-bind (read_byte r1) _ v r' h1 in
    let (b3, r3, e3, h3) = ok-bind (read_byte r2) _ v r' h2 in
    let (b4, r4, e4, h4) = ok-bind (read_byte r3) _ v r' h3 in
    let (b5, r5, e5, h5) = ok-bind (read_byte r4) _ v r' h4 in
    let (b6, r6, e6, h6) = ok-bind (read_byte r5) _ v r' h5 in
    let (b7, r7, e7, h7) = ok-bind (read_byte r6) _ v r' h6 in
    let (b8, r8, e8, h8) = ok-bind (read_byte r7) _ v r' h7 in
    ground (
      arith,
      read_byte-length r b1 r1 e1,
      read_byte-length r1 b2 r2 e2,
      read_byte-length r2 b3 r3 e3,
      read_byte-length r3 b4 r4 e4,
      read_byte-length r4 b5 r5 e5,
      read_byte-length r5 b6 r6 e6,
      read_byte-length r6 b7 r7 e7,
      read_byte-length r7 b8 r8 e8,
    )

pub ok-injective {ℓ} :
    {A : Type ℓ} (a b : A) (r r' : List ℕ)
    → ◌≡◌ {A = Reads A} (ok (a, r)) (ok (b, r'))
    → (a ≡ b) × (r ≡ r')
ok-injective a b r r' h = (cc, cc)

pub err-ne-ok {ℓ} :
    {A : Type ℓ} (e : Error) (a : A) (r : List ℕ) → ◌≡◌ {A = Reads A} (err e) (ok (a, r)) → ⊥
err-ne-ok e a r h = cc
