-- ===== src/Frames/Ack/Blocks.antt =====
-- The ACK blocks that ParseAckFrame reads: the lengths of the ranges that they make.
use quic_go.Base.{
  ℕ, zero, suc, ◌*◌, ◌^◌, ◌≤◌, ◌<◌, ◌≡◌, ◌⊎◌, inl, inr, refl, arith, sym, ap, ◌∙◌, ==_iff, Bool,
  true, false, List, [], ◌∷◌, ok, length, All, IsByte, subst, ◌==◌, Bool-cases,
}
use native.Mathlib.Nat.{pow-le-pow_right}
use quic_go.Protocol.{add64, sub64}
use quic_go.Wire.{read_byte, read_uint_n}
use quic_go.Wire.Bounds.{
  ok-bind, read_byte-length, read_byte-IsByte, read_uint_n-length, read_uint_n-lt,
  read_uint_n-IsByte,
}
use quic_go.Frames.Ack.{AckRange, all_valid, all_apart}
use quic_go.Frames.Ack.Ranges.{NoWrap, lowest}
use quic_go.Frames.Ack.Parse.{
  Blocks, first_block, add_block, read_blocks, kept_ranges, reversed, lowest_of, read_ranges,
}

-- The blocks: what is read, and the lengths of the ranges.
abbrev pub size : AckRange → ℕ
size r = add64 (sub64 r.last r.first) 1

-- A range that grows by a block and is empty so far, and a range that a block begins.
size-grown :
    (r : AckRange) (gap length : ℕ)
    → r.first < 2 ^ 64
    → r.last < 2 ^ 64
    → gap < 256
    → length < 2 ^ 48
    → size r ≡ 0
    → size (record { first = sub64 r.first (add64 gap length); last = sub64 r.last gap }) ≡ length
size-grown r gap length f l g n z = omega arith

size-new :
    (last length : ℕ)
    → last < 2 ^ 64
    → length < 2 ^ 48
    → size (record { first = add64 (sub64 last length) 1; last = last }) ≡ length
size-new last length l n = omega arith

abbrev pub Short : AckRange → Type 0
Short r = (r.first < 2 ^ 64) × (r.last < 2 ^ 64) × (size r < 2 ^ 48)

-- A range that has packets, or that the validation refuses.
abbrev pub Whole : AckRange → Type 0
Whole r = Short r × ((1 ≤ size r) ⊎ (r.last < r.first))

-- Every range is as long as one block says, and a range that no block has completed is empty.
record IsShort (b : Blocks) : Type 0 where
  current_short : Short b.current
  earlier_whole : All Whole b.earlier
  open_empty : b.in_long_block ≡ true → size b.current ≡ 0
  open_incomplete : b.in_long_block ≡ true → b.last_range_complete ≡ false
  closed_whole : b.in_long_block ≡ false → Whole b.current
  complete_whole : b.last_range_complete ≡ true → Whole b.current

-- A block of the length `size r` makes the range whole unless it is empty.
block-Whole :
    (r : AckRange) (length : ℕ) → Short r → size r ≡ length → (length == 0) ≡ false → Whole r
block-Whole r length s e z = (s, inl (ground (arith, e)))

add_block-IsShort :
    (gap length : ℕ) (b : Blocks)
    → gap < 256
    → length < 2 ^ 48
    → IsShort b
    → IsShort (add_block gap length b)
unfolding add_block
add_block-IsShort gap length b g l h = elim (Bool-cases b.in_long_block) [
  | inl t ↦
      let r : AckRange = record {
        first = sub64 b.current.first (add64 gap length);
        last = sub64 b.current.last gap;
      } in
      let e : size r ≡ length =
        size-grown b.current gap length h.current_short.0 h.current_short.1 g l (h.open_empty t) in
      let short : Short r = (omega arith, omega arith, omega (arith, e)) in
      rw (t, h.open_incomplete t)
        (record {
          current_short = short;
          earlier_whole = h.earlier_whole;
          open_empty = λ z. e ∙ (==_iff length 0).0 z;
          open_incomplete = λ z. ground arith;
          closed_whole = block-Whole r length short e;
          complete_whole = λ c. block-Whole r length short e (ground arith);
        })
  | inr t ↦
      let last = sub64 (sub64 b.current.first gap) 1 in
      let r : AckRange = record { first = add64 (sub64 last length) 1; last = last } in
      let e : size r ≡ length = size-new last length (omega arith) l in
      let short : Short r = (omega arith, omega arith, omega (arith, e)) in
      rw t (record {
        current_short = short;
        earlier_whole = (h.closed_whole t, h.earlier_whole);
        open_empty = λ z. e ∙ (==_iff length 0).0 z;
        open_incomplete = λ z. ground arith;
        closed_whole = block-Whole r length short e;
        complete_whole = λ c. block-Whole r length short e (ground arith);
      })
]

pub short_uint :
    (k : ℕ) (r : List ℕ) (v : ℕ) (r' : List ℕ)
    → All IsByte r
    → k ≤ 6
    → read_uint_n r k ≡ ok (v, r')
    → v < 2 ^ 48
short_uint k r v r' a l e = omega (
  arith,
  read_uint_n-lt k r v r' a (omega arith) e,
  pow-le-pow_right {n = 2} (omega arith) {i = k * 8} {j = 48} (omega arith),
)

read_blocks-IsShort :
    (n delta_len : ℕ) (b : Blocks) (r : List ℕ) (b' : Blocks) (r' : List ℕ)
    → All IsByte r
    → delta_len ≤ 6
    → IsShort b
    → read_blocks n delta_len b r ≡ ok (b', r')
    → IsShort b' × (length r' ≤ length r)
unfolding read_blocks
read_blocks-IsShort zero delta_len b r b' r' a d h e =
    let p : b ≡ b' = cc in let q : r ≡ r' = cc in (subst IsShort p h, rw q (omega arith))
read_blocks-IsShort (suc n) delta_len b r b' r' a d h e =
    let (gap, r1, e1, h1) = ok-bind (read_byte r) _ b' r' e in
    let (len, r2, e2, h2) = ok-bind (read_uint_n r1 delta_len) _ b' r' h1 in
    let (g, a1) = read_byte-IsByte r gap r1 a e1 in
    let l : len < 2 ^ 48 = short_uint delta_len r1 len r2 a1 d e2 in
    let ih =
      read_blocks-IsShort n delta_len (add_block gap len b) r2 b' r'
        (read_uint_n-IsByte delta_len r1 len r2 a1 e2) d (add_block-IsShort gap len b g l h) h2 in
    (
      ih.0,
      omega (arith, ih.1, read_byte-length r gap r1 e1, read_uint_n-length delta_len r1 len r2 e2),
    )

reversed-Whole :
    (xs acc : List AckRange) → All Whole xs → All Whole acc → All Whole (reversed xs acc)
unfolding reversed
reversed-Whole [] acc h k = k
reversed-Whole (x ∷ xs) acc h k = reversed-Whole xs (x ∷ acc) h.1 (h.0, k)

abbrev pub lowest_in : List AckRange → ℕ
lowest_in [] = 0
lowest_in (r ∷ rs) = lowest r rs

lowest_in-reversed_onto :
    (xs : List AckRange) (x : AckRange) (acc : List AckRange)
    → lowest_in (reversed xs (x ∷ acc)) ≡ lowest_in (x ∷ acc)
unfolding reversed
lowest_in-reversed_onto [] x acc = refl
lowest_in-reversed_onto (y ∷ xs) x acc = lowest_in-reversed_onto xs y (x ∷ acc)

lowest_in-reversed : (xs : List AckRange) → lowest_in (reversed xs []) ≡ lowest_of xs
unfolding reversed
lowest_in-reversed [] = refl
lowest_in-reversed (x ∷ xs) = lowest_in-reversed_onto xs x []

-- Whole ranges that are valid and apart do not wrap.
pub apart-NoWrap :
    (prev : AckRange) (rs : List AckRange)
    → prev.first < 2 ^ 48
    → All Whole rs
    → all_valid rs ≡ true
    → all_apart prev rs ≡ true
    → NoWrap rs
unfolding all_valid all_apart
apart-NoWrap prev [] f h v a = tt
apart-NoWrap prev (r ∷ rs) f h v a = ground (arith, apart-NoWrap r rs)

kept_ranges-Whole : (b : Blocks) → IsShort b → All Whole (kept_ranges b)
unfolding kept_ranges
kept_ranges-Whole b h = elim (Bool-cases b.last_range_complete) [
  | inl t ↦ rw t (h.complete_whole t, h.earlier_whole)
  | inr t ↦ rw t h.earlier_whole
]

-- The ranges that are read: whole ones, whose lowest number is the one that is returned.
pub read_ranges-Whole :
    (missing : Bool) (num delta_len largest len : ℕ) (r : List ℕ) (ranges : List AckRange) (low : ℕ)
    (r' : List ℕ)
    → All IsByte r
    → delta_len ≤ 6
    → largest < 2 ^ 48
    → len ≤ largest
    → (1 ≤ len) ⊎ (largest ≡ 0)
    → read_ranges missing num delta_len largest len r ≡ ok ((ranges, low), r')
    → All Whole ranges
      × ((low ≡ lowest_in ranges) ⊎ ((ranges ≡ []) × (low ≤ largest)))
      × (length r' ≤ length r)
unfolding read_ranges kept_ranges
read_ranges-Whole false num delta_len largest len r ranges low r' a d l n p e = ground arith
read_ranges-Whole true num delta_len largest len r ranges low r' a d l n p e =
    let (b, r1, e1, h1) =
      ok-bind (read_blocks num delta_len (first_block largest len) r) _ (ranges, low) r' e in
    let first : Whole (first_block largest len).current =
      ground (arith, size-new largest len (omega arith) (omega arith)) in
    let start : IsShort (first_block largest len) = record {
      current_short = first.0;
      earlier_whole = tt;
      open_empty = λ z. absurd (cc);
      open_incomplete = λ z. refl;
      closed_whole = λ z. first;
      complete_whole = λ z. absurd (cc);
    } in
    let (short, left) =
      read_blocks-IsShort num delta_len (first_block largest len) r b r1 a d start e1 in
    let kept : All Whole (kept_ranges b) = kept_ranges-Whole b short in
    let x : reversed (kept_ranges b) [] ≡ ranges = cc in
    let y : lowest_of (kept_ranges b) ≡ low = cc in
    let z : r1 ≡ r' = cc in
    (
      subst (All Whole) x (reversed-Whole (kept_ranges b) [] kept tt),
      inl (sym y ∙ sym (lowest_in-reversed (kept_ranges b)) ∙ ap lowest_in x),
      rw (sym z) left,
    )
