-- ===== src/Frames/Ack/Ranges.antt =====
-- What the ranges of an ACK frame mean, and how many blocks are written for them.
use quic_go.Base.{ℕ, ◌+◌, ◌≤◌, ◌<◌, ◌≡◌, refl, arith, true, List, [], ◌∷◌, ltb, length, All, ◌^◌}
use quic_go.Frames.Ack.{
  AckRange, AckFrame, has_missing_ranges, any_range, acks_packet, all_valid, all_apart,
  validate_ranges, validate_ack_ranges, num_writable_loop, num_writable_ranges,
  num_writable_nack_ranges, blocks_for, gap_below,
}

num_writable_loop-lt :
    (prev : AckRange) (rs : List AckRange) (n : ℕ) → n < 255 → num_writable_loop prev rs n < 255
unfolding num_writable_loop
num_writable_loop-lt prev [] n h = h
num_writable_loop-lt prev (r ∷ rs) n h =
    ground (arith, num_writable_loop-lt r rs (n + blocks_for (gap_below prev r)))

-- However many ranges a frame has, and however long the gaps are, at most 255 blocks are announced,
-- so the panic on too many ranges in Write is never reached; with a range there is at least one.
pub num_writable_nack_ranges_bounds :
    (f : AckFrame)
    → (num_writable_nack_ranges f ≤ 255)
      × (has_missing_ranges f ≡ ltb 0 (num_writable_nack_ranges f))
unfolding num_writable_nack_ranges has_missing_ranges
num_writable_nack_ranges_bounds f = by_ranges f.ack_ranges
  where
    by_ranges :
        (rs : List AckRange)
        → (num_writable_ranges rs ≤ 255) × (ltb 0 (length rs) ≡ ltb 0 (num_writable_ranges rs))
    by_ranges [] = (omega arith, refl)
    by_ranges (r ∷ rs) = ground (arith, num_writable_loop-lt r rs 0)

-- No range ends at the last uint64, so `last + 1` does not wrap.
abbrev pub NoWrap : List AckRange → Type 0
NoWrap = All λ r. r.last + 1 < 2 ^ 64

below_first :
    (p : ℕ) (prev : AckRange) (rs : List AckRange)
    → NoWrap rs
    → all_valid rs ≡ true
    → all_apart prev rs ≡ true
    → any_range p rs ≡ true
    → p < prev.first
unfolding all_valid all_apart any_range
below_first p prev [] w v a h = cc
below_first p prev (r ∷ rs) w v a h = ground (arith, below_first p r rs)

-- The first number of the last range.
abbrev pub lowest : AckRange → List AckRange → ℕ
lowest r [] = r.first
lowest r (s ∷ rs) = lowest s rs

pub lowest_le : (r : AckRange) (rs : List AckRange) → all_apart r rs ≡ true → lowest r rs ≤ r.first
unfolding all_apart
lowest_le r [] a = omega arith
lowest_le r (s ∷ rs) a = ground (arith, lowest_le s rs)

above_lowest :
    (p : ℕ) (r : AckRange) (rs : List AckRange)
    → all_valid (r ∷ rs) ≡ true
    → all_apart r rs ≡ true
    → any_range p (r ∷ rs) ≡ true
    → lowest r rs ≤ p
unfolding all_valid all_apart any_range
above_lowest p r [] v a h = ground arith
above_lowest p r (s ∷ rs) v a h = ground (arith, above_lowest p s rs, lowest_le s rs)

within :
    (p largest : ℕ) (r s : AckRange) (rs : List AckRange)
    → NoWrap (s ∷ rs)
    → validate_ranges largest (r ∷ s ∷ rs) ≡ true
    → any_range p (r ∷ s ∷ rs) ≡ true
    → (lowest s rs ≤ p) × (p ≤ largest)
unfolding validate_ranges
within p largest r s rs w v h =
    let valid : all_valid (r ∷ s ∷ rs) ≡ true = ground arith in
    let apart : all_apart r (s ∷ rs) ≡ true = ground arith in
    let top : r.last ≡ largest = ground arith in
    (above_lowest p r (s ∷ rs) valid apart h, below_top top valid apart)
  where
    below_top :
        r.last ≡ largest → all_valid (r ∷ s ∷ rs) ≡ true → all_apart r (s ∷ rs) ≡ true → p ≤ largest
    below_top top valid apart =
        unfold all_valid any_range in ground (arith, below_first p r (s ∷ rs) w)

-- The early test of AcksPacket is only an optimisation: for a frame with ranges that passes the
-- validation and whose LowestAcked is the first number of its last range, a packet number is acked
-- exactly when it lies in one of the ranges. No range ends at the last uint64.
pub acks_packet-any_range :
    (f : AckFrame) (r : AckRange) (rs : List AckRange) (p : ℕ)
    → f.ack_ranges ≡ r ∷ rs
    → validate_ack_ranges f ≡ true
    → f.lowest_acked ≡ lowest r rs
    → NoWrap rs
    → acks_packet f p ≡ any_range p f.ack_ranges
unfolding acks_packet validate_ack_ranges
acks_packet-any_range f r [] p e v l w = ground arith
acks_packet-any_range f r (s ∷ rs) p e v l w =
    let v' : validate_ranges f.largest_acked (r ∷ s ∷ rs) ≡ true = rw e at v in
    ground (arith, within p f.largest_acked r s rs w v')
