-- ===== src/Frames/Ack/Parse.antt =====
-- frames/ack_frame.go: ParseAckFrame. It appends to AckRanges and changes the last range of it; here
-- the ranges are held with the last one in front.
use quic_go.Base.{
  ℕ, zero, suc, ◌-◌, ◌*◌, ◌/◌, ◌^◌, Bool, true, false, ◌&&◌, not, List, [], ◌∷◌, ok, err, ◌>>=◌,
  bit_and, ltb, ◌==◌, if◌then◌else◌, invalid_ack_ranges, invalid_first_ack_range,
}
use quic_go.Protocol.{add64, sub64}
use quic_go.Wire.{Reads, read_byte, read_uint_n, read_uint16, read_uint32}
use quic_go.Wire.Float.{read_ufloat16}
use quic_go.Frames.Ack.{AckRange, AckFrame, validate_ack_ranges}

-- The lengths that the type byte announces, and whether ranges are missing.
unfoldable pub largest_acked_len_of : ℕ → ℕ
largest_acked_len_of t = let len = 2 * (bit_and t 0x0c / 2 ^ 2) in if len == 0 then 1 else len

unfoldable pub delta_len_of : ℕ → ℕ
delta_len_of t = let len = 2 * bit_and t 0x03 in if len == 0 then 1 else len

-- The variables of the loop over the ACK blocks: AckRanges, not empty, inLongBlock and
-- lastRangeComplete.
pub record Blocks : Type 0 where
  pub current : AckRange
  pub earlier : List AckRange
  pub in_long_block : Bool
  pub last_range_complete : Bool

abbrev pub first_block : ℕ → ℕ → Blocks
first_block largest length = record {
  current = record { first = add64 (sub64 largest length) 1; last = largest };
  earlier = [];
  in_long_block = false;
  last_range_complete = false;
}

-- What one block does, of the given gap and length.
unfoldable pub add_block : ℕ → ℕ → Blocks → Blocks
add_block gap length b =
    let next_last = sub64 (sub64 b.current.first gap) 1 in
    let added =
      if b.in_long_block
      then record b {
        current = record {
          first = sub64 b.current.first (add64 gap length);
          last = sub64 b.current.last gap;
        };
      }
      else record {
        current = record { first = add64 (sub64 next_last length) 1; last = next_last };
        earlier = b.current ∷ b.earlier;
        in_long_block = b.in_long_block;
        last_range_complete = false;
      } in
    record added {
      in_long_block = length == 0;
      last_range_complete = if ltb 0 length then true else added.last_range_complete;
    }

unfoldable pub read_blocks : ℕ → ℕ → Blocks → List ℕ → Reads Blocks
unfolding read_byte add_block
read_blocks zero delta_len b r = ok (b, r)
read_blocks (suc n) delta_len b r = do
  (gap, r1) ← read_byte r
  (length, r2) ← read_uint_n r1 delta_len
  read_blocks n delta_len (add_block gap length b) r2

-- The ranges that are kept, the last one in front: an incomplete last range is removed.
unfoldable pub kept_ranges : Blocks → List AckRange
kept_ranges b = if b.last_range_complete then b.current ∷ b.earlier else b.earlier

unfoldable pub reversed : List AckRange → List AckRange → List AckRange
reversed [] acc = acc
reversed (x ∷ xs) acc = reversed xs (x ∷ acc)

-- `AckRanges[len(AckRanges)-1].FirstPacketNumber`; there is always a range.
abbrev pub lowest_of : List AckRange → ℕ
lowest_of [] = 0
lowest_of (x ∷ xs) = x.first

-- The timestamps are skipped: `n` after the first one.
unfoldable pub skip_timestamps : ℕ → List ℕ → Reads (Unit {0})
unfolding read_byte read_uint16
skip_timestamps zero r = ok (tt, r)
skip_timestamps (suc n) r = do (_, r1) ← read_byte r; (_, r2) ← read_uint16 r1; skip_timestamps n r2

unfoldable pub skip_all_timestamps : List ℕ → Reads (Unit {0})
unfolding read_byte read_uint32
skip_all_timestamps r = do
  (num, r1) ← read_byte r
  if num == 0
      then ok (tt, r1)
      else do (_, r2) ← read_byte r1; (_, r3) ← read_uint32 r2; skip_timestamps (num - 1) r3

-- The ranges and the lowest packet number, from the number of blocks and the first block's length.
unfoldable pub read_ranges : Bool → ℕ → ℕ → ℕ → ℕ → List ℕ → Reads (List AckRange × ℕ)
read_ranges true num delta_len largest length r = do
  (b, r1) ← read_blocks num delta_len (first_block largest length) r
  ok ((reversed (kept_ranges b) [], lowest_of (kept_ranges b)), r1)
read_ranges false num delta_len largest length r =
    ok (([], if largest == 0 then 0 else sub64 (add64 largest 1) length), r)

-- The end of the parser: the validation and the timestamps.
unfoldable pub parse_ack_end : AckFrame → List ℕ → Reads AckFrame
unfolding skip_all_timestamps
parse_ack_end f r =
    if not (validate_ack_ranges f)
    then err invalid_ack_ranges
    else do (_, r1) ← skip_all_timestamps r; ok (f, r1)

-- The part behind the number of ACK blocks, `num`.
unfoldable pub parse_ack_blocks : ℕ → ℕ → ℕ → ℕ → List ℕ → Reads AckFrame
unfolding read_ranges parse_ack_end
parse_ack_blocks t largest delay num r =
    let missing = bit_and t 0x20 == 0x20 in
    if missing && num == 0 then err invalid_ack_ranges else do
      (length, r1) ← read_uint_n r (delta_len_of t)
      if ltb 0 largest && ltb length 1
          then err invalid_first_ack_range
          else if ltb largest length
          then err invalid_ack_ranges
          else do
            (parsed, r2) ← read_ranges missing num (delta_len_of t) largest length r1
            parse_ack_end
                (record {
                  largest_acked = largest;
                  lowest_acked = parsed.1;
                  ack_ranges = parsed.0;
                  delay_time = delay * 1000;
                  packet_received_time = 0;
                })
                r2

unfoldable pub parse_ack_frame : List ℕ → Reads AckFrame
unfolding read_byte read_ufloat16 parse_ack_blocks
parse_ack_frame r = do
  (t, r1) ← read_byte r
  (largest, r2) ← read_uint_n r1 (largest_acked_len_of t)
  (delay, r3) ← read_ufloat16 r2
  (num, r4) ← if bit_and t 0x20 == 0x20 then read_byte r3 else ok (0, r3)
  parse_ack_blocks t largest delay num r4
