-- ===== src/Frames/Ack.antt =====
-- frames/ack_frame.go and ack_range.go, without Write; Parse has ParseAckFrame. The range with the highest
-- packet numbers comes first. Durations and times are numbers.
pub mod Ranges
pub mod Parse
pub mod Blocks
pub mod Parsed
pub mod Shorter
mod Runs
use quic_go.Base.{
  ℕ, ◌+◌, ◌*◌, ◌/◌, ◌%◌, Bool, true, false, ◌&&◌, ◌||◌, not, List, [], ◌∷◌, Option, none, some,
  length, ltb, leb, ◌==◌, if◌then◌else◌,
}
use quic_go.Protocol.{add64, sub64, get_packet_number_length}

pub record AckRange : Type 0 where
  pub first : ℕ
  pub last : ℕ

pub record AckFrame : Type 0 where
  pub largest_acked : ℕ
  pub lowest_acked : ℕ
  pub ack_ranges : List AckRange
  pub delay_time : ℕ
  pub packet_received_time : ℕ

unfoldable pub has_missing_ranges : AckFrame → Bool
has_missing_ranges f = ltb 0 (length f.ack_ranges)

abbrev pub in_range : ℕ → AckRange → Bool
in_range p r = leb r.first p && leb p r.last

-- The loop of AcksPacket over the ranges.
unfoldable pub any_range : ℕ → List AckRange → Bool
any_range p [] = false
any_range p (r ∷ rs) = in_range p r || any_range p rs

unfoldable pub acks_packet : AckFrame → ℕ → Bool
unfolding has_missing_ranges
acks_packet f p =
    if ltb p f.lowest_acked || ltb f.largest_acked p
    then false
    else if has_missing_ranges f
    then any_range p f.ack_ranges
    else leb f.lowest_acked p && leb p f.largest_acked

unfoldable pub all_valid : List AckRange → Bool
all_valid [] = true
all_valid (r ∷ rs) = not (ltb r.last r.first) && all_valid rs

-- Each range against the one before it.
unfoldable pub all_apart : AckRange → List AckRange → Bool
all_apart prev [] = true
all_apart prev (r ∷ rs) =
    not (leb prev.first r.first) && (not (leb prev.first (add64 r.last 1)) && all_apart r rs)

unfoldable pub validate_ranges : ℕ → List AckRange → Bool
unfolding all_valid all_apart
validate_ranges largest [] = true
validate_ranges largest (r ∷ []) = false
validate_ranges largest (r ∷ s ∷ rs) =
    r.last == largest && (all_valid (r ∷ s ∷ rs) && all_apart r (s ∷ rs))

unfoldable pub validate_ack_ranges : AckFrame → Bool
unfolding validate_ranges
validate_ack_ranges f = validate_ranges f.largest_acked f.ack_ranges

-- The gap below a range, and the number of ACK blocks that it takes.
abbrev pub gap_below : AckRange → AckRange → ℕ
gap_below prev r = sub64 (sub64 prev.first r.last) 1

abbrev pub blocks_for : ℕ → ℕ
blocks_for gap = if gap % 255 == 0 then gap / 255 else 1 + gap / 255

num_writable_loop : AckRange → List AckRange → ℕ → ℕ
num_writable_loop prev [] n = n
num_writable_loop prev (r ∷ rs) n =
    let more = num_writable_loop r rs (n + blocks_for (gap_below prev r)) in
    if ltb (n + blocks_for (gap_below prev r)) 255 then more else n

num_writable_ranges : List AckRange → ℕ
unfolding num_writable_loop
num_writable_ranges [] = 0
num_writable_ranges (r ∷ rs) = num_writable_loop r rs 0 + 1

unfoldable pub num_writable_nack_ranges : AckFrame → ℕ
unfolding num_writable_ranges
num_writable_nack_ranges f = num_writable_ranges f.ack_ranges

abbrev range_length : AckRange → ℕ
range_length r = add64 (sub64 r.last r.first) 1

max_range_length : List AckRange → ℕ → ℕ
max_range_length [] m = m
max_range_length (r ∷ rs) m =
    max_range_length rs (if ltb m (range_length r) then range_length r else m)

unfoldable pub get_missing_sequence_number_delta_len : AckFrame → ℕ
unfolding max_range_length has_missing_ranges
get_missing_sequence_number_delta_len f =
    let longest =
      if has_missing_ranges f
      then max_range_length f.ack_ranges 0
      else add64 (sub64 f.largest_acked f.lowest_acked) 1 in
    if leb longest 0xff
    then 1
    else if leb longest 0xffff
    then 2
    else if leb longest 0xffffffff
    then 4
    else 6

unfoldable pub min_length_ack_frame : AckFrame → ℕ
min_length_ack_frame f =
    let length = 1 + 2 + 1 + get_packet_number_length f.largest_acked in
    let delta_len = get_missing_sequence_number_delta_len f in
    if has_missing_ranges f
    then length + (1 + delta_len) * num_writable_nack_ranges f
    else length + delta_len
