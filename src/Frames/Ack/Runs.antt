-- ===== src/Frames/Ack/Runs.antt =====
-- ACK frames at concrete inputs.
use quic_go.Base.{ℕ, ◌<◌, ◌⊎◌, List, ok, true, length, ◌≤◌, ◌≡◌, refl, arith, [], ◌∷◌}
use quic_go.Frames.Ack.{AckFrame, any_range, acks_packet, validate_ack_ranges}
use quic_go.Frames.Ack.Parse.{
  largest_acked_len_of, delta_len_of, add_block, read_blocks, kept_ranges, reversed,
  skip_timestamps, skip_all_timestamps, read_ranges, parse_ack_end, parse_ack_blocks,
  parse_ack_frame,
}
use quic_go.Frames.Ack.Parsed.{parse_ack_frame-acks}
use quic_go.Wire.{read_byte, read_uint_n, read_uint16}
use quic_go.Wire.Float.{read_ufloat16, float_value}

-- Packets 1 to 2 and 8 to 9 are acknowledged; one block stands for the gap.
abbrev ack_bytes : List ℕ
ack_bytes = 0x60 ∷ 9 ∷ 0 ∷ 0 ∷ 1 ∷ 2 ∷ 5 ∷ 2 ∷ 0 ∷ []

abbrev parsed : AckFrame
parsed = record {
  largest_acked = 9;
  lowest_acked = 1;
  ack_ranges = record { first = 8; last = 9 } ∷ record { first = 1; last = 2 } ∷ [];
  delay_time = 0;
  packet_received_time = 0;
}

parse_ack_frame_run : parse_ack_frame ack_bytes ≡ ok (parsed, [])
unfolding parse_ack_frame parse_ack_blocks parse_ack_end read_ranges read_blocks add_block
    kept_ranges reversed skip_all_timestamps skip_timestamps largest_acked_len_of delta_len_of
    read_byte read_uint_n read_ufloat16 read_uint16 float_value validate_ack_ranges
parse_ack_frame_run = refl

parse_ack_frame-acks_example :
    ((parsed.ack_ranges ≡ []) ⊎ ((p : ℕ) → acks_packet parsed p ≡ any_range p parsed.ack_ranges))
    × (parsed.lowest_acked ≤ parsed.largest_acked)
    × (validate_ack_ranges parsed ≡ true)
    × (length {A = ℕ} [] < length ack_bytes)
parse_ack_frame-acks_example =
    parse_ack_frame-acks ack_bytes parsed [] (omega arith) parse_ack_frame_run
