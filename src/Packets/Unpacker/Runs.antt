-- ===== src/Packets/Unpacker/Runs.antt =====
-- Concrete packets that are unpacked.
use quic_go.Base.{
  ok, map, All, ◌^◌, ℕ, ◌≡◌, ◌≢◌, inl, refl, arith, true, false, List, [], ◌∷◌, ◌++◌, Option, some,
}
use quic_go.Frames.StreamFrame.{StreamFrame}
use quic_go.Frames.StreamFrame.RoundTrip.{IsValid}
use quic_go.Frames.Kinds.{Frame, blocked_frame, ping_frame, ack_frame, stop_waiting_frame}
use quic_go.Packets.Unpacker.{unpack, unpacked, out_of_fuel}
use quic_go.Packets.Unpacker.Ends.{unpack-ends}
use quic_go.Protocol.{len2}
use quic_go.Wire.{read_byte, read_uint_n, read_uint16}
use quic_go.Wire.Float.{read_ufloat16, float_value}
use quic_go.Frames.Ack.{AckFrame, validate_ack_ranges}
use quic_go.Frames.Ack.Parse.{
  parse_ack_frame, parse_ack_blocks, parse_ack_end, read_ranges, skip_all_timestamps,
  largest_acked_len_of, delta_len_of,
}
use quic_go.Frames.StopWaiting.{StopWaitingFrame}
use quic_go.Packets.Unpacker.RoundTrip.{last_bytes, last_frames, unpack-wires}
use quic_go.Packets.Unpacker.Written.{wires, received, IsInnerFrame}

-- An AEAD that changes nothing.
abbrev plain : List ℕ → ℕ → List ℕ → Option (List ℕ)
plain bytes number header = some bytes

abbrev last : StreamFrame
last = record {
  stream_id = 5;
  fin_bit = true;
  data_len_present = false;
  offset = 70000;
  bytes = 1 ∷ 2 ∷ [];
}

last-IsValid : IsValid last
last-IsValid = record {
  id_fits = omega arith;
  offset_fits = omega arith;
  small = omega arith;
  not_empty = inl refl;
}

-- Packets 8 and 9 were received.
abbrev ack_bytes : AckFrame → List ℕ
ack_bytes f = 0x40 ∷ 9 ∷ 0 ∷ 0 ∷ 2 ∷ 0 ∷ []

abbrev ack : AckFrame
ack = record {
  largest_acked = 9;
  lowest_acked = 8;
  ack_ranges = [];
  delay_time = 0;
  packet_received_time = 0;
}

parse_ack : (rest : List ℕ) → parse_ack_frame (ack_bytes ack ++ rest) ≡ ok (ack, rest)
unfolding parse_ack_frame parse_ack_blocks parse_ack_end read_ranges skip_all_timestamps
    largest_acked_len_of delta_len_of read_byte read_uint_n read_ufloat16 read_uint16 float_value
    validate_ack_ranges
parse_ack rest = refl

abbrev waiting : StopWaitingFrame
waiting = record { least_unacked = 4; packet_number_len = 2; packet_number = 9 }

abbrev inner : List Frame
inner =
    ack_frame ack
    ∷ stop_waiting_frame waiting
    ∷ ping_frame (record {})
    ∷ blocked_frame (record { stream_id = 7 })
    ∷ []

inner-All : All (IsInnerFrame ack_bytes 9 2) inner
inner-All = (
  (0x40, _, refl, refl, refl, parse_ack),
  (
    (refl, refl, omega arith, omega arith, (2 ^ 16, len2 refl refl, omega arith)),
    (tt, (omega arith, tt)),
  ),
)

unpack-wires_example :
    unpack plain [] 9 2 (wires ack_bytes inner ++ last_bytes (some last))
    ≡ unpacked (map received inner ++ last_frames (some last))
unpack-wires_example =
    unpack-wires ack_bytes plain [] 9 2 (wires ack_bytes inner ++ last_bytes (some last)) inner
      (some last) inner-All last-IsValid (omega arith) refl

unpack-ends_example : unpack plain [] 9 2 (0x07 ∷ 0x06 ∷ []) ≢ out_of_fuel
unpack-ends_example = unpack-ends plain [] 9 2 (0x07 ∷ 0x06 ∷ [])
