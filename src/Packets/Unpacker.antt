-- ===== src/Packets/Unpacker.antt =====
-- packet_unpacker.go. The frames of a packet are read in order; the loop has fuel.
pub mod Shorter
pub mod Ends
pub mod Written
pub mod RoundTrip
mod Runs
use quic_go.Base.{
  ℕ, zero, suc, ◌+◌, List, [], ◌∷◌, ◌++◌, Option, none, some, Error, Result, ok, err, bit_and,
  length, ◌==◌, if◌then◌else◌,
}
use quic_go.Wire.{Reads}
use quic_go.Frames.Control.{
  parse_window_update_frame, parse_rst_stream_frame, parse_blocked_frame, parse_ping_frame,
}
use quic_go.Frames.Closing.{parse_connection_close_frame, parse_goaway_frame}
use quic_go.Frames.StopWaiting.{parse_stop_waiting_frame}
use quic_go.Frames.Ack.Parse.{parse_ack_frame}
use quic_go.Frames.StreamFrame.{parse_stream_frame}
use quic_go.Frames.Kinds.{
  Frame, stream_frame, ack_frame, stop_waiting_frame, rst_stream_frame, connection_close_frame,
  goaway_frame, window_update_frame, blocked_frame, ping_frame,
}

-- The error codes of the errors that Unpack returns; PING and CONGESTION_FEEDBACK have none.
pub data UnpackError : Type 0 where
  decryption_failure missing_payload congestion_feedback : UnpackError
  invalid_stream_data invalid_ack_data invalid_rst_stream_data : Error → UnpackError
  invalid_connection_close_data invalid_goaway_data invalid_window_update_data : Error → UnpackError
  invalid_blocked_data invalid_stop_waiting_data invalid_ping : Error → UnpackError
  invalid_frame_data : ℕ → UnpackError

-- What a round of the loop reads, and what the loop returns.
pub data Round : Type 0 where
  padding : Round
  next : Frame → List ℕ → Round
  bad : UnpackError → Round

pub data Unpacked : Type 0 where
  unpacked : List Frame → Unpacked
  failed : UnpackError → Unpacked
  out_of_fuel : Unpacked

abbrev pub round {ℓ} : {A : Type ℓ} → (A → Frame) → (Error → UnpackError) → Reads A → Round
round kind code (ok (f, r)) = next (kind f) r
round kind code (err e) = bad (code e)

-- The `switch` on the type byte of a control frame.
unfoldable pub read_control : ℕ → ℕ → ℕ → List ℕ → Round
read_control packet_number packet_number_len t r =
    if t == 0x00
    then padding
    else if t == 0x01
    then round rst_stream_frame invalid_rst_stream_data (parse_rst_stream_frame r)
    else if t == 0x02
    then round connection_close_frame invalid_connection_close_data (parse_connection_close_frame r)
    else if t == 0x03
    then round goaway_frame invalid_goaway_data (parse_goaway_frame r)
    else if t == 0x04
    then round window_update_frame invalid_window_update_data (parse_window_update_frame r)
    else if t == 0x05
    then round blocked_frame invalid_blocked_data (parse_blocked_frame r)
    else if t == 0x06
    then round stop_waiting_frame invalid_stop_waiting_data
        (parse_stop_waiting_frame r packet_number packet_number_len)
    else if t == 0x07
    then round ping_frame invalid_ping (parse_ping_frame r)
    else bad (invalid_frame_data t)

unfoldable pub read_frame : ℕ → ℕ → ℕ → List ℕ → Round
unfolding read_control
read_frame packet_number packet_number_len t r =
    if bit_and t 0x80 == 0x80
    then round stream_frame invalid_stream_data (parse_stream_frame r)
    else if bit_and t 0xc0 == 0x40
    then round ack_frame invalid_ack_data (parse_ack_frame r)
    else if bit_and t 0xe0 == 0x20
    then bad congestion_feedback
    else read_control packet_number packet_number_len t r

unfoldable pub read_loop : ℕ → ℕ → ℕ → List ℕ → List Frame → Unpacked
unfolding read_frame
read_loop packet_number packet_number_len zero r fs = out_of_fuel
read_loop packet_number packet_number_len (suc n) [] fs = unpacked fs
read_loop packet_number packet_number_len (suc n) (t ∷ r) fs =
    elim (read_frame packet_number packet_number_len t (t ∷ r)) [
      | padding ↦ unpacked fs
      | next f r' ↦ read_loop packet_number packet_number_len n r' (fs ++ (f ∷ []))
      | bad e ↦ failed e
    ]

-- `open data packet_number associated_data` is the Open of the AEAD.
unfoldable pub unpack : (List ℕ → ℕ → List ℕ → Option (List ℕ)) → List ℕ → ℕ → ℕ → List ℕ → Unpacked
unfolding read_loop
unpack open_data public_header packet_number packet_number_len bytes =
    elim (open_data bytes packet_number public_header) [
      | none ↦ failed decryption_failure
      | some [] ↦ failed missing_payload
      | some (t ∷ r) ↦ read_loop packet_number packet_number_len (suc (length (t ∷ r))) (t ∷ r) []
    ]
