-- ===== src/Packets/Unpacker/Written.antt =====
-- The bytes of frames that stand one after the other in a packet.
use quic_go.Base.{ok, bit_and, ℕ, ◌-◌, ◌^◌, ◌≤◌, ◌<◌, ◌≡◌, ◌≢◌, List, [], ◌∷◌, ◌++◌, length, true}
use quic_go.Protocol.{max_packet_size, IsLen}
use quic_go.Frames.Control.{
  write_window_update_frame, write_rst_stream_frame, write_blocked_frame, write_ping_frame,
}
use quic_go.Frames.Closing.{write_connection_close_frame, write_goaway_frame}
use quic_go.Frames.StreamFrame.{data_len, write_stream_frame}
use quic_go.Frames.StreamFrame.RoundTrip.{IsValid}
use quic_go.Frames.Kinds.{
  Frame, stream_frame, ack_frame, stop_waiting_frame, rst_stream_frame, connection_close_frame,
  goaway_frame, window_update_frame, blocked_frame, ping_frame,
}
use quic_go.Frames.Ack.{AckFrame}
use quic_go.Frames.Ack.Parse.{parse_ack_frame}
use quic_go.Frames.StopWaiting.{write_stop_waiting_frame}

-- A STOP_WAITING frame is unpacked without the packet number and its length, which the packet has.
abbrev pub received : Frame → Frame
received (stream_frame f) = stream_frame f
received (ack_frame f) = ack_frame f
received (stop_waiting_frame f) =
    stop_waiting_frame (record f { packet_number_len = 0; packet_number = 0 })
received (rst_stream_frame f) = rst_stream_frame f
received (connection_close_frame f) = connection_close_frame f
received (goaway_frame f) = goaway_frame f
received (window_update_frame f) = window_update_frame f
received (blocked_frame f) = blocked_frame f
received (ping_frame f) = ping_frame f

-- The bytes of an ACK frame, behind a type byte of ACK frames, from which the parser reads it.
abbrev pub IsAck : AckFrame → List ℕ → Type 0
IsAck f bytes =
    (t : ℕ) × (r : List ℕ) × (bytes ≡ t ∷ r)
    × (bit_and t 0x80 ≡ 0)
    × (bit_and t 0xc0 ≡ 0x40)
    × ((rest : List ℕ) → parse_ack_frame (bytes ++ rest) ≡ ok (f, rest))

-- What Write puts out for a frame; for ACK frames some bytes are given.
module _ (ack_bytes : AckFrame → List ℕ) where
  abbrev pub wire : Frame → List ℕ
  wire (stream_frame f) = (write_stream_frame f []).0
  wire (ack_frame f) = ack_bytes f
  wire (stop_waiting_frame f) = (write_stop_waiting_frame f []).0
  wire (rst_stream_frame f) = write_rst_stream_frame f []
  wire (connection_close_frame f) = (write_connection_close_frame f []).0
  wire (goaway_frame f) = write_goaway_frame f []
  wire (window_update_frame f) = write_window_update_frame f []
  wire (blocked_frame f) = write_blocked_frame f []
  wire (ping_frame f) = write_ping_frame f []

  -- All frames of a list, one after the other.
  abbrev pub wires : List Frame → List ℕ
  wires [] = []
  wires (f ∷ fs) = wire f ++ wires fs

-- The frames that stand in a packet before others: values in range, the length of stream data, and
-- the number of the packet in a STOP_WAITING frame.
module _ (ack_bytes : AckFrame → List ℕ) (pn len : ℕ) where
  abbrev pub IsInnerFrame : Frame → Type 0
  IsInnerFrame (stream_frame f) = IsValid f × (f.data_len_present ≡ true) × (data_len f ≢ 0)
  IsInnerFrame (ack_frame f) = IsAck f (ack_bytes f)
  IsInnerFrame (stop_waiting_frame f) =
      (f.packet_number ≡ pn)
      × (f.packet_number_len ≡ len)
      × (pn ≢ 0)
      × (f.least_unacked ≤ pn)
      × ((m : ℕ) × IsLen len m × (pn - f.least_unacked < m))
  IsInnerFrame (rst_stream_frame f) =
      (f.stream_id < 2 ^ 32) × (f.error_code < 2 ^ 32) × (f.byte_offset < 2 ^ 64)
  IsInnerFrame (connection_close_frame f) =
      (f.error_code < 2 ^ 32) × (length f.reason_phrase ≤ max_packet_size)
  IsInnerFrame (goaway_frame f) =
      (f.error_code < 2 ^ 32)
      × (f.last_good_stream < 2 ^ 32)
      × (length f.reason_phrase ≤ max_packet_size)
  IsInnerFrame (window_update_frame f) = (f.stream_id < 2 ^ 32) × (f.byte_offset < 2 ^ 64)
  IsInnerFrame (blocked_frame f) = f.stream_id < 2 ^ 32
  IsInnerFrame (ping_frame f) = Unit {0}
