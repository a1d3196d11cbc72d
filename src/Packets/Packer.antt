-- ===== src/Packets/Packer.antt =====
-- packet_packer.go: composeNextPacket, and the tests of packPacket on what it composed.
pub mod Sizes
mod Runs
use quic_go.Base.{
  ℕ, ◌+◌, ◌-◌, Bool, true, false, not, ◌&&◌, List, [], ◌∷◌, ◌++◌, Option, none, some, Error, Result,
  ok, err, ◌>>=◌, map, length, ltb, ◌==◌, if◌then◌else◌,
}
use quic_go.Protocol.{max_packet_size, add64, sub64}
use quic_go.Frames.Control.{
  min_length_window_update_frame, min_length_rst_stream_frame, min_length_blocked_frame,
  BlockedFrame, min_length_ping_frame,
}
use quic_go.Frames.Closing.{min_length_connection_close_frame, min_length_goaway_frame}
use quic_go.Frames.StopWaiting.{StopWaitingFrame, min_length_stop_waiting_frame}
use quic_go.Frames.Ack.{min_length_ack_frame}
use quic_go.Frames.StreamFrame.{StreamFrame, min_length_stream_frame}
use quic_go.Frames.Kinds.{
  Frame, stream_frame, ack_frame, stop_waiting_frame, rst_stream_frame, connection_close_frame,
  goaway_frame, window_update_frame, blocked_frame, ping_frame,
}
use quic_go.Flow.Controller.{ConnectionParameters}
use quic_go.Packets.Framer.{StreamFramer, pop_stream_frames}

-- MaxFrameAndPublicHeaderSize
abbrev pub max_frame_and_public_header_size : ℕ
max_frame_and_public_header_size = max_packet_size - 12

-- MinLength of the frames; an error comes with the length 0.
unfoldable pub min_length : Frame → ℕ
min_length (stream_frame f) = min_length_stream_frame f
min_length (ack_frame f) = min_length_ack_frame f
min_length (stop_waiting_frame f) = elim (min_length_stop_waiting_frame f) [ ok n ↦ n | err e ↦ 0 ]
min_length (rst_stream_frame f) = min_length_rst_stream_frame f
min_length (connection_close_frame f) = min_length_connection_close_frame f
min_length (goaway_frame f) = min_length_goaway_frame f
min_length (window_update_frame f) = min_length_window_update_frame f
min_length (blocked_frame f) = min_length_blocked_frame f
min_length (ping_frame f) = min_length_ping_frame f

-- The packer's own state, with the framer; the last control frame is taken first, so the control
-- frames are held with the last one in front.
pub record PacketPacker : Type 0 where
  pub stream_framer : StreamFramer
  pub control_frames : List Frame

unfoldable pub queue_control_frame_for_next_packet : Frame → PacketPacker → PacketPacker
queue_control_frame_for_next_packet f p = record p { control_frames = f ∷ p.control_frames }

-- The loop over the control frames: those that are taken, the payload's length, and those left.
pub record Taken : Type 0 where
  pub taken : List Frame
  pub payload_length : ℕ
  pub left : List Frame

unfoldable pub take_control_frames : ℕ → ℕ → List Frame → Taken
unfolding min_length
take_control_frames max_size payload [] = record { taken = []; payload_length = payload; left = [] }
take_control_frames max_size payload (f ∷ fs) =
    let rest = take_control_frames max_size (payload + min_length f) fs in
    if ltb max_size (payload + min_length f)
    then record { taken = []; payload_length = payload; left = f ∷ fs }
    else record rest { taken = f ∷ rest.taken }

-- The last STREAM frame of a packet is written without its length.
unfoldable pub omit_last_data_len : List StreamFrame → List StreamFrame
omit_last_data_len [] = []
omit_last_data_len (f ∷ []) = record f { data_len_present = false } ∷ []
omit_last_data_len (f ∷ g ∷ fs) = f ∷ omit_last_data_len (g ∷ fs)

-- The frames of a packet, or an error with the state that it leaves.
pub data Composed : Type 0 where
  composed : List Frame → Composed
  refused : Error → Composed
  too_large : Composed

-- All BLOCKED frames become control frames for the next packet, one after the other.
unfoldable pub queue_blocked : List BlockedFrame → List Frame → List Frame
queue_blocked [] fs = fs
queue_blocked (b ∷ bs) fs = queue_blocked bs (blocked_frame b ∷ fs)

module _ (params : ConnectionParameters) where
  -- The part of composeNextPacket behind the STOP_WAITING frame, `first`, of the given length.
  unfoldable pub fill_packet : List Frame → ℕ → ℕ → PacketPacker → PacketPacker × Composed
  unfolding take_control_frames omit_last_data_len queue_blocked
  fill_packet first payload max_size p =
      let t = take_control_frames max_size payload p.control_frames in
      let (framer, fs) =
        pop_stream_frames params (sub64 (add64 max_size 2) t.payload_length) p.stream_framer in
      if ltb max_size t.payload_length then (record p { control_frames = t.left }, too_large) else (
        record {
          stream_framer = record framer { blocked_frame_queue = [] };
          control_frames = queue_blocked framer.blocked_frame_queue t.left;
        },
        composed (first ++ (t.taken ++ map stream_frame (omit_last_data_len fs))),
      )

  unfoldable pub compose_next_packet :
      Option StopWaitingFrame → ℕ → PacketPacker → PacketPacker × Composed
  unfolding fill_packet
  compose_next_packet stop_waiting public_header_length p =
      let max_size = sub64 max_frame_and_public_header_size public_header_length in
      elim stop_waiting [
        | none ↦ fill_packet [] 0 max_size p
        | some f ↦ elim (min_length_stop_waiting_frame f) [
          | err e ↦ (p, refused e)
          | ok n ↦ fill_packet (stop_waiting_frame f ∷ []) n max_size p
        ]
      ]

-- The tests of packPacket whether composed frames are worth a packet.
abbrev pub is_ack : Frame → Bool
is_ack (ack_frame f) = true
is_ack (stream_frame f) = false
is_ack (stop_waiting_frame f) = false
is_ack (rst_stream_frame f) = false
is_ack (connection_close_frame f) = false
is_ack (goaway_frame f) = false
is_ack (window_update_frame f) = false
is_ack (blocked_frame f) = false
is_ack (ping_frame f) = false

unfoldable pub worth_sending : Bool → Bool → Bool → List Frame → Bool
worth_sending only_one has_stop_waiting may_send_only_ack [] = false
worth_sending only_one has_stop_waiting may_send_only_ack (f ∷ []) =
    not (not only_one && has_stop_waiting) && not (not may_send_only_ack && is_ack f)
worth_sending only_one has_stop_waiting may_send_only_ack (f ∷ g ∷ []) =
    not (not may_send_only_ack && (has_stop_waiting && is_ack g))
worth_sending only_one has_stop_waiting may_send_only_ack (f ∷ g ∷ h ∷ fs) = true
