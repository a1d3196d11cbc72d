-- ===== src/Packets/Packer/Runs.antt =====
-- A packet composed of a STOP_WAITING frame, control frames and a frame to send again.
use quic_go.Base.{◌+◌, ◌≤◌, ◌≡◌, refl, arith, true, false, List, [], ◌∷◌, some, ok}
use quic_go.Frames.StreamFrame.{StreamFrame}
use quic_go.Frames.StopWaiting.{StopWaitingFrame, min_length_stop_waiting_frame}
use quic_go.Frames.Kinds.{Frame, blocked_frame, ping_frame}
use quic_go.Flow.Controller.{ConnectionParameters}
use quic_go.Streams.Map.{new_streams_map}
use quic_go.Packets.Packer.{
  PacketPacker, compose_next_packet, composed, max_frame_and_public_header_size, worth_sending,
}
use quic_go.Packets.Packer.Sizes.{size, stop_length, compose_next_packet-size}

abbrev params : ConnectionParameters
params = record {
  send_stream_flow_control_window = 1000;
  send_connection_flow_control_window = 700;
  receive_stream_flow_control_window = 32768;
  receive_connection_flow_control_window = 49152;
}

abbrev lost : StreamFrame
lost = record {
  stream_id = 5;
  fin_bit = true;
  data_len_present = false;
  offset = 0;
  bytes = 1 ∷ 2 ∷ 3 ∷ [];
}

abbrev packer : PacketPacker
packer = record {
  stream_framer = record {
    streams_map = new_streams_map;
    flow_control_manager = record {
      stream_flow_controller = [];
      contributes_to_connection_flow_control = [];
    };
    retransmission_queue = lost ∷ [];
    blocked_frame_queue = [];
  };
  control_frames = ping_frame (record {}) ∷ blocked_frame (record { stream_id = 7 }) ∷ [];
}

abbrev waiting : StopWaitingFrame
waiting = record { least_unacked = 10; packet_number_len = 2; packet_number = 20 }

stop_run : stop_length (some waiting) ≡ ok 3
unfolding min_length_stop_waiting_frame
stop_run = refl

-- A lone ACK is not sent where that is not allowed; two frames with a STOP_WAITING frame are.
worth_sending_run :
    worth_sending false true false
      (ping_frame (record {}) ∷ blocked_frame (record { stream_id = 7 }) ∷ [])
    ≡ true
unfolding worth_sending
worth_sending_run = refl

compose_next_packet-size_example :
    (fs : List Frame) × ((compose_next_packet params (some waiting) 10 packer).1 ≡ composed fs)
    × (10 + size fs ≤ max_frame_and_public_header_size)
compose_next_packet-size_example =
    compose_next_packet-size params (some waiting) 10 3 packer (refl, (refl, tt)) stop_run
      (omega arith)
