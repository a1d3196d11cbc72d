-- ===== src/Packets/Framer/Runs.antt =====
-- A framer with a frame to send again and a stream with data.
use quic_go.Base.{◌+◌, ◌≤◌, ◌≡◌, arith, true, false, [], ◌∷◌, ◌++◌, none, some}
use quic_go.Frames.StreamFrame.{StreamFrame}
use quic_go.Flow.Controller.{ConnectionParameters}
use quic_go.Streams.Stream.{Stream}
use quic_go.Packets.Framer.{StreamFramer, pop_stream_frames, pop_for_retransmission}
use quic_go.Packets.Framer.Pieces.{contents}
use quic_go.Packets.Framer.Lengths.{total, pop_for_retransmission-total, pop_stream_frames-total}

abbrev params : ConnectionParameters
params = record {
  send_stream_flow_control_window = 1000;
  send_connection_flow_control_window = 700;
  receive_stream_flow_control_window = 32768;
  receive_connection_flow_control_window = 49152;
}

abbrev lost : StreamFrame
lost = record {
  stream_id = 5;
  fin_bit = true;
  data_len_present = false;
  offset = 0;
  bytes = 1 ∷ 2 ∷ 3 ∷ [];
}

abbrev writing : Stream
writing = record {
  stream_id = 7;
  read_pos_in_frame = 0;
  write_offset = 0;
  read_offset = 0;
  error = none;
  is_eof = false;
  closed = false;
  frame_queue = record { queued = []; read_position = 0; gaps = [] };
  data_for_writing = some (1 ∷ 2 ∷ 3 ∷ []);
  fin_sent = false;
}

abbrev framer : StreamFramer
framer = record {
  streams_map = record {
    streams = (7, some writing) ∷ [];
    open_streams = 7 ∷ [];
    behind = [];
    highest_stream_opened_by_client = 7;
    streams_opened_after_last_garbage_collect = 0;
    num_outgoing_streams = 0;
    num_incoming_streams = 1;
    round_robin_index = 0;
  };
  flow_control_manager = record {
    stream_flow_controller = [];
    contributes_to_connection_flow_control = [];
  };
  retransmission_queue = lost ∷ [];
  blocked_frame_queue = [];
}

pop_for_retransmission-total_example :
    let p = pop_for_retransmission 6 0 (lost ∷ []) in
    (p.current_len ≤ 6)
    × (p.current_len ≡ 0 + total p.frames)
    × (contents p.frames ++ contents p.queue ≡ contents (lost ∷ []))
pop_for_retransmission-total_example = pop_for_retransmission-total 6 0 (lost ∷ []) (omega arith)

pop_stream_frames-total_example : total (pop_stream_frames params 20 framer).1 ≤ 20
pop_stream_frames-total_example = pop_stream_frames-total params 20 framer
