-- ===== src/Session/Runs.antt =====
-- A session that handles a packet.
use quic_go.Base.{ℕ, ◌+◌, arith, false, List, [], ◌∷◌, Option, some}
use quic_go.Base.Maps.{find}
use quic_go.Flow.Controller.{ConnectionParameters}
use quic_go.Received.Handler.{new_handler}
use quic_go.Sending.Handler.{SendAlgorithm, new_sent_handler}
use quic_go.Streams.Map.{new_streams_map}
use quic_go.Streams.Map.Consistent.{new_streams_map-IsConsistent}
use quic_go.Session.{Session, ReceivedPacket, handle_packet_impl}
use quic_go.Session.Sound.{IsSound}
use quic_go.Session.Consistency.{handle_packet_impl-IsSound}

abbrev counting : SendAlgorithm ℕ
counting = record {
  on_packet_sent = λ c _ _ _ _. c + 1;
  on_congestion_event = λ c _ _ _ _. c + 1;
  on_retransmission_timeout = λ c. c + 1;
  get_congestion_window = λ _. 1000;
  retransmission_delay = λ _. 300_000_000;
  update_rtt = λ c _ _ _. c + 1;
}

abbrev params : ConnectionParameters
params = record {
  send_stream_flow_control_window = 1000;
  send_connection_flow_control_window = 700;
  receive_stream_flow_control_window = 32768;
  receive_connection_flow_control_window = 49152;
}

abbrev plain : List ℕ → ℕ → List ℕ → Option (List ℕ)
plain bytes number header = some bytes

abbrev session : Session ℕ
session = record {
  streams_map = new_streams_map;
  flow_control_manager = record {
    stream_flow_controller = [];
    contributes_to_connection_flow_control = [];
  };
  sent_packet_handler = new_sent_handler counting 0;
  received_packet_handler = new_handler;
  last_rcvd_packet_number = 0;
  largest_rcvd_packet_number = 0;
  last_network_activity_time = 0;
  closed = false;
}

-- Two bytes for stream 5, up to the end of the packet.
abbrev packet : ReceivedPacket counting params 100
packet = record {
  raw_header = [];
  packet_number = 1;
  packet_number_len = 1;
  contents = 0x80 ∷ 5 ∷ 1 ∷ 2 ∷ [];
  rcv_time = 70;
}

session-IsSound : IsSound session.streams_map
unfolding new_streams_map find
session-IsSound = record {
  consistent = new_streams_map-IsConsistent;
  named = λ id t e. absurd (cc);
}

handle_packet_impl-IsSound_example :
    IsSound (handle_packet_impl counting params 100 plain 75 80 packet session).0.streams_map
handle_packet_impl-IsSound_example =
    handle_packet_impl-IsSound counting params 100 (omega arith) plain 75 80 packet session
      session-IsSound
