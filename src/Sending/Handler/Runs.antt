-- ===== src/Sending/Handler/Runs.antt =====
-- The sent packet handler on concrete packets, with a congestion controller that counts its calls.
use quic_go.Base.{ℕ, ◌+◌, ◌≡◌, refl, arith, [], ◌∷◌, some}
use quic_go.Frames.Ack.{
  AckFrame, acks_packet, any_range, has_missing_ranges, validate_ack_ranges, validate_ranges,
  all_valid, all_apart,
}
use quic_go.Sending.StopWaiting.{new_stop_waiting_manager}
use quic_go.Sending.Handler.{
  Packet, SendAlgorithm, SentHandler, any_acked, sent_packet, received_ack, run_ack_loop,
  before_ack_loop, maybe_queue_rtos, get_rto, ack_for_skipped_packet, new_sent_handler,
}
use quic_go.Sending.Handler.Loop.{Processed}
use quic_go.Sending.Handler.Acks.{
  IsCoherent, Passes, Takes, run_ack_loop-Processed, received_ack-Takes,
}
use quic_go.Sending.Handler.Accounting.{
  IsTracked, sent_packet-IsTracked, received_ack-IsTracked, maybe_queue_rtos-IsTracked,
}
use quic_go.Sending.Handler.Reach.{Reaches, start, sends, times_out, Reaches-IsTracked}
use quic_go.Sending.Handler.Timeouts.{get_rto_lem, maybe_queue_rtos-unsent}

abbrev counting : SendAlgorithm ℕ
counting = record {
  on_packet_sent = λ c _ _ _ _. c + 1;
  on_congestion_event = λ c _ _ _ _. c + 1;
  on_retransmission_timeout = λ c. c + 1;
  get_congestion_window = λ _. 1000;
  retransmission_delay = λ _. 300_000_000;
  update_rtt = λ c _ _ _. c + 1;
}

abbrev packet : ℕ → ℕ → Packet
packet n reports = record {
  packet_number = n;
  frames = [];
  bytes = 100;
  missing_reports = reports;
  send_time = 7;
}

-- Packet 5 was skipped, packet 3 has been reported missing three times.
abbrev handler : SentHandler ℕ
handler = record {
  last_sent_packet_number = 8;
  last_sent_packet_time = 7;
  skipped_packets = 5 ∷ [];
  largest_acked = 1;
  largest_received_packet_with_ack = 8;
  packet_history = packet 2 0 ∷ packet 3 3 ∷ packet 4 0 ∷ packet 6 0 ∷ packet 8 0 ∷ [];
  stop_waiting_manager = new_stop_waiting_manager;
  retransmission_queue = [];
  bytes_in_flight = 500;
  congestion = 0;
  consecutive_rto_count = 2;
}

-- The frame acks 2 and 6.
abbrev frame : AckFrame
frame = record {
  largest_acked = 6;
  lowest_acked = 2;
  ack_ranges = record { first = 6; last = 6 } ∷ record { first = 2; last = 2 } ∷ [];
  delay_time = 0;
  packet_received_time = 0;
}

-- The frame acks 2 to 6, so also the skipped packet.
abbrev wrong_frame : AckFrame
wrong_frame = record frame { ack_ranges = [] }

frame-IsCoherent : IsCoherent frame
unfolding validate_ack_ranges validate_ranges all_valid all_apart
frame-IsCoherent = (refl, (omega arith, tt), refl)

handler-IsTracked : IsTracked handler
handler-IsTracked = record {
  ascending = ground arith;
  sent = ground arith;
  in_flight = refl;
  fits = omega arith;
}

handler-Passes : Passes handler frame 9
unfolding any_acked acks_packet any_range has_missing_ranges
handler-Passes = record {
  sent = omega arith;
  later = omega arith;
  news = omega arith;
  none_skipped = refl;
}

run_ack_loop-Processed_example :
    Processed frame handler.packet_history
      (before_ack_loop counting handler)
      (run_ack_loop counting handler frame 50)
run_ack_loop-Processed_example =
    run_ack_loop-Processed counting handler frame 50 frame-IsCoherent handler-IsTracked.ascending

received_ack-Takes_example : Takes handler frame 9 (received_ack counting handler frame 9 50)
received_ack-Takes_example =
    received_ack-Takes counting handler frame 9 50 frame-IsCoherent handler-IsTracked.ascending
      handler-Passes

skipped_refused : (received_ack counting handler wrong_frame 9 50).1 ≡ some ack_for_skipped_packet
unfolding received_ack any_acked acks_packet has_missing_ranges
skipped_refused = refl

sent_packet-IsTracked_example : IsTracked (sent_packet counting handler (packet 11 0) 60).0
sent_packet-IsTracked_example =
    sent_packet-IsTracked counting handler (packet 11 0) 60 (omega arith) handler-IsTracked

received_ack-IsTracked_example : IsTracked (received_ack counting handler frame 9 50).0
received_ack-IsTracked_example =
    received_ack-IsTracked counting handler frame 9 50 frame-IsCoherent handler-IsTracked

maybe_queue_rtos-IsTracked_example : IsTracked (maybe_queue_rtos counting handler 5_000_000_000)
maybe_queue_rtos-IsTracked_example =
    maybe_queue_rtos-IsTracked counting handler 5_000_000_000 handler-IsTracked

get_rto_lem_example : get_rto counting handler ≡ 1_200_000_000
get_rto_lem_example = get_rto_lem counting handler (omega arith) (omega arith)

first_timeout_test :
    (maybe_queue_rtos counting (new_sent_handler counting 0) 5).consecutive_rto_count ≡ 1
unfolding new_sent_handler
first_timeout_test = maybe_queue_rtos-unsent counting (new_sent_handler counting 0) 5 refl

-- A packet is sent, acked and the rest times out.
run_of_three : Reaches counting 0 (
    maybe_queue_rtos counting
      (sent_packet counting
        (sent_packet counting (new_sent_handler counting 0) (packet 1 0) 7).0
        (packet 3 0)
        8).0
      9_000_000_000)
unfolding new_sent_handler sent_packet
run_of_three =
    times_out (sends (sends start (packet 1 0) 7 (omega arith)) (packet 3 0) 8 (omega arith))
      9_000_000_000

Reaches-IsTracked_example : IsTracked (
    maybe_queue_rtos counting
      (sent_packet counting
        (sent_packet counting (new_sent_handler counting 0) (packet 1 0) 7).0
        (packet 3 0)
        8).0
      9_000_000_000)
Reaches-IsTracked_example = Reaches-IsTracked counting 0 _ run_of_three
