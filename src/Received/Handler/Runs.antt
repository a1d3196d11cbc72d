-- ===== src/Received/Handler/Runs.antt =====
-- Concrete runs of the handler for received packets, and the theorems at concrete inputs.
use quic_go.Base.{ℕ, ◌≡◌, ◌≢◌, refl, arith, true, ◌||◌, List, [], ◌∷◌, ◌==◌, none}
use quic_go.Frames.Ack.{AckFrame, acks_packet, validate_ack_ranges}
use quic_go.Received.History.{
  History, received_packet, delete_below, has, new_history, add_to_ranges, merge, put, is_duplicate,
  delete_ranges, delete_one, del_from, get_ack_ranges,
}
use quic_go.Received.History.Sync.{IsSync, received_packet-IsSync}
use quic_go.Received.Handler.{
  Handler, Event, packet, stop_waiting, ack, get_ack_frame, panics, new_handler, build_ack_frame,
  handle_packet, received_stop_waiting, step,
}
use quic_go.Received.Handler.Once.{accepts, Distinct, accepts-Distinct}
use quic_go.Received.Handler.Acks.{build_ack_frame-acks}
use quic_go.Received.Handler.Session.{here, next, get_ack_frame-ne-panics}

abbrev gap : History
gap = record {
  ranges = record { start = 5; end = 5 } ∷ record { start = 1; end = 2 } ∷ [];
  numbers = 5 ∷ 2 ∷ 1 ∷ [];
  lowest_in_numbers = 0;
}

gap-IsSync : IsSync gap
unfolding has
gap-IsSync = record { separate = omega arith; bounded = omega arith; same = λ q. ground arith }

gap_filled : History
gap_filled = record {
  ranges = record { start = 5; end = 5 } ∷ record { start = 1; end = 3 } ∷ [];
  numbers = 3 ∷ 5 ∷ 2 ∷ 1 ∷ [];
  lowest_in_numbers = 0;
}

received_packet-IsSync_example :
    IsSync gap_filled
    × ((q : ℕ) → has q gap_filled.numbers ≡ (has q gap.numbers || q == 3))
    × (gap_filled.lowest_in_numbers ≡ 0)
unfolding received_packet add_to_ranges merge put gap_filled
received_packet-IsSync_example =
    received_packet-IsSync gap gap_filled 3 (omega arith) (omega arith) gap-IsSync refl

abbrev gap_handler : Handler
gap_handler = record {
  largest_observed = 5;
  ignore_packets_below = 0;
  current_ack_frame = none;
  state_changed = true;
  history = gap;
  largest_observed_received_time = 70;
}

abbrev gap_frame : AckFrame
gap_frame = record {
  largest_acked = 5;
  lowest_acked = 1;
  ack_ranges = record { first = 5; last = 5 } ∷ record { first = 1; last = 2 } ∷ [];
  delay_time = 0;
  packet_received_time = 70;
}

build_ack_frame-acks_example :
    (acks_packet gap_frame 3 ≡ has 3 gap.numbers) × (validate_ack_ranges gap_frame ≡ true)
unfolding build_ack_frame get_ack_ranges
build_ack_frame-acks_example = build_ack_frame-acks gap_handler gap_frame 3 gap-IsSync refl refl

-- A duplicate, and a packet that a STOP_WAITING frame made too old, among others.
abbrev calls : List Event
calls =
    packet 1 10
    ∷ packet 3 11
    ∷ packet 3 12
    ∷ stop_waiting (record { least_unacked = 3; packet_number_len = 0; packet_number = 0 })
    ∷ packet 2 13
    ∷ ack true
    ∷ packet 4 14
    ∷ []

accepted_calls : accepts new_handler calls ≡ 1 ∷ 3 ∷ 4 ∷ []
unfolding accepts new_handler new_history handle_packet is_duplicate received_packet
    received_stop_waiting add_to_ranges merge put has delete_below delete_ranges delete_one del_from
    get_ack_frame build_ack_frame get_ack_ranges
accepted_calls = refl

accepts-Distinct_example : Distinct (accepts new_handler calls)
accepts-Distinct_example = accepts-Distinct calls (omega arith)

after_packet : Handler
after_packet = step new_handler (packet 1 10)

get_ack_frame-ne-panics_example : (get_ack_frame after_packet true).1 ≢ panics
unfolding after_packet
get_ack_frame-ne-panics_example =
    get_ack_frame-ne-panics true (next here (packet 1 10) (omega arith))
