-- ===== src/Sending/Handler.antt =====
-- ackhandler/sent_packet_handler.go. The congestion controller and the RTT statistics
-- that it shares stand behind an interface; `time.Now()` is an argument, a time is a number and 0 is
-- the zero time.Time; the linked list is a list, the oldest packet first.
pub mod Ranges
pub mod Loop
pub mod Whole
pub mod Acks
pub mod Errors
pub mod Accounting
pub mod Reach
pub mod Timeouts
mod Runs
use quic_go.Base.{
  ℕ, zero, suc, ◌+◌, ◌-◌, ◌*◌, ◌%◌, ◌^◌, Bool, true, false, not, ◌&&◌, ◌||◌, List, [], ◌∷◌, ◌++◌,
  Option, none, some, length, drop, ltb, leb, ◌==◌, if◌then◌else◌,
}
use mathlib.Core.List.{reverse}
use quic_go.Protocol.{add64, sub64, gt_signed}
use quic_go.Frames.Kinds.{
  Frame, stream_frame, ack_frame, stop_waiting_frame, rst_stream_frame, connection_close_frame,
  goaway_frame, window_update_frame, blocked_frame, ping_frame,
}
use quic_go.Frames.StreamFrame.{StreamFrame}
use quic_go.Frames.StopWaiting.{StopWaitingFrame}
use quic_go.Frames.Ack.{AckRange, AckFrame, has_missing_ranges, acks_packet}
use quic_go.Sending.StopWaiting.{
  StopWaitingManager, new_stop_waiting_manager, get_stop_waiting_frame, stop_waiting_received_ack,
  queued_retransmission,
}
pub use quic_go.Sending.Packet.{Packet, PacketInfo, SendAlgorithm}
unfoldable pub use quic_go.Sending.Packet.{
  get_stream_frames, get_control_frames, max_tracked_sent_packets, max_tracked_skipped_packets,
  retransmission_threshold, default_retransmission_time, min_retransmission_time,
  max_retransmission_time,
}
pub use quic_go.Sending.AckLoop.{Progress}
unfoldable pub use quic_go.Sending.AckLoop.{
  advance, info, report_missing, put_back, ack_packet, lose_packet, nack_packet, by_range,
  measure_rtt, ack_loop,
}

pub record SentHandler (C : Type 0) : Type 0 where
  pub last_sent_packet_number : ℕ
  pub last_sent_packet_time : ℕ
  pub skipped_packets : List ℕ
  pub largest_acked : ℕ
  pub largest_received_packet_with_ack : ℕ
  pub packet_history : List Packet
  pub stop_waiting_manager : StopWaitingManager
  pub retransmission_queue : List Packet
  pub bytes_in_flight : ℕ
  pub congestion : C
  pub consecutive_rto_count : ℕ

pub data AckError : Type 0 where
  duplicate_or_out_of_order_ack too_many_tracked_sent_packets ack_for_skipped_packet : AckError
  ack_for_unsent_packet packet_number_not_increasing packet_empty wrong_packet_bug : AckError

-- The loop of SentPacket over the numbers that were skipped, `n` of them from `p` on.
unfoldable pub track_skipped : ℕ → ℕ → List ℕ → List ℕ
track_skipped zero p ps = ps
track_skipped (suc n) p ps =
    let ps' = ps ++ (p ∷ []) in
    track_skipped n (p + 1)
      (if ltb max_tracked_skipped_packets (length ps') then drop 1 ps' else ps')

-- garbageCollectSkippedPackets: the loop for the index, and the slice.
unfoldable pub delete_index : ℕ → List ℕ → ℕ → ℕ → ℕ
delete_index lioa [] i d = d
delete_index lioa (p ∷ ps) i d = delete_index lioa ps (i + 1) (if leb p lioa then i + 1 else d)

unfoldable pub garbage_collect_skipped : ℕ → List ℕ → List ℕ
unfolding delete_index
garbage_collect_skipped lioa ps = drop (delete_index lioa ps 0 0) ps

unfoldable pub any_acked : AckFrame → List ℕ → Bool
any_acked f [] = false
any_acked f (p ∷ ps) = acks_packet f p || any_acked f ps

unfoldable pub split_last : List Packet → Option (List Packet × Packet)
split_last [] = none
split_last (p ∷ ps) = elim (split_last ps) [
  | none ↦ some ([], p)
  | some (front, q) ↦ some (p ∷ front, q)
]

module _ {C : Type 0} (h : SentHandler C) where
  abbrev pub largest_in_order_acked : ℕ
  largest_in_order_acked = elim h.packet_history [
    | [] ↦ h.largest_acked
    | p ∷ _ ↦ sub64 p.packet_number 1
  ]

  unfoldable pub get_least_unacked : ℕ
  get_least_unacked = add64 largest_in_order_acked 1

  unfoldable pub dequeue_packet : SentHandler C × Option Packet
  dequeue_packet = elim (split_last h.retransmission_queue) [
    | none ↦ (h, none)
    | some (front, p) ↦ (record h { retransmission_queue = front }, some p)
  ]

  unfoldable pub get_stop_waiting : Bool → SentHandler C × Option StopWaitingFrame
  get_stop_waiting force =
      let r = get_stop_waiting_frame h.stop_waiting_manager force in
      (record h { stop_waiting_manager = r.0 }, r.1)

  abbrev pub tracked : ℕ
  tracked = length h.retransmission_queue + length h.packet_history

  unfoldable pub check_for_error : Option AckError
  check_for_error =
      if ltb max_tracked_sent_packets tracked then some too_many_tracked_sent_packets else none

module _ {C : Type 0} (alg : SendAlgorithm C) where
  unfoldable pub new_sent_handler : C → SentHandler C
  unfolding new_stop_waiting_manager
  new_sent_handler c = record {
    last_sent_packet_number = 0;
    last_sent_packet_time = 0;
    skipped_packets = [];
    largest_acked = 0;
    largest_received_packet_with_ack = 0;
    packet_history = [];
    stop_waiting_manager = new_stop_waiting_manager;
    retransmission_queue = [];
    bytes_in_flight = 0;
    congestion = c;
    consecutive_rto_count = 0;
  }

  unfoldable pub sent_packet : SentHandler C → Packet → ℕ → SentHandler C × Option AckError
  sent_packet h p now =
      let first = h.last_sent_packet_number + 1 in
      let h1 = record h {
        skipped_packets = track_skipped (p.packet_number - first) first h.skipped_packets;
        last_sent_packet_time = now;
      } in
      let in_flight = add64 h.bytes_in_flight p.bytes in
      if leb p.packet_number h.last_sent_packet_number
      then (h, some packet_number_not_increasing)
      else if p.bytes == 0
      then (h1, some packet_empty)
      else (
        record h1 {
          bytes_in_flight = in_flight;
          last_sent_packet_number = p.packet_number;
          packet_history = h.packet_history ++ (record p { send_time = now } ∷ []);
          congestion = alg.on_packet_sent h.congestion now in_flight p.packet_number p.bytes;
        },
        none,
      )

  -- What the loop starts with.
  abbrev pub before_ack_loop : SentHandler C → Progress C
  before_ack_loop h = record {
    kept = [];
    in_flight = h.bytes_in_flight;
    queue = h.retransmission_queue;
    stop_waiting = h.stop_waiting_manager;
    congestion = h.congestion;
    acked = [];
    lost = [];
    rtt_updated = false;
    bug = false;
  }

  unfoldable pub run_ack_loop : SentHandler C → AckFrame → ℕ → Progress C
  unfolding ack_loop
  run_ack_loop h f rcv_time =
      ack_loop alg rcv_time f (reverse f.ack_ranges) h.packet_history (before_ack_loop h)

  -- ReceivedAck behind the loop.
  unfoldable pub after_ack_loop :
      SentHandler C → AckFrame → Progress C → SentHandler C × Option AckError
  after_ack_loop h f g =
      let h1 = record h {
        largest_acked = f.largest_acked;
        packet_history = g.kept;
        bytes_in_flight = g.in_flight;
        retransmission_queue = g.queue;
        stop_waiting_manager = g.stop_waiting;
        congestion = g.congestion;
      } in
      if g.bug then (h1, some wrong_packet_bug) else (
        record h1 {
          consecutive_rto_count = if g.rtt_updated then 0 else h.consecutive_rto_count;
          skipped_packets = garbage_collect_skipped (largest_in_order_acked h1) h.skipped_packets;
          stop_waiting_manager = stop_waiting_received_ack g.stop_waiting f;
          congestion =
              alg.on_congestion_event g.congestion g.rtt_updated g.in_flight g.acked g.lost;
        },
        none,
      )

  unfoldable pub received_ack : SentHandler C → AckFrame → ℕ → ℕ → SentHandler C × Option AckError
  received_ack h f with_packet_number rcv_time =
      let h1 = record h { largest_received_packet_with_ack = with_packet_number } in
      if ltb h.last_sent_packet_number f.largest_acked
      then (h, some ack_for_unsent_packet)
      else if leb with_packet_number h.largest_received_packet_with_ack
      then (h, some duplicate_or_out_of_order_ack)
      else if leb f.largest_acked (largest_in_order_acked h)
      then (h1, none)
      else if any_acked f h.skipped_packets
      then (h1, some ack_for_skipped_packet)
      else after_ack_loop h1 f (run_ack_loop h1 f rcv_time)

  -- queueRTO for the oldest packet, if there is one.
  unfoldable pub queue_rto : SentHandler C → SentHandler C
  queue_rto h = elim h.packet_history [
    | [] ↦ h
    | p ∷ ps ↦ record h {
      packet_history = ps;
      bytes_in_flight = sub64 h.bytes_in_flight p.bytes;
      retransmission_queue = h.retransmission_queue ++ (p ∷ []);
      stop_waiting_manager = queued_retransmission h.stop_waiting_manager p.packet_number;
      congestion =
          alg.on_retransmission_timeout
            (alg.on_congestion_event h.congestion false h.bytes_in_flight [] (info p ∷ []));
    }
  ]

  unfoldable pub get_rto : SentHandler C → ℕ
  get_rto h =
      let measured = alg.retransmission_delay h.congestion in
      let base = if measured == 0 then default_retransmission_time else measured in
      let least =
        if gt_signed base min_retransmission_time then base else min_retransmission_time in
      let backed_off = least * 2 ^ h.consecutive_rto_count % 2 ^ 64 in
      if gt_signed backed_off max_retransmission_time then max_retransmission_time else backed_off

  -- `now` is before TimeOfFirstRTO; a negative timeout lies before the last packet.
  unfoldable pub before_first_rto : SentHandler C → ℕ → Bool
  before_first_rto h now =
      let rto = get_rto h in
      if h.last_sent_packet_time == 0
      then false
      else if ltb rto (2 ^ 63)
      then ltb now (h.last_sent_packet_time + rto)
      else ltb (now + (2 ^ 64 - rto)) h.last_sent_packet_time

  unfoldable pub maybe_queue_rtos : SentHandler C → ℕ → SentHandler C
  maybe_queue_rtos h now = if before_first_rto h now then h else record (queue_rto (queue_rto h)) {
    last_sent_packet_time = now;
    consecutive_rto_count = (h.consecutive_rto_count + 1) % 2 ^ 32;
  }

  unfoldable pub sending_allowed : SentHandler C → Bool
  sending_allowed h = not (
      ltb (alg.get_congestion_window h.congestion) h.bytes_in_flight
      || leb max_tracked_sent_packets (tracked h))
