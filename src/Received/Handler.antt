-- ===== src/Received/Handler.antt =====
-- ackhandler/received_packet_handler.go. `time.Now()` is an argument. Each method returns the new
-- handler and what the Go method returns.
pub mod Once
pub mod Acks
pub mod Session
mod Runs
use quic_go.Base.{
  ℕ, Bool, not, true, false, List, [], ◌∷◌, Option, none, some, length, ltb, leb, ◌==◌,
  if◌then◌else◌,
}
use quic_go.Protocol.{sub64}
use quic_go.Frames.Ack.{AckRange, AckFrame}
use quic_go.Frames.StopWaiting.{StopWaitingFrame}
use quic_go.Received.History.{
  History, HistoryError, received, refused, new_history, received_packet, delete_below,
  is_duplicate, get_ack_ranges,
}

pub record Handler : Type 0 where
  pub largest_observed : ℕ
  pub ignore_packets_below : ℕ
  pub current_ack_frame : Option AckFrame
  pub state_changed : Bool
  pub history : History
  pub largest_observed_received_time : ℕ

pub data Reply : Type 0 where
  accepted : Reply
  invalid_packet_number smaller_than_last_stop_waiting duplicate_packet : Reply
  history_full : HistoryError → Reply

unfoldable pub new_handler : Handler
new_handler = record {
  largest_observed = 0;
  ignore_packets_below = 0;
  current_ack_frame = none;
  state_changed = false;
  history = new_history;
  largest_observed_received_time = 0;
}

-- What happens to a handler whose history has taken the packet.
abbrev note_packet : Handler → ℕ → ℕ → History → Handler
note_packet h pn now hist =
    let h' = record h { history = hist; state_changed = true; current_ack_frame = none } in
    if ltb h.largest_observed pn
    then record h' { largest_observed = pn; largest_observed_received_time = now }
    else h'

unfoldable pub handle_packet : Handler → ℕ → ℕ → Handler × Reply
handle_packet h pn now =
    if pn == 0
    then (h, invalid_packet_number)
    else if leb pn h.ignore_packets_below
    then (h, smaller_than_last_stop_waiting)
    else if is_duplicate h.history pn
    then (h, duplicate_packet)
    else elim (received_packet h.history pn) [
      | refused e ↦ (h, history_full e)
      | received hist ↦ (note_packet h pn now hist, accepted)
    ]

unfoldable pub received_stop_waiting : Handler → StopWaitingFrame → Handler
received_stop_waiting h f = if leb f.least_unacked h.ignore_packets_below then h else record h {
  ignore_packets_below = sub64 f.least_unacked 1;
  history = delete_below h.history f.least_unacked;
}

-- `panics` is the index out of range where there are no ranges.
pub data AckReply : Type 0 where
  no_frame panics : AckReply
  ack_frame : AckFrame → AckReply

-- FirstPacketNumber of `ackRanges[len(ackRanges)-1]`.
unfoldable pub last_first : List AckRange → Option ℕ
last_first [] = none
last_first (r ∷ []) = some r.first
last_first (r ∷ s ∷ rs) = last_first (s ∷ rs)

-- The frame that is built where none is cached.
unfoldable pub build_ack_frame : Handler → Option AckFrame
unfolding last_first
build_ack_frame h =
    let ranges = get_ack_ranges h.history in
    elim (last_first ranges) [
      | none ↦ none
      | some low ↦ some (record {
        largest_acked = h.largest_observed;
        lowest_acked = low;
        ack_ranges = if ltb 1 (length ranges) then ranges else [];
        delay_time = 0;
        packet_received_time = h.largest_observed_received_time;
      })
    ]

-- What GetAckFrame does once it knows that a frame is due.
reply_ack : Handler → Option AckFrame → Option AckFrame → Handler × AckReply
reply_ack h (some f) built = (h, ack_frame f)
reply_ack h none none = (h, panics)
reply_ack h none (some f) = (record h { current_ack_frame = some f }, ack_frame f)

unfoldable pub get_ack_frame : Handler → Bool → Handler × AckReply
unfolding reply_ack
get_ack_frame h dequeue =
    if h.state_changed
    then reply_ack (record h { state_changed = not dequeue }) h.current_ack_frame
        (build_ack_frame h)
    else (h, no_frame)

-- The calls that the session makes.
pub data Event : Type 0 where
  packet : ℕ → ℕ → Event
  stop_waiting : StopWaitingFrame → Event
  ack : Bool → Event

unfoldable pub step : Handler → Event → Handler
step h (packet pn now) = (handle_packet h pn now).0
step h (stop_waiting f) = received_stop_waiting h f
step h (ack dequeue) = (get_ack_frame h dequeue).0
