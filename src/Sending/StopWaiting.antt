-- ===== src/Sending/StopWaiting.antt =====
-- ackhandler/stop_waiting_manager.go. A packet number is a uint64.
use quic_go.Base.{ℕ, Bool, Option, none, some, leb, if◌then◌else◌}
use quic_go.Protocol.{add64}
use quic_go.Frames.Ack.{AckFrame}
use quic_go.Frames.StopWaiting.{StopWaitingFrame}

pub record StopWaitingManager : Type 0 where
  pub largest_least_unacked_sent : ℕ
  pub next_least_unacked : ℕ
  pub last_stop_waiting_frame : Option StopWaitingFrame

unfoldable pub new_stop_waiting_manager : StopWaitingManager
new_stop_waiting_manager = record {
  largest_least_unacked_sent = 0;
  next_least_unacked = 0;
  last_stop_waiting_frame = none;
}

-- The new frame has LeastUnacked only; the packet packer sets the other two fields.
abbrev pub frame_for : ℕ → StopWaitingFrame
frame_for lu = record { least_unacked = lu; packet_number_len = 0; packet_number = 0 }

unfoldable pub get_stop_waiting_frame :
    StopWaitingManager → Bool → StopWaitingManager × Option StopWaitingFrame
get_stop_waiting_frame s force =
    if leb s.next_least_unacked s.largest_least_unacked_sent
    then (s, if force then s.last_stop_waiting_frame else none)
    else (
      record s {
        largest_least_unacked_sent = s.next_least_unacked;
        last_stop_waiting_frame = some (frame_for s.next_least_unacked);
      },
      some (frame_for s.next_least_unacked),
    )

unfoldable pub stop_waiting_received_ack : StopWaitingManager → AckFrame → StopWaitingManager
stop_waiting_received_ack s f =
    if leb s.next_least_unacked f.largest_acked
    then record s { next_least_unacked = add64 f.largest_acked 1 }
    else s

unfoldable pub queued_retransmission : StopWaitingManager → ℕ → StopWaitingManager
queued_retransmission s p =
    if leb s.next_least_unacked p then record s { next_least_unacked = add64 p 1 } else s
