-- ===== src/Sending/Packet.antt =====
-- ackhandler/packet.go, the constants of protocol/ for sent packets, and the interface of the
-- congestion controller and the RTT statistics as the sent packet handler uses them.
use quic_go.Base.{ℕ, Bool, List, [], ◌∷◌}
use quic_go.Frames.Kinds.{Frame, stream_frame, ack_frame, stop_waiting_frame}
use quic_go.Frames.StreamFrame.{StreamFrame}

-- MissingReports is a uint8.
pub record Packet : Type 0 where
  pub packet_number : ℕ
  pub frames : List Frame
  pub bytes : ℕ
  pub missing_reports : ℕ
  pub send_time : ℕ

pub record PacketInfo : Type 0 where
  pub number : ℕ
  pub bytes : ℕ

unfoldable pub get_stream_frames : List Frame → List StreamFrame
get_stream_frames [] = []
get_stream_frames (stream_frame f ∷ fs) = f ∷ get_stream_frames fs
get_stream_frames (_ ∷ fs) = get_stream_frames fs

-- All frames but STREAM, ACK and STOP_WAITING frames.
unfoldable pub get_control_frames : List Frame → List Frame
get_control_frames [] = []
get_control_frames (stream_frame f ∷ fs) = get_control_frames fs
get_control_frames (ack_frame f ∷ fs) = get_control_frames fs
get_control_frames (stop_waiting_frame f ∷ fs) = get_control_frames fs
get_control_frames (f ∷ fs) = f ∷ get_control_frames fs

-- MaxTrackedSentPackets, MaxTrackedSkippedPackets, RetransmissionThreshold, and the bounds of the
-- retransmission timeout in nanoseconds
abbrev pub max_tracked_sent_packets : ℕ
max_tracked_sent_packets = 2000

abbrev pub max_tracked_skipped_packets : ℕ
max_tracked_skipped_packets = 10

abbrev pub retransmission_threshold : ℕ
retransmission_threshold = 3

abbrev pub default_retransmission_time : ℕ
default_retransmission_time = 500_000_000

abbrev pub min_retransmission_time : ℕ
min_retransmission_time = 200_000_000

abbrev pub max_retransmission_time : ℕ
max_retransmission_time = 60_000_000_000

-- The methods of SendAlgorithm that the handler calls, with UpdateRTT of the RTT statistics, as
-- functions of their common state. A duration is an int64 by its bit pattern.
pub record SendAlgorithm (C : Type 0) : Type 0 where
  pub on_packet_sent : C → ℕ → ℕ → ℕ → ℕ → C
  pub on_congestion_event : C → Bool → ℕ → List PacketInfo → List PacketInfo → C
  pub on_retransmission_timeout : C → C
  pub get_congestion_window : C → ℕ
  pub retransmission_delay : C → ℕ
  pub update_rtt : C → ℕ → ℕ → ℕ → C
