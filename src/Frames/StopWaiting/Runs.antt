-- ===== src/Frames/StopWaiting/Runs.antt =====
-- STOP_WAITING frames at concrete inputs.
use quic_go.Base.{◌-◌, ◌≡◌, refl, arith, [], ◌∷◌, ◌++◌, ok, none, length}
use quic_go.Protocol.{len2}
use quic_go.Frames.StopWaiting.{
  StopWaitingFrame, write_stop_waiting_frame, min_length_stop_waiting_frame,
  parse_stop_waiting_frame,
}
use quic_go.Frames.StopWaiting.RoundTrip.{parse-write_stop_waiting_frame}

abbrev frame : StopWaitingFrame
frame = record { least_unacked = 10; packet_number_len = 2; packet_number = 13 }

parse-write_stop_waiting_frame_example :
    ((write_stop_waiting_frame frame (1 ∷ [])).1 ≡ none)
    × (parse_stop_waiting_frame ((write_stop_waiting_frame frame []).0 ++ (9 ∷ [])) 13 2
        ≡ ok (record { least_unacked = 10; packet_number_len = 0; packet_number = 0 }, 9 ∷ []))
    × (min_length_stop_waiting_frame frame
        ≡ ok (length (write_stop_waiting_frame frame (1 ∷ [])).0 - 1))
parse-write_stop_waiting_frame_example =
    parse-write_stop_waiting_frame frame (1 ∷ []) (9 ∷ []) (len2 refl refl) (omega arith)
      (omega arith) (omega arith)
