-- ===== src/Streams/Stream/Runs.antt =====
-- A concrete stream that is read.
use quic_go.Base.{ℕ, ◌+◌, ◌≡◌, ◌≤◌, subst, refl, arith, true, false, [], ◌∷◌, none, some}
use quic_go.Base.Maps.{find, remove}
use quic_go.Frames.StreamFrame.{StreamFrame, data_len}
use quic_go.Streams.Sorter.{head, pop}
use quic_go.Streams.Sorter.Reassembly.{slice}
use quic_go.Flow.Manager.{FlowControlManager, add_bytes_read}
use quic_go.Streams.Stream.{
  Stream, copy_frame, at_head, without_frame, read_rounds, read, get_data_for_writing,
}
use quic_go.Streams.Stream.Reading.{IsReading}
use quic_go.Streams.Stream.Rounds.{IsRead, read-slice}

abbrev letters : ℕ → ℕ
letters q = q + 97

abbrev second : StreamFrame
second = record {
  stream_id = 5;
  fin_bit = false;
  data_len_present = true;
  offset = 3;
  bytes = 100 ∷ 101 ∷ 102 ∷ [];
}

-- Three bytes were read, and the frame behind them is queued.
abbrev reading : Stream
reading = record {
  stream_id = 5;
  read_pos_in_frame = 3;
  write_offset = 0;
  read_offset = 3;
  error = none;
  is_eof = false;
  closed = false;
  frame_queue = record { queued = (3, second) ∷ []; read_position = 3; gaps = [] };
  data_for_writing = some (1 ∷ 2 ∷ 3 ∷ []);
  fin_sent = false;
}

abbrev manager : FlowControlManager
manager = record { stream_flow_controller = []; contributes_to_connection_flow_control = [] }

read_run : (read 3 2 reading manager).0.bytes ≡ 100 ∷ 101 ∷ []
unfolding read read_rounds copy_frame at_head without_frame head pop find remove add_bytes_read
read_run = refl

-- With an error, the position in the frame is that of the frame before it.
read_after_error_run :
    (read 3 2 (record reading { error = some 1; read_pos_in_frame = 2 }) manager).0.bytes ≡ 102 ∷ []
unfolding read read_rounds copy_frame at_head without_frame head pop find remove add_bytes_read
read_after_error_run = refl

get_data_for_writing_run : (get_data_for_writing 2 reading).1 ≡ some (1 ∷ 2 ∷ [])
unfolding get_data_for_writing
get_data_for_writing_run = refl

reading-IsReading : IsReading letters reading
unfolding head find slice
reading-IsReading = record {
  holds = record { keyed = (refl, refl, tt); cut = ((refl, omega arith), tt) };
  low = omega arith;
  within = λ f e.
      let same : second ≡ f = cc in
      subst (λ (k : StreamFrame). 3 ≤ k.offset + data_len k) same (omega arith);
  empty = λ e. absurd (cc);
  no_error = refl;
}

read-slice_example : IsRead letters 3 2 (read 3 2 reading manager)
read-slice_example = read-slice letters 3 2 reading manager reading-IsReading (omega arith)
