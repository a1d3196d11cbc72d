-- ===== src/Streams/Stream.antt =====
-- stream.go. A stream holds its sorter; the flow control manager, which it shares with the session,
-- is passed in and out. The methods run under the stream's mutex: a call that waits for a condition
-- returns `waiting`, and goes on later from the state that it finds then.
pub mod Reading
pub mod Rounds
mod Runs
use quic_go.Base.{
  ℕ, zero, suc, ◌+◌, ◌-◌, ◌%◌, ◌^◌, Bool, true, false, not, ◌&&◌, ◌||◌, List, [], ◌∷◌, ◌++◌, Option,
  none, some, length, take, drop, ltb, leb, ◌==◌, if◌then◌else◌, min,
}
use quic_go.Protocol.{add64}
use quic_go.Frames.StreamFrame.{StreamFrame, data_len}
use quic_go.Streams.Sorter.{
  Sorter, SortError, duplicate_stream_data, empty_stream_data, too_many_gaps, overlaps_gap_start,
  overlaps_gap_end, new_sorter, push, head, pop,
}
use quic_go.Flow.Manager.{
  FlowControlManager, FlowError, stream_flow_control_violation, connection_flow_control_violation,
  error_map_access, nil_pointer, update_highest_received, add_bytes_read,
}

-- The errors of the calls; `registered` is one that the session registered, by a number.
pub data StreamError : Type 0 where
  eof received_too_much_data bug : StreamError
  registered : ℕ → StreamError
  sorting : SortError → StreamError
  flow : FlowError → StreamError

pub record Stream : Type 0 where
  pub stream_id : ℕ
  pub read_pos_in_frame : ℕ
  pub write_offset : ℕ
  pub read_offset : ℕ
  pub error : Option ℕ
  pub is_eof : Bool
  pub closed : Bool
  pub frame_queue : Sorter
  pub data_for_writing : Option (List ℕ)
  pub fin_sent : Bool

unfoldable pub new_stream : ℕ → Stream
unfolding new_sorter
new_stream id = record {
  stream_id = id;
  read_pos_in_frame = 0;
  write_offset = 0;
  read_offset = 0;
  error = none;
  is_eof = false;
  closed = false;
  frame_queue = new_sorter;
  data_for_writing = none;
  fin_sent = false;
}

-- How a call of Read or Write ends: with nil, with an error, by waiting, or out of the model's fuel.
pub data Ending : Type 0 where
  done waiting no_fuel : Ending
  fails : StreamError → Ending

-- The bytes that Read has copied so far, and the state.
pub record Reader : Type 0 where
  pub bytes : List ℕ
  pub stream : Stream
  pub manager : FlowControlManager

-- The part of a round of Read from the frame on: copy, count, and pop a frame that is used up. The
-- Boolean tells whether the frame was the last one of the stream.
unfoldable pub copy_frame : ℕ → StreamFrame → Reader → Reader × Bool
copy_frame wanted frame r =
    let s = r.stream in
    let m = min (wanted - length r.bytes) (data_len frame - s.read_pos_in_frame) in
    let pos = s.read_pos_in_frame + m in
    let used_up = leb (data_len frame) pos in
    (
      record {
        bytes = r.bytes ++ take m (drop s.read_pos_in_frame frame.bytes);
        stream = record s {
          read_pos_in_frame = pos;
          read_offset = add64 s.read_offset m;
          frame_queue = if used_up then (pop s.frame_queue).0 else s.frame_queue;
          is_eof = used_up && frame.fin_bit || s.is_eof;
        };
        manager = (add_bytes_read s.stream_id m r.manager).0;
      },
      used_up && frame.fin_bit,
    )

-- The frame at the head once the loop around the condition has been left, with the position in it:
-- it is set only when no error is registered.
unfoldable pub at_head : StreamFrame → Stream → Stream
at_head frame s = elim s.error [
  | some e ↦ s
  | none ↦ record s { read_pos_in_frame = (s.read_offset + 2 ^ 64 - frame.offset) % 2 ^ 64 }
]

-- A round without a frame, by the registered error: Read returns what it has, or waits for a frame,
-- or ends with the error.
unfoldable pub without_frame : Option ℕ → Reader → Reader × Ending
without_frame none r = (r, if ltb 0 (length r.bytes) then done else waiting)
without_frame (some e) r =
    if ltb 0 (length r.bytes)
    then (r, fails (registered e))
    else (record r { stream = record (r.stream) { is_eof = true } }, fails (registered e))

-- The rounds of Read for `wanted` bytes.
unfoldable pub read_rounds : ℕ → ℕ → Reader → Reader × Ending
unfolding copy_frame at_head head without_frame
read_rounds zero wanted r = (r, no_fuel)
read_rounds (suc n) wanted r =
    let round : Reader × Ending = elim (head r.stream.frame_queue) [
      | none ↦ without_frame r.stream.error r
      | some frame ↦
          let r1 : Reader = record r { stream = at_head frame r.stream } in
          let (r2, last) = copy_frame wanted frame r1 in
          let rest = read_rounds n wanted r2 in
          if ltb (data_len frame) r1.stream.read_pos_in_frame
          then (r1, fails bug)
          else if last
          then (r2, fails eof)
          else rest
    ] in
    if leb wanted (length r.bytes) then (r, done) else round

unfoldable pub read : ℕ → ℕ → Stream → FlowControlManager → Reader × Ending
unfolding read_rounds
read fuel wanted s m =
    let r : Reader = record { bytes = []; stream = s; manager = m } in
    if s.is_eof then (r, fails eof) else read_rounds fuel wanted r

-- Write up to its condition, and what it returns when it wakes up.
unfoldable pub write : List ℕ → Stream → Stream × Ending
write p s = elim s.error [
  | some e ↦ (s, fails (registered e))
  | none ↦ if length p == 0 then (s, done) else (record s { data_for_writing = some p }, waiting)
]

unfoldable pub write_wakes : Stream → Ending
write_wakes s = elim s.error [
  | some e ↦ fails (registered e)
  | none ↦ elim s.data_for_writing [ some p ↦ waiting | none ↦ done ]
]

unfoldable pub len_of_data_for_writing : Stream → ℕ
len_of_data_for_writing s = elim s.data_for_writing [ none ↦ 0 | some p ↦ length p ]

unfoldable pub get_data_for_writing : ℕ → Stream → Stream × Option (List ℕ)
get_data_for_writing max_bytes s = elim s.data_for_writing [
  | none ↦ (s, none)
  | some p ↦
      let ret = if ltb max_bytes (length p) then take max_bytes p else p in
      let left = if ltb max_bytes (length p) then some (drop max_bytes p) else none in
      (
        record s { data_for_writing = left; write_offset = add64 s.write_offset (length ret) },
        some ret,
      )
]

unfoldable pub close : Stream → Stream
close s = record s { closed = true }

abbrev pub is_none {ℓ} : {A : Type ℓ} → Option A → Bool
is_none none = true
is_none (some a) = false

unfoldable pub should_send_fin : Stream → Bool
should_send_fin s = s.closed && (not s.fin_sent && (is_none s.error && is_none s.data_for_writing))

unfoldable pub sent_fin : Stream → Stream
sent_fin s = record s { fin_sent = true }

-- A frame that the sorter knows already is no error.
abbrev pub sort_result : Option SortError → Option StreamError
sort_result none = none
sort_result (some duplicate_stream_data) = none
sort_result (some e) = some (sorting e)

abbrev pub flow_result : FlowError → StreamError
flow_result stream_flow_control_violation = received_too_much_data
flow_result connection_flow_control_violation = received_too_much_data
flow_result e = flow e

unfoldable pub add_stream_frame :
    StreamFrame → Stream → FlowControlManager → (Stream × FlowControlManager) × Option StreamError
add_stream_frame frame s m =
    let (m', e) = update_highest_received s.stream_id (add64 frame.offset (data_len frame)) m in
    let (q, pushed) = push s.frame_queue frame in
    elim e [
      | some err ↦ ((s, m'), some (flow_result err))
      | none ↦ ((record s { frame_queue = q }, m'), sort_result pushed)
    ]

unfoldable pub close_remote : ℕ → Stream → FlowControlManager → Stream × FlowControlManager
unfolding add_stream_frame
close_remote offset s m =
    (add_stream_frame
      (record {
        stream_id = 0;
        fin_bit = true;
        data_len_present = false;
        offset = offset;
        bytes = [];
      })
      s m).0

unfoldable pub register_error : ℕ → Stream → Stream
register_error e s = elim s.error [
  | some _ ↦ record s { closed = true }
  | none ↦ record s { closed = true; error = some e }
]

unfoldable pub finished_reading : Stream → Bool
finished_reading s = s.is_eof

unfoldable pub finished_writing : Stream → Bool
finished_writing s = not (is_none s.error) || (s.closed && s.fin_sent)

unfoldable pub finished : Stream → Bool
unfolding finished_reading finished_writing
finished s = finished_reading s && finished_writing s
