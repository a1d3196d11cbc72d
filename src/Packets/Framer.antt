-- ===== src/Packets/Framer.antt =====
-- stream_framer.go. The streams map holds the streams, so a change of a stream is an assignment to
-- its ID; the flow control manager is part of what the iteration works on.
pub mod Pieces
pub mod Lengths
mod Runs
use quic_go.Base.{
  ℕ, ◌+◌, ◌-◌, Bool, true, false, not, ◌&&◌, List, [], ◌∷◌, ◌++◌, Option, none, some, length, take,
  drop, ltb, leb, ◌==◌, if◌then◌else◌, min,
}
use quic_go.Base.Maps.{assign}
use quic_go.Protocol.{add64}
use quic_go.Frames.StreamFrame.{StreamFrame, data_len, min_length_stream_frame}
use quic_go.Frames.Control.{BlockedFrame}
use quic_go.Flow.Controller.{ConnectionParameters}
use quic_go.Flow.Manager.{
  FlowControlManager, WindowSize, window_size, window_error, send_window_size, add_bytes_sent,
  remaining_connection_window_size,
}
use quic_go.Streams.Map.{StreamsMap}
use quic_go.Streams.Iteration.{Verdict, goes_on, stops, round_robin_iterate}
use quic_go.Streams.Stream.{
  Stream, len_of_data_for_writing, get_data_for_writing, should_send_fin, sent_fin, is_none,
}

pub record StreamFramer : Type 0 where
  pub streams_map : StreamsMap Stream
  pub flow_control_manager : FlowControlManager
  pub retransmission_queue : List StreamFrame
  pub blocked_frame_queue : List BlockedFrame

unfoldable pub add_frame_for_retransmission : StreamFrame → StreamFramer → StreamFramer
add_frame_for_retransmission frame f = record f {
  retransmission_queue = f.retransmission_queue ++ (frame ∷ []);
}

unfoldable pub pop_blocked_frame : StreamFramer → StreamFramer × Option BlockedFrame
pop_blocked_frame f = elim f.blocked_frame_queue [
  | [] ↦ (f, none)
  | frame ∷ queue ↦ (record f { blocked_frame_queue = queue }, some frame)
]

unfoldable pub has_frames_for_retransmission : StreamFramer → Bool
has_frames_for_retransmission f = ltb 0 (length f.retransmission_queue)

-- The frame that is split off, and what is left of the frame; nothing where it fits whole.
unfoldable pub maybe_split_off_frame : StreamFrame → ℕ → Option (StreamFrame × StreamFrame)
maybe_split_off_frame frame n =
    if leb (data_len frame) n
    then none
    else some (
      record frame { fin_bit = false; bytes = take n frame.bytes },
      record frame { offset = add64 frame.offset n; bytes = drop n frame.bytes },
    )

-- What a loop that pops frames has so far, with the queue that it leaves.
pub record Popped : Type 0 where
  pub frames : List StreamFrame
  pub current_len : ℕ
  pub queue : List StreamFrame

-- maybePopFramesForRetransmission, from the current length on.
unfoldable pub pop_for_retransmission : ℕ → ℕ → List StreamFrame → Popped
unfolding maybe_split_off_frame
pop_for_retransmission max_len current [] = record {
  frames = [];
  current_len = current;
  queue = [];
}
pop_for_retransmission max_len current (f ∷ queue) =
    let frame : StreamFrame = record f { data_len_present = true } in
    let header = current + min_length_stream_frame frame in
    let rest = pop_for_retransmission max_len (header + data_len frame) queue in
    let popped : Popped = elim (maybe_split_off_frame frame (max_len - header)) [
      | some (split, left) ↦ record {
        frames = split ∷ [];
        current_len = header + data_len split;
        queue = left ∷ queue;
      }
      | none ↦ record rest { frames = frame ∷ rest.frames }
    ] in
    if leb max_len header
    then record { frames = []; current_len = current; queue = frame ∷ queue }
    else popped

-- What the callback of maybePopNormalFrames changes besides the streams.
pub record Filling : Type 0 where
  pub frames : List StreamFrame
  pub current_len : ℕ
  pub manager : FlowControlManager
  pub blocked : List BlockedFrame

module _ (params : ConnectionParameters) where
  -- A window of which SendWindowSize reports an error is read as 0.
  unfoldable pub window_of : ℕ → FlowControlManager → ℕ
  window_of id m = elim (send_window_size params id m) [ window_size n ↦ n | window_error e ↦ 0 ]

  -- The BLOCKED frames behind a sent frame; the connection has a controller.
  unfoldable pub blocked_by : ℕ → Bool → ℕ → ℕ → FlowControlManager → List BlockedFrame
  blocked_by id fin window sent m =
      let stream_blocked : List BlockedFrame =
        if not fin && window == sent then record { stream_id = id } ∷ [] else [] in
      elim (remaining_connection_window_size params m) [
        | none ↦ stream_blocked
        | some n ↦ if n == 0 then record { stream_id = 0 } ∷ [] else stream_blocked
      ]

  -- The callback from the data on: a frame is sent.
  unfoldable pub send_frame :
      ℕ
      → StreamFrame
      → ℕ
      → Stream
      → StreamsMap Stream × Filling
      → (StreamsMap Stream × Filling) × Verdict
  unfolding blocked_by
  send_frame max_bytes frame window s (m, t) =
      let manager = (add_bytes_sent s.stream_id (data_len frame) t.manager).0 in
      let current = t.current_len + (min_length_stream_frame frame + data_len frame) in
      (
        (
          record m { streams = assign s.stream_id (some s) m.streams },
          record {
            frames = t.frames ++ (frame ∷ []);
            current_len = current;
            manager = manager;
            blocked =
                t.blocked ++ blocked_by s.stream_id frame.fin_bit window (data_len frame) manager;
          },
        ),
        if current == max_bytes then stops else goes_on,
      )

  unfoldable pub pop_frame :
      ℕ → Stream → StreamsMap Stream × Filling → (StreamsMap Stream × Filling) × Verdict
  unfolding send_frame window_of
  pop_frame max_bytes s (m, t) =
      let frame : StreamFrame = record {
        stream_id = s.stream_id;
        fin_bit = false;
        data_len_present = true;
        offset = s.write_offset;
        bytes = [];
      } in
      let header = min_length_stream_frame frame in
      let has_data = not (len_of_data_for_writing s == 0) in
      let window = if has_data then window_of s.stream_id t.manager else 0 in
      let room = max_bytes - t.current_len - header in
      let max_len = if has_data then min room window else room in
      let (s1, bytes) = get_data_for_writing max_len s in
      let fin = should_send_fin s1 in
      let taken : List ℕ = elim bytes [ none ↦ [] | some p ↦ p ] in
      let sent =
        send_frame max_bytes (record frame { fin_bit = fin; bytes = taken }) window
          (if fin then sent_fin s1 else s1) (m, t) in
      if ltb max_bytes (t.current_len + header)
      then ((m, t), stops)
      else if max_len == 0
      then ((m, t), goes_on)
      else if is_none bytes && not fin
      then ((m, t), goes_on)
      else sent

  unfoldable pub pop_normal_frames : ℕ → StreamFramer → StreamFramer × Popped
  unfolding pop_frame
  pop_normal_frames max_bytes f =
      let start : Filling = record {
        frames = [];
        current_len = 0;
        manager = f.flow_control_manager;
        blocked = f.blocked_frame_queue;
      } in
      let (m, t) = (round_robin_iterate (pop_frame max_bytes) (f.streams_map, start)).0 in
      (
        record f {
          streams_map = m;
          flow_control_manager = t.manager;
          blocked_frame_queue = t.blocked;
        },
        record { frames = t.frames; current_len = t.current_len; queue = [] },
      )

  unfoldable pub pop_stream_frames : ℕ → StreamFramer → StreamFramer × List StreamFrame
  unfolding pop_for_retransmission pop_normal_frames
  pop_stream_frames max_len f =
      let again = pop_for_retransmission max_len 0 f.retransmission_queue in
      let (f', normal) =
        pop_normal_frames (max_len - again.current_len)
          (record f { retransmission_queue = again.queue }) in
      (f', again.frames ++ normal.frames)
