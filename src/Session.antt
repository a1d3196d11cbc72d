-- ===== src/Session.antt =====
-- session.go: the handling of received packets, with the components that it drives. The time and the
-- opening of packets (the AEAD) are arguments; the congestion control is that of the sent packets.
pub mod Sound
pub mod Consistency
mod Runs
use quic_go.Base.{
  ℕ, ◌+◌, ◌%◌, Bool, true, false, not, ◌&&◌, ◌||◌, List, [], ◌∷◌, Option, none, some, max, ltb, leb,
  ◌==◌, if◌then◌else◌,
}
use quic_go.Base.Maps.{find, assign, is_some}
use quic_go.Protocol.{infer_packet_number}
use quic_go.Frames.Kinds.{
  Frame, stream_frame, ack_frame, stop_waiting_frame, rst_stream_frame, connection_close_frame,
  goaway_frame, window_update_frame, blocked_frame, ping_frame,
}
use quic_go.Frames.StreamFrame.{StreamFrame}
use quic_go.Frames.Ack.{AckFrame}
use quic_go.Frames.Control.{RstStreamFrame, WindowUpdateFrame}
use quic_go.Packets.Unpacker.{UnpackError, Unpacked, unpacked, failed, out_of_fuel, unpack}
use quic_go.Received.Handler.{
  Handler, Reply, accepted, smaller_than_last_stop_waiting, duplicate_packet, invalid_packet_number,
  history_full, handle_packet, received_stop_waiting,
}
use quic_go.Sending.Handler.{
  SentHandler, SendAlgorithm, AckError, duplicate_or_out_of_order_ack, received_ack,
}
use quic_go.Flow.Controller.{ConnectionParameters}
use quic_go.Flow.Manager as Flow
use quic_go.Streams.Map.{
  StreamsMap, MapError, Lookup, found, refused, get_or_open_stream, remove_stream,
}
use quic_go.Streams.Iteration.{Verdict, goes_on, iterate}
use quic_go.Streams.Stream.{Stream, StreamError, new_stream, add_stream_frame, register_error}

-- The errors that handling a packet returns; the last three are not passed on.
pub data SessionError : Type 0 where
  unpacking : UnpackError → SessionError
  receiving : Reply → SessionError
  opening : MapError → SessionError
  adding : StreamError → SessionError
  acking : AckError → SessionError
  no_controller unimplemented_goaway no_fuel : SessionError
  rst_stream_on_invalid_stream window_update_on_closed_stream : SessionError

pub record Session (C : Type 0) : Type 0 where
  pub streams_map : StreamsMap Stream
  pub flow_control_manager : Flow.FlowControlManager
  pub sent_packet_handler : SentHandler C
  pub received_packet_handler : Handler
  pub last_rcvd_packet_number : ℕ
  pub largest_rcvd_packet_number : ℕ
  pub last_network_activity_time : ℕ
  pub closed : Bool

-- The callback of closeStreamsWithError.
unfoldable pub fail_stream :
    ℕ → Stream → StreamsMap Stream × Unit {0} → (StreamsMap Stream × Unit {0}) × Verdict
fail_stream code t (m, u) = (
  (record m { streams = assign t.stream_id (some (register_error code t)) m.streams }, u),
  goes_on,
)

module _ {C : Type 0} (alg : SendAlgorithm C) (params : ConnectionParameters)
    (max_incoming : ℕ) where
  -- newStream, the callback of the streams map, also registers the stream with the flow control; it
  -- cannot fail.
  abbrev pub make_stream : ℕ → Option Stream
  make_stream id = some (new_stream id)

  unfoldable pub register_stream : ℕ → Session C → Session C
  register_stream id s = record s {
    flow_control_manager =
        Flow.new_stream params id (not (id == 1 || id == 3)) s.flow_control_manager;
  }

  unfoldable pub session_get_or_open_stream : ℕ → Session C → Session C × Lookup Stream
  unfolding register_stream
  session_get_or_open_stream id s =
      let (m, r) =
        get_or_open_stream make_stream (λ (t : Stream). t.stream_id) max_incoming id
          s.streams_map in
      let s1 : Session C = record s { streams_map = m } in
      let opened : Session C = elim r [ found t ↦ register_stream id s1 | refused e ↦ s1 ] in
      (if is_some (find id s.streams_map.streams) then s1 else opened, r)

  -- A stream is behind a pointer: what changes it is an assignment to its ID.
  abbrev pub put_back : Stream → Session C → Session C
  put_back t s = record s {
    streams_map = record (s.streams_map) {
      streams = assign t.stream_id (some t) s.streams_map.streams;
    };
  }

  unfoldable pub handle_stream_frame : StreamFrame → Session C → Session C × Option SessionError
  unfolding session_get_or_open_stream
  handle_stream_frame f s =
      let (s1, r) = session_get_or_open_stream f.stream_id s in
      elim r [
        | refused e ↦ (s1, some (opening e))
        | found none ↦ (s1, none)
        | found (some t) ↦
            let ((t1, manager), e) = add_stream_frame f t s1.flow_control_manager in
            let s2 = put_back t1 (record s1 { flow_control_manager = manager }) in
            elim e [ none ↦ (s2, none) | some err ↦ (s2, some (adding err)) ]
      ]

  unfoldable pub update_window : WindowUpdateFrame → Session C → Session C × Option SessionError
  update_window f s =
      let (manager, r) = Flow.update_window f.stream_id f.byte_offset s.flow_control_manager in
      (
        record s { flow_control_manager = manager },
        elim r [ none ↦ some no_controller | some updated ↦ none ],
      )

  unfoldable pub handle_window_update_frame :
      WindowUpdateFrame → Session C → Session C × Option SessionError
  unfolding session_get_or_open_stream update_window
  handle_window_update_frame f s =
      let (s1, r) = session_get_or_open_stream f.stream_id s in
      let on_stream : Session C × Option SessionError = elim r [
        | refused e ↦ (s1, some (opening e))
        | found none ↦ (s1, some window_update_on_closed_stream)
        | found (some t) ↦ update_window f s1
      ] in
      if f.stream_id == 0 then update_window f s else on_stream

  unfoldable pub handle_rst_stream_frame :
      RstStreamFrame → Session C → Session C × Option SessionError
  unfolding session_get_or_open_stream
  handle_rst_stream_frame f s =
      let (s1, r) = session_get_or_open_stream f.stream_id s in
      elim r [
        | refused e ↦ (s1, some (opening e))
        | found none ↦ (s1, some rst_stream_on_invalid_stream)
        | found (some t) ↦ (put_back (register_error f.error_code t) s1, none)
      ]

  unfoldable pub handle_ack_frame : AckFrame → Session C → Session C × Option SessionError
  handle_ack_frame f s =
      let (h, e) =
        received_ack alg s.sent_packet_handler f s.last_rcvd_packet_number
          s.last_network_activity_time in
      (record s { sent_packet_handler = h }, elim e [ none ↦ none | some err ↦ some (acking err) ])

  -- closeStreamsWithError: every open stream gets the error.
  unfoldable pub close_streams_with_error : ℕ → Session C → Session C
  unfolding fail_stream
  close_streams_with_error code s = record s {
    streams_map = (iterate (fail_stream code) (s.streams_map, tt)).0.0;
  }

  -- closeImpl for a CONNECTION_CLOSE of the peer: only once.
  unfoldable pub close_remotely : ℕ → Session C → Session C
  unfolding close_streams_with_error
  close_remotely code s =
      if s.closed then s else close_streams_with_error code (record s { closed = true })

  unfoldable pub handle_frame : Frame → Session C → Session C × Option SessionError
  unfolding handle_stream_frame handle_window_update_frame handle_rst_stream_frame handle_ack_frame
      close_remotely
  handle_frame (stream_frame f) s = handle_stream_frame f s
  handle_frame (ack_frame f) s = handle_ack_frame f s
  handle_frame (connection_close_frame f) s = (close_remotely f.error_code s, none)
  handle_frame (goaway_frame f) s = (s, some unimplemented_goaway)
  handle_frame (stop_waiting_frame f) s = (
    record s { received_packet_handler = received_stop_waiting s.received_packet_handler f },
    none,
  )
  handle_frame (rst_stream_frame f) s = handle_rst_stream_frame f s
  handle_frame (window_update_frame f) s = handle_window_update_frame f s
  handle_frame (blocked_frame f) s = (s, none)
  handle_frame (ping_frame f) s = (s, none)

  -- The errors behind which the next frame is handled all the same.
  unfoldable pub is_ignored : SessionError → Bool
  is_ignored (acking duplicate_or_out_of_order_ack) = true
  is_ignored rst_stream_on_invalid_stream = true
  is_ignored window_update_on_closed_stream = true
  is_ignored e = false

  unfoldable pub handle_frames : List Frame → Session C → Session C × Option SessionError
  unfolding handle_frame is_ignored
  handle_frames [] s = (s, none)
  handle_frames (f ∷ fs) s =
      let (s1, e) = handle_frame f s in
      let rest = handle_frames fs s1 in
      elim e [ none ↦ rest | some err ↦ if is_ignored err then rest else (s1, some err) ]

  -- A received packet: the public header as far as the session reads it, the bytes behind it,
  -- and when it came in.
  pub record ReceivedPacket : Type 0 where
    pub raw_header : List ℕ
    pub packet_number : ℕ
    pub packet_number_len : ℕ
    pub contents : List ℕ
    pub rcv_time : ℕ

  unfoldable pub handle_unpacked : ℕ → ℕ → List Frame → Session C → Session C × Option SessionError
  unfolding handle_frames
  handle_unpacked packet_number now fs s =
      let (h, reply) = handle_packet s.received_packet_handler packet_number now in
      let s1 : Session C = record s {
        last_rcvd_packet_number = packet_number;
        largest_rcvd_packet_number = max s.largest_rcvd_packet_number packet_number;
        received_packet_handler = h;
      } in
      elim reply [
        | accepted ↦ handle_frames fs s1
        | duplicate_packet ↦ (s1, none)
        | smaller_than_last_stop_waiting ↦ (s1, none)
        | other ↦ (s1, some (receiving other))
      ]

  -- A packet without a time is taken to come in when the call starts.
  unfoldable pub handle_packet_impl :
      (List ℕ → ℕ → List ℕ → Option (List ℕ))
      → ℕ
      → ℕ
      → ReceivedPacket
      → Session C
      → Session C × Option SessionError
  unfolding handle_unpacked
  handle_packet_impl open_data start now p s =
      let number =
        infer_packet_number p.packet_number_len s.largest_rcvd_packet_number p.packet_number in
      let rcv_time = if p.rcv_time == 0 then start else p.rcv_time in
      let s1 : Session C = record s { last_network_activity_time = rcv_time } in
      elim (unpack open_data p.raw_header number p.packet_number_len p.contents) [
        | unpacked fs ↦ handle_unpacked number now fs s1
        | failed e ↦ (s1, some (unpacking e))
        | out_of_fuel ↦ (s1, some no_fuel)
      ]
