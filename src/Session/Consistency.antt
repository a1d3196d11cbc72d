-- ===== src/Session/Consistency.antt =====
-- Whatever frames arrive, the streams map of the session stays consistent.
use quic_go.Base.{
  ℕ, ◌^◌, ◌<◌, ◌≡◌, ◌⊎◌, inl, inr, refl, arith, sym, subst, Bool, true, false, List, [], ◌∷◌,
  Option, none, some, ◌==◌, if◌then◌else◌, Bool-cases, Option-cases, length, max,
}
use quic_go.Base.Maps.{find, is_some}
use quic_go.Frames.Kinds.{
  Frame, stream_frame, ack_frame, stop_waiting_frame, rst_stream_frame, connection_close_frame,
  goaway_frame, window_update_frame, blocked_frame, ping_frame,
}
use quic_go.Sending.Handler.{SendAlgorithm}
use quic_go.Flow.Manager.{FlowControlManager}
use quic_go.Frames.StreamFrame.{StreamFrame}
use quic_go.Frames.Control.{RstStreamFrame, WindowUpdateFrame}
use quic_go.Flow.Controller.{ConnectionParameters}
use quic_go.Streams.Map.{StreamsMap, Lookup, found, refused, get_or_open_stream}
use quic_go.Streams.Stream.{Stream, add_stream_frame, register_error}
use quic_go.Session.{
  Session, SessionError, receiving, ReceivedPacket, handle_packet_impl, handle_unpacked,
  session_get_or_open_stream, register_stream, handle_stream_frame, handle_window_update_frame,
  handle_rst_stream_frame, handle_frame, handle_frames, update_window, close_streams_with_error,
  close_remotely, handle_ack_frame, is_ignored,
}
use quic_go.Streams.Iteration.{iterate}
use quic_go.Session.Sound.{
  IsSound, make, name, get_or_open_stream-IsSound, put_found, iterate_from-IsSound, Lookup-cases,
  register_error-id,
}
use quic_go.Packets.Unpacker.{UnpackError, Unpacked, unpacked, failed, out_of_fuel, unpack}
use quic_go.Protocol.{infer_packet_number}
use quic_go.Received.Handler.{
  Reply, accepted, invalid_packet_number, smaller_than_last_stop_waiting, duplicate_packet,
  history_full, handle_packet,
}

Unpacked-cases :
    (u : Unpacked)
    → ((e : UnpackError) × (u ≡ failed e))
      ⊎ ((u ≡ out_of_fuel) ⊎ ((fs : List Frame) × (u ≡ unpacked fs)))
Unpacked-cases (failed e) = inl (e, refl)
Unpacked-cases out_of_fuel = inr (inl refl)
Unpacked-cases (unpacked fs) = inr (inr (fs, refl))

-- The frames.
module _ {C : Type 0} (alg : SendAlgorithm C) (params : ConnectionParameters) (max_incoming : ℕ)
    (l : max_incoming < 2 ^ 32) where
  abbrev Sound : Session C → Type 0
  Sound s = IsSound s.streams_map

  -- Registering a stream with the flow control leaves the map alone.
  same_map :
      (id : ℕ) (known : Bool) (r : Lookup Stream) (s : Session C)
      → let opened : Session C = elim r [
        | found t ↦ register_stream alg params max_incoming id s
        | refused e ↦ s
      ] in
        (if known then s else opened).streams_map ≡ s.streams_map
  unfolding register_stream
  same_map id true r s = refl
  same_map id false (found t) s = refl
  same_map id false (refused e) s = refl

  opened :
      (id : ℕ) (s : Session C)
      → Sound s
      → let (s', r) = session_get_or_open_stream alg params max_incoming id s in
        Sound s'
        × ((t : Stream) → r ≡ found (some t) → find id s'.streams_map.streams ≡ some (some t))
  unfolding session_get_or_open_stream
  opened id s h =
      let (m', r) =
        get_or_open_stream (make max_incoming l) (name max_incoming l) max_incoming id
          s.streams_map in
      let s1 : Session C = record s { streams_map = m' } in
      let e = same_map id (is_some (find id s.streams_map.streams)) r s1 in
      subst
        (λ (m : StreamsMap Stream).
          IsSound m × ((t : Stream) → r ≡ found (some t) → find id m.streams ≡ some (some t)))
        (sym e) (get_or_open_stream-IsSound max_incoming l id s.streams_map h)

  add_stream_frame-id :
      (f : StreamFrame) (t : Stream) (fc : FlowControlManager)
      → (add_stream_frame f t fc).0.0.stream_id ≡ t.stream_id
  unfolding add_stream_frame
  add_stream_frame-id f t fc = ground arith

  handle_stream_frame-Sound :
      (f : StreamFrame) (s : Session C)
      → Sound s
      → Sound (handle_stream_frame alg params max_incoming f s).0
  unfolding handle_stream_frame
  handle_stream_frame-Sound f s h =
      let s1 : Session C = (session_get_or_open_stream alg params max_incoming f.stream_id s).0 in
      let (sound, there) = opened f.stream_id s h in
      elim (Lookup-cases (session_get_or_open_stream alg params max_incoming f.stream_id s).1) [
        | inl (e, q) ↦ rw (handle_stream_frame, q) sound
        | inr (inl q) ↦ rw (handle_stream_frame, q) sound
        | inr (inr (t, q)) ↦
            let added = add_stream_frame f t s1.flow_control_manager in
            let kept =
              put_found f.stream_id s1.streams_map t added.0.0 sound (there t q)
                (add_stream_frame-id f t s1.flow_control_manager) in
            elim (Option-cases added.1) [
              | inl e ↦ rw (handle_stream_frame, q, e) kept
              | inr (err, e) ↦ rw (handle_stream_frame, q, e) kept
            ]
      ]

  handle_rst_stream_frame-Sound :
      (f : RstStreamFrame) (s : Session C)
      → Sound s
      → Sound (handle_rst_stream_frame alg params max_incoming f s).0
  unfolding handle_rst_stream_frame
  handle_rst_stream_frame-Sound f s h =
      let s1 : Session C = (session_get_or_open_stream alg params max_incoming f.stream_id s).0 in
      let (sound, there) = opened f.stream_id s h in
      elim (Lookup-cases (session_get_or_open_stream alg params max_incoming f.stream_id s).1) [
        | inl (e, q) ↦ rw (handle_rst_stream_frame, q) sound
        | inr (inl q) ↦ rw (handle_rst_stream_frame, q) sound
        | inr (inr (t, q)) ↦
            rw (handle_rst_stream_frame, q)
              (put_found f.stream_id s1.streams_map t (register_error f.error_code t) sound
                (there t q) (register_error-id f.error_code t))
      ]

  handle_window_update_frame-Sound :
      (f : WindowUpdateFrame) (s : Session C)
      → Sound s
      → Sound (handle_window_update_frame alg params max_incoming f s).0
  unfolding handle_window_update_frame update_window
  handle_window_update_frame-Sound f s h =
      let (sound, there) = opened f.stream_id s h in
      elim (Bool-cases (f.stream_id == 0)) [
        | inl z ↦ rw (handle_window_update_frame, z) h
        | inr z ↦
            elim (Lookup-cases
              (session_get_or_open_stream alg params max_incoming f.stream_id s).1) [
                | inl (e, q) ↦ rw (handle_window_update_frame, z, q) sound
                | inr (inl q) ↦ rw (handle_window_update_frame, z, q) sound
                | inr (inr (t, q)) ↦ rw (handle_window_update_frame, z, q) sound
              ]
      ]

  close_remotely-Sound :
      (code : ℕ) (s : Session C) → Sound s → Sound (close_remotely alg params max_incoming code s)
  unfolding close_remotely close_streams_with_error iterate
  close_remotely-Sound code s h =
      let m : StreamsMap Stream = record (s.streams_map) { behind = [] } in
      let h' : IsSound m = record {
        consistent = record {
          keys = h.consistent.keys;
          once = h.consistent.once;
          incoming = h.consistent.incoming;
          outgoing = h.consistent.outgoing;
        };
        named = h.named;
      } in
      closing s.closed s
        (close_streams_with_error alg params max_incoming code (record s { closed = true })) h
        (iterate_from-IsSound code (length s.streams_map.open_streams) 0 (m, tt) h')
    where
      closing : (b : Bool) (x y : Session C) → Sound x → Sound y → Sound (if b then x else y)
      closing true x y p q = p
      closing false x y p q = q

  handle_frame-Sound :
      (f : Frame) (s : Session C) → Sound s → Sound (handle_frame alg params max_incoming f s).0
  unfolding handle_frame handle_ack_frame
  handle_frame-Sound (stream_frame f) s h = handle_stream_frame-Sound f s h
  handle_frame-Sound (ack_frame f) s h = h
  handle_frame-Sound (stop_waiting_frame f) s h = h
  handle_frame-Sound (rst_stream_frame f) s h = handle_rst_stream_frame-Sound f s h
  handle_frame-Sound (connection_close_frame f) s h = close_remotely-Sound f.error_code s h
  handle_frame-Sound (goaway_frame f) s h = h
  handle_frame-Sound (window_update_frame f) s h = handle_window_update_frame-Sound f s h
  handle_frame-Sound (blocked_frame f) s h = h
  handle_frame-Sound (ping_frame f) s h = h

  pub handle_frames-Sound :
      (fs : List Frame) (s : Session C)
      → Sound s
      → Sound (handle_frames alg params max_incoming fs s).0
  unfolding handle_frames
  handle_frames-Sound [] s h = h
  handle_frames-Sound (f ∷ fs) s h =
      let one = handle_frame-Sound f s h in
      let s1 : Session C = (handle_frame alg params max_incoming f s).0 in
      let all = handle_frames-Sound fs s1 one in
      elim (Option-cases (handle_frame alg params max_incoming f s).1) [
        | inl e ↦ rw (handle_frames, e) all
        | inr (err, e) ↦ elim (Bool-cases (is_ignored alg params max_incoming err)) [
          | inl i ↦ rw (handle_frames, e, i) all
          | inr i ↦ rw (handle_frames, e, i) one
        ]
      ]

  handle_unpacked-Sound :
      (number now : ℕ) (fs : List Frame) (s : Session C)
      → Sound s
      → Sound (handle_unpacked alg params max_incoming number now fs s).0
  unfolding handle_unpacked
  handle_unpacked-Sound number now fs s h =
      by_reply (handle_packet s.received_packet_handler number now).1
    where
      s1 : Session C
      s1 = record s {
        last_rcvd_packet_number = number;
        largest_rcvd_packet_number = max s.largest_rcvd_packet_number number;
        received_packet_handler = (handle_packet s.received_packet_handler number now).0;
      }

      by_reply :
          (reply : Reply)
          → let r : Session C × Option SessionError = elim reply [
            | accepted ↦ handle_frames alg params max_incoming fs s1
            | duplicate_packet ↦ (s1, none)
            | smaller_than_last_stop_waiting ↦ (s1, none)
            | other ↦ (s1, some (receiving other))
          ] in
            Sound r.0
      by_reply accepted = handle_frames-Sound fs s1 h
      by_reply invalid_packet_number = h
      by_reply smaller_than_last_stop_waiting = h
      by_reply duplicate_packet = h
      by_reply (history_full e) = h

  -- Whatever packet arrives and however the AEAD opens it, with frames that are handled, that are
  -- refused or that cannot be parsed, a session whose streams map is consistent and holds each open
  -- stream under its ID is left with such a map. The limit of incoming streams is a uint32.
  pub handle_packet_impl-IsSound :
      (open_data : List ℕ → ℕ → List ℕ → Option (List ℕ)) (start now : ℕ)
      (p : ReceivedPacket alg params max_incoming) (s : Session C)
      → IsSound s.streams_map
      → IsSound (handle_packet_impl alg params max_incoming open_data start now p s).0.streams_map
  unfolding handle_packet_impl handle_unpacked
  handle_packet_impl-IsSound open_data start now p s h =
      let number : ℕ =
        infer_packet_number p.packet_number_len s.largest_rcvd_packet_number p.packet_number in
      elim (Unpacked-cases (unpack open_data p.raw_header number p.packet_number_len p.contents)) [
        | inl (e, q) ↦ rw (handle_packet_impl, q) h
        | inr (inl q) ↦ rw (handle_packet_impl, q) h
        | inr (inr (fs, q)) ↦
            rw (handle_packet_impl, q)
              (handle_unpacked-Sound number now fs
                (record s {
                  last_network_activity_time = if p.rcv_time == 0 then start else p.rcv_time;
                })
                h)
      ]
