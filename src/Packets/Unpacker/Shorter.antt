-- ===== src/Packets/Unpacker/Shorter.antt =====
-- Every parser of a frame that succeeds takes at least one byte.
use quic_go.Base.{
  ℕ, zero, suc, ◌≤◌, ◌<◌, ◌≡◌, inl, inr, arith, sym, List, [], ◌∷◌, ok, length, ltb, ◌==◌,
  if◌then◌else◌, Bool, true, false, not, ◌&&◌, Bool-cases, drop,
}
use quic_go.Protocol.{max_packet_size}
use quic_go.Wire.{read_byte, read_uint_n, read_uint16, read_uint32, read_uint64}
use quic_go.Wire.Bounds.{
  ok-bind, ok-injective, err-ne-ok, read_byte-length, read_uint_n-length, read_uint16-length,
  read_uint32-length, read_uint64-length,
}
use quic_go.Frames.Control.{
  RstStreamFrame, WindowUpdateFrame, BlockedFrame, PingFrame, parse_window_update_frame,
  parse_rst_stream_frame, parse_blocked_frame, parse_ping_frame,
}
use quic_go.Frames.Closing.{
  ConnectionCloseFrame, GoawayFrame, parse_connection_close_frame, parse_goaway_frame, read_full,
  read_full_rest,
}
use quic_go.Frames.StopWaiting.{StopWaitingFrame, parse_stop_waiting_frame}
use quic_go.Frames.StreamFrame.{
  StreamFrame, parse_stream_frame, parse_stream_data, read_data, stream_id_len_of, offset_len_of,
  has_data_len, has_fin,
}

pub parse_window_update_frame-shorter :
    (r : List ℕ) (f : WindowUpdateFrame) (r' : List ℕ)
    → parse_window_update_frame r ≡ ok (f, r')
    → length r' < length r
unfolding parse_window_update_frame
parse_window_update_frame-shorter r f r' h =
    let (_, r1, e1, h1) = ok-bind (read_byte r) _ f r' h in
    let (_, r2, e2, h2) = ok-bind (read_uint32 r1) _ f r' h1 in
    let (_, r3, e3, h3) = ok-bind (read_uint64 r2) _ f r' h2 in
    let (_, same) = ok-injective _ f r3 r' h3 in
    rw (sym same) (
      omega (
        arith,
        read_byte-length r _ r1 e1,
        read_uint32-length r1 _ r2 e2,
        read_uint64-length r2 _ r3 e3,
      ))

pub parse_rst_stream_frame-shorter :
    (r : List ℕ) (f : RstStreamFrame) (r' : List ℕ)
    → parse_rst_stream_frame r ≡ ok (f, r')
    → length r' < length r
unfolding parse_rst_stream_frame
parse_rst_stream_frame-shorter r f r' h =
    let (_, r1, e1, h1) = ok-bind (read_byte r) _ f r' h in
    let (_, r2, e2, h2) = ok-bind (read_uint32 r1) _ f r' h1 in
    let (_, r3, e3, h3) = ok-bind (read_uint64 r2) _ f r' h2 in
    let (_, r4, e4, h4) = ok-bind (read_uint32 r3) _ f r' h3 in
    let (_, same) = ok-injective _ f r4 r' h4 in
    rw (sym same) (
      omega (
        arith,
        read_byte-length r _ r1 e1,
        read_uint32-length r1 _ r2 e2,
        read_uint64-length r2 _ r3 e3,
        read_uint32-length r3 _ r4 e4,
      ))

pub parse_blocked_frame-shorter :
    (r : List ℕ) (f : BlockedFrame) (r' : List ℕ)
    → parse_blocked_frame r ≡ ok (f, r')
    → length r' < length r
unfolding parse_blocked_frame
parse_blocked_frame-shorter r f r' h =
    let (_, r1, e1, h1) = ok-bind (read_byte r) _ f r' h in
    let (_, r2, e2, h2) = ok-bind (read_uint32 r1) _ f r' h1 in
    let (_, same) = ok-injective _ f r2 r' h2 in
    rw (sym same) (omega (arith, read_byte-length r _ r1 e1, read_uint32-length r1 _ r2 e2))

pub parse_ping_frame-shorter :
    (r : List ℕ) (f : PingFrame) (r' : List ℕ)
    → parse_ping_frame r ≡ ok (f, r')
    → length r' < length r
unfolding parse_ping_frame
parse_ping_frame-shorter r f r' h =
    let (_, r1, e1, h1) = ok-bind (read_byte r) _ f r' h in
    let (_, same) = ok-injective _ f r1 r' h1 in
    rw (sym same) (omega (arith, read_byte-length r _ r1 e1))

pub parse_stop_waiting_frame-shorter :
    (r : List ℕ) (pn len : ℕ) (f : StopWaitingFrame) (r' : List ℕ)
    → parse_stop_waiting_frame r pn len ≡ ok (f, r')
    → length r' < length r
unfolding parse_stop_waiting_frame
parse_stop_waiting_frame-shorter r pn len f r' h =
    let (_, r1, e1, h1) = ok-bind (read_byte r) _ f r' h in
    let (delta, r2, e2, h2) = ok-bind (read_uint_n r1 len) _ f r' h1 in
    elim (Bool-cases (ltb pn delta)) [
      | inl t ↦ absurd (err-ne-ok _ f r' (rw t at h2))
      | inr t ↦
          let (_, same) = ok-injective _ f r2 r' (rw t at h2) in
          rw (sym same)
            (omega (arith, read_byte-length r _ r1 e1, read_uint_n-length len r1 _ r2 e2))
    ]

read_full_rest-shorter :
    (n : ℕ) (r : List ℕ) (bs r' : List ℕ) → read_full_rest n r ≡ ok (bs, r') → length r' ≤ length r
unfolding read_full_rest
read_full_rest-shorter zero r bs r' h =
    let (_, same) = ok-injective _ bs r r' h in rw (sym same) (omega arith)
read_full_rest-shorter (suc n) [] bs r' h = absurd (err-ne-ok _ bs r' h)
read_full_rest-shorter (suc n) (b ∷ r) bs r' h =
    let (cs, r1, e1, h1) = ok-bind (read_full_rest n r) _ bs r' h in
    let (_, same) = ok-injective _ bs r1 r' h1 in
    rw (sym same) (omega (arith, read_full_rest-shorter n r cs r1 e1))

read_full-shorter :
    (n : ℕ) (r : List ℕ) (bs r' : List ℕ) → read_full n r ≡ ok (bs, r') → length r' ≤ length r
unfolding read_full
read_full-shorter zero r bs r' h = read_full_rest-shorter zero r bs r' (unfold read_full_rest in h)
read_full-shorter (suc n) [] bs r' h = absurd (err-ne-ok _ bs r' h)
read_full-shorter (suc n) (b ∷ r) bs r' h = read_full_rest-shorter (suc n) (b ∷ r) bs r' h

pub parse_connection_close_frame-shorter :
    (r : List ℕ) (f : ConnectionCloseFrame) (r' : List ℕ)
    → parse_connection_close_frame r ≡ ok (f, r')
    → length r' < length r
unfolding parse_connection_close_frame
parse_connection_close_frame-shorter r f r' h =
    let (_, r1, e1, h1) = ok-bind (read_byte r) _ f r' h in
    let (_, r2, e2, h2) = ok-bind (read_uint32 r1) _ f r' h1 in
    let (len, r3, e3, h3) = ok-bind (read_uint16 r2) _ f r' h2 in
    elim (Bool-cases (ltb max_packet_size len)) [
      | inl t ↦ absurd (err-ne-ok _ f r' (rw t at h3))
      | inr t ↦
          let (_, r4, e4, h4) = ok-bind (read_full len r3) _ f r' (rw t at h3) in
          let (_, same) = ok-injective _ f r4 r' h4 in
          rw (sym same) (
            omega (
              arith,
              read_byte-length r _ r1 e1,
              read_uint32-length r1 _ r2 e2,
              read_uint16-length r2 _ r3 e3,
              read_full-shorter len r3 _ r4 e4,
            ))
    ]

pub parse_goaway_frame-shorter :
    (r : List ℕ) (f : GoawayFrame) (r' : List ℕ)
    → parse_goaway_frame r ≡ ok (f, r')
    → length r' < length r
unfolding parse_goaway_frame
parse_goaway_frame-shorter r f r' h =
    let (_, r1, e1, h1) = ok-bind (read_byte r) _ f r' h in
    let (_, r2, e2, h2) = ok-bind (read_uint32 r1) _ f r' h1 in
    let (_, r3, e3, h3) = ok-bind (read_uint32 r2) _ f r' h2 in
    let (len, r4, e4, h4) = ok-bind (read_uint16 r3) _ f r' h3 in
    elim (Bool-cases (ltb max_packet_size len)) [
      | inl t ↦ absurd (err-ne-ok _ f r' (rw t at h4))
      | inr t ↦
          let (_, r5, e5, h5) = ok-bind (read_full len r4) _ f r' (rw t at h4) in
          let (_, same) = ok-injective _ f r5 r' h5 in
          rw (sym same) (
            omega (
              arith,
              read_byte-length r _ r1 e1,
              read_uint32-length r1 _ r2 e2,
              read_uint32-length r2 _ r3 e3,
              read_uint16-length r3 _ r4 e4,
              read_full-shorter len r4 _ r5 e5,
            ))
    ]

drop-shorter : (n : ℕ) (r : List ℕ) → length (drop n r) ≤ length r
drop-shorter zero r = omega arith
drop-shorter (suc n) [] = omega arith
drop-shorter (suc n) (b ∷ r) = omega (arith, drop-shorter n r)

read_data-shorter :
    (n : ℕ) (r : List ℕ) (bs r' : List ℕ) → read_data n r ≡ ok (bs, r') → length r' ≤ length r
unfolding read_data
read_data-shorter n r bs r' h = elim (Bool-cases (ltb (length r) n)) [
  | inl t ↦ absurd (err-ne-ok _ bs r' (rw (read_data, t) at h))
  | inr t ↦
      let (_, same) = ok-injective _ bs (drop n r) r' (rw (read_data, t) at h) in
      rw (sym same) (drop-shorter n r)
]

maybe_uint16 :
    (present : Bool) (r : List ℕ) (len : ℕ) (r' : List ℕ)
    → (if present then read_uint16 r else ok (0, r)) ≡ ok (len, r')
    → length r' ≤ length r
maybe_uint16 true r len r' e = omega (arith, read_uint16-length r len r' e)
maybe_uint16 false r len r' e =
    let (_, same) = ok-injective _ len r r' e in rw (sym same) (omega arith)

parse_stream_data-shorter :
    (present : Bool) (r : List ℕ) (bs r' : List ℕ)
    → parse_stream_data present r ≡ ok (bs, r')
    → length r' ≤ length r
unfolding parse_stream_data
parse_stream_data-shorter present r bs r' h =
    let (len, r1, e1, h1) = ok-bind (if present then read_uint16 r else ok (0, r)) _ bs r' h in
    elim (Bool-cases (ltb max_packet_size len)) [
      | inl t ↦ absurd (err-ne-ok _ bs r' (rw t at h1))
      | inr t ↦
          omega (arith, maybe_uint16 present r len r1 e1, read_data-shorter _ r1 bs r' (rw t at h1))
    ]

pub parse_stream_frame-shorter :
    (r : List ℕ) (f : StreamFrame) (r' : List ℕ)
    → parse_stream_frame r ≡ ok (f, r')
    → length r' < length r
unfolding parse_stream_frame
parse_stream_frame-shorter r f r' h =
    let (t, r1, e1, h1) = ok-bind (read_byte r) _ f r' h in
    let (sid, r2, e2, h2) = ok-bind (read_uint_n r1 (stream_id_len_of t)) _ f r' h1 in
    let (offset, r3, e3, h3) = ok-bind (read_uint_n r2 (offset_len_of t)) _ f r' h2 in
    let (bs, r4, e4, h4) = ok-bind (parse_stream_data (has_data_len t) r3) _ f r' h3 in
    elim (Bool-cases (not (has_fin t) && length bs == 0)) [
      | inl z ↦ absurd (err-ne-ok _ f r' (rw z at h4))
      | inr z ↦
          let (_, same) = ok-injective _ f r4 r' (rw z at h4) in
          rw (sym same) (
            omega (
              arith,
              read_byte-length r t r1 e1,
              read_uint_n-length (stream_id_len_of t) r1 sid r2 e2,
              read_uint_n-length (offset_len_of t) r2 offset r3 e3,
              parse_stream_data-shorter (has_data_len t) r3 bs r4 e4,
            ))
    ]
