-- ===== src/Packets/Packer/Sizes.antt =====
-- A composed packet is never too large.
use quic_go.Base.{
  ◌^◌, ◌<◌, ℕ, ◌+◌, ◌-◌, ◌≤◌, ◌≡◌, ◌⊎◌, inl, inr, refl, arith, true, false, List, [], ◌∷◌, ◌++◌,
  Option, none, some, ok, map, All, Result, ltb, Bool-cases, ltb→le,
}
use quic_go.Protocol.{add64, sub64}
use quic_go.Frames.StreamFrame.{
  StreamFrame, data_len, min_length_stream_frame, calculate_stream_id_length, get_offset_length,
}
use quic_go.Frames.StopWaiting.{StopWaitingFrame, min_length_stop_waiting_frame}
use quic_go.Frames.Kinds.{
  Frame, stream_frame, ack_frame, stop_waiting_frame, rst_stream_frame, connection_close_frame,
  goaway_frame, window_update_frame, blocked_frame, ping_frame,
}
use quic_go.Flow.Controller.{ConnectionParameters}
use quic_go.Packets.Framer.{pop_stream_frames}
use quic_go.Packets.Framer.Lengths.{
  total, Present, pop_stream_frames-total, pop_stream_frames-Present,
}
use quic_go.Packets.Packer.{
  min_length, PacketPacker, take_control_frames, omit_last_data_len, composed, fill_packet,
  compose_next_packet, max_frame_and_public_header_size,
}

-- What a frame takes in the packet: MinLength, with the data of a STREAM frame.
abbrev pub data_of : Frame → ℕ
data_of (stream_frame f) = data_len f
data_of (ack_frame f) = 0
data_of (stop_waiting_frame f) = 0
data_of (rst_stream_frame f) = 0
data_of (connection_close_frame f) = 0
data_of (goaway_frame f) = 0
data_of (window_update_frame f) = 0
data_of (blocked_frame f) = 0
data_of (ping_frame f) = 0

abbrev pub size : List Frame → ℕ
size [] = 0
size (f ∷ fs) = min_length f + data_of f + size fs

size-append : (fs gs : List Frame) → size (fs ++ gs) ≡ size fs + size gs
size-append [] gs = omega arith
size-append (f ∷ fs) gs = omega (arith, size-append fs gs)

size-streams : (fs : List StreamFrame) → size (map stream_frame fs) ≡ total fs
unfolding min_length
size-streams [] = refl
size-streams (f ∷ fs) = omega (arith, size-streams fs)

short_header :
    (f : StreamFrame)
    → f.data_len_present ≡ true
    → min_length_stream_frame (record f { data_len_present = false }) + 2
      ≡ min_length_stream_frame f
unfolding min_length_stream_frame calculate_stream_id_length get_offset_length
short_header f p = ground (arith, p)

-- Leaving out the length of the last frame saves two bytes.
omit-total :
    (fs : List StreamFrame)
    → Present fs
    → (fs ≡ []) ⊎ (total (omit_last_data_len fs) + 2 ≡ total fs)
unfolding omit_last_data_len
omit-total [] p = inl refl
omit-total (f ∷ []) (p, _) = inr (omega (arith, short_header f p))
omit-total (f ∷ g ∷ fs) (p, q) = elim (omit-total (g ∷ fs) q) [
  | inl e ↦ absurd (cc)
  | inr e ↦ inr (omega (arith, e))
]

-- The control frames that are taken fit.
take_control_frames-size :
    (max_size payload : ℕ) (fs : List Frame)
    → All (λ (f : Frame). data_of f ≡ 0) fs
    → let t = take_control_frames max_size payload fs in
      (t.payload_length ≡ payload + size t.taken)
      × (payload ≤ max_size → t.payload_length ≤ max_size)
unfolding take_control_frames
take_control_frames-size max_size payload [] h = (omega arith, λ l. l)
take_control_frames-size max_size payload (f ∷ fs) h =
    let ih = take_control_frames-size max_size (payload + min_length f) fs h.1 in
    elim (Bool-cases (ltb max_size (payload + min_length f))) [
      | inl t ↦ rw (take_control_frames, t) (omega arith, λ l. l)
      | inr t ↦ rw (take_control_frames, t) (omega (arith, ih.0, h.0), λ l. ih.1 (ltb→le _ _ t))
    ]

-- The frames that fill a packet.
filled-size :
    (params : ConnectionParameters) (first : List Frame) (payload max_size : ℕ) (p : PacketPacker)
    → All (λ (f : Frame). data_of f ≡ 0) p.control_frames
    → size first ≡ payload
    → payload ≤ max_size
    → max_size + 2 < 2 ^ 64
    → (fs : List Frame) × ((fill_packet params first payload max_size p).1 ≡ composed fs)
      × (size fs ≤ max_size)
unfolding fill_packet
filled-size params first payload max_size p h s l small =
    let t = take_control_frames max_size payload p.control_frames in
    let popped =
      (pop_stream_frames params (sub64 (add64 max_size 2) t.payload_length) p.stream_framer).1 in
    let (sum, fits) = take_control_frames-size max_size payload p.control_frames h in
    let ok_length : ltb max_size t.payload_length ≡ false = ground (arith, fits l) in
    (
      first ++ (t.taken ++ map stream_frame (omit_last_data_len popped)),
      rw (fill_packet, ok_length) refl,
      all_fit first t.taken popped payload t.payload_length max_size s sum (fits l)
          (omega (
            arith,
            fits l,
            pop_stream_frames-total params (sub64 (add64 max_size 2) t.payload_length)
                p.stream_framer,
          ))
          (pop_stream_frames-Present params (sub64 (add64 max_size 2) t.payload_length)
            p.stream_framer),
    )
  where
    all_fit :
        (a b : List Frame) (c : List StreamFrame) (n k limit : ℕ)
        → size a ≡ n
        → k ≡ n + size b
        → k ≤ limit
        → total c ≤ limit + 2 - k
        → Present c
        → size (a ++ (b ++ map stream_frame (omit_last_data_len c))) ≤ limit
    all_fit a b c n k limit sa sb l u q =
        let streams : List Frame = map stream_frame (omit_last_data_len c) in
        elim (omit-total c q) [
          | inl w ↦ rw w (
              unfold omit_last_data_len in
              omega (arith, size-append a (b ++ []), size-append b [], sa, sb, l))
          | inr w ↦ omega (
            arith,
            size-append a (b ++ streams),
            size-append b streams,
            size-streams (omit_last_data_len c),
            w,
            u,
            sa,
            sb,
            l,
          )
        ]

-- The length of a STOP_WAITING frame, if there is one.
abbrev pub stop_length : Option StopWaitingFrame → Result ℕ
stop_length none = ok 0
stop_length (some f) = min_length_stop_waiting_frame f

stop_size :
    (f : StopWaitingFrame) (n : ℕ)
    → min_length_stop_waiting_frame f ≡ ok n
    → size (stop_waiting_frame f ∷ []) ≡ n
unfolding min_length
stop_size f n e = ground (arith, e)

-- Where the header and the STOP_WAITING frame leave room, a packet is composed, however many control
-- frames are queued, whatever is to be sent again and whatever the streams have to send; and its
-- frames, with their data, take no more than the maximal size of a packet without the header and the
-- signature. The queued control frames are not STREAM frames, and the number length of the
-- STOP_WAITING frame is set.
pub compose_next_packet-size :
    (params : ConnectionParameters) (stop_waiting : Option StopWaitingFrame) (header n : ℕ)
    (p : PacketPacker)
    → All (λ (f : Frame). data_of f ≡ 0) p.control_frames
    → stop_length stop_waiting ≡ ok n
    → header + n ≤ max_frame_and_public_header_size
    → (fs : List Frame) × ((compose_next_packet params stop_waiting header p).1 ≡ composed fs)
      × (header + size fs ≤ max_frame_and_public_header_size)
unfolding compose_next_packet
compose_next_packet-size params none header n p h e l =
    let (fs, made, fit) =
      filled-size params [] 0 (sub64 max_frame_and_public_header_size header) p h refl (omega arith)
        (omega arith) in
    (fs, made, omega (arith, fit, l))
compose_next_packet-size params (some f) header n p h e l =
    let (fs, made, fit) =
      filled-size params (stop_waiting_frame f ∷ []) n
        (sub64 max_frame_and_public_header_size header) p h (stop_size f n e) (omega (arith, l))
        (omega arith) in
    (fs, rw (compose_next_packet, e) made, omega (arith, fit, l))
