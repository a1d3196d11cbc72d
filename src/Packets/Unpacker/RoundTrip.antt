-- ===== src/Packets/Unpacker/RoundTrip.antt =====
-- The frames that were written one after the other are unpacked in that order.
use quic_go.Base.{
  none, ok, map, zero, subst, ℕ, suc, ◌+◌, ◌-◌, ◌≤◌, ◌<◌, ◌≡◌, ◌≢◌, inl, inr, refl, arith, sym, ◌∙◌,
  ap, List, [], ◌∷◌, ◌++◌, length, false, append_assoc, append-nil, drop, ltb, All, length-append,
  Option, some,
}
use quic_go.Protocol.{IsLen}
use quic_go.Wire.{write_uint16, write_uint32, write_uint64, read_byte}
use quic_go.Frames.Control.{
  write_window_update_frame, write_rst_stream_frame, write_blocked_frame, write_ping_frame,
  parse_ping_frame,
}
use quic_go.Frames.Control.RoundTrip.{
  parse-write_window_update_frame, parse-write_rst_stream_frame, parse-write_blocked_frame,
}
use quic_go.Frames.Closing.{write_connection_close_frame, write_goaway_frame}
use quic_go.Frames.Closing.RoundTrip.{parse-write_connection_close_frame, parse-write_goaway_frame}
use quic_go.Frames.StreamFrame.{StreamFrame, write_stream_frame}
use quic_go.Frames.StreamFrame.RoundTrip.{
  IsValid, parse-write_stream_frame, write_stream_frame-first,
}
use quic_go.Frames.Kinds.{
  Frame, stream_frame, ack_frame, stop_waiting_frame, rst_stream_frame, connection_close_frame,
  goaway_frame, window_update_frame, blocked_frame, ping_frame,
}
use quic_go.Frames.Ack.{AckFrame}
use quic_go.Frames.StopWaiting.{
  write_stop_waiting_frame, parse_stop_waiting_frame, StopWaitingFrame,
}
use quic_go.Frames.StopWaiting.RoundTrip.{
  parse-write_stop_waiting_frame, write_stop_waiting_frame-first,
}
use quic_go.Packets.Unpacker.Written.{received, wire, wires, IsInnerFrame}
use quic_go.Packets.Unpacker.{next, unpacked, read_control, read_frame, read_loop, unpack}

abbrev Starts : ℕ → ℕ → List ℕ → Frame → List ℕ → Type 0
Starts pn len bytes f rest =
    (t : ℕ) × (r : List ℕ) × (bytes ≡ t ∷ r) × (read_frame pn len t bytes ≡ next f rest)

read_frame-stop_waiting :
    (pn len : ℕ) (bytes rest : List ℕ) (f : StopWaitingFrame)
    → parse_stop_waiting_frame bytes pn len ≡ ok (f, rest)
    → read_frame pn len 0x06 bytes ≡ next (stop_waiting_frame f) rest
unfolding read_frame read_control
read_frame-stop_waiting pn len bytes rest f h = rw h refl

read_frame-wire :
    (ack_bytes : AckFrame → List ℕ) (pn len : ℕ) (f : Frame) (rest : List ℕ)
    → IsInnerFrame ack_bytes pn len f
    → Starts pn len (wire ack_bytes f ++ rest) (received f) rest
unfolding read_frame read_control write_rst_stream_frame write_goaway_frame
    write_window_update_frame write_blocked_frame write_ping_frame parse_ping_frame
    write_connection_close_frame write_uint16 write_uint32 write_uint64 read_byte
read_frame-wire ack_bytes pn len (stream_frame f) rest (v, p, n) =
    let (t, r, e, b) = write_stream_frame-first f rest v in
    (t, r, e, rw (read_frame, b, (parse-write_stream_frame f [] rest v (inl (p, n))).1) refl)
read_frame-wire ack_bytes pn len (ack_frame f) rest (t, r, e, a, b, p) =
    (t, r ++ rest, ap (λ l. l ++ rest) e, rw (read_frame, a, b, p rest) refl)
read_frame-wire ack_bytes pn len (stop_waiting_frame f) rest (n, l, z, u, (m, il, d)) =
    let length_known : IsLen f.packet_number_len m = subst (λ k. IsLen k m) (sym l) il in
    let positive : f.packet_number ≢ 0 = λ e. z (sym n ∙ e) in
    let below : f.least_unacked ≤ f.packet_number = omega (arith, n, u) in
    let near : f.packet_number - f.least_unacked < m = omega (arith, n, d) in
    let (_, parsed, _) =
      parse-write_stop_waiting_frame f [] rest length_known positive below near in
    let first = write_stop_waiting_frame-first f length_known positive below near in
    let all : List ℕ = (write_stop_waiting_frame f []).0 ++ rest in
    let g : StopWaitingFrame = record f { packet_number_len = 0; packet_number = 0 } in
    let numbered : parse_stop_waiting_frame all pn f.packet_number_len ≡ ok (g, rest) =
      subst (λ k. parse_stop_waiting_frame all k f.packet_number_len ≡ ok (g, rest)) n parsed in
    let parsed_here : parse_stop_waiting_frame all pn len ≡ ok (g, rest) =
      subst (λ k. parse_stop_waiting_frame all pn k ≡ ok (g, rest)) l numbered in
    (0x06, _, ap (λ k. k ++ rest) first, read_frame-stop_waiting pn len all rest g parsed_here)
read_frame-wire ack_bytes pn len (rst_stream_frame f) rest (a, b, c) =
    (0x01, _, refl, rw ((parse-write_rst_stream_frame f [] rest a b c).0) refl)
read_frame-wire ack_bytes pn len (connection_close_frame f) rest (a, b) =
    let short : ltb 65535 (length f.reason_phrase) ≡ false = ground arith in
    let tail : List ℕ = drop 1 (write_connection_close_frame f []).0 in
    let first : (write_connection_close_frame f []).0 ≡ 0x02 ∷ tail =
      rw (write_connection_close_frame, short) refl in
    (
      0x02,
      tail ++ rest,
      ap (λ l. l ++ rest) first,
      rw ((parse-write_connection_close_frame f [] rest a b).0) refl,
    )
read_frame-wire ack_bytes pn len (goaway_frame f) rest (a, b, c) =
    (0x03, _, refl, rw ((parse-write_goaway_frame f [] rest a b c).0) refl)
read_frame-wire ack_bytes pn len (window_update_frame f) rest (a, b) =
    (0x04, _, refl, rw ((parse-write_window_update_frame f [] rest a b).0) refl)
read_frame-wire ack_bytes pn len (blocked_frame f) rest h =
    (0x05, _, refl, rw ((parse-write_blocked_frame f (record {}) [] rest h).0) refl)
read_frame-wire ack_bytes pn len (ping_frame f) rest h = (0x07, _, refl, refl)

-- One round of the loop takes one frame.
read_loop-step :
    (pn len n : ℕ) (bytes rest : List ℕ) (f : Frame) (fs : List Frame)
    → Starts pn len bytes f rest
    → read_loop pn len (suc n) bytes fs ≡ read_loop pn len n rest (fs ++ (f ∷ []))
unfolding read_loop
read_loop-step pn len n bytes rest f fs (t, r, e, h) =
    let h' : read_frame pn len t (t ∷ r) ≡ next f rest = rw e at h in rw (e, read_loop, h') refl

read_loop-wires :
    (ack_bytes : AckFrame → List ℕ) (pn len n : ℕ) (gs fs : List Frame) (last : List ℕ)
    → All (IsInnerFrame ack_bytes pn len) gs
    → read_loop pn len (length gs + n) (wires ack_bytes gs ++ last) fs
      ≡ read_loop pn len n last (fs ++ map received gs)
read_loop-wires ack_bytes pn len n [] fs last h =
    let e : 0 + n ≡ n = omega arith in rw (e, append-nil fs) refl
read_loop-wires ack_bytes pn len n (g ∷ gs) fs last (h, hs) =
    let e : suc (length gs) + n ≡ suc (length gs + n) = omega arith in
    let head : List ℕ = wire ack_bytes g in
    let tail : List ℕ = wires ack_bytes gs in
    let bytes : (head ++ tail) ++ last ≡ head ++ (tail ++ last) = append_assoc head tail last in
    let order : fs ++ (received g ∷ map received gs)
        ≡ (fs ++ (received g ∷ [])) ++ map received gs =
      sym (append_assoc fs (received g ∷ []) (map received gs)) in
    rw (e, bytes, order)
      (read_loop-step pn len (length gs + n) _ (tail ++ last) (received g) fs
          (read_frame-wire ack_bytes pn len g (tail ++ last) h)
        ∙ read_loop-wires ack_bytes pn len n gs (fs ++ (received g ∷ [])) last hs)

-- No frame is written as nothing, so a packet has at least as many bytes as frames.
wires-length :
    (ack_bytes : AckFrame → List ℕ) (pn len : ℕ) (gs : List Frame)
    → All (IsInnerFrame ack_bytes pn len) gs
    → length gs ≤ length (wires ack_bytes gs)
wires-length ack_bytes pn len [] h = omega arith
wires-length ack_bytes pn len (g ∷ gs) (h, hs) =
    let (t, r, e, _) = read_frame-wire ack_bytes pn len g [] h in
    omega (
      arith,
      wires-length ack_bytes pn len gs hs,
      length-append (wire ack_bytes g) (wires ack_bytes gs),
      length-append (wire ack_bytes g) [],
      ap length e,
    )

stream_round :
    (pn len : ℕ) (f : StreamFrame)
    → IsValid f
    → Starts pn len (write_stream_frame f []).0 (stream_frame f) []
unfolding read_frame
stream_round pn len f v =
    let (t, r, e, b) = write_stream_frame-first f [] v in
    let same = append-nil (write_stream_frame f []).0 in
    let parsed = rw same at (parse-write_stream_frame f [] [] v (inr refl)).1 in
    (t, r, rw same at e, rw (read_frame, b, parsed) refl)

unpack-opened :
    (open_data : List ℕ → ℕ → List ℕ → Option (List ℕ)) (header : List ℕ) (pn len : ℕ)
    (bytes plain : List ℕ)
    → open_data bytes pn header ≡ some plain
    → 1 ≤ length plain
    → unpack open_data header pn len bytes ≡ read_loop pn len (suc (length plain)) plain []
unfolding unpack
unpack-opened open_data header pn len bytes [] e h = absurd (omega arith)
unpack-opened open_data header pn len bytes (t ∷ r) e h = rw (e, unpack) refl

-- The bytes of a last STREAM frame, and the frame, if there is one.
abbrev pub last_bytes : Option StreamFrame → List ℕ
last_bytes none = []
last_bytes (some f) = (write_stream_frame f []).0

abbrev pub last_frames : Option StreamFrame → List Frame
last_frames none = []
last_frames (some f) = stream_frame f ∷ []

abbrev pub IsLast : Option StreamFrame → Type 0
IsLast none = Unit {0}
IsLast (some f) = IsValid f

read_loop-last :
    (pn len n : ℕ) (last : Option StreamFrame) (fs : List Frame)
    → IsLast last
    → length (last_frames last) < n
    → read_loop pn len n (last_bytes last) fs ≡ unpacked (fs ++ last_frames last)
unfolding read_loop
read_loop-last pn len zero last fs v l = absurd (omega arith)
read_loop-last pn len (suc n) none fs v l = rw (append-nil fs) refl
read_loop-last pn len (suc zero) (some f) fs v l = absurd (omega arith)
read_loop-last pn len (suc (suc k)) (some f) fs v l =
    read_loop-step pn len (suc k) (last_bytes (some f)) [] (stream_frame f) fs
      (stream_round pn len f v)

last_bytes-length :
    (last : Option StreamFrame) → IsLast last → length (last_frames last) ≤ length (last_bytes last)
last_bytes-length none v = omega arith
last_bytes-length (some f) v = let (t, r, e, _) = stream_round 0 0 f v in omega (arith, ap length e)

-- A packet that is not empty, whose frames stand one after the other: any frames that Write put out
-- with their values in range, STREAM frames with data and its length, STOP_WAITING frames for the
-- number of this packet, and ACK frames as any bytes, behind a type byte of ACK frames, from which
-- ParseAckFrame reads the frame whatever follows; then possibly a last valid STREAM frame, with its
-- length or without. Where the AEAD opens these bytes, Unpack returns the frames in their order, the
-- STOP_WAITING frames with LeastUnacked alone.
pub unpack-wires :
    (ack_bytes : AckFrame → List ℕ) (open_data : List ℕ → ℕ → List ℕ → Option (List ℕ))
    (header : List ℕ) (pn len : ℕ) (bytes : List ℕ) (gs : List Frame) (last : Option StreamFrame)
    → All (IsInnerFrame ack_bytes pn len) gs
    → IsLast last
    → 1 ≤ length gs + length (last_frames last)
    → open_data bytes pn header ≡ some (wires ack_bytes gs ++ last_bytes last)
    → unpack open_data header pn len bytes ≡ unpacked (map received gs ++ last_frames last)
unpack-wires ack_bytes open_data header pn len bytes gs last h v n e =
    let plain : List ℕ = wires ack_bytes gs ++ last_bytes last in
    let long : length gs + length (last_frames last) ≤ length plain = omega (
      arith,
      length-append (wires ack_bytes gs) (last_bytes last),
      wires-length ack_bytes pn len gs h,
      last_bytes-length last v,
    ) in
    let k : ℕ = suc (length plain) - length gs in
    let fuel : suc (length plain) ≡ length gs + k = omega (arith, long) in
    unpack-opened open_data header pn len bytes plain e (omega (arith, long, n))
    ∙ (ap (λ i. read_loop pn len i plain []) fuel
        ∙ read_loop-wires ack_bytes pn len k gs [] (last_bytes last) h
        ∙ read_loop-last pn len k last (map received gs) v (omega (arith, long)))
