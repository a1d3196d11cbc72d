-- ===== src/Packets/Framer/Lengths.antt =====
-- The frames that the framer hands out fit, and no data of the queue is lost.
use quic_go.Base.{
  ℕ, zero, suc, ◌+◌, ◌-◌, ◌≤◌, ◌≡◌, inl, inr, refl, arith, ap, ◌∙◌, Bool, true, false, not, ◌&&◌,
  List, [], ◌∷◌, ◌++◌, Option, none, some, length, All, take, append_assoc, Bool-cases,
  Option-cases, leb→lt, leb→le, ltb→le, ltb, leb, ◌==◌, if◌then◌else◌, min,
}
use quic_go.Frames.StreamFrame.{
  StreamFrame, data_len, min_length_stream_frame, calculate_stream_id_length, get_offset_length,
}
use quic_go.Flow.Controller.{ConnectionParameters}
use quic_go.Streams.Map.{StreamsMap}
use quic_go.Streams.Iteration.Keeps.{round_robin_iterate-keeps}
use quic_go.Streams.Iteration.{Verdict, goes_on, stops}
use quic_go.Streams.Stream.{
  Stream, get_data_for_writing, len_of_data_for_writing, should_send_fin, sent_fin, is_none,
}
use quic_go.Packets.Framer.Pieces.{Piece, bytes_from, fin_of, contents, split_contents}
use quic_go.Packets.Framer.{
  StreamFramer, maybe_split_off_frame, pop_for_retransmission, Filling, window_of, send_frame,
  pop_frame, pop_normal_frames, pop_stream_frames,
}

-- What frames take in a packet, headers included.
abbrev pub total : List StreamFrame → ℕ
total [] = 0
total (f ∷ fs) = min_length_stream_frame f + data_len f + total fs

-- All frames have their length, as they come from the framer.
abbrev pub Present : List StreamFrame → Type 0
Present = All λ (f : StreamFrame). f.data_len_present ≡ true

Present-append : (fs gs : List StreamFrame) → Present fs → Present gs → Present (fs ++ gs)
Present-append [] gs h k = k
Present-append (f ∷ fs) gs h k = (h.0, Present-append fs gs h.1 k)

pub total-append : (fs gs : List StreamFrame) → total (fs ++ gs) ≡ total fs + total gs
total-append [] gs = omega arith
total-append (f ∷ fs) gs = omega (arith, total-append fs gs)

length-take : (n : ℕ) (xs : List ℕ) → n ≤ length xs → length (take n xs) ≡ n
length-take zero xs h = refl
length-take (suc n) [] h = absurd (omega arith)
length-take (suc n) (x ∷ xs) h = omega (arith, length-take n xs)

-- The retransmissions take what they say and no more than is allowed. What they say of the streams,
-- each byte with its stream and its offset and the end of the stream where the FIN bit is set,
-- followed by what the queue says that is left, is what the queue said, in this order: a frame that
-- is split keeps every byte at its offset, and its FIN bit goes with the rest. Offsets count in 64
-- bits.
pub pop_for_retransmission-total :
    (max_len current : ℕ) (queue : List StreamFrame)
    → current ≤ max_len
    → let p = pop_for_retransmission max_len current queue in
      (p.current_len ≤ max_len)
      × (p.current_len ≡ current + total p.frames)
      × (contents p.frames ++ contents p.queue ≡ contents queue)
unfolding pop_for_retransmission
pop_for_retransmission-total max_len current [] h = (h, omega arith, refl)
pop_for_retransmission-total max_len current (f ∷ queue) h =
    let frame : StreamFrame = record f { data_len_present = true } in
    let header = current + min_length_stream_frame frame in
    elim (Bool-cases (leb max_len header)) [
      | inl t ↦ rw (pop_for_retransmission, t) (h, omega arith, refl)
      | inr t ↦ elim (Bool-cases (leb (data_len f) (max_len - header))) [
        | inl u ↦
            let (a, b, d) =
              pop_for_retransmission-total max_len (header + data_len f) queue
                (omega (arith, leb→le _ _ u, leb→lt _ _ t)) in
            rw (pop_for_retransmission, t, maybe_split_off_frame, u)
              (
                a,
                omega (arith, b),
                append_assoc (bytes_from f.stream_id f.offset f.bytes) _ _
                    ∙ ap (λ (l : List Piece). bytes_from f.stream_id f.offset f.bytes ++ l)
                        (append_assoc (fin_of f) _ _ ∙ ap (λ (l : List Piece). fin_of f ++ l) d),
              )
        | inr u ↦
            let len = length-take (max_len - header) f.bytes (omega (arith, leb→lt _ _ u)) in
            rw (pop_for_retransmission, t, maybe_split_off_frame, u)
              (
                omega (arith, len, leb→lt _ _ t),
                unfold min_length_stream_frame calculate_stream_id_length get_offset_length in
                    omega (arith, len),
                split_contents (max_len - header) f (contents queue) (omega (arith, leb→lt _ _ u)),
              )
      ]
    ]

pop_for_retransmission-Present :
    (max_len current : ℕ) (queue : List StreamFrame)
    → Present (pop_for_retransmission max_len current queue).frames
unfolding pop_for_retransmission
pop_for_retransmission-Present max_len current [] = tt
pop_for_retransmission-Present max_len current (f ∷ queue) =
    let frame : StreamFrame = record f { data_len_present = true } in
    let header = current + min_length_stream_frame frame in
    elim (Bool-cases (leb max_len header)) [
      | inl t ↦ rw (pop_for_retransmission, t) tt
      | inr t ↦ elim (Bool-cases (leb (data_len f) (max_len - header))) [
        | inl u ↦
            rw (pop_for_retransmission, t, maybe_split_off_frame, u)
              (refl, pop_for_retransmission-Present max_len (header + data_len f) queue)
        | inr u ↦ rw (pop_for_retransmission, t, maybe_split_off_frame, u) (refl, tt)
      ]
    ]

-- The invariant of the loop over the streams.
abbrev Fills : ℕ → Filling → Type 0
Fills max_bytes t =
    (t.current_len ≤ max_bytes) × (t.current_len ≡ total t.frames) × Present t.frames

-- What getDataForWriting takes.
abbrev taken : Option (List ℕ) → List ℕ
taken o = elim o [ none ↦ [] | some p ↦ p ]

get_data_for_writing-length : (n : ℕ) (s : Stream) → length (taken (get_data_for_writing n s).1) ≤ n
unfolding get_data_for_writing
get_data_for_writing-length n s = elim (Option-cases s.data_for_writing) [
  | inl e ↦ rw (get_data_for_writing, e) (omega arith)
  | inr (p, e) ↦ rw (get_data_for_writing, e) (ground (arith, length-take n p))
]

send_frame-Fills :
    (params : ConnectionParameters) (max_bytes window : ℕ) (frame : StreamFrame) (s : Stream)
    (m : StreamsMap Stream) (t : Filling)
    → Fills max_bytes t
    → t.current_len + (min_length_stream_frame frame + data_len frame) ≤ max_bytes
    → frame.data_len_present ≡ true
    → Fills max_bytes (send_frame params max_bytes frame window s (m, t)).0.1
unfolding send_frame
send_frame-Fills params max_bytes window frame s m t h l p = (
  l,
  omega (arith, h.1, total-append t.frames (frame ∷ [])),
  Present-append t.frames (frame ∷ []) h.2 (p, tt),
)

-- A test keeps the invariant where both outcomes do.
tested :
    (max_bytes : ℕ) (b : Bool) (x y : (StreamsMap Stream × Filling) × Verdict)
    → Fills max_bytes x.0.1
    → (b ≡ false → Fills max_bytes y.0.1)
    → Fills max_bytes (if b then x else y).0.1
tested max_bytes true x y h k = h
tested max_bytes false x y h k = k refl

capped : (b : Bool) (room window : ℕ) → (if b then min room window else room) ≤ room
capped b room window = ground arith

pop_frame-Fills :
    (params : ConnectionParameters) (max_bytes : ℕ) (s : Stream) (w : StreamsMap Stream × Filling)
    → Fills max_bytes w.1
    → Fills max_bytes (pop_frame params max_bytes s w).0.1
unfolding pop_frame
pop_frame-Fills params max_bytes s (m, t) h =
    let frame : StreamFrame = record {
      stream_id = s.stream_id;
      fin_bit = false;
      data_len_present = true;
      offset = s.write_offset;
      bytes = [];
    } in
    let header : ℕ = min_length_stream_frame frame in
    let has_data : Bool = not (len_of_data_for_writing s == 0) in
    let window : ℕ = if has_data then window_of params s.stream_id t.manager else 0 in
    let room : ℕ = max_bytes - t.current_len - header in
    let max_len : ℕ = if has_data then min room window else room in
    let (s1, bytes) = get_data_for_writing max_len s in
    let fin : Bool = should_send_fin s1 in
    let full : StreamFrame = record frame { fin_bit = fin; bytes = taken bytes } in
    let sent : (StreamsMap Stream × Filling) × Verdict =
      send_frame params max_bytes full window (if fin then sent_fin s1 else s1) (m, t) in
    let nothing : (StreamsMap Stream × Filling) × Verdict = ((m, t), goes_on) in
    let inner = if is_none bytes && not fin then nothing else sent in
    let small : max_len ≤ room = capped has_data room window in
    let len = get_data_for_writing-length max_len s in
    let same : min_length_stream_frame full ≡ header =
      unfold min_length_stream_frame calculate_stream_id_length get_offset_length in refl in
    tested max_bytes (ltb max_bytes (t.current_len + header)) ((m, t), stops)
      (if max_len == 0 then nothing else inner) h
      (λ a. tested max_bytes (max_len == 0) nothing inner h (λ b.
        tested max_bytes (is_none bytes && not fin) nothing sent h (λ c.
          send_frame-Fills params max_bytes window full (if fin then sent_fin s1 else s1) m t h
            (omega (arith, ltb→le _ _ a, small, len, same)) refl)))

pop_normal_frames-total :
    (params : ConnectionParameters) (max_bytes : ℕ) (f : StreamFramer)
    → let p = (pop_normal_frames params max_bytes f).1 in
      (p.current_len ≤ max_bytes) × (p.current_len ≡ total p.frames) × Present p.frames
unfolding pop_normal_frames
pop_normal_frames-total params max_bytes f =
    round_robin_iterate-keeps (Fills max_bytes) (pop_frame params max_bytes)
      (pop_frame-Fills params max_bytes) _ (omega arith, refl, tt)

-- However much data the streams have, and whatever is to be sent again: the frames that
-- PopStreamFrames returns take no more bytes than it was allowed, with the headers that they are
-- written with while their data length is present.
pub pop_stream_frames-total :
    (params : ConnectionParameters) (max_len : ℕ) (f : StreamFramer)
    → total (pop_stream_frames params max_len f).1 ≤ max_len
unfolding pop_stream_frames
pop_stream_frames-total params max_len f =
    let again = pop_for_retransmission max_len 0 f.retransmission_queue in
    let (a, b, _) = pop_for_retransmission-total max_len 0 f.retransmission_queue (omega arith) in
    let rest : StreamFramer = record f { retransmission_queue = again.queue } in
    let (c, d, _) = pop_normal_frames-total params (max_len - again.current_len) rest in
    omega (
      arith,
      total-append again.frames
          (pop_normal_frames params (max_len - again.current_len) rest).1.frames,
      a,
      b,
      c,
      d,
    )

pub pop_stream_frames-Present :
    (params : ConnectionParameters) (max_len : ℕ) (f : StreamFramer)
    → Present (pop_stream_frames params max_len f).1
unfolding pop_stream_frames
pop_stream_frames-Present params max_len f =
    let again = pop_for_retransmission max_len 0 f.retransmission_queue in
    let rest : StreamFramer = record f { retransmission_queue = again.queue } in
    let normal = pop_normal_frames-total params (max_len - again.current_len) rest in
    Present-append again.frames _ (pop_for_retransmission-Present max_len 0 f.retransmission_queue)
      normal.2
