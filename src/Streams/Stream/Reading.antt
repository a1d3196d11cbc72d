-- ===== src/Streams/Stream/Reading.antt =====
-- The invariant of a stream that is read, and one round of Read.
use quic_go.Base.{
  ℕ, zero, suc, ◌+◌, ◌-◌, ◌%◌, ◌^◌, ◌≤◌, ◌<◌, ◌≡◌, inl, inr, refl, arith, sym, ap, ap₂, ◌∙◌, subst,
  List, ◌∷◌, ◌++◌, Option, none, some, length, length-append, take, drop, leb, if◌then◌else◌, min,
  Bool-cases, leb→le,
}
use quic_go.Protocol.{add64}
use quic_go.Frames.StreamFrame.{StreamFrame, data_len}
use quic_go.Streams.Sorter.{head, pop}
use quic_go.Streams.Sorter.Queue.{find-offset}
use quic_go.Streams.Sorter.Reassembly.{slice, slice-append, Holds, pop-Holds, find-IsCut}
use quic_go.Streams.Stream.{Stream, Reader, copy_frame, at_head}

length-slice : (c : ℕ → ℕ) (o n : ℕ) → length (slice c o n) ≡ n
unfolding slice
length-slice c o zero = refl
length-slice c o (suc n) = omega (arith, length-slice c (o + 1) n)

take-slice : (c : ℕ → ℕ) (o n m : ℕ) → m ≤ n → take m (slice c o n) ≡ slice c o m
unfolding slice
take-slice c o n zero h = refl
take-slice c o zero (suc m) h = absurd (omega arith)
take-slice c o (suc n) (suc m) h = ap (λ t. c o ∷ t) (take-slice c (o + 1) n m (omega arith))

drop-slice : (c : ℕ → ℕ) (o n p : ℕ) → p ≤ n → drop p (slice c o n) ≡ slice c (o + p) (n - p)
unfolding slice
drop-slice c o n zero h = ap₂ (slice c) (omega arith) (omega arith)
drop-slice c o zero (suc p) h = absurd (omega arith)
drop-slice c o (suc n) (suc p) h =
    drop-slice c (o + 1) n p (omega arith) ∙ ap₂ (slice c) (omega arith) (omega arith)

-- The sorter holds the stream, and the read offset stands in the frame at the head, or where the
-- next one begins.
pub record IsReading (c : ℕ → ℕ) (s : Stream) : Type 0 where
  pub holds : Holds c s.frame_queue
  pub low : s.frame_queue.read_position ≤ s.read_offset
  pub within :
      (f : StreamFrame) → head s.frame_queue ≡ some f → s.read_offset ≤ f.offset + data_len f
  pub empty : head s.frame_queue ≡ none → s.read_offset ≡ s.frame_queue.read_position
  pub no_error : s.error ≡ none

-- What has been read is the stream from where the reading began.
pub record Progress (c : ℕ → ℕ) (o : ℕ) (r : Reader) : Type 0 where
  pub reading : IsReading c r.stream
  pub bytes : r.bytes ≡ slice c o (length r.bytes)
  pub offset : r.stream.read_offset ≡ o + length r.bytes

-- The part of a frame that is copied.
copied :
    (c : ℕ → ℕ) (f : StreamFrame) (pos m : ℕ)
    → f.bytes ≡ slice c f.offset (data_len f)
    → pos + m ≤ data_len f
    → take m (drop pos f.bytes) ≡ slice c (f.offset + pos) m
copied c f pos m e h = rw e (
    rw (drop-slice c f.offset (data_len f) pos (omega arith))
      (take-slice c (f.offset + pos) (data_len f - pos) m (omega arith)))

-- The queue after the part of a round that may pop the frame.
after_copy :
    (c : ℕ → ℕ) (s : Stream) (f : StreamFrame) (pos m : ℕ)
    → IsReading c s
    → pos ≡ s.read_offset - f.offset
    → head s.frame_queue ≡ some f
    → s.read_offset + m ≤ f.offset + data_len f
    → let used_up = leb (data_len f) (pos + m) in
      let q = if used_up then (pop s.frame_queue).0 else s.frame_queue in
      Holds c q
      × (q.read_position ≤ s.read_offset + m)
      × ((g : StreamFrame) → head q ≡ some g → s.read_offset + m ≤ g.offset + data_len g)
      × (head q ≡ none → s.read_offset + m ≡ q.read_position)
unfolding head pop
after_copy c s f pos m h at_pos e l =
    let o : f.offset ≡ s.frame_queue.read_position =
      find-offset s.frame_queue.read_position f s.frame_queue.queued h.holds.keyed e in
    let cut = find-IsCut c s.frame_queue.read_position f s.frame_queue.queued h.holds.cut e in
    elim (Bool-cases (leb (data_len f) (pos + m))) [
      | inl t ↦
          let (held, _) = pop-Holds c s.frame_queue h.holds in
          let end : (pop s.frame_queue).0.read_position ≡ f.offset + data_len f =
            rw (pop, e) (ground (arith, cut.1, o)) in
          let here : s.read_offset + m ≡ (pop s.frame_queue).0.read_position =
            omega (arith, leb→le _ _ t, end, o, h.low) in
          rw t (
            held,
            omega (arith, here),
            λ g eg. omega (
              arith,
              here,
              find-offset (pop s.frame_queue).0.read_position g (pop s.frame_queue).0.queued
                  held.keyed eg,
            ),
            λ n. here,
          )
      | inr t ↦ rw t (
        h.holds,
        omega (arith, h.low),
        λ g eg.
            let same : f ≡ g = cc in subst (λ k. s.read_offset + m ≤ k.offset + data_len k) same l,
        λ n. absurd (cc),
      )
    ]

-- The position in the frame at the head, set while there is no error.
pub at_head-position :
    (c : ℕ → ℕ) (s : Stream) (f : StreamFrame)
    → IsReading c s
    → f.offset ≤ s.read_offset
    → s.read_offset < 2 ^ 64
    → at_head f s ≡ record s { read_pos_in_frame = s.read_offset - f.offset }
unfolding at_head
at_head-position c s f h l u =
    let e : (s.read_offset + 2 ^ 64 - f.offset) % 2 ^ 64 ≡ s.read_offset - f.offset = omega arith in
    ap
      (λ (x : Option ℕ).
        let y : Stream = elim x [
          | some err ↦ s
          | none ↦ record s { read_pos_in_frame = (s.read_offset + 2 ^ 64 - f.offset) % 2 ^ 64 }
        ] in
        y)
      h.no_error
    ∙ ap (λ (k : ℕ). record s { read_pos_in_frame = k }) e

-- One round keeps the progress.
pub copy_frame-Progress :
    (c : ℕ → ℕ) (o wanted : ℕ) (f : StreamFrame) (r : Reader)
    → Progress c o r
    → head r.stream.frame_queue ≡ some f
    → (r.stream.read_pos_in_frame ≡ r.stream.read_offset - f.offset)
    → length r.bytes ≤ wanted
    → Progress c o (copy_frame wanted f r).0 × (length (copy_frame wanted f r).0.bytes ≤ wanted)
unfolding copy_frame
copy_frame-Progress c o wanted f r p e pos l =
    let s = r.stream in
    let h = p.reading in
    let off : f.offset ≡ s.frame_queue.read_position =
      find-offset s.frame_queue.read_position f s.frame_queue.queued h.holds.keyed
        (unfold head in e) in
    let cut =
      find-IsCut c s.frame_queue.read_position f s.frame_queue.queued h.holds.cut
        (unfold head in e) in
    let m : ℕ = min (wanted - length r.bytes) (data_len f - s.read_pos_in_frame) in
    let inside = h.within f e in
    let room : s.read_offset + m ≤ f.offset + data_len f = omega (arith, pos, off, h.low, inside) in
    let (held, low, within, empty) = after_copy c s f s.read_pos_in_frame m h pos e room in
    let no_wrap : add64 s.read_offset m ≡ s.read_offset + m = omega (arith, cut.1, room) in
    let got = copied c f s.read_pos_in_frame m cut.0 (omega (arith, pos, off, h.low, inside)) in
    let here : f.offset + s.read_pos_in_frame ≡ o + length r.bytes =
      omega (arith, pos, off, h.low, p.offset) in
    let sum : length (r.bytes ++ slice c (o + length r.bytes) m) ≡ length r.bytes + m =
      length-append r.bytes (slice c (o + length r.bytes) m)
      ∙ ap (λ (k : ℕ). length r.bytes + k) (length-slice c (o + length r.bytes) m) in
    let joined : r.bytes ++ slice c (o + length r.bytes) m ≡ slice c o (length r.bytes + m) =
      ap (λ (l : List ℕ). l ++ slice c (o + length r.bytes) m) p.bytes
      ∙ sym (
          slice-append c o (length r.bytes) m (length r.bytes + m) (o + length r.bytes) refl
            refl) in
    rw (got, here, no_wrap)
      (
        record {
          reading = record {
            holds = held;
            low = low;
            within = within;
            empty = empty;
            no_error = h.no_error;
          };
          bytes = joined ∙ ap (slice c o) (sym sum);
          offset = omega (arith, p.offset, sum);
        },
        omega (arith, sum),
      )
