-- ===== src/Streams/Stream/Rounds.antt =====
-- The rounds of Read.
use quic_go.Base.{
  ℕ, zero, suc, ◌+◌, ◌-◌, ◌≤◌, ◌<◌, ◌≡◌, ◌⊎◌, inl, inr, refl, arith, sym, subst, Bool, true, false,
  List, [], ◌∷◌, Option, none, some, length, length-append, take, drop, ltb, leb, if◌then◌else◌,
  min, Bool-cases, Option-cases, leb→lt, leb→le, ltb→le,
}
use quic_go.Frames.StreamFrame.{StreamFrame, data_len}
use quic_go.Streams.Sorter.{find, remove, head, pop}
use quic_go.Streams.Sorter.Queue.{find-offset}
use quic_go.Streams.Sorter.Reassembly.{slice, find-IsCut}
use quic_go.Flow.Manager.{FlowControlManager}
use quic_go.Streams.Stream.{
  Stream, Ending, done, waiting, fails, eof, Reader, copy_frame, without_frame, read_rounds, read,
}
use quic_go.Streams.Stream.Reading.{IsReading, Progress, at_head-position, copy_frame-Progress}

-- Setting the position in the frame is no progress.
position-Progress :
    (c : ℕ → ℕ) (o k : ℕ) (r : Reader)
    → Progress c o r
    → Progress c o (record r { stream = record (r.stream) { read_pos_in_frame = k } })
position-Progress c o k r p = record {
  reading = record {
    holds = p.reading.holds;
    low = p.reading.low;
    within = p.reading.within;
    empty = p.reading.empty;
    no_error = p.reading.no_error;
  };
  bytes = p.bytes;
  offset = p.offset;
}

-- What the rounds of Read end with.
abbrev pub IsRead : (ℕ → ℕ) → ℕ → ℕ → Reader × Ending → Type 0
IsRead c o wanted (r, e) =
    Progress c o r
    × (length r.bytes ≤ wanted)
    × ((e ≡ fails eof)
        ⊎ ((e ≡ done) × ((length r.bytes ≡ wanted) ⊎ (0 < length r.bytes)))
        ⊎ ((e ≡ waiting) × (r.bytes ≡ [])))

without_frame-IsRead :
    (c : ℕ → ℕ) (o wanted : ℕ) (r : Reader)
    → Progress c o r
    → length r.bytes ≤ wanted
    → IsRead c o wanted (without_frame none r)
unfolding without_frame
without_frame-IsRead c o wanted r p l = elim (Bool-cases (ltb 0 (length r.bytes))) [
  | inl t ↦ rw t (p, l, inr (inl (refl, inr (ground (arith, t)))))
  | inr t ↦ rw t (p, l, inr (inr (refl, nothing r.bytes t)))
]
  where
    nothing : (bs : List ℕ) → ltb 0 (length bs) ≡ false → bs ≡ []
    nothing [] h = refl
    nothing (b ∷ bs) h = absurd (omega (arith, ltb→le 0 (length (b ∷ bs)) h))

length-part : (m p : ℕ) (xs : List ℕ) → p + m ≤ length xs → length (take m (drop p xs)) ≡ m
length-part zero zero xs h = refl
length-part (suc m) zero [] h = absurd (omega arith)
length-part (suc m) zero (x ∷ xs) h = omega (arith, length-part m zero xs (omega arith))
length-part m (suc p) [] h = absurd (omega arith)
length-part m (suc p) (x ∷ xs) h = length-part m p xs (omega arith)

length-remove : (k : ℕ) (m : List (ℕ × StreamFrame)) → length (remove k m) ≤ length m
unfolding remove
length-remove k [] = omega arith
length-remove k ((j, f) ∷ m) = ground (arith, length-remove k m)

length-remove_found :
    (k : ℕ) (f : StreamFrame) (m : List (ℕ × StreamFrame))
    → find k m ≡ some f
    → length (remove k m) < length m
unfolding find remove
length-remove_found k f [] e = absurd (cc)
length-remove_found k f ((j, g) ∷ m) e =
    ground (arith, length-remove k m, length-remove_found k f m)

-- A round fills the buffer or takes a frame out of the queue.
copy_frame-shrinks :
    (wanted : ℕ) (f : StreamFrame) (r : Reader)
    → f.offset ≡ r.stream.frame_queue.read_position
    → head r.stream.frame_queue ≡ some f
    → let r' = (copy_frame wanted f r).0 in
      (wanted ≤ length r'.bytes)
      ⊎ (length r'.stream.frame_queue.queued < length r.stream.frame_queue.queued)
unfolding copy_frame pop
copy_frame-shrinks wanted f r o e =
    let pos : ℕ = r.stream.read_pos_in_frame in
    let m : ℕ = min (wanted - length r.bytes) (data_len f - pos) in
    let q = r.stream.frame_queue in
    elim (Bool-cases (leb (data_len f) (pos + m))) [
      | inl t ↦
          let found : find f.offset q.queued ≡ some f =
            subst (λ (k : ℕ). find k q.queued ≡ some f) (sym o) (unfold head in e) in
          rw (t, pop, e) (inr (length-remove_found f.offset f q.queued found))
      | inr t ↦
          let got = length-part m pos f.bytes (omega (arith, leb→lt _ _ t)) in
          inl (omega (arith, leb→lt _ _ t, got, length-append r.bytes (take m (drop pos f.bytes))))
    ]

fuel_left :
    (q q' n wanted l l' : ℕ)
    → l < wanted
    → ((l ≡ wanted) × (1 ≤ suc n)) ⊎ (q + 1 < suc n)
    → (wanted ≤ l') ⊎ (q' < q)
    → l' ≤ wanted
    → ((l' ≡ wanted) × (1 ≤ n)) ⊎ (q' + 1 < n)
fuel_left q q' n wanted l l' h k c u = ground arith

-- A round ends with EOF behind the last frame, or the next rounds follow.
last_or_more :
    (c : ℕ → ℕ) (o wanted : ℕ) (w : Reader × Bool) (rest : Reader × Ending)
    → Progress c o w.0
    → length w.0.bytes ≤ wanted
    → IsRead c o wanted rest
    → IsRead c o wanted (if w.1 then (w.0, fails eof) else rest)
last_or_more c o wanted (r, true) rest p l h = (p, l, inl refl)
last_or_more c o wanted (r, false) rest p l h = h

read_rounds-IsRead :
    (c : ℕ → ℕ) (o n wanted : ℕ) (r : Reader)
    → Progress c o r
    → length r.bytes ≤ wanted
    → ((length r.bytes ≡ wanted) × (1 ≤ n)) ⊎ (length r.stream.frame_queue.queued + 1 < n)
    → IsRead c o wanted (read_rounds n wanted r)
unfolding read_rounds
read_rounds-IsRead c o zero wanted r p l k = absurd (ground (arith, k))
read_rounds-IsRead c o (suc n) wanted r p l k = elim (Bool-cases (leb wanted (length r.bytes))) [
  | inl t ↦ rw (read_rounds, t) (p, l, inr (inl (refl, inl (omega (arith, leb→le _ _ t)))))
  | inr t ↦ elim (Option-cases (head r.stream.frame_queue)) [
    | inl e ↦
        rw (read_rounds, t, e)
          (subst (λ (x : Option ℕ). IsRead c o wanted (without_frame x r)) (sym p.reading.no_error)
            (without_frame-IsRead c o wanted r p l))
    | inr (f, e) ↦
        let s = r.stream in
        let off : f.offset ≡ s.frame_queue.read_position =
          find-offset s.frame_queue.read_position f s.frame_queue.queued p.reading.holds.keyed
            (unfold head in e) in
        let cut =
          find-IsCut c s.frame_queue.read_position f s.frame_queue.queued p.reading.holds.cut
            (unfold head in e) in
        let inside = p.reading.within f e in
        let r1 : Reader = record r {
          stream = record s { read_pos_in_frame = s.read_offset - f.offset };
        } in
        let q1 = position-Progress c o (s.read_offset - f.offset) r p in
        let (q2, l2) = copy_frame-Progress c o wanted f r1 q1 e refl l in
        let ih = read_rounds-IsRead c o n wanted (copy_frame wanted f r1).0 q2 l2 (
          fuel_left (length s.frame_queue.queued) _ n wanted (length r.bytes) _ (leb→lt _ _ t) k
            (copy_frame-shrinks wanted f r1 off e) l2) in
        let no_bug : ltb (data_len f) (s.read_offset - f.offset) ≡ false =
          ground (arith, off, p.reading.low, inside) in
        rw
          (
            read_rounds,
            t,
            e,
            at_head-position c s f p.reading (omega (arith, off, p.reading.low))
                (omega (arith, inside, cut.1)),
            no_bug,
          )
          (last_or_more c o wanted (copy_frame wanted f r1)
            (read_rounds n wanted (copy_frame wanted f r1).0) q2 l2 ih)
  ]
]

either :
    (c : ℕ → ℕ) (o wanted : ℕ) (b : Bool) (x y : Reader × Ending)
    → IsRead c o wanted x
    → IsRead c o wanted y
    → IsRead c o wanted (if b then x else y)
either c o wanted true x y h k = h
either c o wanted false x y h k = k

-- A stream without an error, whose sorter holds frames cut from one stream of bytes and whose read
-- offset stands in or at its head, with fuel for two rounds more than there are queued frames: Read
-- hands out the bytes of the stream from the read offset on, none missing, repeated or out of
-- place, at most as many as wanted, moves the read offset past them, and leaves a stream for which
-- the same holds. It ends with EOF, or with some bytes or all that were wanted, or waits and has
-- read none; it reports no bug and never runs out of fuel.
pub read-slice :
    (c : ℕ → ℕ) (fuel wanted : ℕ) (s : Stream) (m : FlowControlManager)
    → IsReading c s
    → length s.frame_queue.queued + 1 < fuel
    → IsRead c s.read_offset wanted (read fuel wanted s m)
unfolding read slice
read-slice c fuel wanted s m h n =
    let start : Progress c s.read_offset (record { bytes = []; stream = s; manager = m }) = record {
      reading = h;
      bytes = refl;
      offset = omega arith;
    } in
    either c s.read_offset wanted s.is_eof _ _ (start, omega arith, inl refl)
      (read_rounds-IsRead c s.read_offset fuel wanted _ start (omega arith) (inr n))
