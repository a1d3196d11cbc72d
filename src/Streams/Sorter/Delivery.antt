-- ===== src/Streams/Sorter/Delivery.antt =====
-- What a reader gets from the sorter: the bytes of the stream, in order, each once.
use quic_go.Base.{
  ℕ, zero, suc, ◌+◌, ◌-◌, ◌≤◌, ◌<◌, ◌≡◌, ◌≢◌, ◌⊎◌, inl, inr, refl, sym, subst, ◌∙◌, ap, arith, none,
  some, Option-cases, ◌==◌, if◌then◌else◌,
}
use quic_go.Protocol.{add64}
use quic_go.Frames.StreamFrame.{StreamFrame, data_len}
use quic_go.Streams.Sorter.{
  Sorter, SortError, too_many_gaps, duplicate_stream_data, max_byte_count, find, remove, push, head,
  pop,
}
use quic_go.Streams.Sorter.Gaps.{gap_count, within, Outside}
use quic_go.Streams.Sorter.Queue.{
  span, find-assign, find-remove, cover-remove, Keyed-remove, find-offset, starts_frame, find-cover,
}
use quic_go.Streams.Sorter.Partition.{
  IsPartition, Fits, push_cases, queued_it, refused_it, full, Pushed,
}

-- A frame that Push takes held only missing bytes: afterwards exactly its bytes are missing no more,
-- and the frame is queued under its offset, which was no key before. A frame that Push refuses
-- leaves the sorter as it was, and one refused as a duplicate starts where a frame is queued or has
-- no missing byte. The limit on gaps is not met, and the frame ends at a uint64.
pub push_effect :
    (s : Sorter) (f : StreamFrame)
    → IsPartition s
    → Fits f
    → (push s f).1 ≢ some too_many_gaps
    → (((push s f).1 ≡ none)
        × (find f.offset s.queued ≡ none)
        × (find f.offset (push s f).0.queued ≡ some f)
        × ((q : ℕ) → gap_count q (push s f).0.gaps + span f q ≡ gap_count q s.gaps))
      ⊎ ((e : SortError) × (push s f ≡ (s, some e))
          × (e ≡ duplicate_stream_data
              → (find f.offset s.queued ≢ none) ⊎ Outside f.offset (f.offset + data_len f) s.gaps))
push_effect s f v h ok = by_cases (push_cases s f v h)
  where
    by_cases :
        Pushed s f (push s f)
        → (((push s f).1 ≡ none)
            × (find f.offset s.queued ≡ none)
            × (find f.offset (push s f).0.queued ≡ some f)
            × ((q : ℕ) → gap_count q (push s f).0.gaps + span f q ≡ gap_count q s.gaps))
          ⊎ ((e : SortError) × (push s f ≡ (s, some e))
              × (e ≡ duplicate_stream_data
                  → (find f.offset s.queued ≢ none)
                    ⊎ Outside f.offset (f.offset + data_len f) s.gaps))
    by_cases (full e) = absurd (ok e)
    by_cases (refused_it e r d) = inr (e, r, d)
    by_cases (queued_it z e t n q p) =
        inl (z, e, rw q (find-assign f.offset f.offset f s.queued ∙ ground arith), t)

last_in_span : (o n : ℕ) → 0 < n → within o (o + n) (o + n - 1) ≡ 1
last_in_span o n h = ground arith

within_pos : (a b q : ℕ) → 0 < within a b q → q < b
within_pos a b q h = ground arith

within_split : (a b c q : ℕ) → a ≤ b → b ≤ c → within a c q ≡ within a b q + within b c q
within_split a b c q h k = ground arith

-- The frame at the read position ends no further than MaxByteCount.
frame_below :
    (s : Sorter) (f : StreamFrame) (n : ℕ)
    → IsPartition s
    → find s.read_position s.queued ≡ some f
    → f.offset ≡ s.read_position
    → data_len f ≡ n
    → s.read_position + n ≤ max_byte_count
frame_below s f zero v e o l = omega (arith, v.position)
frame_below s f (suc n) v e o l =
    let q = f.offset + data_len f - 1 in
    let below : q < max_byte_count = within_pos s.read_position max_byte_count q (
      omega (
        arith,
        v.parts q,
        find-cover s.read_position q f s.queued e,
        last_in_span f.offset (data_len f) (omega arith),
      )) in
    omega arith

-- Where a frame is queued at the read position, Pop returns it, removes its key and no other from
-- the queue, leaves the gaps alone, moves the read position to the end of the frame and keeps the
-- partition; where none is queued there, Pop returns nil and changes nothing.
pub pop-IsPartition :
    (s : Sorter)
    → IsPartition s
    → IsPartition (pop s).0
      × (((find s.read_position s.queued ≡ none) × ((pop s).1 ≡ none) × ((pop s).0 ≡ s))
          ⊎ ((f : StreamFrame) × (find s.read_position s.queued ≡ some f)
              × ((pop s).1 ≡ some f)
              × (f.offset ≡ s.read_position)
              × ((k : ℕ)
                  → find k (pop s).0.queued
                    ≡ (if s.read_position == k then none else find k s.queued))
              × ((pop s).0.read_position ≡ s.read_position + data_len f)
              × ((pop s).0.gaps ≡ s.gaps)))
unfolding pop
pop-IsPartition s v = elim (Option-cases (find s.read_position s.queued)) [
  | inl e ↦ rw (e, pop) (v, inl (refl, refl, refl))
  | inr (f, e) ↦
      let o = find-offset s.read_position f s.queued v.keyed e in
      let below = frame_below s f (data_len f) v e o refl in
      let sum : add64 s.read_position (data_len f) ≡ s.read_position + data_len f = omega arith in
      let e' : find f.offset s.queued ≡ some f =
        subst (λ (k : ℕ). find k s.queued ≡ some f) (sym o) e in
      let removed : (k : ℕ)
          → find k (remove f.offset s.queued)
            ≡ (if s.read_position == k then none else find k s.queued) =
        λ k.
          subst
            (λ (n : ℕ).
              find k (remove f.offset s.queued) ≡ (if n == k then none else find k s.queued))
            o (find-remove f.offset k s.queued) in
      rw (e, pop)
        (
          record {
            keyed = Keyed-remove f.offset s.queued v.keyed;
            nonempty = v.nonempty;
            position = rw sum below;
            parts = λ q. rw sum (
                omega (
                  arith,
                  v.parts q,
                  cover-remove q f.offset f s.queued v.keyed e',
                  ap (λ (t : ℕ). within t (t + data_len f) q) o,
                  within_split s.read_position (s.read_position + data_len f) max_byte_count q
                      (omega arith) below,
                ));
          },
          inr (f, refl, refl, o, removed, sum, refl),
        )
]

-- Once the byte at the read position is no longer missing there is a frame to pop.
pub head-ne-none :
    (s : Sorter)
    → IsPartition s
    → s.read_position < max_byte_count
    → gap_count s.read_position s.gaps ≡ 0
    → head s ≢ none
unfolding head
head-ne-none s v h z =
    let r = s.read_position in
    starts_frame r s.queued v.keyed (omega (arith, v.parts r, within_here r max_byte_count h))
      (before r _ _ _ (v.parts (r - 1)) (within_before r max_byte_count))
  where
    within_here : (a b : ℕ) → a < b → within a b a ≡ 1
    within_here a b k = ground arith

    within_before : (a b : ℕ) → (a ≡ 0) ⊎ (within a b (a - 1) ≡ 0)
    within_before a b = ground arith

    before : (r g c w : ℕ) → g + c ≡ w → (r ≡ 0) ⊎ (w ≡ 0) → (r ≡ 0) ⊎ (c ≡ 0)
    before r g c w e (inl a) = inl a
    before r g c w e (inr a) = inr (omega arith)
