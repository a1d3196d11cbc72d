-- ===== src/Streams/Sorter/Runs.antt =====
-- Concrete runs of the sorter, and the theorems at concrete inputs.
use quic_go.Base.{
  if◌then◌else◌, ◌==◌, ℕ, ◌+◌, ◌≡◌, ◌≢◌, ◌⊎◌, refl, arith, true, false, List, [], ◌∷◌, none, some,
}
use quic_go.Frames.StreamFrame.{StreamFrame, data_len}
use quic_go.Streams.Sorter.{
  Sorter, SortError, too_many_gaps, duplicate_stream_data, overlaps_gap_end, new_sorter, find,
  assign, remove, place, after_place, push_new, push, pop,
}
use quic_go.Streams.Sorter.Gaps.{gap_count, Outside}
use quic_go.Streams.Sorter.Queue.{span}
use quic_go.Streams.Sorter.Partition.{IsPartition, new_sorter-IsPartition, push-IsPartition}
use quic_go.Streams.Sorter.Delivery.{push_effect, pop-IsPartition}
use quic_go.Streams.Sorter.Reassembly.{Call, pushes, pops, run, delivered, slice, delivered-slice}

-- The stream 7, 8, 9, … in frames of three bytes.
abbrev stream : ℕ → ℕ
stream q = q + 7

abbrev frame : ℕ → List ℕ → StreamFrame
frame o bytes = record {
  stream_id = 5;
  fin_bit = false;
  data_len_present = true;
  offset = o;
  bytes = bytes;
}

abbrev second : StreamFrame
second = frame 3 (10 ∷ 11 ∷ 12 ∷ [])

abbrev first : StreamFrame
first = frame 0 (7 ∷ 8 ∷ 9 ∷ [])

after_second : Sorter
after_second = (push new_sorter second).0

pushed_second : (push new_sorter second).1 ≡ none
unfolding push new_sorter find push_new place after_place assign
pushed_second = refl

-- A frame that reaches into the queued one is refused.
overlap_refused : (push after_second (frame 2 (9 ∷ 10 ∷ []))).1 ≡ some overlaps_gap_end
unfolding after_second push new_sorter find push_new place after_place assign
overlap_refused = refl

not_full : (push new_sorter second).1 ≢ some too_many_gaps
not_full e = cc pushed_second

push-IsPartition_example : IsPartition (push new_sorter second).0
push-IsPartition_example =
    push-IsPartition new_sorter second new_sorter-IsPartition (omega arith) not_full

push_effect_example :
    (((push new_sorter second).1 ≡ none)
      × (find 3 new_sorter.queued ≡ none)
      × (find 3 (push new_sorter second).0.queued ≡ some second)
      × ((q : ℕ)
          → gap_count q (push new_sorter second).0.gaps + span second q
            ≡ gap_count q new_sorter.gaps))
    ⊎ ((e : SortError) × (push new_sorter second ≡ (new_sorter, some e))
        × (e ≡ duplicate_stream_data
            → (find 3 new_sorter.queued ≢ none) ⊎ Outside 3 (3 + 3) new_sorter.gaps))
push_effect_example = push_effect new_sorter second new_sorter-IsPartition (omega arith) not_full

pushed_first : (push new_sorter first).1 ≡ none
unfolding push new_sorter find push_new place after_place assign
pushed_first = refl

after_first-IsPartition : IsPartition (push new_sorter first).0
after_first-IsPartition =
    push-IsPartition new_sorter first new_sorter-IsPartition (omega arith) (λ e. cc pushed_first)

pop-IsPartition_example :
    let s = (push new_sorter first).0 in
    IsPartition (pop s).0
    × (((find s.read_position s.queued ≡ none) × ((pop s).1 ≡ none) × ((pop s).0 ≡ s))
        ⊎ ((f : StreamFrame) × (find s.read_position s.queued ≡ some f)
            × ((pop s).1 ≡ some f)
            × (f.offset ≡ s.read_position)
            × ((k : ℕ)
                → find k (pop s).0.queued
                  ≡ (if s.read_position == k then none else find k s.queued))
            × ((pop s).0.read_position ≡ s.read_position + data_len f)
            × ((pop s).0.gaps ≡ s.gaps)))
pop-IsPartition_example = pop-IsPartition (push new_sorter first).0 after_first-IsPartition

-- The frames come in the wrong order, and one comes twice.
abbrev calls : List Call
calls = pushes second ∷ pops ∷ pushes first ∷ pushes second ∷ pops ∷ pops ∷ pops ∷ []

in_order_test : delivered new_sorter calls ≡ 7 ∷ 8 ∷ 9 ∷ 10 ∷ 11 ∷ 12 ∷ []
unfolding delivered push new_sorter find push_new place after_place assign pop remove
in_order_test = refl

delivered-slice_example :
    delivered new_sorter calls ≡ slice stream 0 (run new_sorter calls).read_position
unfolding slice
delivered-slice_example =
    delivered-slice stream calls
      ((refl, omega arith), ((refl, omega arith), ((refl, omega arith), tt)))
