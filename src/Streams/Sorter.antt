-- ===== src/Streams/Sorter.antt =====
-- stream_frame_sorter.go: the frames of a stream in any order, and the gaps between them. The map
-- is a list of keys and frames, the linked list of gaps a list. A ByteCount is a uint64.
pub mod Gaps
pub mod Queue
pub mod Partition
pub mod Delivery
pub mod Reassembly
mod Runs
use quic_go.Base.{
  ℕ, ◌+◌, ◌-◌, ◌^◌, Bool, true, false, ◌&&◌, ◌||◌, List, [], ◌∷◌, Option, none, some, length, ltb,
  leb, ◌==◌, if◌then◌else◌,
}
unfoldable pub use quic_go.Base.Maps.{find, assign, remove}
use quic_go.Protocol.{add64}
use quic_go.Frames.StreamFrame.{StreamFrame, data_len}

-- MaxByteCount and MaxStreamFrameSorterGaps
abbrev pub max_byte_count : ℕ
max_byte_count = 2 ^ 64 - 1

abbrev pub max_stream_frame_sorter_gaps : ℕ
max_stream_frame_sorter_gaps = 1000

pub record ByteInterval : Type 0 where
  pub start : ℕ
  pub end : ℕ

pub record Sorter : Type 0 where
  pub queued : List (ℕ × StreamFrame)
  pub read_position : ℕ
  pub gaps : List ByteInterval

pub data SortError : Type 0 where
  duplicate_stream_data empty_stream_data too_many_gaps : SortError
  overlaps_gap_start overlaps_gap_end : SortError

unfoldable pub new_sorter : Sorter
new_sorter = record {
  queued = [];
  read_position = 0;
  gaps = record { start = 0; end = max_byte_count } ∷ [];
}

-- How the loop over the gaps ended, and the gaps that it leaves.
pub data Outcome : Type 0 where
  in_gap no_gap start_of_gap end_of_gap : Outcome

pub record Placement : Type 0 where
  pub gaps : List ByteInterval
  pub outcome : Outcome

abbrev pub keep : ByteInterval → Placement → Placement
keep g p = record p { gaps = g ∷ p.gaps }

-- The loop of Push; `found` is foundInGap. A `break` leaves the later gaps as they are.
unfoldable pub place : Bool → ℕ → ℕ → List ByteInterval → Placement
place found start end [] = record { gaps = []; outcome = if found then in_gap else no_gap }
place found start end (g ∷ rest) =
    let further = keep g (place found start end rest) in
    let onward = keep g (place true start end rest) in
    if leb end g.start || ltb g.end start
    then further
    else if ltb start g.start
    then record { gaps = g ∷ rest; outcome = start_of_gap }
    else if ltb start g.end && ltb g.end end
    then record { gaps = g ∷ rest; outcome = end_of_gap }
    else if start == g.start && end == g.end
    then record { gaps = rest; outcome = in_gap }
    else if start == g.start && ltb end g.end
    then record { gaps = record g { start = end } ∷ rest; outcome = in_gap }
    else if end == g.end
    then record { gaps = record g { end = start } ∷ rest; outcome = in_gap }
    else if ltb end g.end
    then record {
      gaps = record g { end = start } ∷ record { start = end; end = g.end } ∷ rest;
      outcome = in_gap;
    }
    else onward

-- What Push does behind the loop.
unfoldable pub after_place : Sorter → StreamFrame → Placement → Sorter × Option SortError
after_place s f p = elim p.outcome [
  | in_gap ↦
      if ltb max_stream_frame_sorter_gaps (length p.gaps)
      then (record s { gaps = p.gaps }, some too_many_gaps)
      else (record s { gaps = p.gaps; queued = assign f.offset f s.queued }, none)
  | no_gap ↦ (record s { gaps = p.gaps }, some duplicate_stream_data)
  | start_of_gap ↦ (record s { gaps = p.gaps }, some overlaps_gap_start)
  | end_of_gap ↦ (record s { gaps = p.gaps }, some overlaps_gap_end)
]

-- Push for a frame whose offset is not a key yet.
unfoldable pub push_new : Sorter → StreamFrame → Sorter × Option SortError
push_new s f =
    let end = add64 f.offset (data_len f) in
    if f.offset == end
    then if f.fin_bit
      then (record s { queued = assign f.offset f s.queued }, none)
      else (s, some empty_stream_data)
    else after_place s f (place false f.offset end s.gaps)

unfoldable pub push : Sorter → StreamFrame → Sorter × Option SortError
push s f = elim (find f.offset s.queued) [
  | some _ ↦ (s, some duplicate_stream_data)
  | none ↦ push_new s f
]

unfoldable pub head : Sorter → Option StreamFrame
head s = find s.read_position s.queued

unfoldable pub pop : Sorter → Sorter × Option StreamFrame
unfolding head
pop s = elim (head s) [
  | none ↦ (s, none)
  | some f ↦ (
    record s {
      read_position = add64 s.read_position (data_len f);
      queued = remove f.offset s.queued;
    },
    some f,
  )
]
