-- ===== src/Streams/Map.antt =====
-- streams_map.go: the map and its calls. A map from StreamIDs holds `some s` for an
-- open stream and `none` for the nil of a closed one. openStreams is a slice: `behind` is what its
-- array holds behind the end of the slice, which a loop still reads that ranges over the slice while
-- RemoveStream shortens it. A StreamID and the counters are uint32.
pub mod Lists
pub mod Consistent
pub mod Reach
pub mod Closed
mod Runs
use quic_go.Base.{
  ℕ, zero, suc, ◌+◌, ◌-◌, ◌%◌, ◌^◌, Bool, true, false, not, ◌&&◌, ◌||◌, List, [], ◌∷◌, ◌++◌, Option,
  none, some, length, get_elem?, ltb, leb, ◌==◌, if◌then◌else◌, max,
}
use quic_go.Base.Maps.{find, assign}

pub record StreamsMap (S : Type 0) : Type 0 where
  pub streams : List (ℕ × Option S)
  pub open_streams : List ℕ
  pub behind : List ℕ
  pub highest_stream_opened_by_client : ℕ
  pub streams_opened_after_last_garbage_collect : ℕ
  pub num_outgoing_streams : ℕ
  pub num_incoming_streams : ℕ
  pub round_robin_index : ℕ

pub data MapError : Type 0 where
  too_many_open_streams invalid_stream_id map_access closed_but_open : MapError
  non_existing index_out_of_range callback_failed : MapError

-- A stream, or nil for a closed one, or an error.
pub data Lookup (S : Type 0) : Type 0 where
  found : Option S → Lookup S
  refused : MapError → Lookup S

-- MaxNewStreamIDDelta
abbrev pub max_new_stream_id_delta : ℕ
max_new_stream_id_delta = 400

unfoldable pub new_streams_map : {S : Type 0} → StreamsMap S
new_streams_map = record {
  streams = [];
  open_streams = [];
  behind = [];
  highest_stream_opened_by_client = 0;
  streams_opened_after_last_garbage_collect = 0;
  num_outgoing_streams = 0;
  num_incoming_streams = 0;
  round_robin_index = 0;
}

-- A closed stream is kept for a while if the client had opened it.
abbrev pub is_kept {ℓ} : {S : Type ℓ} → ℕ → ℕ → Option S → Bool
is_kept highest id (some s) = true
is_kept highest id none = not (id % 2 == 0 || leb ((id + max_new_stream_id_delta) % 2 ^ 32) highest)

unfoldable pub retain {ℓ} : {S : Type ℓ} → ℕ → List (ℕ × Option S) → List (ℕ × Option S)
retain highest [] = []
retain highest ((id, s) ∷ m) =
    let rest = retain highest m in if is_kept highest id s then (id, s) ∷ rest else rest

-- The index of the first occurrence, and the list without it.
unfoldable pub index_of : ℕ → List ℕ → Option ℕ
index_of id [] = none
index_of id (x ∷ xs) =
    if x == id then some 0 else elim (index_of id xs) [ none ↦ none | some i ↦ some (i + 1) ]

unfoldable pub delete_first : ℕ → List ℕ → List ℕ
delete_first id [] = []
delete_first id (x ∷ xs) = if x == id then xs else x ∷ delete_first id xs

unfoldable pub last_of : List ℕ → List ℕ
last_of [] = []
last_of (x ∷ []) = x ∷ []
last_of (x ∷ y ∷ xs) = last_of (y ∷ xs)

module _ {S : Type 0} where
  unfoldable pub garbage_collect_closed_streams : StreamsMap S → StreamsMap S
  unfolding retain
  garbage_collect_closed_streams m = record m {
    streams = retain m.highest_stream_opened_by_client m.streams;
    streams_opened_after_last_garbage_collect = 0;
  }

  -- The counters of GetOrOpenStream, and the garbage collection that it may trigger.
  unfoldable pub count_incoming : ℕ → StreamsMap S → StreamsMap S
  unfolding garbage_collect_closed_streams
  count_incoming id m =
      let m1 = record m {
        num_incoming_streams = (m.num_incoming_streams + 1) % 2 ^ 32;
        highest_stream_opened_by_client = max m.highest_stream_opened_by_client id;
        streams_opened_after_last_garbage_collect = m.streams_opened_after_last_garbage_collect + 1;
      } in
      if m1.streams_opened_after_last_garbage_collect % max_new_stream_id_delta == 0
      then garbage_collect_closed_streams m1
      else m1

  -- The end of RemoveStream: the slice, what lies behind it, and the round-robin index.
  unfoldable pub remove_open : ℕ → StreamsMap S → StreamsMap S
  unfolding index_of delete_first last_of
  remove_open id m = elim (index_of id m.open_streams) [
    | none ↦ m
    | some i ↦ record m {
      open_streams = delete_first id m.open_streams;
      behind = last_of m.open_streams ++ m.behind;
      round_robin_index =
          if ltb i m.round_robin_index then m.round_robin_index - 1 else m.round_robin_index;
    }
  ]

  unfoldable pub remove_stream : ℕ → StreamsMap S → StreamsMap S × Option MapError
  unfolding remove_open
  remove_stream id m =
      let m1 = record m { streams = assign id none m.streams } in
      elim (find id m.streams) [
        | none ↦ (m, some non_existing)
        | some none ↦ (m, some non_existing)
        | some (some s) ↦ (
          remove_open id (
              if id % 2 == 0
              then record m1 {
                num_outgoing_streams = (m.num_outgoing_streams + 2 ^ 32 - 1) % 2 ^ 32;
              }
              else record m1 {
                num_incoming_streams = (m.num_incoming_streams + 2 ^ 32 - 1) % 2 ^ 32;
              }),
          none,
        )
      ]

-- The callback that makes a stream is a parameter, with the StreamID of a stream.
module _ {S : Type 0} (new_stream : ℕ → Option S) (stream_id : S → ℕ) where
  -- Only a loop over the slice reads what lies behind it, and it puts no stream.
  unfoldable pub put_stream : S → StreamsMap S → StreamsMap S
  put_stream s m = elim (find (stream_id s) m.streams) [
    | some _ ↦ m
    | none ↦ record m {
      streams = assign (stream_id s) (some s) m.streams;
      open_streams = m.open_streams ++ (stream_id s ∷ []);
      behind = [];
    }
  ]

  -- GetOrOpenStream for an ID that is not in the map.
  unfoldable pub open_incoming : ℕ → ℕ → StreamsMap S → StreamsMap S × Lookup S
  unfolding put_stream count_incoming
  open_incoming max_incoming id m =
      if leb max_incoming m.num_incoming_streams
      then (m, refused too_many_open_streams)
      else if id % 2 == 0
      then (m, refused invalid_stream_id)
      else if ltb ((id + max_new_stream_id_delta) % 2 ^ 32) m.highest_stream_opened_by_client
      then (m, refused invalid_stream_id)
      else elim (new_stream id) [
        | none ↦ (m, refused callback_failed)
        | some s ↦ (put_stream s (count_incoming id m), found (some s))
      ]

  unfoldable pub get_or_open_stream : ℕ → ℕ → StreamsMap S → StreamsMap S × Lookup S
  unfolding open_incoming
  get_or_open_stream max_incoming id m = elim (find id m.streams) [
    | some s ↦ (m, found s)
    | none ↦ open_incoming max_incoming id m
  ]

  unfoldable pub open_stream : ℕ → ℕ → StreamsMap S → StreamsMap S × Lookup S
  unfolding put_stream
  open_stream max_outgoing id m =
      let m1 = record m { num_outgoing_streams = (m.num_outgoing_streams + 1) % 2 ^ 32 } in
      let opened : StreamsMap S × Lookup S = elim (new_stream id) [
        | none ↦ (m, refused callback_failed)
        | some s ↦ (put_stream s m1, found (some s))
      ] in
      let fresh : StreamsMap S × Lookup S =
        if leb max_outgoing m.num_outgoing_streams
        then (m, refused too_many_open_streams)
        else opened in
      if id % 2 == 1
      then (m, refused invalid_stream_id)
      else elim (find id m.streams) [ some _ ↦ (m, refused invalid_stream_id) | none ↦ fresh ]
