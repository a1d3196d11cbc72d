-- ===== src/Streams/Iteration.antt =====
-- The loops of streams_map.go over the open streams, and garbageCollectStreams of session.go.
pub mod Keeps
mod Runs
use quic_go.Base.{
  ℕ, zero, suc, ◌+◌, ◌%◌, ◌^◌, Bool, true, false, ◌||◌, List, [], ◌∷◌, ◌++◌, Option, none, some,
  length, get_elem?, ◌==◌, if◌then◌else◌,
}
use quic_go.Base.Maps.{find}
use quic_go.Streams.Map.{
  StreamsMap, MapError, map_access, closed_but_open, index_out_of_range, remove_stream,
}

-- What a callback of an iteration returns: (true, nil), (false, nil) or an error.
pub data Verdict : Type 0 where
  goes_on stops : Verdict
  fails : MapError → Verdict

-- A callback works on a stream, on the map and on what else it captures.
module _ {S T : Type 0} (fn : S → StreamsMap S × T → (StreamsMap S × T) × Verdict) where
  unfoldable pub iterate_func : ℕ → StreamsMap S × T → (StreamsMap S × T) × Verdict
  iterate_func id w = elim (find id w.0.streams) [
    | none ↦ (w, fails map_access)
    | some none ↦ (w, fails closed_but_open)
    | some (some s) ↦ fn s w
  ]

  -- `for _, streamID := range m.openStreams` from the index `i` on, `n` rounds.
  unfoldable pub iterate_from : ℕ → ℕ → StreamsMap S × T → (StreamsMap S × T) × Option MapError
  unfolding iterate_func
  iterate_from zero i w = (w, none)
  iterate_from (suc n) i w = elim (get_elem? (w.0.open_streams ++ w.0.behind) i) [
    | none ↦ (w, some index_out_of_range)
    | some id ↦
        let (w', v) = iterate_func id w in
        elim v [ goes_on ↦ iterate_from n (i + 1) w' | stops ↦ (w', none) | fails e ↦ (w', some e) ]
  ]

  unfoldable pub iterate : StreamsMap S × T → (StreamsMap S × T) × Option MapError
  unfolding iterate_from
  iterate w = let (m, t) = w in iterate_from (length m.open_streams) 0 (record m { behind = [] }, t)

  -- The loop of RoundRobinIterate from `i` on, `n` rounds, over `count` streams from `start` on.
  unfoldable pub round_robin_from :
      ℕ → ℕ → ℕ → ℕ → StreamsMap S × T → (StreamsMap S × T) × Option MapError
  unfolding iterate_func
  round_robin_from count start zero i w = (w, none)
  round_robin_from count start (suc n) i w =
      elim (get_elem? w.0.open_streams ((i + start) % 2 ^ 32 % count)) [
        | none ↦ (w, some index_out_of_range)
        | some id ↦
            let skip = round_robin_from count start n (i + 1) w in
            let (w', v) = iterate_func id w in
            let moved : StreamsMap S × T = (
              record w'.0 { round_robin_index = (w'.0.round_robin_index + 1) % 2 ^ 32 % count },
              w'.1,
            ) in
            let visit : (StreamsMap S × T) × Option MapError = elim v [
              | goes_on ↦ round_robin_from count start n (i + 1) moved
              | stops ↦ (moved, none)
              | fails e ↦ (w', some e)
            ] in
            if id == 1 || id == 3 then skip else visit
      ]

  -- The streams 1 and 3 come first; they may be missing.
  unfoldable pub priority : List ℕ → StreamsMap S × T → (StreamsMap S × T) × Verdict
  unfolding iterate_func
  priority [] w = (w, goes_on)
  priority (id ∷ ids) w =
      let (w', v) = iterate_func id w in
      elim v [
        | goes_on ↦ priority ids w'
        | stops ↦ (w', stops)
        | fails map_access ↦ priority ids w'
        | fails e ↦ (w', fails e)
      ]

  unfoldable pub round_robin_iterate : StreamsMap S × T → (StreamsMap S × T) × Option MapError
  unfolding round_robin_from priority
  round_robin_iterate w =
      let count = length w.0.open_streams in
      let start = w.0.round_robin_index in
      let (w', v) = priority (1 ∷ 3 ∷ []) w in
      elim v [
        | goes_on ↦ round_robin_from count start count 0 w'
        | stops ↦ (w', none)
        | fails e ↦ (w', some e)
      ]

-- garbageCollectStreams of the session, with the flow control that forgets a stream.
module _ {S T : Type 0} (stream_id : S → ℕ) (finished : S → Bool) (forget : ℕ → T → T) where
  unfoldable pub collect_finished : S → StreamsMap S × T → (StreamsMap S × T) × Verdict
  unfolding remove_stream
  collect_finished s (m, t) =
      let (m', e) = remove_stream (stream_id s) m in
      let removal : (StreamsMap S × T) × Verdict = elim e [
        | some err ↦ ((m', t), fails err)
        | none ↦ ((m', forget (stream_id s) t), goes_on)
      ] in
      if finished s then removal else ((m, t), goes_on)

  unfoldable pub garbage_collect_streams : StreamsMap S × T → (StreamsMap S × T) × Option MapError
  unfolding collect_finished iterate
  garbage_collect_streams w = iterate collect_finished w
