-- ===== src/Streams/Iteration/Runs.antt =====
-- A collection of finished streams.
use quic_go.Base.{ℕ, ◌≡◌, refl, [], ◌∷◌, some, leb}
use quic_go.Base.Maps.{find, assign}
use quic_go.Streams.Map.{StreamsMap, remove_stream, remove_open}
use quic_go.Streams.Iteration.{
  garbage_collect_streams, collect_finished, iterate, iterate_from, iterate_func,
}

abbrev three : StreamsMap ℕ
three = record {
  streams = (5, some 5) ∷ (7, some 7) ∷ (9, some 9) ∷ [];
  open_streams = 5 ∷ 7 ∷ 9 ∷ [];
  behind = [];
  highest_stream_opened_by_client = 9;
  streams_opened_after_last_garbage_collect = 3;
  num_outgoing_streams = 0;
  num_incoming_streams = 3;
  round_robin_index = 0;
}

-- The streams 5 and 7 are finished: the removal of 5 moves 7 out of the loop's way, so 7 stays open.
garbage_collect_streams_run :
    (garbage_collect_streams
      (λ (s : ℕ). s)
      (λ s. leb s 7)
      (λ _ (t : ℕ). t)
      (three, 0)).0.0.open_streams
    ≡ 7 ∷ 9 ∷ []
unfolding garbage_collect_streams collect_finished iterate iterate_from iterate_func remove_stream
    remove_open find assign
garbage_collect_streams_run = refl
