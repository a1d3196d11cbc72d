-- ===== src/Streams/Map/Runs.antt =====
-- Concrete runs of the streams map, and the theorems at concrete inputs.
use quic_go.Base.{ℕ, ◌≡◌, ◌⊎◌, inl, inr, refl, arith, [], ◌∷◌, Option, none, some, subst}
use quic_go.Base.Maps.{find, assign}
use quic_go.Streams.Map.{
  StreamsMap, found, refused, too_many_open_streams, invalid_stream_id, new_streams_map, retain,
  index_of, delete_first, last_of, garbage_collect_closed_streams, count_incoming, remove_open,
  remove_stream, put_stream, open_incoming, get_or_open_stream, open_stream,
}
use quic_go.Streams.Map.Consistent.{IsConsistent}
use quic_go.Streams.Map.Reach.{
  Reachable, started, get_or_opened, opened, removed, IsWithinLimits, Reachable-IsWithinLimits,
}
use quic_go.Streams.Map.Closed.{
  IsClosed, get_or_open_stream-closed, get_or_open_stream-reopens, calls-IsClosed,
}

-- A stream is its ID.
abbrev make : ℕ → Option ℕ
make id = some id

abbrev name : ℕ → ℕ
name s = s

make-name : (id s : ℕ) → make id ≡ some s → name s ≡ id
make-name id s h = cc

-- The client opens 5 and 7, the server 2, and 5 is closed.
abbrev used : StreamsMap ℕ
used = record {
  streams = (5, none) ∷ (7, some 7) ∷ (2, some 2) ∷ [];
  open_streams = 7 ∷ 2 ∷ [];
  behind = 2 ∷ [];
  highest_stream_opened_by_client = 7;
  streams_opened_after_last_garbage_collect = 2;
  num_outgoing_streams = 1;
  num_incoming_streams = 1;
  round_robin_index = 0;
}

abbrev five : StreamsMap ℕ
five = (get_or_open_stream make name 100 5 new_streams_map).0

abbrev seven : StreamsMap ℕ
seven = (get_or_open_stream make name 100 7 five).0

abbrev two : StreamsMap ℕ
two = (open_stream make name 100 2 seven).0

used_run : (remove_stream 5 two).0 ≡ used
unfolding new_streams_map find assign index_of delete_first last_of count_incoming put_stream
    open_incoming get_or_open_stream open_stream remove_open remove_stream
used_run = refl

used-Reachable : Reachable make name 100 100 (remove_stream 5 two).0
used-Reachable =
    removed 5 two (opened 2 seven (get_or_opened 7 five (get_or_opened 5 new_streams_map started)))

Reachable-IsWithinLimits_example : IsWithinLimits make name 100 100 (remove_stream 5 two).0
Reachable-IsWithinLimits_example =
    Reachable-IsWithinLimits make name 100 100 make-name (omega arith) (omega arith)
      (remove_stream 5 two).0 used-Reachable

-- The client had opened 405 last, and the garbage collection has dropped 5.
abbrev collected : ℕ → StreamsMap ℕ
collected highest = record {
  streams = (highest, some highest) ∷ [];
  open_streams = highest ∷ [];
  behind = [];
  highest_stream_opened_by_client = highest;
  streams_opened_after_last_garbage_collect = 0;
  num_outgoing_streams = 0;
  num_incoming_streams = 1;
  round_robin_index = 0;
}

abbrev before : ℕ → StreamsMap ℕ
before highest = record (collected highest) { streams = (5, none) ∷ (highest, some highest) ∷ [] }

collect_run : garbage_collect_closed_streams (before 405) ≡ collected 405
unfolding retain garbage_collect_closed_streams
collect_run = refl

used-IsClosed : IsClosed 5 used
unfolding find
used-IsClosed = inl refl

collected-IsClosed : IsClosed 5 (collected 407)
unfolding find
collected-IsClosed = inr (refl, omega arith)

get_or_open_stream-closed_example :
    let (m', r) = get_or_open_stream make name 100 5 (collected 407) in
    (m' ≡ collected 407)
    × ((r ≡ found none) ⊎ (r ≡ refused too_many_open_streams) ⊎ (r ≡ refused invalid_stream_id))
get_or_open_stream-closed_example =
    get_or_open_stream-closed make name 100 5 (collected 407) refl collected-IsClosed
      (λ e. absurd (omega (arith, e)))

used-IsConsistent : IsConsistent used
used-IsConsistent =
    subst IsConsistent used_run
      (Reachable-IsWithinLimits make name 100 100 make-name (omega arith) (omega arith)
        (remove_stream 5 two).0 used-Reachable).consistent

calls-IsClosed_example :
    IsClosed 5 (get_or_open_stream make name 100 9 used).0
    × IsClosed 5 (open_stream make name 100 9 used).0
    × IsClosed 5 (remove_stream 9 used).0
calls-IsClosed_example =
    calls-IsClosed make name 100 100 5 9 used make-name refl used-IsConsistent used-IsClosed
      (inl (λ e. absurd (omega (arith, e))))

-- The next stream that the client opens triggers the garbage collection.
abbrev full : StreamsMap ℕ
full = record used { streams_opened_after_last_garbage_collect = 399 }

full-IsConsistent : IsConsistent full
full-IsConsistent = record {
  keys = used-IsConsistent.keys;
  once = used-IsConsistent.once;
  incoming = used-IsConsistent.incoming;
  outgoing = used-IsConsistent.outgoing;
}

five_closed : find 5 full.streams ≡ some none
unfolding find
five_closed = refl

missing : find 405 full.streams ≡ none
unfolding find
missing = refl

get_or_open_stream-reopens_example :
    let m1 = (get_or_open_stream make name 100 405 full).0 in
    let (m2, r) = get_or_open_stream make name 100 5 m1 in
    (get_or_open_stream make name 100 5 full ≡ (full, found none))
    × (r ≡ found (some 5))
    × (find 5 m2.streams ≡ some (some 5))
get_or_open_stream-reopens_example =
    get_or_open_stream-reopens make name 100 5 full 5 405 full-IsConsistent refl (omega arith)
      five_closed missing (omega arith) refl (omega arith) (omega arith) refl refl refl refl
