-- ===== src/Streams/Map/Consistent.antt =====
-- The invariant of streams_map.go: the slice and the counters agree with the map.
use quic_go.Base.{
  ℕ, ◌+◌, ◌-◌, ◌%◌, ◌^◌, ◌≤◌, ◌<◌, ◌≡◌, inl, inr, refl, arith, List, [], ◌∷◌, ◌++◌, Option, none,
  some, ◌==◌, if◌then◌else◌, Bool-cases, Option-cases, subst, ==_iff,
}
use quic_go.Base.Maps.{find, assign, find-assign, assign-UniqueKeys, UniqueKeys}
use quic_go.Streams.Map.{
  StreamsMap, new_streams_map, garbage_collect_closed_streams, delete_first, index_of, remove_open,
  remove_stream,
}
use quic_go.Streams.Map.Lists.{
  occurs, parity, occurs-append, occurs-delete_first, parity-delete_first, index_of-occurs, kept,
  find-retain, retain-UniqueKeys,
}

-- Whether the map holds an open stream.
abbrev pub open_count {ℓ} : {S : Type ℓ} → Option (Option S) → ℕ
open_count none = 0
open_count (some none) = 0
open_count (some (some s)) = 1

-- What remains of a list of open streams without one of them.
parity-removed :
    (r id n : ℕ) (xs : List ℕ)
    → 1 ≤ occurs id xs
    → n ≡ parity r xs
    → n < 2 ^ 32
    → (if id % 2 == r then (n + 2 ^ 32 - 1) % 2 ^ 32 else n) ≡ parity r (delete_first id xs)
parity-removed r id n xs o e l = ground (arith, parity-delete_first r id xs o)

module _ {S : Type 0} where
  -- The slice lists the open streams once each, and the counters count its odd and even IDs.
  pub record IsConsistent (m : StreamsMap S) : Type 0 where
    pub keys : UniqueKeys m.streams
    pub once : (id : ℕ) → occurs id m.open_streams ≡ open_count (find id m.streams)
    pub incoming : m.num_incoming_streams ≡ parity 1 m.open_streams
    pub outgoing : m.num_outgoing_streams ≡ parity 0 m.open_streams

  pub new_streams_map-IsConsistent : IsConsistent (new_streams_map {S = S})
  unfolding new_streams_map find
  new_streams_map-IsConsistent = record {
    keys = tt;
    once = λ id. refl;
    incoming = refl;
    outgoing = refl;
  }

  pub open_count-kept :
      (highest id : ℕ) (o : Option (Option S)) → open_count (kept highest id o) ≡ open_count o
  open_count-kept highest id none = refl
  open_count-kept highest id (some none) = ground arith
  open_count-kept highest id (some (some s)) = refl

  pub garbage_collect_closed_streams-IsConsistent :
      (m : StreamsMap S) → IsConsistent m → IsConsistent (garbage_collect_closed_streams m)
  unfolding garbage_collect_closed_streams
  garbage_collect_closed_streams-IsConsistent m h =
      let highest = m.highest_stream_opened_by_client in
      record {
        keys = retain-UniqueKeys highest m.streams h.keys;
        once = λ id.
            rw (find-retain highest id m.streams h.keys)
              (rw (open_count-kept highest id (find id m.streams)) (h.once id));
        incoming = h.incoming;
        outgoing = h.outgoing;
      }

  -- An open stream joins the map and the slice.
  pub put-once :
      (id : ℕ) (s : S) (streams : List (ℕ × Option S)) (xs : List ℕ)
      → ((j : ℕ) → occurs j xs ≡ open_count (find j streams))
      → find id streams ≡ none
      → (j : ℕ) → occurs j (xs ++ (id ∷ [])) ≡ open_count (find j (assign id (some s) streams))
  put-once id s streams xs h n j = elim (Bool-cases (id == j)) [
    | inl e ↦
        let id≡j : id ≡ j = (==_iff id j).0 e in
        let o : occurs j xs ≡ 0 = rw (h j, subst (λ k. find k streams ≡ none) id≡j n) refl in
        rw (find-assign id j (some s) streams, e)
          (ground (arith, occurs-append j xs (id ∷ []), o, e))
    | inr e ↦
        rw (find-assign id j (some s) streams, e)
          (ground (arith, occurs-append j xs (id ∷ []), h j, e))
  ]

  -- A stream is closed and leaves the slice.
  pub close-once :
      (id : ℕ) (s : S) (streams : List (ℕ × Option S)) (xs : List ℕ)
      → ((j : ℕ) → occurs j xs ≡ open_count (find j streams))
      → find id streams ≡ some (some s)
      → (j : ℕ) → occurs j (delete_first id xs) ≡ open_count (find j (assign id none streams))
  close-once id s streams xs h n j =
      let some_id : 1 ≤ occurs id xs = rw (h id, n) (omega arith) in
      elim (Bool-cases (id == j)) [
        | inl e ↦
            let id≡j : id ≡ j = (==_iff id j).0 e in
            let o : occurs j xs ≡ 1 =
              rw (h j, subst (λ k. find k streams ≡ some (some s)) id≡j n) refl in
            rw (find-assign id j none streams, e)
              (ground (arith, occurs-delete_first j id xs some_id, o, e))
        | inr e ↦
            rw (find-assign id j none streams, e)
              (ground (arith, occurs-delete_first j id xs some_id, h j, e))
      ]

  -- The end of RemoveStream takes an ID out of the slice that stands in it.
  remove_open-IsConsistent :
      (id : ℕ) (m : StreamsMap S)
      → 1 ≤ occurs id m.open_streams
      → UniqueKeys m.streams
      → ((j : ℕ) → occurs j (delete_first id m.open_streams) ≡ open_count (find j m.streams))
      → m.num_incoming_streams ≡ parity 1 (delete_first id m.open_streams)
      → m.num_outgoing_streams ≡ parity 0 (delete_first id m.open_streams)
      → IsConsistent (remove_open id m)
  unfolding remove_open
  remove_open-IsConsistent id m o u c i t = elim (Option-cases (index_of id m.open_streams)) [
    | inl n ↦ absurd (omega (arith, index_of-occurs id m.open_streams n))
    | inr (k, e) ↦ rw (remove_open, e) (record { keys = u; once = c; incoming = i; outgoing = t })
  ]

  pub remove_stream-IsConsistent :
      (id : ℕ) (m : StreamsMap S)
      → m.num_incoming_streams < 2 ^ 32
      → m.num_outgoing_streams < 2 ^ 32
      → IsConsistent m
      → IsConsistent (remove_stream id m).0
  unfolding remove_stream
  remove_stream-IsConsistent id m li lo h = elim (Option-cases (find id m.streams)) [
    | inl n ↦ rw (n, remove_stream) h
    | inr (none, n) ↦ rw (n, remove_stream) h
    | inr (some s, n) ↦
        let xs = m.open_streams in
        let o : 1 ≤ occurs id xs = rw (h.once id, n) (omega arith) in
        let keys = assign-UniqueKeys id none m.streams h.keys in
        let once = close-once id s m.streams xs h.once n in
        let odd = parity-removed 1 id m.num_incoming_streams xs o h.incoming li in
        let even = parity-removed 0 id m.num_outgoing_streams xs o h.outgoing lo in
        elim (Bool-cases (id % 2 == 0)) [
          | inl z ↦
              rw (n, remove_stream, z)
                (remove_open-IsConsistent id _ o keys once (ground (arith, odd))
                  (ground (arith, even)))
          | inr z ↦
              rw (n, remove_stream, z)
                (remove_open-IsConsistent id _ o keys once (ground (arith, odd))
                  (ground (arith, even)))
        ]
  ]
