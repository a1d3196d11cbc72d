-- ===== src/Streams/Map/Closed.antt =====
-- What streams_map.go does with the streams that it closed: it keeps a nil for them, until the
-- garbage collection drops those that lie far behind the highest ID of the client.
use quic_go.Base.{
  ◌*◌, ap, ◌∙◌, ℕ, ◌+◌, ◌%◌, ◌^◌, ◌≤◌, ◌<◌, ◌≡◌, ◌⊎◌, inl, inr, refl, arith, false, Option, none,
  some, ◌==◌, ◌≢◌, leb, Bool-cases, Option-cases, lt→ltb, max, subst, sym, ==_iff,
}
use quic_go.Base.Maps.{find, find-assign}
use quic_go.Streams.Map.{
  StreamsMap, found, refused, too_many_open_streams, invalid_stream_id, max_new_stream_id_delta,
  garbage_collect_closed_streams, count_incoming, remove_stream, remove_open, put_stream,
  open_incoming, get_or_open_stream, open_stream,
}
use quic_go.Streams.Map.Lists.{find-retain, kept}
use quic_go.Streams.Map.Consistent.{IsConsistent}

module _ {S : Type 0} where
  -- A stream of the client that was closed: a nil, or dropped by a garbage collection.
  abbrev pub IsClosed : ℕ → StreamsMap S → Type 0
  IsClosed id m =
      (find id m.streams ≡ some none)
      ⊎ ((find id m.streams ≡ none)
          × (id + max_new_stream_id_delta) % 2 ^ 32 ≤ m.highest_stream_opened_by_client)

  remove_stream-IsClosed :
      (id j : ℕ) (m : StreamsMap S) → IsClosed id m → IsClosed id (remove_stream j m).0
  unfolding remove_stream remove_open
  remove_stream-IsClosed id j m c = ground (arith, find-assign j id none m.streams)

module _ {S : Type 0} (new_stream : ℕ → Option S) (stream_id : S → ℕ) where
  -- A stream of the client that was closed is not opened again: GetOrOpenStream returns nil or an
  -- error for its ID and leaves the map as it is, whether or not the closed stream has been collected,
  -- unless its ID lies exactly MaxNewStreamIDDelta below the highest one that the client opened.
  pub get_or_open_stream-closed :
      (max_incoming id : ℕ) (m : StreamsMap S)
      → id % 2 ≡ 1
      → IsClosed id m
      → (id + max_new_stream_id_delta) % 2 ^ 32 ≢ m.highest_stream_opened_by_client
      → let (m', r) = get_or_open_stream new_stream stream_id max_incoming id m in
        (m' ≡ m)
        × ((r ≡ found none) ⊎ (r ≡ refused too_many_open_streams) ⊎ (r ≡ refused invalid_stream_id))
  unfolding get_or_open_stream open_incoming
  get_or_open_stream-closed max_incoming id m o (inl n) e =
      rw (get_or_open_stream, n) (refl, inl refl)
  get_or_open_stream-closed max_incoming id m o (inr (n, c)) e =
      elim (Bool-cases (leb max_incoming m.num_incoming_streams)) [
        | inl a ↦ rw (get_or_open_stream, n, open_incoming, a) (refl, inr (inl refl))
        | inr a ↦
            let b : (id % 2 == 0) ≡ false = ground arith in
            let d =
              lt→ltb ((id + max_new_stream_id_delta) % 2 ^ 32) m.highest_stream_opened_by_client
                (omega arith) in
            rw (get_or_open_stream, n, open_incoming, a, b, d) (refl, inr (inr refl))
      ]

  -- Another stream that is put leaves an entry as it is.
  put_stream-find :
      (id : ℕ) (s : S) (m : StreamsMap S)
      → stream_id s ≢ id
      → find id (put_stream new_stream stream_id s m).streams ≡ find id m.streams
  unfolding put_stream
  put_stream-find id s m d = ground (arith, find-assign (stream_id s) id (some s) m.streams)

  put_stream-highest :
      (s : S) (m : StreamsMap S)
      → (put_stream new_stream stream_id s m).highest_stream_opened_by_client
        ≡ m.highest_stream_opened_by_client
  unfolding put_stream
  put_stream-highest s m = ground arith

  put_stream-IsClosed :
      (id : ℕ) (s : S) (m : StreamsMap S)
      → stream_id s ≢ id
      → IsClosed id m
      → IsClosed id (put_stream new_stream stream_id s m)
  put_stream-IsClosed id s m d c = rw (put_stream-find id s m d, put_stream-highest s m) c

  count_incoming-IsClosed :
      (id j : ℕ) (m : StreamsMap S)
      → id % 2 ≡ 1
      → IsConsistent m
      → IsClosed id m
      → IsClosed id (count_incoming j m)
  unfolding count_incoming garbage_collect_closed_streams
  count_incoming-IsClosed id j m o h c =
      ground (arith, find-retain (max m.highest_stream_opened_by_client j) id m.streams h.keys)

  get_or_open_stream-IsClosed :
      (max_incoming id j : ℕ) (m : StreamsMap S)
      → ((k : ℕ) (s : S) → new_stream k ≡ some s → stream_id s ≡ k)
      → id % 2 ≡ 1
      → IsConsistent m
      → IsClosed id m
      → j ≢ id
      → IsClosed id (get_or_open_stream new_stream stream_id max_incoming j m).0
  unfolding get_or_open_stream open_incoming
  get_or_open_stream-IsClosed max_incoming id j m f o h c d = elim (Option-cases (new_stream j)) [
    | inl n ↦ ground (arith, n)
    | inr (s, n) ↦ ground (
      arith,
      n,
      f j s n,
      put_stream-IsClosed id s (count_incoming j m),
      count_incoming-IsClosed id j m o h c,
    )
  ]

  open_stream-IsClosed :
      (max_outgoing id j : ℕ) (m : StreamsMap S)
      → ((k : ℕ) (s : S) → new_stream k ≡ some s → stream_id s ≡ k)
      → id % 2 ≡ 1
      → IsClosed id m
      → IsClosed id (open_stream new_stream stream_id max_outgoing j m).0
  unfolding open_stream
  open_stream-IsClosed max_outgoing id j m f o c = elim (Option-cases (new_stream j)) [
    | inl n ↦ ground (arith, n)
    | inr (s, n) ↦
        let counted = record m { num_outgoing_streams = (m.num_outgoing_streams + 1) % 2 ^ 32 } in
        ground (arith, n, f j s n, put_stream-IsClosed id s counted)
  ]

  -- A closed stream of the client stays closed, kept as nil or collected far enough below the highest
  -- ID, whatever stream is looked up, opened or removed on a consistent map; looked up is not the
  -- stream itself at the distance MaxNewStreamIDDelta. A stream is made under its own ID.
  pub calls-IsClosed :
      (max_incoming max_outgoing id j : ℕ) (m : StreamsMap S)
      → ((k : ℕ) (s : S) → new_stream k ≡ some s → stream_id s ≡ k)
      → id % 2 ≡ 1
      → IsConsistent m
      → IsClosed id m
      → (j ≢ id) ⊎ ((id + max_new_stream_id_delta) % 2 ^ 32 ≢ m.highest_stream_opened_by_client)
      → IsClosed id (get_or_open_stream new_stream stream_id max_incoming j m).0
        × IsClosed id (open_stream new_stream stream_id max_outgoing j m).0
        × IsClosed id (remove_stream j m).0
  calls-IsClosed max_incoming max_outgoing id j m f o h c e = (
    elim (Bool-cases (j == id)) [
      | inl t ↦
          let p = (==_iff j id).0 t in
          elim e [
            | inl d ↦ absurd (d p)
            | inr d ↦
                let same = (get_or_open_stream-closed max_incoming id m o c d).0 in
                subst
                  (λ k. IsClosed id (get_or_open_stream new_stream stream_id max_incoming k m).0)
                  (sym p) (subst (IsClosed id) (sym same) c)
          ]
      | inr t ↦ get_or_open_stream-IsClosed max_incoming id j m f o h c (ground (arith, t))
    ],
    open_stream-IsClosed max_outgoing id j m f o c,
    remove_stream-IsClosed id j m c,
  )

  -- Opening a missing stream of the client: the stream that is returned, and where it goes.
  opens :
      (max_incoming id : ℕ) (m : StreamsMap S) (s : S)
      → id % 2 ≡ 1
      → find id m.streams ≡ none
      → m.highest_stream_opened_by_client ≤ (id + max_new_stream_id_delta) % 2 ^ 32
      → m.num_incoming_streams < max_incoming
      → new_stream id ≡ some s
      → get_or_open_stream new_stream stream_id max_incoming id m
        ≡ (put_stream new_stream stream_id s (count_incoming id m), found (some s))
  unfolding get_or_open_stream open_incoming
  opens max_incoming id m s o n l i e = ground (arith, n, e)

  -- What the garbage collection that opening `j` triggers makes of the map.
  collects :
      (id j : ℕ) (m : StreamsMap S)
      → IsConsistent m
      → (m.streams_opened_after_last_garbage_collect + 1) % max_new_stream_id_delta ≡ 0
      → m.highest_stream_opened_by_client < j
      → let c = count_incoming j m in
        (find id c.streams ≡ kept j id (find id m.streams))
        × (c.highest_stream_opened_by_client ≡ j)
        × (c.num_incoming_streams ≡ (m.num_incoming_streams + 1) % 2 ^ 32)
        × (c.streams_opened_after_last_garbage_collect ≡ 0)
  unfolding count_incoming garbage_collect_closed_streams
  collects id j m h t l =
      let e : max m.highest_stream_opened_by_client j ≡ j = ground arith in
      ground (arith, e, t, find-retain j id m.streams h.keys)

  put_stream-counts :
      (s : S) (m : StreamsMap S)
      → ((put_stream new_stream stream_id s m).num_incoming_streams ≡ m.num_incoming_streams)
        × ((put_stream new_stream stream_id s m).streams_opened_after_last_garbage_collect
            ≡ m.streams_opened_after_last_garbage_collect)
  unfolding put_stream
  put_stream-counts s m = ground arith

  -- Right after a collection, a missing stream that is opened is found.
  put_missing-find :
      (id : ℕ) (s : S) (m : StreamsMap S)
      → find id m.streams ≡ none
      → m.streams_opened_after_last_garbage_collect ≡ 0
      → stream_id s ≡ id
      → find id (put_stream new_stream stream_id s (count_incoming id m)).streams ≡ some (some s)
  unfolding put_stream count_incoming
  put_missing-find id s m n z e =
      ground (arith, n, z, e, find-assign (stream_id s) id (some s) m.streams)

  -- A closed stream of the client comes back. Its ID is kept as nil, so GetOrOpenStream returns nil
  -- for it. Then the client opens the stream whose ID is higher by MaxNewStreamIDDelta, higher than
  -- all before, as the stream that triggers the garbage collection. After that GetOrOpenStream
  -- opens the closed ID again, as a stream that the map holds. The map is consistent and has room
  -- for two more streams, the IDs and the next one at that distance are uint32 values, and a stream
  -- is made under its own ID.
  pub get_or_open_stream-reopens :
      (max_incoming id : ℕ) (m : StreamsMap S) (s u : S)
      → IsConsistent m
      → id % 2 ≡ 1
      → id + 2 * max_new_stream_id_delta < 2 ^ 32
      → find id m.streams ≡ some none
      → find (id + max_new_stream_id_delta) m.streams ≡ none
      → m.highest_stream_opened_by_client < id + max_new_stream_id_delta
      → (m.streams_opened_after_last_garbage_collect + 1) % max_new_stream_id_delta ≡ 0
      → m.num_incoming_streams + 1 < max_incoming
      → max_incoming < 2 ^ 32
      → new_stream id ≡ some s
      → stream_id s ≡ id
      → new_stream (id + max_new_stream_id_delta) ≡ some u
      → stream_id u ≡ id + max_new_stream_id_delta
      → let j = id + max_new_stream_id_delta in
        let m1 = (get_or_open_stream new_stream stream_id max_incoming j m).0 in
        let (m2, r) = get_or_open_stream new_stream stream_id max_incoming id m1 in
        (get_or_open_stream new_stream stream_id max_incoming id m ≡ (m, found none))
        × (r ≡ found (some s))
        × (find id m2.streams ≡ some (some s))
  unfolding get_or_open_stream
  get_or_open_stream-reopens max_incoming id m s u h o w n k l t i f a b c d =
      let j : ℕ = id + max_new_stream_id_delta in
      let first = opens max_incoming j m u (omega arith) k (omega arith) (omega arith) c in
      let (gone, top, count, zero_since) = collects id j m h t l in
      let c0 : StreamsMap S = count_incoming j m in
      let m1 : StreamsMap S = put_stream new_stream stream_id u c0 in
      let (same, zero_still) = put_stream-counts u c0 in
      let dropped : kept j id (some none) ≡ none = ground arith in
      let missing : find id m1.streams ≡ none =
        put_stream-find id u c0 (λ e. absurd (omega (arith, e, d)))
        ∙ gone
        ∙ ap (kept j id) n
        ∙ dropped in
      let second =
        opens max_incoming id m1 s o missing (omega (arith, put_stream-highest u c0, top))
          (omega (arith, same, count)) a in
      rw (first, second)
        (
          rw (get_or_open_stream, n) refl,
          refl,
          put_missing-find id s m1 missing (zero_still ∙ zero_since) b,
        )
