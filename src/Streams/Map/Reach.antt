-- ===== src/Streams/Map/Reach.antt =====
-- The maps that the calls of streams_map.go reach, under fixed limits.
use quic_go.Base.{
  ℕ, ◌+◌, ◌%◌, ◌^◌, ◌≤◌, ◌<◌, ◌≡◌, inl, inr, refl, arith, [], ◌∷◌, Option, none, some, ◌==◌, ltb,
  leb, Bool-cases, Option-cases, sym, leb→lt, max, ◌∙◌,
}
use quic_go.Base.Maps.{find, assign-UniqueKeys, UniqueKeys}
use quic_go.Streams.Map.{
  StreamsMap, new_streams_map, max_new_stream_id_delta, garbage_collect_closed_streams,
  count_incoming, remove_stream, remove_open, put_stream, open_incoming, get_or_open_stream,
  open_stream,
}
use quic_go.Streams.Map.Lists.{
  occurs, parity, parity-append, parity-delete_first, find-retain, retain-UniqueKeys,
}
use quic_go.Streams.Map.Consistent.{
  IsConsistent, open_count, open_count-kept, put-once, new_streams_map-IsConsistent,
  remove_stream-IsConsistent,
}

module _ {S : Type 0} (new_stream : ℕ → Option S) (stream_id : S → ℕ) where
  -- A stream that is counted already joins the map.
  put_stream-IsConsistent :
      (s : S) (m : StreamsMap S)
      → find (stream_id s) m.streams ≡ none
      → UniqueKeys m.streams
      → ((j : ℕ) → occurs j m.open_streams ≡ open_count (find j m.streams))
      → m.num_incoming_streams ≡ parity 1 m.open_streams + parity 1 (stream_id s ∷ [])
      → m.num_outgoing_streams ≡ parity 0 m.open_streams + parity 0 (stream_id s ∷ [])
      → IsConsistent (put_stream new_stream stream_id s m)
  unfolding put_stream
  put_stream-IsConsistent s m n u o i t =
      rw (put_stream, n)
        (record {
          keys = assign-UniqueKeys (stream_id s) (some s) m.streams u;
          once = put-once (stream_id s) s m.streams m.open_streams o n;
          incoming = omega (arith, parity-append 1 m.open_streams (stream_id s ∷ []), i);
          outgoing = omega (arith, parity-append 0 m.open_streams (stream_id s ∷ []), t);
        })

  -- Counting one stream more, with or without a garbage collection, loses no stream.
  pub count_incoming-facts :
      (id : ℕ) (m : StreamsMap S)
      → IsConsistent m
      → find id m.streams ≡ none
      → let m1 = count_incoming id m in
        (find id m1.streams ≡ none)
        × UniqueKeys m1.streams
        × ((j : ℕ) → occurs j m1.open_streams ≡ open_count (find j m1.streams))
        × (m1.num_incoming_streams ≡ (m.num_incoming_streams + 1) % 2 ^ 32)
        × (m1.num_outgoing_streams ≡ m.num_outgoing_streams)
        × (m1.open_streams ≡ m.open_streams)
  unfolding count_incoming garbage_collect_closed_streams
  count_incoming-facts id m h n =
      let highest = max m.highest_stream_opened_by_client id in
      elim (Bool-cases
        ((m.streams_opened_after_last_garbage_collect + 1) % max_new_stream_id_delta == 0)) [
          | inl c ↦
              rw (count_incoming, c)
                (
                  rw (find-retain highest id m.streams h.keys, n) refl,
                  retain-UniqueKeys highest m.streams h.keys,
                  λ j.
                      rw (find-retain highest j m.streams h.keys)
                        (h.once j ∙ sym (open_count-kept highest j (find j m.streams))),
                  refl,
                  refl,
                  refl,
                )
          | inr c ↦ rw (count_incoming, c) (n, h.keys, h.once, refl, refl, refl)
        ]

  open_incoming-IsConsistent :
      (max_incoming id : ℕ) (m : StreamsMap S)
      → ((j : ℕ) (s : S) → new_stream j ≡ some s → stream_id s ≡ j)
      → max_incoming < 2 ^ 32
      → IsConsistent m
      → find id m.streams ≡ none
      → IsConsistent (open_incoming new_stream stream_id max_incoming id m).0
  unfolding open_incoming
  open_incoming-IsConsistent max_incoming id m f l h n =
      elim (Bool-cases (leb max_incoming m.num_incoming_streams)) [
        | inl a ↦ rw (open_incoming, a) h
        | inr a ↦ elim (Bool-cases (id % 2 == 0)) [
          | inl b ↦ rw (open_incoming, a, b) h
          | inr b ↦
              elim (Bool-cases
                (ltb ((id + max_new_stream_id_delta) % 2 ^ 32) m.highest_stream_opened_by_client)) [
                  | inl c ↦ rw (open_incoming, a, b, c) h
                  | inr c ↦ elim (Option-cases (new_stream id)) [
                    | inl d ↦ rw (open_incoming, a, b, c, d) h
                    | inr (s, d) ↦
                        let (n1, u1, o1, i1, t1, x1) = count_incoming-facts id m h n in
                        let e : stream_id s ≡ id = f id s d in
                        rw (open_incoming, a, b, c, d)
                          (put_stream-IsConsistent s (count_incoming id m) (rw e n1) u1 o1
                            (rw (e, i1, x1)
                              (ground
                                (arith, h.incoming, leb→lt max_incoming m.num_incoming_streams a)))
                            (rw (e, t1, x1) (ground (arith, h.outgoing))))
                  ]
                ]
        ]
      ]

  pub get_or_open_stream-IsConsistent :
      (max_incoming id : ℕ) (m : StreamsMap S)
      → ((j : ℕ) (s : S) → new_stream j ≡ some s → stream_id s ≡ j)
      → max_incoming < 2 ^ 32
      → IsConsistent m
      → IsConsistent (get_or_open_stream new_stream stream_id max_incoming id m).0
  unfolding get_or_open_stream
  get_or_open_stream-IsConsistent max_incoming id m f l h =
      elim (Option-cases (find id m.streams)) [
        | inl n ↦ rw (get_or_open_stream, n) (open_incoming-IsConsistent max_incoming id m f l h n)
        | inr (s, n) ↦ rw (get_or_open_stream, n) h
      ]

  pub open_stream-IsConsistent :
      (max_outgoing id : ℕ) (m : StreamsMap S)
      → ((j : ℕ) (s : S) → new_stream j ≡ some s → stream_id s ≡ j)
      → max_outgoing < 2 ^ 32
      → IsConsistent m
      → IsConsistent (open_stream new_stream stream_id max_outgoing id m).0
  unfolding open_stream
  open_stream-IsConsistent max_outgoing id m f l h = elim (Bool-cases (id % 2 == 1)) [
    | inl b ↦ rw (open_stream, b) h
    | inr b ↦ elim (Option-cases (find id m.streams)) [
      | inr (s, n) ↦ rw (open_stream, b, n) h
      | inl n ↦ elim (Bool-cases (leb max_outgoing m.num_outgoing_streams)) [
        | inl a ↦ rw (open_stream, b, n, a) h
        | inr a ↦ elim (Option-cases (new_stream id)) [
          | inl d ↦ rw (open_stream, b, n, a, d) h
          | inr (s, d) ↦
              let e : stream_id s ≡ id = f id s d in
              let counted = record m {
                num_outgoing_streams = (m.num_outgoing_streams + 1) % 2 ^ 32;
              } in
              rw (open_stream, b, n, a, d)
                (put_stream-IsConsistent s counted (rw e n) h.keys h.once
                  (rw e (ground (arith, h.incoming)))
                  (rw e (ground (arith, h.outgoing, leb→lt max_outgoing m.num_outgoing_streams a))))
        ]
      ]
    ]
  ]

-- The maps that calls reach from a new map, whatever IDs they are given. The callback makes a
-- stream with the ID that it was asked for, and the limits are those of the connection parameters.
module _ {S : Type 0} (new_stream : ℕ → Option S) (stream_id : S → ℕ)
    (max_incoming max_outgoing : ℕ) where
  pub data Reachable : StreamsMap S → Type 0 where
    started : Reachable new_streams_map
    get_or_opened :
        (id : ℕ) (m : StreamsMap S)
        → Reachable m
        → Reachable (get_or_open_stream new_stream stream_id max_incoming id m).0
    opened :
        (id : ℕ) (m : StreamsMap S)
        → Reachable m
        → Reachable (open_stream new_stream stream_id max_outgoing id m).0
    removed : (id : ℕ) (m : StreamsMap S) → Reachable m → Reachable (remove_stream id m).0

  -- The invariant of a reachable map: consistent, within the limits.
  pub record IsWithinLimits (m : StreamsMap S) : Type 0 where
    pub consistent : IsConsistent m
    pub few_incoming : m.num_incoming_streams ≤ max_incoming
    pub few_outgoing : m.num_outgoing_streams ≤ max_outgoing

  get_or_open_stream-counts :
      (id : ℕ) (m : StreamsMap S)
      → m.num_incoming_streams ≤ max_incoming
      → m.num_outgoing_streams ≤ max_outgoing
      → let m' = (get_or_open_stream new_stream stream_id max_incoming id m).0 in
        (m'.num_incoming_streams ≤ max_incoming) × (m'.num_outgoing_streams ≤ max_outgoing)
  unfolding get_or_open_stream open_incoming put_stream count_incoming
      garbage_collect_closed_streams
  get_or_open_stream-counts id m i o = ground (arith, leb→lt max_incoming m.num_incoming_streams)

  open_stream-counts :
      (id : ℕ) (m : StreamsMap S)
      → m.num_incoming_streams ≤ max_incoming
      → m.num_outgoing_streams ≤ max_outgoing
      → let m' = (open_stream new_stream stream_id max_outgoing id m).0 in
        (m'.num_incoming_streams ≤ max_incoming) × (m'.num_outgoing_streams ≤ max_outgoing)
  unfolding open_stream put_stream
  open_stream-counts id m i o = ground (arith, leb→lt max_outgoing m.num_outgoing_streams)

  remove_stream-counts :
      (id : ℕ) (m : StreamsMap S)
      → IsConsistent m
      → m.num_incoming_streams ≤ max_incoming
      → m.num_outgoing_streams ≤ max_outgoing
      → max_incoming < 2 ^ 32
      → max_outgoing < 2 ^ 32
      → let m' = (remove_stream id m).0 in
        (m'.num_incoming_streams ≤ max_incoming) × (m'.num_outgoing_streams ≤ max_outgoing)
  unfolding remove_stream remove_open
  remove_stream-counts id m h i o li lo =
      let xs = m.open_streams in
      ground (
        arith,
        h.once id,
        h.incoming,
        h.outgoing,
        parity-delete_first 1 id xs,
        parity-delete_first 0 id xs,
      )

  -- After any calls of GetOrOpenStream, OpenStream and RemoveStream on a new map, in any order: the
  -- IDs with a stream are the IDs in openStreams, each once, the counters are the numbers of open
  -- streams of either parity, and neither passes its limit. A stream is made under its own ID, and
  -- the limits are uint32 values.
  pub Reachable-IsWithinLimits :
      ((id : ℕ) (s : S) → new_stream id ≡ some s → stream_id s ≡ id)
      → max_incoming < 2 ^ 32
      → max_outgoing < 2 ^ 32
      → (m : StreamsMap S) → Reachable m
      → IsWithinLimits m
  Reachable-IsWithinLimits f li lo _ started = record {
    consistent = new_streams_map-IsConsistent;
    few_incoming = unfold new_streams_map in omega arith;
    few_outgoing = unfold new_streams_map in omega arith;
  }
  Reachable-IsWithinLimits f li lo _ (get_or_opened id m r) =
      let h = Reachable-IsWithinLimits f li lo m r in
      let c = get_or_open_stream-counts id m h.few_incoming h.few_outgoing in
      record {
        consistent =
            get_or_open_stream-IsConsistent new_stream stream_id max_incoming id m f li
              h.consistent;
        few_incoming = c.0;
        few_outgoing = c.1;
      }
  Reachable-IsWithinLimits f li lo _ (opened id m r) =
      let h = Reachable-IsWithinLimits f li lo m r in
      let c = open_stream-counts id m h.few_incoming h.few_outgoing in
      record {
        consistent =
            open_stream-IsConsistent new_stream stream_id max_outgoing id m f lo h.consistent;
        few_incoming = c.0;
        few_outgoing = c.1;
      }
  Reachable-IsWithinLimits f li lo _ (removed id m r) =
      let h = Reachable-IsWithinLimits f li lo m r in
      let c = remove_stream-counts id m h.consistent h.few_incoming h.few_outgoing li lo in
      record {
        consistent =
            remove_stream-IsConsistent id m (omega (arith, h.few_incoming))
              (omega (arith, h.few_outgoing)) h.consistent;
        few_incoming = c.0;
        few_outgoing = c.1;
      }
