-- ===== src/Session/Sound.antt =====
-- A sound streams map, and what keeps it sound: opening, changing and failing its streams.
use quic_go.Base.{
  ℕ, zero, suc, ◌+◌, ◌%◌, ◌^◌, ◌<◌, ◌≡◌, ◌⊎◌, inl, inr, refl, arith, sym, ap, ◌∙◌, subst, ◌++◌,
  Option, none, some, ltb, leb, ◌==◌, Bool-cases, Option-cases, ==_iff, get_elem?, max,
}
use quic_go.Base.Maps.{find, assign, find-assign, assign-UniqueKeys}
use quic_go.Streams.Map.{
  StreamsMap, MapError, Lookup, found, refused, max_new_stream_id_delta, get_or_open_stream,
  open_incoming, put_stream, count_incoming, garbage_collect_closed_streams,
}
use quic_go.Streams.Map.Lists.{find-retain, kept}
use quic_go.Streams.Map.Consistent.{IsConsistent, open_count}
use quic_go.Streams.Map.Reach.{get_or_open_stream-IsConsistent, count_incoming-facts}
use quic_go.Streams.Stream.{Stream, new_stream, register_error}
use quic_go.Session.{fail_stream}
use quic_go.Streams.Iteration.{Verdict, goes_on, stops, fails, iterate_from, iterate_func}

-- The map is consistent, and holds each open stream under its own ID.
pub record IsSound (m : StreamsMap Stream) : Type 0 where
  pub consistent : IsConsistent m
  pub named : (id : ℕ) (t : Stream) → find id m.streams ≡ some (some t) → t.stream_id ≡ id

-- A stream that changes without its ID stays where it is.
put_back-IsSound :
    (m : StreamsMap Stream) (t t' : Stream)
    → IsSound m
    → find t'.stream_id m.streams ≡ some (some t)
    → IsSound (record m { streams = assign t'.stream_id (some t') m.streams })
put_back-IsSound m t t' h e = record {
  consistent = record {
    keys = assign-UniqueKeys t'.stream_id (some t') m.streams h.consistent.keys;
    once = λ j. h.consistent.once j ∙ kept_open j;
    incoming = h.consistent.incoming;
    outgoing = h.consistent.outgoing;
  };
  named = λ j u p. by_id j u p;
}
  where
    kept_open :
        (j : ℕ)
        → open_count (find j m.streams)
          ≡ open_count (find j (assign t'.stream_id (some t') m.streams))
    kept_open j = elim (Bool-cases (t'.stream_id == j)) [
      | inl b ↦
          let same : t'.stream_id ≡ j = (==_iff t'.stream_id j).0 b in
          let e' : find j m.streams ≡ some (some t) =
            subst (λ k. find k m.streams ≡ some (some t)) same e in
          rw (find-assign t'.stream_id j (some t') m.streams, b, e') refl
      | inr b ↦ rw (find-assign t'.stream_id j (some t') m.streams, b) refl
    ]

    by_id :
        (j : ℕ) (u : Stream)
        → find j (assign t'.stream_id (some t') m.streams) ≡ some (some u)
        → u.stream_id ≡ j
    by_id j u p = elim (Bool-cases (t'.stream_id == j)) [
      | inl b ↦
          let same : t'.stream_id ≡ j = (==_iff t'.stream_id j).0 b in
          let q : some (some t') ≡ some (some u) =
            rw (find-assign t'.stream_id j (some t') m.streams, b) at p in
          let r : t' ≡ u = cc in subst (λ (k : Stream). k.stream_id ≡ j) r same
      | inr b ↦ h.named j u (rw (find-assign t'.stream_id j (some t') m.streams, b) at p)
    ]

abbrev pub Named : StreamsMap Stream → Type 0
Named m = (id : ℕ) (t : Stream) → find id m.streams ≡ some (some t) → t.stream_id ≡ id

count_incoming-Named : (id : ℕ) (m : StreamsMap Stream) → IsSound m → Named (count_incoming id m)
unfolding count_incoming garbage_collect_closed_streams
count_incoming-Named id m h j t e =
    elim (Bool-cases
      ((m.streams_opened_after_last_garbage_collect + 1) % max_new_stream_id_delta == 0)) [
        | inl c ↦ h.named j t (
            kept_open (max m.highest_stream_opened_by_client id) j (find j m.streams) t (
              sym (
                find-retain (max m.highest_stream_opened_by_client id) j m.streams
                  h.consistent.keys)
              ∙ rw c at e))
        | inr c ↦ h.named j t (rw c at e)
      ]
  where
    kept_open :
        (highest k : ℕ) (o : Option (Option Stream)) (u : Stream)
        → kept highest k o ≡ some (some u)
        → o ≡ some (some u)
    kept_open highest k none u q = absurd (cc)
    kept_open highest k (some none) u q = absurd (ground (arith, q))
    kept_open highest k (some (some v)) u q = q

module _ (max_incoming : ℕ) (l : max_incoming < 2 ^ 32) where
  abbrev pub make : ℕ → Option Stream
  make id = some (new_stream id)

  abbrev pub name : Stream → ℕ
  name t = t.stream_id

  name-make : (j : ℕ) (s : Stream) → make j ≡ some s → name s ≡ j
  unfolding new_stream
  name-make j s e = let q : new_stream j ≡ s = cc in sym (ap name q)

  -- What is opened or found is in the map.
  put_stream-found :
      (id : ℕ) (m : StreamsMap Stream)
      → Named m
      → find id m.streams ≡ none
      → let m' = put_stream make name (new_stream id) m in
        Named m' × (find id m'.streams ≡ some (some (new_stream id)))
  unfolding put_stream new_stream
  put_stream-found id m h n =
      rw (put_stream, n)
        (
          λ j t e. elim (Bool-cases (id == j)) [
            | inl b ↦
                let q : some (some (new_stream id)) ≡ some (some t) =
                  rw (find-assign id j (some (new_stream id)) m.streams, b) at e in
                let r : new_stream id ≡ t = cc in sym (ap name r) ∙ (==_iff id j).0 b
            | inr b ↦ h j t (rw (find-assign id j (some (new_stream id)) m.streams, b) at e)
          ],
          rw (find-assign id id (some (new_stream id)) m.streams) (ground arith),
        )

  get_or_open_stream-found :
      (id : ℕ) (m : StreamsMap Stream)
      → IsSound m
      → let (m', r) = get_or_open_stream make name max_incoming id m in
        Named m' × ((t : Stream) → r ≡ found (some t) → find id m'.streams ≡ some (some t))
  unfolding get_or_open_stream open_incoming
  get_or_open_stream-found id m h = elim (Option-cases (find id m.streams)) [
    | inr (o, n) ↦
        rw (get_or_open_stream, n) (h.named, λ t e. let q : o ≡ some t = cc in n ∙ ap some q)
    | inl n ↦ elim (Bool-cases (leb max_incoming m.num_incoming_streams)) [
      | inl a ↦ rw (get_or_open_stream, n, open_incoming, a) (h.named, λ t e. absurd (cc))
      | inr a ↦ elim (Bool-cases (id % 2 == 0)) [
        | inl b ↦ rw (get_or_open_stream, n, open_incoming, a, b) (h.named, λ t e. absurd (cc))
        | inr b ↦
            elim (Bool-cases
              (ltb ((id + max_new_stream_id_delta) % 2 ^ 32) m.highest_stream_opened_by_client)) [
                | inl c ↦
                    rw (get_or_open_stream, n, open_incoming, a, b, c) (h.named, λ t e. absurd (cc))
                | inr c ↦
                    let fresh = (count_incoming-facts make name id m h.consistent n).0 in
                    let (names, there) =
                      put_stream-found id (count_incoming id m) (count_incoming-Named id m h)
                        fresh in
                    rw (get_or_open_stream, n, open_incoming, a, b, c)
                      (
                        names,
                        λ t e.
                            let q : new_stream id ≡ t = cc in
                            there ∙ ap (λ (u : Stream). some (some u)) q,
                      )
              ]
      ]
    ]
  ]

  pub get_or_open_stream-IsSound :
      (id : ℕ) (m : StreamsMap Stream)
      → IsSound m
      → let (m', r) = get_or_open_stream make name max_incoming id m in
        IsSound m' × ((t : Stream) → r ≡ found (some t) → find id m'.streams ≡ some (some t))
  get_or_open_stream-IsSound id m h =
      let (names, there) = get_or_open_stream-found id m h in
      (
        record {
          consistent =
              get_or_open_stream-IsConsistent make name max_incoming id m name-make l h.consistent;
          named = names;
        },
        there,
      )

pub Lookup-cases :
    (r : Lookup Stream)
    → ((e : MapError) × (r ≡ refused e))
      ⊎ ((r ≡ found none) ⊎ ((t : Stream) × (r ≡ found (some t))))
Lookup-cases (refused e) = inl (e, refl)
Lookup-cases (found none) = inr (inl refl)
Lookup-cases (found (some t)) = inr (inr (t, refl))

pub register_error-id : (code : ℕ) (t : Stream) → (register_error code t).stream_id ≡ t.stream_id
unfolding register_error
register_error-id code t = ground arith

-- A stream that was found and changed is put back.
pub put_found :
    (id : ℕ) (m : StreamsMap Stream) (t t' : Stream)
    → IsSound m
    → find id m.streams ≡ some (some t)
    → t'.stream_id ≡ t.stream_id
    → IsSound (record m { streams = assign t'.stream_id (some t') m.streams })
put_found id m t t' h e i =
    let q : t'.stream_id ≡ id = i ∙ h.named id t e in
    put_back-IsSound m t t' h (subst (λ (k : ℕ). find k m.streams ≡ some (some t)) (sym q) e)

fail_stream-IsSound :
    (code id : ℕ) (t : Stream) (w : StreamsMap Stream × Unit {0})
    → IsSound w.0
    → find id w.0.streams ≡ some (some t)
    → IsSound (fail_stream code t w).0.0
unfolding fail_stream
fail_stream-IsSound code id t (m, u) h e =
    let q : t.stream_id ≡ id = h.named id t e in
    let p = put_found id m t (register_error code t) h e (register_error-id code t) in
    subst
      (λ (k : ℕ).
        IsSound (record m { streams = assign k (some (register_error code t)) m.streams }))
      (register_error-id code t) p

-- Every stream that the iteration visits is open.
iterate_func-IsSound :
    (code id : ℕ) (w : StreamsMap Stream × Unit {0})
    → IsSound w.0
    → IsSound (iterate_func (fail_stream code) id w).0.0
unfolding iterate_func
iterate_func-IsSound code id w h = elim (Option-cases (find id w.0.streams)) [
  | inl f ↦ rw (iterate_func, f) h
  | inr (none, f) ↦ rw (iterate_func, f) h
  | inr (some t, f) ↦ rw (iterate_func, f) (fail_stream-IsSound code id t w h f)
]

Verdict-cases : (v : Verdict) → (v ≡ goes_on) ⊎ ((v ≡ stops) ⊎ ((e : MapError) × (v ≡ fails e)))
Verdict-cases goes_on = inl refl
Verdict-cases stops = inr (inl refl)
Verdict-cases (fails e) = inr (inr (e, refl))

pub iterate_from-IsSound :
    (code n i : ℕ) (w : StreamsMap Stream × Unit {0})
    → IsSound w.0
    → IsSound (iterate_from (fail_stream code) n i w).0.0
unfolding iterate_from
iterate_from-IsSound code zero i w h = h
iterate_from-IsSound code (suc n) i w h =
    elim (Option-cases (get_elem? (w.0.open_streams ++ w.0.behind) i)) [
      | inl e ↦ rw (iterate_from, e) h
      | inr (id, e) ↦
          let one = iterate_func-IsSound code id w h in
          elim (Verdict-cases (iterate_func (fail_stream code) id w).1) [
            | inl v ↦
                rw (iterate_from, e, v)
                  (iterate_from-IsSound code n (i + 1) (iterate_func (fail_stream code) id w).0 one)
            | inr (inl v) ↦ rw (iterate_from, e, v) one
            | inr (inr (err, v)) ↦ rw (iterate_from, e, v) one
          ]
    ]
