-- ===== src/Streams/Sorter/Partition.antt =====
-- Every byte of the stream from the read position on is missing or queued, exactly once.
use quic_go.Base.{
  ℕ, ◌+◌, ◌-◌, ◌^◌, ◌≤◌, ◌<◌, ◌≡◌, ◌≢◌, ◌⊎◌, inl, inr, refl, arith, false, List, [], ◌∷◌, Option,
  none, some, ltb, ◌==◌, if◌then◌else◌, length, Option-cases, Bool-cases,
}
use quic_go.Protocol.{add64}
use quic_go.Frames.StreamFrame.{StreamFrame, data_len}
use quic_go.Streams.Sorter.{
  Sorter, SortError, too_many_gaps, duplicate_stream_data, max_byte_count, new_sorter, find, assign,
  place, after_place, push_new, push, in_gap, no_gap, start_of_gap, end_of_gap, Placement,
  ByteInterval, Outcome, empty_stream_data, overlaps_gap_start, overlaps_gap_end,
}
use quic_go.Streams.Sorter.Gaps.{within, gap_count, NonEmpty, Touches, Takes, Outside, place_cases}
use quic_go.Streams.Sorter.Queue.{Keyed, span, cover, cover-assign, Keyed-assign, starts_frame}

-- From the read position up to MaxByteCount each byte lies in one gap or in one queued frame, never
-- in two; a byte outside that range lies in none.
pub record IsPartition (s : Sorter) : Type 0 where
  pub keyed : Keyed s.queued
  pub nonempty : NonEmpty s.gaps
  pub position : s.read_position ≤ max_byte_count
  pub parts :
      (q : ℕ) → gap_count q s.gaps + cover q s.queued ≡ within s.read_position max_byte_count q

pub new_sorter-IsPartition : IsPartition new_sorter
unfolding new_sorter
new_sorter-IsPartition = record {
  keyed = tt;
  nonempty = omega arith;
  position = omega arith;
  parts = λ q. omega arith;
}

touched :
    (s : ℕ) (gs : List ByteInterval)
    → NonEmpty gs
    → Touches s gs
    → (0 < s) × (0 < gap_count (s - 1) gs)
touched s [] n t = absurd t
touched s (g ∷ gs) n (inl e) = ground arith
touched s (g ∷ gs) n (inr t) = ground (arith, touched s gs n.1 t)

within_le : (a b q : ℕ) → within a b q ≤ 1
within_le a b q = ground arith

within_pos : (a b q : ℕ) → 0 < within a b q → (a ≤ q) × (q < b)
within_pos a b q h = ground arith

within_in : (a b q : ℕ) → a ≤ q → q < b → within a b q ≡ 1
within_in a b q h k = ground arith

-- A gap cannot end where a frame starts whose offset is not a key: the next byte is queued.
not-touched :
    (s : Sorter) (o : ℕ)
    → IsPartition s
    → o < max_byte_count
    → find o s.queued ≡ none
    → gap_count o s.gaps ≡ 0
    → ¬ Touches o s.gaps
not-touched s o v h e z t =
    let (pos, before) = touched o s.gaps v.nonempty t in
    let (low, _) =
      within_pos s.read_position max_byte_count (o - 1) (omega (arith, before, v.parts (o - 1))) in
    starts_frame o s.queued v.keyed
      (omega (arith, v.parts o, within_in s.read_position max_byte_count o (omega arith) h))
      (inr
        (omega (arith, before, v.parts (o - 1), within_le s.read_position max_byte_count (o - 1))))
      e

-- What Push did: it queued the frame and took its bytes off the gaps, refused it and left the sorter
-- alone, or met the limit on gaps.
pub data Pushed (s : Sorter) (f : StreamFrame) (r : Sorter × Option SortError) : Type 0 where
  queued_it :
      (r.1 ≡ none)
      → (find f.offset s.queued ≡ none)
      → ((q : ℕ) → gap_count q r.0.gaps + span f q ≡ gap_count q s.gaps)
      → NonEmpty r.0.gaps
      → (r.0.queued ≡ assign f.offset f s.queued)
      → (r.0.read_position ≡ s.read_position)
      → Pushed s f r
  refused_it :
      (e : SortError)
      → (r ≡ (s, some e))
      → (e ≡ duplicate_stream_data
          → (find f.offset s.queued ≢ none) ⊎ Outside f.offset (f.offset + data_len f) s.gaps)
      → Pushed s f r
  full : (r.1 ≡ some too_many_gaps) → Pushed s f r

module _ (s : Sorter) (f : StreamFrame) (e : ℕ) (eq : e ≡ f.offset + data_len f)
    (new : find f.offset s.queued ≡ none) where
  after_taken :
      (p : Placement)
      → Takes f.offset e s.gaps p.gaps
      → NonEmpty p.gaps
      → p.outcome ≡ in_gap
      → Pushed s f (after_place s f p)
  unfolding after_place
  after_taken p t n o = elim (Bool-cases (ltb 1000 (length p.gaps))) [
    | inl c ↦ rw o (rw c (full refl))
    | inr c ↦ rw o (rw c (queued_it refl new (λ q. rw (← eq) (t q)) n refl refl))
  ]

  after_refused :
      (p : Placement)
      → p.gaps ≡ s.gaps
      → p.outcome ≢ in_gap
      → (p.outcome ≡ no_gap → Outside f.offset e s.gaps)
      → Pushed s f (after_place s f p)
  unfolding after_place
  after_refused p g o z = by_outcome p.outcome refl
    where
      by_outcome : (x : Outcome) → p.outcome ≡ x → Pushed s f (after_place s f p)
      by_outcome in_gap c = absurd (o c)
      by_outcome no_gap c =
          rw (c, g) (refused_it duplicate_stream_data refl λ _. inr (rw (← eq) (z c)))
      by_outcome start_of_gap c = rw (c, g) (refused_it overlaps_gap_start refl λ d. cc)
      by_outcome end_of_gap c = rw (c, g) (refused_it overlaps_gap_end refl λ d. cc)

-- A frame fits if its end is a uint64.
abbrev pub Fits : StreamFrame → Type 0
Fits f = f.offset + data_len f < 2 ^ 64

push_data_cases :
    (s : Sorter) (f : StreamFrame)
    → IsPartition s
    → Fits f
    → 0 < data_len f
    → find f.offset s.queued ≡ none
    → Pushed s f (after_place s f (place false f.offset (f.offset + data_len f) s.gaps))
push_data_cases s f v h l e =
    let start = f.offset in
    let end = f.offset + data_len f in
    elim (place_cases false start end s.gaps (omega arith) v.nonempty) [
      | inl (t, n, o) ↦ after_taken s f end refl e _ t n o
      | inr (inl (g, z, inl c, o)) ↦ cc
      | inr (inl (g, z, inr t, o)) ↦ absurd (not-touched s start v (omega arith) e z t)
      | inr (inr (g, o, z)) ↦ after_refused s f end refl e _ g o z
    ]

push_empty_cases :
    (s : Sorter) (f : StreamFrame)
    → IsPartition s
    → data_len f ≡ 0
    → find f.offset s.queued ≡ none
    → Pushed s f (
        if f.fin_bit
        then (record s { queued = assign f.offset f s.queued }, none)
        else (s, some empty_stream_data))
push_empty_cases s f v l e = elim (Bool-cases f.fin_bit) [
  | inl b ↦ rw b (queued_it refl e (λ q. ground arith) v.nonempty refl refl)
  | inr b ↦ rw b (refused_it empty_stream_data refl λ d. cc)
]

push_new_cases :
    (s : Sorter) (f : StreamFrame)
    → IsPartition s
    → Fits f
    → find f.offset s.queued ≡ none
    → Pushed s f (push_new s f)
unfolding push_new
push_new_cases s f v h e =
    let sum : add64 f.offset (data_len f) ≡ f.offset + data_len f = omega arith in
    rw sum (elim (Bool-cases (f.offset == f.offset + data_len f)) [
      | inl z ↦ rw z (push_empty_cases s f v (ground arith) e)
      | inr n ↦ rw n (push_data_cases s f v h (ground arith) e)
    ])

pub push_cases : (s : Sorter) (f : StreamFrame) → IsPartition s → Fits f → Pushed s f (push s f)
unfolding push
push_cases s f v h = elim (Option-cases (find f.offset s.queued)) [
  | inl e ↦ rw (e, push) (push_new_cases s f v h e)
  | inr (g, e) ↦ rw (e, push) (refused_it duplicate_stream_data refl λ _. inl (λ c. cc))
]

-- Push, also where it refuses the frame, keeps the partition of the stream: from the read position
-- up to MaxByteCount each byte lies in one gap or in one queued frame, never in two, and no other
-- byte lies in any. The limit on gaps, after which the connection is closed, is not met, and the
-- frame ends at a uint64.
pub push-IsPartition :
    (s : Sorter) (f : StreamFrame)
    → IsPartition s
    → Fits f
    → (push s f).1 ≢ some too_many_gaps
    → IsPartition (push s f).0
push-IsPartition s f v h ok = by_cases (push_cases s f v h)
  where
    by_cases : Pushed s f (push s f) → IsPartition (push s f).0
    by_cases (full e) = absurd (ok e)
    by_cases (refused_it e r _) = rw r v
    by_cases (queued_it _ e t n q p) = record {
      keyed = rw q (Keyed-assign f s.queued e v.keyed);
      nonempty = n;
      position = rw p v.position;
      parts = λ x. rw (q, p) (omega (arith, t x, cover-assign x f.offset f s.queued e, v.parts x));
    }
