-- ===== src/Streams/Sorter/Reassembly.antt =====
-- The sorter against a stream of bytes: frames cut from it come out as the stream.
use quic_go.Base.{
  ℕ, zero, suc, ◌+◌, ◌≡◌, ◌⊎◌, inl, inr, sym, ◌∙◌, ap, ap₂, arith, List, [], ◌∷◌, ◌++◌, Option,
  none, some, Option-cases, append-nil, append_assoc,
}
use quic_go.Frames.StreamFrame.{StreamFrame, data_len}
use quic_go.Streams.Sorter.{
  Sorter, new_sorter, find, assign, remove, after_place, push_new, push, pop,
}
use quic_go.Streams.Sorter.Queue.{Keyed, Keyed-assign, Keyed-remove, find-offset}
use quic_go.Streams.Sorter.Partition.{Fits}

-- `n` bytes of the stream `c` from offset `o` on.
unfoldable pub slice : (ℕ → ℕ) → ℕ → ℕ → List ℕ
slice c o zero = []
slice c o (suc n) = c o ∷ slice c (o + 1) n

pub slice-append :
    (c : ℕ → ℕ) (o m n k l : ℕ) → k ≡ m + n → l ≡ o + m → slice c o k ≡ slice c o m ++ slice c l n
unfolding slice
slice-append c o zero n k l e d = ap₂ (slice c) (omega arith) (omega arith)
slice-append c o (suc m) n zero l e d = absurd (omega arith)
slice-append c o (suc m) n (suc k) l e d =
    ap (λ (t : List ℕ). c o ∷ t) (slice-append c (o + 1) m n k l (omega arith) (omega arith))

-- The frame holds the stream's bytes at its offset, and ends at a uint64.
abbrev pub IsCut : (ℕ → ℕ) → StreamFrame → Type 0
IsCut c f = (f.bytes ≡ slice c f.offset (data_len f)) × Fits f

abbrev pub AllCut : (ℕ → ℕ) → List (ℕ × StreamFrame) → Type 0
AllCut c [] = Unit {0}
AllCut c ((k, f) ∷ m) = IsCut c f × AllCut c m

module _ (c : ℕ → ℕ) where
  AllCut-assign :
      (k : ℕ) (f : StreamFrame) (m : List (ℕ × StreamFrame))
      → IsCut c f
      → AllCut c m
      → AllCut c (assign k f m)
  unfolding assign
  AllCut-assign k f [] h a = (h, tt)
  AllCut-assign k f ((j, g) ∷ m) h a = ground (arith, AllCut-assign k f m h a.1)

  AllCut-remove : (k : ℕ) (m : List (ℕ × StreamFrame)) → AllCut c m → AllCut c (remove k m)
  unfolding remove
  AllCut-remove k [] a = tt
  AllCut-remove k ((j, g) ∷ m) a = ground (arith, AllCut-remove k m a.1)

  pub find-IsCut :
      (k : ℕ) (f : StreamFrame) (m : List (ℕ × StreamFrame))
      → AllCut c m
      → find k m ≡ some f
      → IsCut c f
  unfolding find
  find-IsCut k f [] a e = cc
  find-IsCut k f ((j, g) ∷ m) a e = ground (arith, find-IsCut k f m a.1)

push_queue :
    (s : Sorter) (f : StreamFrame)
    → ((push s f).0.read_position ≡ s.read_position)
      × (((push s f).0.queued ≡ s.queued)
          ⊎ ((find f.offset s.queued ≡ none) × ((push s f).0.queued ≡ assign f.offset f s.queued)))
unfolding push push_new after_place
push_queue s f = ground arith

-- The calls of the stream: frames arrive, and the reader pops.
pub data Call : Type 0 where
  pushes : StreamFrame → Call
  pops : Call

abbrev pub bytes_of : Option StreamFrame → List ℕ
bytes_of none = []
bytes_of (some f) = f.bytes

unfoldable pub run : Sorter → List Call → Sorter
run s [] = s
run s (pushes f ∷ cs) = run (push s f).0 cs
run s (pops ∷ cs) = run (pop s).0 cs

-- The data of the popped frames, one after the other.
unfoldable pub delivered : Sorter → List Call → List ℕ
delivered s [] = []
delivered s (pushes f ∷ cs) = delivered (push s f).0 cs
delivered s (pops ∷ cs) = bytes_of (pop s).1 ++ delivered (pop s).0 cs

abbrev pub AreCut : (ℕ → ℕ) → List Call → Type 0
AreCut c [] = Unit {0}
AreCut c (pushes f ∷ cs) = IsCut c f × AreCut c cs
AreCut c (pops ∷ cs) = AreCut c cs

pub record Holds (c : ℕ → ℕ) (s : Sorter) : Type 0 where
  pub keyed : Keyed s.queued
  pub cut : AllCut c s.queued

pub push-Holds :
    (c : ℕ → ℕ) (s : Sorter) (f : StreamFrame) → IsCut c f → Holds c s → Holds c (push s f).0
push-Holds c s f h v = elim ((push_queue s f).1) [
  | inl e ↦ record { keyed = rw e v.keyed; cut = rw e v.cut }
  | inr (n, e) ↦ record {
    keyed = rw e (Keyed-assign f s.queued n v.keyed);
    cut = rw e (AllCut-assign c f.offset f s.queued h v.cut);
  }
]

-- A pop moves the read position past exactly the stream's bytes that it hands out.
pub pop-Holds :
    (c : ℕ → ℕ) (s : Sorter)
    → Holds c s
    → Holds c (pop s).0
      × (slice c 0 s.read_position ++ bytes_of (pop s).1 ≡ slice c 0 (pop s).0.read_position)
unfolding pop
pop-Holds c s v = elim (Option-cases (find s.read_position s.queued)) [
  | inl e ↦ rw (e, pop) (v, append-nil _)
  | inr (f, e) ↦
      let o = find-offset s.read_position f s.queued v.keyed e in
      let cut = find-IsCut c s.read_position f s.queued v.cut e in
      rw (e, pop)
        (
          record {
            keyed = Keyed-remove f.offset s.queued v.keyed;
            cut = AllCut-remove c f.offset s.queued v.cut;
          },
          ap (◌++◌ (slice c 0 s.read_position)) cut.0
              ∙ sym (
                  slice-append c 0 s.read_position (data_len f) _ f.offset (omega arith)
                    (omega arith)),
        )
]

run-delivered :
    (c : ℕ → ℕ) (s : Sorter) (cs : List Call)
    → AreCut c cs
    → Holds c s
    → slice c 0 s.read_position ++ delivered s cs ≡ slice c 0 (run s cs).read_position
unfolding run delivered
run-delivered c s [] h v = append-nil _
run-delivered c s (pushes f ∷ cs) h v =
    ap (λ (k : ℕ). slice c 0 k ++ delivered (push s f).0 cs) (sym (push_queue s f).0)
    ∙ run-delivered c (push s f).0 cs h.1 (push-Holds c s f h.0 v)
run-delivered c s (pops ∷ cs) h v =
    let (v', e) = pop-Holds c s v in
    sym (append_assoc _ (bytes_of (pop s).1) _)
    ∙ ap (λ (l : List ℕ). l ++ delivered (pop s).0 cs) e
    ∙ run-delivered c (pop s).0 cs h v'

-- Frames that are cut from one stream of bytes arrive in any order, some of them twice or
-- overlapping, and between them the reader pops: the data that the reader has got is the stream up
-- to the read position, with no byte missing, repeated or out of place.
pub delivered-slice :
    (c : ℕ → ℕ) (cs : List Call)
    → AreCut c cs
    → delivered new_sorter cs ≡ slice c 0 (run new_sorter cs).read_position
unfolding delivered slice new_sorter
delivered-slice c cs h = run-delivered c new_sorter cs h start
  where
    start : Holds c new_sorter
    start = unfold new_sorter in record { keyed = tt; cut = tt }
