-- ===== src/Streams/Sorter/Queue.antt =====
-- The map of queued frames: its laws, and the bytes that its frames hold.
use quic_go.Base.{ℕ, ◌+◌, ◌-◌, ◌≤◌, ◌<◌, ◌≡◌, ◌≢◌, ◌⊎◌, refl, arith, List, [], ◌∷◌, none, some}
use quic_go.Frames.StreamFrame.{StreamFrame, data_len}
pub use quic_go.Base.Maps.{find-assign, find-remove}
use quic_go.Streams.Sorter.{find, assign, remove}
use quic_go.Streams.Sorter.Gaps.{within}

-- Every frame is queued under its offset, and no offset twice.
abbrev pub Keyed : List (ℕ × StreamFrame) → Type 0
Keyed [] = Unit {0}
Keyed ((k, f) ∷ m) = (f.offset ≡ k) × (find k m ≡ none) × Keyed m

abbrev pub span : StreamFrame → ℕ → ℕ
span f q = within f.offset (f.offset + data_len f) q

-- In how many queued frames a byte lies.
abbrev pub cover : ℕ → List (ℕ × StreamFrame) → ℕ
cover q [] = 0
cover q ((k, f) ∷ m) = span f q + cover q m

pub cover-assign :
    (q k : ℕ) (f : StreamFrame) (m : List (ℕ × StreamFrame))
    → find k m ≡ none
    → cover q (assign k f m) ≡ cover q m + span f q
unfolding find assign
cover-assign q k f [] e = omega arith
cover-assign q k f ((i, g) ∷ m) e = ground (arith, cover-assign q k f m)

remove_absent : (k : ℕ) (m : List (ℕ × StreamFrame)) → find k m ≡ none → remove k m ≡ m
unfolding find remove
remove_absent k [] e = refl
remove_absent k ((i, g) ∷ m) e = ground (arith, remove_absent k m)

pub cover-remove :
    (q k : ℕ) (f : StreamFrame) (m : List (ℕ × StreamFrame))
    → Keyed m
    → find k m ≡ some f
    → cover q (remove k m) + span f q ≡ cover q m
unfolding find remove
cover-remove q k f [] h e = cc
cover-remove q k f ((i, g) ∷ m) h e = ground (arith, cover-remove q k f m h.2, remove_absent k m)

pub Keyed-assign :
    (f : StreamFrame) (m : List (ℕ × StreamFrame))
    → find f.offset m ≡ none
    → Keyed m
    → Keyed (assign f.offset f m)
unfolding find assign
Keyed-assign f [] e h = (refl, refl, tt)
Keyed-assign f ((i, g) ∷ m) e h = ground (arith, Keyed-assign f m, find-assign f.offset i f m)

pub Keyed-remove : (k : ℕ) (m : List (ℕ × StreamFrame)) → Keyed m → Keyed (remove k m)
unfolding remove
Keyed-remove k [] h = tt
Keyed-remove k ((i, g) ∷ m) h = ground (arith, Keyed-remove k m h.2, find-remove k i m)

pub find-offset :
    (k : ℕ) (f : StreamFrame) (m : List (ℕ × StreamFrame))
    → Keyed m
    → find k m ≡ some f
    → f.offset ≡ k
unfolding find
find-offset k f [] h e = cc
find-offset k f ((i, g) ∷ m) h e = ground (arith, find-offset k f m h.2)

-- A byte that is queued, and the byte before it is not: a queued frame starts there.
pub starts_frame :
    (s : ℕ) (m : List (ℕ × StreamFrame))
    → Keyed m
    → 0 < cover s m
    → (s ≡ 0) ⊎ (cover (s - 1) m ≡ 0)
    → find s m ≢ none
unfolding find
starts_frame s [] h c b = absurd (omega arith)
starts_frame s ((i, g) ∷ m) h c b = ground (arith, starts_frame s m h.2)

-- A queued frame holds its bytes.
pub find-cover :
    (k q : ℕ) (f : StreamFrame) (m : List (ℕ × StreamFrame))
    → find k m ≡ some f
    → span f q ≤ cover q m
unfolding find
find-cover k q f [] e = cc
find-cover k q f ((i, g) ∷ m) e = ground (arith, find-cover k q f m)
