-- ===== src/Received/Handler/Acks.antt =====
-- The ACK frame of a handler acks exactly the packet numbers of the history, and can always be built.
use quic_go.Base.{
  ℕ, ◌≤◌, ◌≡◌, refl, subst, ◌∙◌, arith, Bool, true, false, ◌||◌, List, [], ◌∷◌, none, some, ltb,
  if◌then◌else◌, length,
}
use quic_go.Frames.Ack.{
  AckRange, AckFrame, acks_packet, any_range, validate_ack_ranges, all_valid, all_apart,
}
use quic_go.Received.History.{PacketInterval, has, ranges_of, get_ack_ranges}
use quic_go.Received.History.Ranges.{covers, Separate, Bounded}
use quic_go.Received.History.Sync.{IsSync}
use quic_go.Received.Handler.{Handler, last_first, build_ack_frame}

-- The highest range ends at the largest packet number that was observed.
abbrev pub Top : List PacketInterval → ℕ → Type 0
Top [] n = n ≡ 0
Top (el ∷ rest) n = el.end ≡ n

any_range-ranges_of : (q : ℕ) (rs : List PacketInterval) → any_range q (ranges_of rs) ≡ covers rs q
unfolding any_range ranges_of
any_range-ranges_of q [] = refl
any_range-ranges_of q (el ∷ rs) = ground (arith, any_range-ranges_of q rs)

-- The start of the lowest range.
low : PacketInterval → List PacketInterval → ℕ
low el [] = el.start
low el (next ∷ rest) = low next rest

last_first-low :
    (el : PacketInterval) (rs : List PacketInterval)
    → last_first (ranges_of (el ∷ rs)) ≡ some (low el rs)
unfolding last_first ranges_of low
last_first-low el [] = refl
last_first-low el (next ∷ rest) = last_first-low next rest

low-le-start :
    (el : PacketInterval) (rs : List PacketInterval) → Separate (el ∷ rs) → low el rs ≤ el.start
unfolding low
low-le-start el [] s = omega arith
low-le-start el (next ∷ rest) s = omega (arith, low-le-start next rest s.2)

covers_bounds :
    (q : ℕ) (el : PacketInterval) (rs : List PacketInterval)
    → Separate (el ∷ rs)
    → covers (el ∷ rs) q ≡ true
    → (low el rs ≤ q) × (q ≤ el.end)
unfolding low
covers_bounds q el [] s h = ground arith
covers_bounds q el (next ∷ rest) s h =
    ground (arith, covers_bounds q next rest s.2, low-le-start next rest s.2)

valid-ranges_of : (rs : List PacketInterval) → Separate rs → all_valid (ranges_of rs) ≡ true
unfolding all_valid ranges_of
valid-ranges_of [] s = refl
valid-ranges_of (el ∷ rs) s = ground (arith, valid-ranges_of rs s.2)

apart-ranges_of :
    (el : PacketInterval) (rs : List PacketInterval)
    → Separate (el ∷ rs)
    → Bounded rs
    → all_apart (record { first = el.start; last = el.end }) (ranges_of rs) ≡ true
unfolding all_apart ranges_of
apart-ranges_of el [] s b = refl
apart-ranges_of el (next ∷ rest) s b = ground (arith, apart-ranges_of next rest s.2 b.1)

-- With one range the frame has no ranges, and its bounds alone say what it acks.
pub frame_of : ℕ → ℕ → PacketInterval → List PacketInterval → AckFrame
frame_of largest time el rs = record {
  largest_acked = largest;
  lowest_acked = low el rs;
  ack_ranges = if ltb 1 (length (ranges_of (el ∷ rs))) then ranges_of (el ∷ rs) else [];
  delay_time = 0;
  packet_received_time = time;
}

early_test :
    (lo hi q : ℕ) (r b : Bool)
    → r ≡ b
    → (b ≡ true → (lo ≤ q) × (q ≤ hi))
    → (if ltb q lo || ltb hi q then false else r) ≡ b
early_test lo hi q r true e w = let (a, c) = w refl in ground arith
early_test lo hi q r false e w = ground arith

frame_of_many :
    (largest time : ℕ) (el next : PacketInterval) (rest : List PacketInterval)
    → (frame_of largest time el (next ∷ rest)).ack_ranges ≡ ranges_of (el ∷ next ∷ rest)
unfolding frame_of ranges_of
frame_of_many largest time el next rest = ground arith

acks_packet_many :
    (f : AckFrame) (q : ℕ) (r : AckRange) (rs : List AckRange)
    → f.ack_ranges ≡ r ∷ rs
    → acks_packet f q
      ≡ (if ltb q f.lowest_acked || ltb f.largest_acked q then false else any_range q f.ack_ranges)
unfolding acks_packet
acks_packet_many f q r rs e = ground arith

acks-frame_of :
    (largest time q : ℕ) (el : PacketInterval) (rs : List PacketInterval)
    → Separate (el ∷ rs)
    → el.end ≡ largest
    → acks_packet (frame_of largest time el rs) q ≡ covers (el ∷ rs) q
acks-frame_of largest time q el [] s t =
    unfold acks_packet frame_of any_range ranges_of low in ground arith
acks-frame_of largest time q el (next ∷ rest) s t =
    let f = frame_of largest time el (next ∷ rest) in
    let e = frame_of_many largest time el next rest in
    acks_packet_many f q (record { first = el.start; last = el.end }) (ranges_of (next ∷ rest))
      (e ∙ unfold ranges_of in refl)
    ∙ rw e (
        unfold frame_of in
        rw (← t) (
          early_test (low el (next ∷ rest)) el.end q _ (covers (el ∷ next ∷ rest) q)
            (any_range-ranges_of q (el ∷ next ∷ rest)) (covers_bounds q el (next ∷ rest) s)))

valid-frame_of :
    (largest time : ℕ) (el : PacketInterval) (rs : List PacketInterval)
    → Separate (el ∷ rs)
    → Bounded rs
    → el.end ≡ largest
    → validate_ack_ranges (frame_of largest time el rs) ≡ true
unfolding validate_ack_ranges frame_of ranges_of
valid-frame_of largest time el [] s b t = refl
valid-frame_of largest time el (next ∷ rest) s b t =
    ground (arith, valid-ranges_of (el ∷ next ∷ rest) s, apart-ranges_of el (next ∷ rest) s b)

pub build-frame_of :
    (h : Handler) (el : PacketInterval) (rs : List PacketInterval)
    → h.history.ranges ≡ el ∷ rs
    → build_ack_frame h ≡ some (frame_of h.largest_observed h.largest_observed_received_time el rs)
unfolding build_ack_frame get_ack_ranges frame_of
build-frame_of h el rs e = rw e (rw (last_first-low el rs, build_ack_frame) refl)

build-none : (h : Handler) → h.history.ranges ≡ [] → build_ack_frame h ≡ none
unfolding build_ack_frame get_ack_ranges ranges_of
build-none h e = rw e refl

-- The frame that GetAckFrame builds passes the validation of received ACK frames, and acks exactly
-- the packet numbers that the history holds. The history is in order, and its highest range ends at
-- the largest packet number observed.
pub build_ack_frame-acks :
    (h : Handler) (f : AckFrame) (q : ℕ)
    → IsSync h.history
    → Top h.history.ranges h.largest_observed
    → build_ack_frame h ≡ some f
    → (acks_packet f q ≡ has q h.history.numbers) × (validate_ack_ranges f ≡ true)
build_ack_frame-acks h f q s t e = by_ranges h.history.ranges refl
  where
    by_ranges :
        (rs : List PacketInterval)
        → h.history.ranges ≡ rs
        → (acks_packet f q ≡ has q h.history.numbers) × (validate_ack_ranges f ≡ true)
    by_ranges [] r = cc (build-none h r)
    by_ranges (el ∷ rs) r =
        let same : f ≡ frame_of h.largest_observed h.largest_observed_received_time el rs =
          cc (build-frame_of h el rs r) in
        let bnd : Bounded (el ∷ rs) = rw r at s.bounded in
        let same_set : covers (el ∷ rs) q ≡ has q h.history.numbers =
          subst (λ (l : List PacketInterval). covers l q ≡ has q h.history.numbers) r (s.same q) in
        let sep : Separate (el ∷ rs) = rw r at s.separate in
        let top : el.end ≡ h.largest_observed = rw r at t in
        rw same
          (acks-frame_of _ _ q el rs sep top ∙ same_set, valid-frame_of _ _ el rs sep bnd.1 top)
