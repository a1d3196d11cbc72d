-- ===== src/Sending/Handler/Whole.antt =====
-- The loop of ReceivedAck from its first packet to its last.
use quic_go.Base.{
  ℕ, ◌≤◌, ◌<◌, ◌≡◌, inl, inr, refl, sym, ap, ◌∙◌, arith, true, false, List, [], ◌∷◌, All, ltb, leb,
  Bool-cases,
}
use quic_go.Frames.Ack.{AckRange, AckFrame, any_range, acks_packet, has_missing_ranges}
use quic_go.Sending.Handler.{
  Packet, Progress, SendAlgorithm, measure_rtt, by_range, ack_loop, advance,
}
use quic_go.Sending.Handler.Ranges.{Rises, top, any_range_first, advance_lem}
use quic_go.Sending.Handler.Loop.{
  Ascending, Processed, Fresh, Processed-nack, Processed-ack, Processed-beyond, Processed-none,
  Processed-measured, measured-Fresh, Processed-cases,
}

below_lowest : (f : AckFrame) (n : ℕ) → n < f.lowest_acked → acks_packet f n ≡ false
unfolding acks_packet
below_lowest f n h = ground arith

-- The ranges that are left mean the same as the frame for the numbers that are left.
pub record Suits (f : AckFrame) (n : ℕ) (left : List AckRange) : Type 0 where
  pub first : AckRange
  pub others : List AckRange
  pub shape : left ≡ first ∷ others
  pub rises : Rises (first ∷ others)
  pub ends : top first others ≡ f.largest_acked
  pub same : (q : ℕ) → n ≤ q → acks_packet f q ≡ any_range q (first ∷ others)

module _ {C : Type 0} (alg : SendAlgorithm C) (t : ℕ) (f : AckFrame) where
  -- A frame without ranges acks all numbers from the lowest to the largest.
  pub whole_loop :
      (left : List AckRange) (ps : List Packet) (g : Progress C)
      → has_missing_ranges f ≡ false
      → f.lowest_acked ≤ f.largest_acked
      → Ascending ps
      → Fresh g
      → Processed f ps g (ack_loop alg t f left ps g)
  unfolding ack_loop
  whole_loop left [] g e l a z = Processed-none f g z
  whole_loop left (p ∷ ps) g e l a z =
      let rest : (g' : Progress C) → Fresh g' → Processed f ps g' (ack_loop alg t f left ps g') =
        λ g' z'. whole_loop left ps g' e l a.1 z' in
      let g1 = measure_rtt alg t f p g in
      let z1 = measured-Fresh alg t f p g z in
      rw e (
        Processed-cases f p.packet_number (p ∷ ps) g _ _ _
          (λ b.
            Processed-nack f p ps g (ack_loop alg t f left ps) (ground arith)
              (below_lowest f p.packet_number b) z rest)
          (λ b. Processed-measured alg t f p (p ∷ ps) g _ (Processed-beyond f p ps g1 b a.0 z1.1))
          (λ b c. Processed-measured alg t f p (p ∷ ps) g _ (
            Processed-ack f p ps g1 (ack_loop alg t f left ps) (ground arith) (acked b c) z1 rest)))
    where
      acked :
          f.lowest_acked ≤ p.packet_number
          → p.packet_number ≤ f.largest_acked
          → acks_packet f p.packet_number ≡ true
      acked b c = unfold acks_packet in ground arith

  -- Against the range that the loop has come to.
  ranged_step :
      (p : Packet) (ps : List Packet) (g : Progress C) (first : AckRange) (others : List AckRange)
      (rest : List AckRange → Progress C → Progress C)
      → p.packet_number ≤ f.largest_acked
      → p.packet_number ≤ first.last
      → acks_packet f p.packet_number ≡ leb first.first p.packet_number
      → Fresh g
      → ((g' : Progress C) → Fresh g' → Processed f ps g' (rest (first ∷ others) g'))
      → Processed f (p ∷ ps) g (by_range p ps g (first ∷ others) rest)
  unfolding by_range
  ranged_step p ps g first others rest l m a z h =
      elim (Bool-cases (leb first.first p.packet_number)) [
        | inl e ↦
            let d : ltb first.last p.packet_number ≡ false = ground arith in
            rw (e, d) (Processed-ack f p ps g (rest (first ∷ others)) (ground arith) (a ∙ e) z h)
        | inr e ↦ rw e (Processed-nack f p ps g (rest (first ∷ others)) (ground arith) (a ∙ e) z h)
      ]

  Suits-next :
      (n p : ℕ) (left : List AckRange)
      → n ≤ p
      → p ≤ f.largest_acked
      → Suits f n left
      → (first : AckRange) × (others : List AckRange) × (advance p left ≡ first ∷ others)
        × (p ≤ first.last)
        × (acks_packet f p ≡ leb first.first p)
        × Suits f p (first ∷ others)
  Suits-next n p left l m s =
      let a = advance_lem p f.largest_acked s.first s.others s.rises m s.ends in
      let rises : Rises (a.first ∷ a.others) = rw a.shape at a.rises in
      let same : (q : ℕ) → p ≤ q → acks_packet f q ≡ any_range q (a.first ∷ a.others) = λ q k.
        s.same q (omega (arith, l, k))
        ∙ sym (a.same q k)
        ∙ ap (λ (rs : List AckRange). any_range q rs) a.shape in
      (
        a.first,
        a.others,
        ap (λ (rs : List AckRange). advance p rs) s.shape ∙ a.shape,
        a.reaches,
        same p (omega arith) ∙ any_range_first p a.first a.others rises a.reaches,
        record {
          first = a.first;
          others = a.others;
          shape = refl;
          rises = rises;
          ends = a.same_top;
          same = same;
        },
      )

  at_least :
      (n : ℕ) (ps : List Packet)
      → All (λ q. n < q.packet_number) ps
      → All (λ q. n ≤ q.packet_number) ps
  at_least n [] a = tt
  at_least n (p ∷ ps) a = (omega (arith, a.0), at_least n ps a.1)

  pub ranged_loop :
      (n : ℕ) (left : List AckRange) (ps : List Packet) (g : Progress C)
      → has_missing_ranges f ≡ true
      → f.lowest_acked ≤ f.largest_acked
      → Suits f n left
      → All (λ q. n ≤ q.packet_number) ps
      → Ascending ps
      → Fresh g
      → Processed f ps g (ack_loop alg t f left ps g)
  unfolding ack_loop
  ranged_loop n left [] g e l s b a z = Processed-none f g z
  ranged_loop n left (p ∷ ps) g e l s b a z =
      let g1 = measure_rtt alg t f p g in
      let z1 = measured-Fresh alg t f p g z in
      let rest : (g' : Progress C) → Fresh g' → Processed f ps g' (ack_loop alg t f left ps g') =
        λ g' z'. ranged_loop n left ps g' e l s b.1 a.1 z' in
      let later : (rs : List AckRange)
          → Suits f p.packet_number rs
          → (g' : Progress C) → Fresh g'
          → Processed f ps g' (ack_loop alg t f rs ps g') =
        λ rs s' g' z'.
          ranged_loop p.packet_number rs ps g' e l s' (at_least p.packet_number ps a.0) a.1 z' in
      rw e (
        Processed-cases f p.packet_number (p ∷ ps) g _ _ _
          (λ b.
            Processed-nack f p ps g (ack_loop alg t f left ps) (ground arith)
              (below_lowest f p.packet_number b) z rest)
          (λ b. Processed-measured alg t f p (p ∷ ps) g _ (Processed-beyond f p ps g1 b a.0 z1.1))
          (λ _ c. Processed-measured alg t f p (p ∷ ps) g _ (in_range c g1 z1 later)))
    where
      in_range :
          p.packet_number ≤ f.largest_acked
          → (g1 : Progress C) → Fresh g1
          → ((rs : List AckRange)
              → Suits f p.packet_number rs
              → (g' : Progress C) → Fresh g'
              → Processed f ps g' (ack_loop alg t f rs ps g'))
          → Processed f
              (p ∷ ps)
              g1
              (by_range p ps g1 (advance p.packet_number left) (λ rs g'. ack_loop alg t f rs ps g'))
      in_range c g1 z1 later =
          let (first, others, shape, reach, acks, s') = Suits-next n p.packet_number left b.0 c s in
          rw shape (
            ranged_step p ps g1 first others (λ rs g'. ack_loop alg t f rs ps g') c reach acks z1
              (later (first ∷ others) s'))
