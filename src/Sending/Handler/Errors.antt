-- ===== src/Sending/Handler/Errors.antt =====
-- Which frames ReceivedAck refuses, and what it leaves alone then.
use quic_go.Base.{
  ℕ, ◌≤◌, ◌<◌, ◌≡◌, ◌≢◌, ◌⊎◌, inl, inr, refl, arith, true, List, ◌∷◌, ◌++◌, none, some, ltb, leb,
  Bool-cases, false, Option,
}
use quic_go.Frames.Ack.{AckFrame, acks_packet}
use quic_go.Sending.Handler.{
  SendAlgorithm, SentHandler, ack_for_skipped_packet, AckError, ack_for_unsent_packet,
  duplicate_or_out_of_order_ack, any_acked, largest_in_order_acked, received_ack,
}
use quic_go.Sending.Handler.Loop.{Ascending}
use quic_go.Sending.Handler.Acks.{IsCoherent, Passes, Takes, received_ack-Takes}

-- The packets, the bytes in flight, the queue, the skipped numbers, LargestAcked, the congestion
-- controller, the last sent number and the count of timeouts are as before.
pub record Unmoved {C : Type 0} (h h' : SentHandler C) : Type 0 where
  pub history : h'.packet_history ≡ h.packet_history
  pub queue : h'.retransmission_queue ≡ h.retransmission_queue
  pub in_flight : h'.bytes_in_flight ≡ h.bytes_in_flight
  pub skipped : h'.skipped_packets ≡ h.skipped_packets
  pub largest : h'.largest_acked ≡ h.largest_acked
  pub congestion : h'.congestion ≡ h.congestion
  pub last_sent : h'.last_sent_packet_number ≡ h.last_sent_packet_number
  pub timeouts : h'.consecutive_rto_count ≡ h.consecutive_rto_count

Unmoved-noted :
    {C : Type 0} (h : SentHandler C) (w : ℕ)
    → Unmoved h (record h { largest_received_packet_with_ack = w })
Unmoved-noted h w = record {
  history = refl;
  queue = refl;
  in_flight = refl;
  skipped = refl;
  largest = refl;
  congestion = refl;
  last_sent = refl;
  timeouts = refl;
}

module _ {C : Type 0} (alg : SendAlgorithm C) (h : SentHandler C) (f : AckFrame) (w t : ℕ) where
  -- The handler is unmoved, or the frame has passed all tests.
  pub Unmoved-or_Passes : Unmoved h (received_ack alg h f w t).0 ⊎ Passes h f w
  unfolding received_ack
  Unmoved-or_Passes = elim (Bool-cases (ltb h.last_sent_packet_number f.largest_acked)) [
    | inl a ↦ rw a (inl (Unmoved-noted h h.largest_received_packet_with_ack))
    | inr a ↦ elim (Bool-cases (leb w h.largest_received_packet_with_ack)) [
      | inl b ↦ rw (a, b) (inl (Unmoved-noted h h.largest_received_packet_with_ack))
      | inr b ↦ elim (Bool-cases (leb f.largest_acked (largest_in_order_acked h))) [
        | inl c ↦ rw (a, b, c) (inl (Unmoved-noted h w))
        | inr c ↦ elim (Bool-cases (any_acked f h.skipped_packets)) [
          | inl d ↦ rw (a, b, c, d) (inl (Unmoved-noted h w))
          | inr d ↦ inr (record {
            sent = ground arith;
            later = ground arith;
            news = ground arith;
            none_skipped = d;
          })
        ]
      ]
    ]
  ]

  -- Whenever ReceivedAck returns an error for a coherent frame, it has changed nothing but the noted
  -- packet number: the packets, the bytes in flight, the queue, the skipped numbers, LargestAcked,
  -- the congestion controller, the last sent number and the count of timeouts are as before.
  pub received_ack-Unmoved :
      IsCoherent f
      → Ascending h.packet_history
      → (received_ack alg h f w t).1 ≢ none
      → Unmoved h (received_ack alg h f w t).0
  received_ack-Unmoved c a e = elim Unmoved-or_Passes [
    | inl u ↦ u
    | inr p ↦ absurd (e (received_ack-Takes alg h f w t c a p).error)
  ]

  -- Why ReceivedAck leaves a frame alone, and what it returns then: the tests in their order.
  pub data Declined : Option AckError → Type 0 where
    unsent : h.last_sent_packet_number < f.largest_acked → Declined (some ack_for_unsent_packet)
    repeated :
        f.largest_acked ≤ h.last_sent_packet_number
        → w ≤ h.largest_received_packet_with_ack
        → Declined (some duplicate_or_out_of_order_ack)
    nothing_new :
        f.largest_acked ≤ h.last_sent_packet_number
        → h.largest_received_packet_with_ack < w
        → f.largest_acked ≤ largest_in_order_acked h
        → Declined none
    skips :
        f.largest_acked ≤ h.last_sent_packet_number
        → h.largest_received_packet_with_ack < w
        → largest_in_order_acked h < f.largest_acked
        → (p : ℕ) (front back : List ℕ) → h.skipped_packets ≡ front ++ p ∷ back
        → acks_packet f p ≡ true
        → Declined (some ack_for_skipped_packet)

  -- The frame has news and acks no number that was skipped.
  pub record IsTaken : Type 0 where
    pub sent : f.largest_acked ≤ h.last_sent_packet_number
    pub later : h.largest_received_packet_with_ack < w
    pub news : largest_in_order_acked h < f.largest_acked
    pub none_skipped :
        (p : ℕ) (front back : List ℕ)
        → h.skipped_packets ≡ front ++ p ∷ back
        → acks_packet f p ≡ false
    pub takes : Takes h f w (received_ack alg h f w t)
