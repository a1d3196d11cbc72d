-- ===== src/Sending/Handler/Accounting.antt =====
-- The packet history of the sent packet handler, and the bytes in flight.
use quic_go.Base.{
  ℕ, ◌+◌, ◌^◌, ◌≤◌, ◌<◌, ◌≡◌, inl, inr, refl, arith, List, [], ◌∷◌, ◌++◌, All, ltb, leb, ◌==◌, ◌||◌,
  Bool-cases,
}
use quic_go.Protocol.{sub64}
use quic_go.Frames.Ack.{AckFrame, acks_packet}
use quic_go.Sending.Handler.{
  Packet, SendAlgorithm, SentHandler, sent_packet, received_ack, queue_rto, maybe_queue_rtos,
  before_first_rto,
}
use quic_go.Sending.Handler.Loop.{
  Ascending, is_lost, acked_packets, lost_packets, surviving_packets, total_bytes,
}
use quic_go.Sending.Handler.Acks.{IsCoherent, received_ack-Takes}
use quic_go.Sending.Handler.Errors.{Unmoved-or_Passes}

-- The history is in the order of the packet numbers, all of them sent, and the bytes in flight are
-- the bytes of its packets.
pub record IsTracked {C : Type 0} (h : SentHandler C) : Type 0 where
  pub ascending : Ascending h.packet_history
  pub sent : All (λ q. q.packet_number ≤ h.last_sent_packet_number) h.packet_history
  pub in_flight : h.bytes_in_flight ≡ total_bytes h.packet_history
  pub fits : h.bytes_in_flight < 2 ^ 64

module _ (f : AckFrame) where
  -- Each packet is acked, lost or stays.
  total_bytes-split :
      (ps : List Packet)
      → total_bytes (surviving_packets f ps)
          + total_bytes (acked_packets f ps)
          + total_bytes (lost_packets f ps)
        ≡ total_bytes ps
  unfolding surviving_packets acked_packets lost_packets acks_packet
  total_bytes-split [] = refl
  total_bytes-split (p ∷ ps) = ground (arith, total_bytes-split ps)

  surviving-All :
      (P : ℕ → Type 0) (ps : List Packet)
      → All (λ q. P q.packet_number) ps
      → All (λ q. P q.packet_number) (surviving_packets f ps)
  unfolding surviving_packets
  surviving-All P [] a = tt
  surviving-All P (p ∷ ps) a =
      let later = surviving-All P ps a.1 in
      elim (Bool-cases (ltb f.largest_acked p.packet_number)) [
        | inl b ↦ rw b (a.0, later)
        | inr b ↦ elim (Bool-cases (acks_packet f p.packet_number || is_lost p)) [
          | inl c ↦ rw (b, c) later
          | inr c ↦ rw (b, c) (a.0, later)
        ]
      ]

  surviving-Ascending : (ps : List Packet) → Ascending ps → Ascending (surviving_packets f ps)
  unfolding surviving_packets
  surviving-Ascending [] a = tt
  surviving-Ascending (p ∷ ps) a =
      let later = surviving-Ascending ps a.1 in
      let above = surviving-All (λ n. p.packet_number < n) ps a.0 in
      elim (Bool-cases (ltb f.largest_acked p.packet_number)) [
        | inl b ↦ rw b (above, later)
        | inr b ↦ elim (Bool-cases (acks_packet f p.packet_number || is_lost p)) [
          | inl c ↦ rw (b, c) later
          | inr c ↦ rw (b, c) (above, later)
        ]
      ]

total_bytes-snoc :
    (ps : List Packet) (p : Packet) → total_bytes (ps ++ p ∷ []) ≡ total_bytes ps + p.bytes
total_bytes-snoc [] p = omega arith
total_bytes-snoc (q ∷ ps) p = omega (arith, total_bytes-snoc ps p)

sent-snoc :
    (m n : ℕ) (ps : List Packet) (p : Packet)
    → m ≤ n
    → p.packet_number ≡ n
    → All (λ q. q.packet_number ≤ m) ps
    → All (λ q. q.packet_number ≤ n) (ps ++ p ∷ [])
sent-snoc m n [] p l e a = (omega (arith, e), tt)
sent-snoc m n (q ∷ ps) p l e a = (omega (arith, a.0), sent-snoc m n ps p l e a.1)

above-snoc :
    (x m : ℕ) (ps : List Packet) (p : Packet)
    → x ≤ m
    → m < p.packet_number
    → All (λ q. x < q.packet_number) ps
    → All (λ q. x < q.packet_number) (ps ++ p ∷ [])
above-snoc x m [] p l k a = (omega (arith, l, k), tt)
above-snoc x m (q ∷ ps) p l k a = (a.0, above-snoc x m ps p l k a.1)

Ascending-snoc :
    (m : ℕ) (ps : List Packet) (p : Packet)
    → m < p.packet_number
    → All (λ q. q.packet_number ≤ m) ps
    → Ascending ps
    → Ascending (ps ++ p ∷ [])
Ascending-snoc m [] p k b a = (tt, tt)
Ascending-snoc m (q ∷ ps) p k b a =
    (above-snoc q.packet_number m ps p b.0 k a.0, Ascending-snoc m ps p k b.1 a.1)

-- Dropping the front of a history.
tracked_tail :
    {C : Type 0} (h : SentHandler C) (p : Packet) (ps : List Packet)
    → h.packet_history ≡ p ∷ ps
    → IsTracked h
    → Ascending ps
      × All (λ q. q.packet_number ≤ h.last_sent_packet_number) ps
      × (sub64 h.bytes_in_flight p.bytes ≡ total_bytes ps)
      × (total_bytes ps < 2 ^ 64)
tracked_tail h p ps e i =
    let a : Ascending (p ∷ ps) = rw e at i.ascending in
    let s : All (λ q. q.packet_number ≤ h.last_sent_packet_number) (p ∷ ps) = rw e at i.sent in
    let b : h.bytes_in_flight ≡ p.bytes + total_bytes ps = rw e at i.in_flight in
    (a.1, s.1, omega (arith, b, i.fits), omega (arith, b, i.fits))

module _ {C : Type 0} (alg : SendAlgorithm C) where
  -- Sending a packet, also one that is refused, keeps the history in the order of the packet numbers,
  -- all of them sent, and the bytes in flight the bytes of its packets, when these do not overflow.
  pub sent_packet-IsTracked :
      (h : SentHandler C) (p : Packet) (now : ℕ)
      → h.bytes_in_flight + p.bytes < 2 ^ 64
      → IsTracked h
      → IsTracked (sent_packet alg h p now).0
  unfolding sent_packet
  sent_packet-IsTracked h p now l i =
      elim (Bool-cases (leb p.packet_number h.last_sent_packet_number)) [
        | inl a ↦ rw a i
        | inr a ↦ elim (Bool-cases (p.bytes == 0)) [
          | inl b ↦
              rw (a, b)
                (record {
                  ascending = i.ascending;
                  sent = i.sent;
                  in_flight = i.in_flight;
                  fits = i.fits;
                })
          | inr b ↦
              rw (a, b)
                (record {
                  ascending =
                      Ascending-snoc h.last_sent_packet_number h.packet_history
                        (record p { send_time = now }) (ground arith) i.sent i.ascending;
                  sent =
                      sent-snoc h.last_sent_packet_number p.packet_number h.packet_history
                        (record p { send_time = now }) (ground arith) refl i.sent;
                  in_flight = omega (
                    arith,
                    l,
                    i.in_flight,
                    total_bytes-snoc h.packet_history (record p { send_time = now }),
                  );
                  fits = omega (arith, l);
                })
        ]
      ]

  -- Any coherent ACK frame, taken or refused, keeps the history in the order of the packet numbers,
  -- all of them sent, and the bytes in flight the bytes of its packets.
  pub received_ack-IsTracked :
      (h : SentHandler C) (f : AckFrame) (w t : ℕ)
      → IsCoherent f
      → IsTracked h
      → IsTracked (received_ack alg h f w t).0
  received_ack-IsTracked h f w t c i = elim (Unmoved-or_Passes alg h f w t) [
    | inl u ↦ record {
      ascending = rw u.history i.ascending;
      sent = rw (u.history, u.last_sent) i.sent;
      in_flight = rw (u.history, u.in_flight) i.in_flight;
      fits = rw u.in_flight i.fits;
    }
    | inr p ↦
        let k = received_ack-Takes alg h f w t c i.ascending p in
        let b = k.in_flight (omega (arith, i.in_flight)) i.fits in
        let d = total_bytes-split f h.packet_history in
        record {
          ascending = rw k.history (surviving-Ascending f h.packet_history i.ascending);
          sent =
              rw (k.history, k.last_sent)
                (surviving-All f (λ n. n ≤ h.last_sent_packet_number) h.packet_history i.sent);
          in_flight = rw k.history (omega (arith, b, d, i.in_flight));
          fits = omega (arith, b, i.fits);
        }
  ]

  queue_rto-IsTracked : (h : SentHandler C) → IsTracked h → IsTracked (queue_rto alg h)
  unfolding queue_rto
  queue_rto-IsTracked h i = by_history h.packet_history refl
    where
      by_history : (ps : List Packet) → h.packet_history ≡ ps → IsTracked (queue_rto alg h)
      by_history [] e =
          let b : h.bytes_in_flight ≡ 0 = rw e at i.in_flight in
          rw e (record { ascending = tt; sent = tt; in_flight = b; fits = i.fits })
      by_history (p ∷ ps) e =
          let (a, s, b, l) = tracked_tail h p ps e i in
          rw e (record { ascending = a; sent = s; in_flight = b; fits = rw b l })

  -- A retransmission timeout keeps the history in the order of the packet numbers, all of them sent,
  -- and the bytes in flight the bytes of its packets.
  pub maybe_queue_rtos-IsTracked :
      (h : SentHandler C) (now : ℕ) → IsTracked h → IsTracked (maybe_queue_rtos alg h now)
  unfolding maybe_queue_rtos
  maybe_queue_rtos-IsTracked h now i =
      let k = queue_rto-IsTracked (queue_rto alg h) (queue_rto-IsTracked h i) in
      elim (Bool-cases (before_first_rto alg h now)) [
        | inl e ↦ rw e i
        | inr e ↦ rw e (record {
          ascending = k.ascending;
          sent = k.sent;
          in_flight = k.in_flight;
          fits = k.fits;
        })
      ]
