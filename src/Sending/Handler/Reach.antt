-- ===== src/Sending/Handler/Reach.antt =====
-- The states that a sent packet handler can be in, as a relation of its calls.
use quic_go.Base.{ℕ, ◌+◌, ◌^◌, ◌<◌, ◌≡◌, refl, arith, Option, none, some, List, Bool}
use quic_go.Frames.Ack.{AckFrame}
use quic_go.Sending.Handler.{
  Packet, SendAlgorithm, SentHandler, new_sent_handler, sent_packet, received_ack, maybe_queue_rtos,
  dequeue_packet, get_stop_waiting, split_last,
}
use quic_go.Sending.Handler.Acks.{IsCoherent}
use quic_go.Sending.Handler.Accounting.{
  IsTracked, sent_packet-IsTracked, received_ack-IsTracked, maybe_queue_rtos-IsTracked,
}

-- The handlers that calls of its methods make from a new one, in any order and also where they
-- return an error.
pub data Reaches {C : Type 0} (alg : SendAlgorithm C) (c : C) : SentHandler C → Type 0 where
  start : Reaches alg c (new_sent_handler alg c)
  sends :
      {h : SentHandler C}
      → Reaches alg c h
      → (p : Packet) (now : ℕ) → h.bytes_in_flight + p.bytes < 2 ^ 64
      → Reaches alg c (sent_packet alg h p now).0
  gets_ack :
      {h : SentHandler C}
      → Reaches alg c h
      → (f : AckFrame) (w t : ℕ) → IsCoherent f
      → Reaches alg c (received_ack alg h f w t).0
  times_out :
      {h : SentHandler C} → Reaches alg c h → (now : ℕ) → Reaches alg c (maybe_queue_rtos alg h now)
  dequeues : {h : SentHandler C} → Reaches alg c h → Reaches alg c (dequeue_packet h).0
  asks_stop_waiting :
      {h : SentHandler C}
      → Reaches alg c h
      → (force : Bool) → Reaches alg c (get_stop_waiting h force).0

module _ {C : Type 0} (alg : SendAlgorithm C) (c : C) where
  new-IsTracked : IsTracked (new_sent_handler alg c)
  unfolding new_sent_handler
  new-IsTracked = record { ascending = tt; sent = tt; in_flight = refl; fits = omega arith }

  dequeue_packet-IsTracked : (h : SentHandler C) → IsTracked h → IsTracked (dequeue_packet h).0
  unfolding dequeue_packet
  dequeue_packet-IsTracked h i = by_queue (split_last h.retransmission_queue) refl
    where
      by_queue :
          (x : Option (List Packet × Packet))
          → split_last h.retransmission_queue ≡ x
          → IsTracked (dequeue_packet h).0
      by_queue none e = rw (dequeue_packet, e) i
      by_queue (some (front, p)) e =
          rw (dequeue_packet, e)
            (record {
              ascending = i.ascending;
              sent = i.sent;
              in_flight = i.in_flight;
              fits = i.fits;
            })

  get_stop_waiting-IsTracked :
      (h : SentHandler C) (force : Bool) → IsTracked h → IsTracked (get_stop_waiting h force).0
  unfolding get_stop_waiting
  get_stop_waiting-IsTracked h force i = record {
    ascending = i.ascending;
    sent = i.sent;
    in_flight = i.in_flight;
    fits = i.fits;
  }

  -- In every state that a handler reaches from its start by sending packets, receiving coherent ACK
  -- frames, timing out and handing out retransmissions and STOP_WAITING frames, in any order and
  -- also after errors, the history is in the order of the packet numbers, all of them sent, and the
  -- bytes in flight are the bytes of its packets. No packet that is sent overflows the bytes.
  pub Reaches-IsTracked : (h : SentHandler C) → Reaches alg c h → IsTracked h
  Reaches-IsTracked _ start = new-IsTracked
  Reaches-IsTracked _ (sends r p now l) =
      sent_packet-IsTracked alg _ p now l (Reaches-IsTracked _ r)
  Reaches-IsTracked _ (gets_ack r f w t k) =
      received_ack-IsTracked alg _ f w t k (Reaches-IsTracked _ r)
  Reaches-IsTracked _ (times_out r now) =
      maybe_queue_rtos-IsTracked alg _ now (Reaches-IsTracked _ r)
  Reaches-IsTracked _ (dequeues r) = dequeue_packet-IsTracked _ (Reaches-IsTracked _ r)
  Reaches-IsTracked _ (asks_stop_waiting r force) =
      get_stop_waiting-IsTracked _ force (Reaches-IsTracked _ r)
