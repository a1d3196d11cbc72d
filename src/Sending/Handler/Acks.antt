-- ===== src/Sending/Handler/Acks.antt =====
-- ReceivedAck as a whole.
use mathlib.Core.List.{reverse}
use quic_go.Base.{
  ℕ, ◌+◌, ◌^◌, ◌≤◌, ◌<◌, ◌≡◌, refl, sym, ◌∙◌, arith, true, false, List, [], ◌∷◌, ◌++◌, Option, none,
  All,
}
use quic_go.Frames.Ack.{
  AckRange, AckFrame, has_missing_ranges, validate_ack_ranges, validate_ranges, all_valid,
}
use quic_go.Frames.Ack.Ranges.{NoWrap, lowest, lowest_le, acks_packet-any_range}
use quic_go.Sending.Handler.{
  Packet, SendAlgorithm, SentHandler, AckError, any_acked, largest_in_order_acked, before_ack_loop,
  run_ack_loop, after_ack_loop, received_ack,
}
use quic_go.Sending.Handler.Ranges.{Reversed-ranges}
use quic_go.Sending.Handler.Loop.{
  Ascending, Processed, acked_packets, lost_packets, surviving_packets, total_bytes,
}
use quic_go.Sending.Handler.Whole.{Suits, whole_loop, ranged_loop}

-- A frame with ranges has passed the validation and has the first number of its last range as
-- LowestAcked; no range but the highest ends at the last uint64. Without ranges, LowestAcked is at
-- most LargestAcked.
abbrev pub Coherent : AckFrame → List AckRange → Type 0
Coherent f [] = f.lowest_acked ≤ f.largest_acked
Coherent f (r ∷ rs) = (f.lowest_acked ≡ lowest r rs) × NoWrap rs × (validate_ack_ranges f ≡ true)

abbrev pub IsCoherent : AckFrame → Type 0
IsCoherent f = Coherent f f.ack_ranges

lowest_le_largest :
    (f : AckFrame) (r : AckRange) (rs : List AckRange)
    → f.ack_ranges ≡ r ∷ rs
    → validate_ack_ranges f ≡ true
    → f.lowest_acked ≡ lowest r rs
    → f.lowest_acked ≤ f.largest_acked
unfolding validate_ack_ranges validate_ranges all_valid
lowest_le_largest f r [] e v l = let k = rw e at v in cc
lowest_le_largest f r (s ∷ rs) e v l = let k = rw e at v in ground (arith, lowest_le r (s ∷ rs))

module _ {C : Type 0} (alg : SendAlgorithm C) (h : SentHandler C) (f : AckFrame) (t : ℕ) where
  run_ranged :
      (r : AckRange) (rs : List AckRange)
      → f.ack_ranges ≡ r ∷ rs
      → Coherent f (r ∷ rs)
      → Ascending h.packet_history
      → Processed f h.packet_history (before_ack_loop alg h) (run_ack_loop alg h f t)
  unfolding run_ack_loop
  run_ranged r rs e c a =
      let (l, w, v) = c in
      let d = Reversed-ranges f r rs e v w in
      let s : Suits f 0 (reverse f.ack_ranges) = record {
        first = d.first;
        others = d.others;
        shape = rw e d.shape;
        rises = d.rises;
        ends = d.ends;
        same = λ q _. acks_packet-any_range f r rs q e v l w ∙ rw e (sym (d.same q));
      } in
      ranged_loop alg t f 0 (reverse f.ack_ranges) h.packet_history (before_ack_loop alg h)
        (unfold has_missing_ranges in rw e (ground arith)) (lowest_le_largest f r rs e v l) s
        (all_zero h.packet_history) a (refl, refl)
    where
      all_zero : (ps : List Packet) → All (λ q. 0 ≤ q.packet_number) ps
      all_zero [] = tt
      all_zero (p ∷ ps) = (omega arith, all_zero ps)

  run_any :
      (rs : List AckRange)
      → f.ack_ranges ≡ rs
      → Coherent f rs
      → Ascending h.packet_history
      → Processed f h.packet_history (before_ack_loop alg h) (run_ack_loop alg h f t)
  unfolding run_ack_loop
  run_any [] e c a =
      whole_loop alg t f (reverse f.ack_ranges) h.packet_history (before_ack_loop alg h)
        (unfold has_missing_ranges in rw e refl) c a (refl, refl)
  run_any (r ∷ rs) e c a = run_ranged r rs e c a

  -- For a frame whose ranges are validated, with the first number of the last range as LowestAcked
  -- and no range but the highest at the last uint64, and a history in the order of the packet
  -- numbers: the loop of ReceivedAck, which goes through packets and ranges side by side, does what
  -- AcksPacket says for each packet. The acked packets leave the history, of the others up to
  -- LargestAcked those with more than three reports go to the end of the retransmission queue and
  -- the rest stay with one report more, and those beyond it stay as they are, all in order. The
  -- acked and the lost packets are listed in order, the bytes of both are taken off the bytes in
  -- flight when these cover the history, and the error on a wrong packet does not occur. A frame
  -- without ranges, whose LowestAcked is at most its LargestAcked, acks all between the two.
  pub run_ack_loop-Processed :
      IsCoherent f
      → Ascending h.packet_history
      → Processed f h.packet_history (before_ack_loop alg h) (run_ack_loop alg h f t)
  run_ack_loop-Processed c a = run_any f.ack_ranges refl c a

module _ {C : Type 0} (h : SentHandler C) (f : AckFrame) where
  -- The tests in front of the loop.
  pub record Passes (w : ℕ) : Type 0 where
    pub sent : f.largest_acked ≤ h.last_sent_packet_number
    pub later : h.largest_received_packet_with_ack < w
    pub news : largest_in_order_acked h < f.largest_acked
    pub none_skipped : any_acked f h.skipped_packets ≡ false

  -- What an ACK frame does to the handler.
  pub record Takes (w : ℕ) (r : SentHandler C × Option AckError) : Type 0 where
    pub error : r.1 ≡ none
    pub history : r.0.packet_history ≡ surviving_packets f h.packet_history
    pub queue : r.0.retransmission_queue ≡ h.retransmission_queue ++ lost_packets f h.packet_history
    pub in_flight :
        total_bytes h.packet_history ≤ h.bytes_in_flight
        → h.bytes_in_flight < 2 ^ 64
        → r.0.bytes_in_flight
            + total_bytes (acked_packets f h.packet_history)
            + total_bytes (lost_packets f h.packet_history)
          ≡ h.bytes_in_flight
    pub largest : r.0.largest_acked ≡ f.largest_acked
    pub received_with : r.0.largest_received_packet_with_ack ≡ w
    pub last_sent : r.0.last_sent_packet_number ≡ h.last_sent_packet_number

module _ {C : Type 0} (alg : SendAlgorithm C) (h : SentHandler C) (f : AckFrame) (w t : ℕ) where
  received_ack-passed :
      Passes h f w
      → received_ack alg h f w t ≡ (
          let h1 = record h { largest_received_packet_with_ack = w } in
          after_ack_loop alg h1 f (run_ack_loop alg h1 f t))
  unfolding received_ack
  received_ack-passed p = ground (arith, p.sent, p.later, p.news, p.none_skipped)

  -- A coherent ACK frame that acks no packet that is not sent yet and no skipped packet, acks
  -- something new, and arrives in a packet with a higher number than the last ACK, is taken without
  -- an error: exactly the packets that it acks leave the history, those with too many reports are
  -- queued, the others up to LargestAcked get one report more, the bytes of all that left are taken
  -- from the bytes in flight (when these cover the history), and LargestAcked and the number of the
  -- packet are noted.
  pub received_ack-Takes :
      IsCoherent f
      → Ascending h.packet_history
      → Passes h f w
      → Takes h f w (received_ack alg h f w t)
  unfolding after_ack_loop
  received_ack-Takes c a p =
      let h1 = record h { largest_received_packet_with_ack = w } in
      let d = run_ack_loop-Processed alg h1 f t c a in
      let b : (run_ack_loop alg h1 f t).bug ≡ false = d.no_bug in
      rw (received_ack-passed p, b)
        (record {
          error = refl;
          history = d.kept;
          queue = d.queue;
          in_flight = d.in_flight;
          largest = refl;
          received_with = refl;
          last_sent = refl;
        })
