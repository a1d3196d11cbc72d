-- ===== src/Sending/Handler/Loop.antt =====
-- What the loop of ReceivedAck does to the packets, against AcksPacket.
use quic_go.Base.{
  ℕ, ◌+◌, ◌^◌, ◌≤◌, ◌<◌, ◌≡◌, inl, inr, refl, sym, ap, ◌∙◌, arith, Bool, true, false, ◌||◌, List,
  [], ◌∷◌, ◌++◌, map, All, ltb, ◌==◌, if◌then◌else◌, Bool-cases, append-nil, append_assoc,
}
use quic_go.Frames.Ack.{AckFrame, acks_packet}
use quic_go.Sending.Handler.{
  Packet, Progress, SendAlgorithm, info, report_missing, put_back, ack_packet, lose_packet,
  nack_packet, measure_rtt, retransmission_threshold,
}

-- The packets of a history in the order of their numbers.
abbrev pub Ascending : List Packet → Type 0
Ascending [] = Unit {0}
Ascending (p ∷ ps) = All (λ q. p.packet_number < q.packet_number) ps × Ascending ps

-- One more report makes a packet lost.
abbrev pub is_lost : Packet → Bool
is_lost p = ltb retransmission_threshold (report_missing p).missing_reports

-- What a frame means for the packets, one by one: those that it acks, those that are reported
-- missing once too often, and those that stay, with the report noted.
module _ (f : AckFrame) where
  unfoldable pub acked_packets : List Packet → List Packet
  acked_packets [] = []
  acked_packets (p ∷ ps) =
      if acks_packet f p.packet_number then p ∷ acked_packets ps else acked_packets ps

  unfoldable pub lost_packets : List Packet → List Packet
  lost_packets [] = []
  lost_packets (p ∷ ps) =
      if ltb f.largest_acked p.packet_number || acks_packet f p.packet_number
      then lost_packets ps
      else if is_lost p
      then report_missing p ∷ lost_packets ps
      else lost_packets ps

  unfoldable pub surviving_packets : List Packet → List Packet
  surviving_packets [] = []
  surviving_packets (p ∷ ps) =
      if ltb f.largest_acked p.packet_number
      then p ∷ surviving_packets ps
      else if acks_packet f p.packet_number || is_lost p
      then surviving_packets ps
      else report_missing p ∷ surviving_packets ps

abbrev pub total_bytes : List Packet → ℕ
total_bytes [] = 0
total_bytes (p ∷ ps) = p.bytes + total_bytes ps

-- The loop from `g` on to `r` did that to the packets, and to the counters.
pub record Processed {C : Type 0} (f : AckFrame) (ps : List Packet) (g r : Progress C)
    : Type 0 where
  pub kept : r.kept ≡ surviving_packets f ps
  pub queue : r.queue ≡ g.queue ++ lost_packets f ps
  pub acked : r.acked ≡ g.acked ++ map info (acked_packets f ps)
  pub lost : r.lost ≡ g.lost ++ map info (lost_packets f ps)
  pub in_flight :
      total_bytes ps ≤ g.in_flight
      → g.in_flight < 2 ^ 64
      → r.in_flight + total_bytes (acked_packets f ps) + total_bytes (lost_packets f ps)
        ≡ g.in_flight
  pub no_bug : r.bug ≡ false

-- The four things that can happen to a packet.
module _ {C : Type 0} (f : AckFrame) (p : Packet) (ps : List Packet) (g r : Progress C) where
  Processed-acked :
      ltb f.largest_acked p.packet_number ≡ false
      → acks_packet f p.packet_number ≡ true
      → Processed f ps (ack_packet p g) r
      → Processed f (p ∷ ps) g r
  unfolding ack_packet acked_packets lost_packets surviving_packets
  Processed-acked b a h = record {
    kept = rw (b, a) h.kept;
    queue = rw (b, a) h.queue;
    acked = rw a (h.acked ∙ append_assoc g.acked _ _);
    lost = rw (b, a) h.lost;
    in_flight = λ k l. rw (b, a) (omega (arith, h.in_flight (omega arith) (omega arith)));
    no_bug = h.no_bug;
  }

  Processed-kept :
      ltb f.largest_acked p.packet_number ≡ false
      → acks_packet f p.packet_number ≡ false
      → is_lost p ≡ false
      → Processed f ps g r
      → Processed f (p ∷ ps) g (put_back (report_missing p) r)
  unfolding acked_packets lost_packets surviving_packets
  Processed-kept b a d h = record {
    kept = rw (b, a, d) (ap (λ (l : List Packet). report_missing p ∷ l) h.kept);
    queue = rw (b, a, d) h.queue;
    acked = rw a h.acked;
    lost = rw (b, a, d) h.lost;
    in_flight = λ k l. rw (b, a, d) (omega (arith, h.in_flight (omega arith) l));
    no_bug = h.no_bug;
  }

  Processed-lost :
      ltb f.largest_acked p.packet_number ≡ false
      → acks_packet f p.packet_number ≡ false
      → is_lost p ≡ true
      → Processed f ps (lose_packet (report_missing p) g) r
      → Processed f (p ∷ ps) g r
  unfolding lose_packet acked_packets lost_packets surviving_packets
  Processed-lost b a d h = record {
    kept = rw (b, a, d) h.kept;
    queue = rw (b, a, d) (h.queue ∙ append_assoc g.queue _ _);
    acked = rw a h.acked;
    lost = rw (b, a, d) (h.lost ∙ append_assoc g.lost _ _);
    in_flight = λ k l. rw (b, a, d) (omega (arith, h.in_flight (omega arith) (omega arith)));
    no_bug = h.no_bug;
  }

-- Nothing is put back yet, and no wrong packet was met.
abbrev pub Fresh : {C : Type 0} → Progress C → Type 0
Fresh g = (g.kept ≡ []) × (g.bug ≡ false)

-- A packet that is reported missing, whatever comes after it.
pub Processed-nack :
    {C : Type 0} (f : AckFrame) (p : Packet) (ps : List Packet) (g : Progress C)
    (rest : Progress C → Progress C)
    → ltb f.largest_acked p.packet_number ≡ false
    → acks_packet f p.packet_number ≡ false
    → Fresh g
    → ((g' : Progress C) → Fresh g' → Processed f ps g' (rest g'))
    → Processed f (p ∷ ps) g (nack_packet p g rest)
unfolding nack_packet lose_packet
Processed-nack f p ps g rest b a z h = elim (Bool-cases (is_lost p)) [
  | inl d ↦ rw d (Processed-lost f p ps g _ b a d (h _ z))
  | inr d ↦ rw d (Processed-kept f p ps g _ b a d (h g z))
]

pub Processed-ack :
    {C : Type 0} (f : AckFrame) (p : Packet) (ps : List Packet) (g : Progress C)
    (rest : Progress C → Progress C)
    → ltb f.largest_acked p.packet_number ≡ false
    → acks_packet f p.packet_number ≡ true
    → Fresh g
    → ((g' : Progress C) → Fresh g' → Processed f ps g' (rest g'))
    → Processed f (p ∷ ps) g (rest (ack_packet p g))
unfolding ack_packet
Processed-ack f p ps g rest b a z h = Processed-acked f p ps g _ b a (h (ack_packet p g) z)

-- Past the largest acked number nothing changes any more.
beyond :
    (f : AckFrame) (ps : List Packet)
    → All (λ q. f.largest_acked < q.packet_number) ps
    → (surviving_packets f ps ≡ ps) × (lost_packets f ps ≡ []) × (acked_packets f ps ≡ [])
unfolding acked_packets lost_packets surviving_packets acks_packet
beyond f [] a = (refl, refl, refl)
beyond f (p ∷ ps) a = ground (arith, beyond f ps a.1)

pub All-above :
    (n m : ℕ) (ps : List Packet)
    → n ≤ m
    → All (λ q. m < q.packet_number) ps
    → All (λ q. n < q.packet_number) ps
All-above n m [] l a = tt
All-above n m (p ∷ ps) l a = (omega (arith, l, a.0), All-above n m ps l a.1)

pub Processed-beyond :
    {C : Type 0} (f : AckFrame) (p : Packet) (ps : List Packet) (g : Progress C)
    → f.largest_acked < p.packet_number
    → All (λ q. p.packet_number < q.packet_number) ps
    → g.bug ≡ false
    → Processed f (p ∷ ps) g (record g { kept = p ∷ ps })
Processed-beyond f p ps g h a z =
    let all : All (λ q. f.largest_acked < q.packet_number) (p ∷ ps) =
      (h, All-above f.largest_acked p.packet_number ps (omega arith) a) in
    let (s, l, k) = beyond f (p ∷ ps) all in
    record {
      kept = sym s;
      queue = rw l (sym (append-nil g.queue));
      acked = rw k (sym (append-nil g.acked));
      lost = rw l (sym (append-nil g.lost));
      in_flight = λ _ _. rw (k, l) (omega arith);
      no_bug = z;
    }

pub Processed-none : {C : Type 0} (f : AckFrame) (g : Progress C) → Fresh g → Processed f [] g g
unfolding acked_packets lost_packets surviving_packets
Processed-none f g z = record {
  kept = z.0;
  queue = sym (append-nil g.queue);
  acked = sym (append-nil g.acked);
  lost = sym (append-nil g.lost);
  in_flight = λ _ _. omega arith;
  no_bug = z.1;
}

module _ {C : Type 0} (alg : SendAlgorithm C) where
  -- The RTT is of no concern to the packets.
  pub Processed-measured :
      (t : ℕ) (f : AckFrame) (p : Packet) (ps : List Packet) (g r : Progress C)
      → Processed f ps (measure_rtt alg t f p g) r
      → Processed f ps g r
  unfolding measure_rtt
  Processed-measured t f p ps g r h = elim (Bool-cases (p.packet_number == f.largest_acked)) [
    | inl e ↦
        let k = rw e at h in
        record {
          kept = k.kept;
          queue = k.queue;
          acked = k.acked;
          lost = k.lost;
          in_flight = k.in_flight;
          no_bug = k.no_bug;
        }
    | inr e ↦ rw e at h
  ]

  pub measured-Fresh :
      (t : ℕ) (f : AckFrame) (p : Packet) (g : Progress C)
      → Fresh g
      → Fresh (measure_rtt alg t f p g)
  unfolding measure_rtt
  measured-Fresh t f p g h = ground (arith, h.0, h.1)

-- The three places of a packet number.
pub Processed-cases :
    {C : Type 0} (f : AckFrame) (n : ℕ) (ps : List Packet) (g below stop middle : Progress C)
    → (n < f.lowest_acked → Processed f ps g below)
    → (f.largest_acked < n → Processed f ps g stop)
    → (f.lowest_acked ≤ n → n ≤ f.largest_acked → Processed f ps g middle)
    → Processed f ps g
        (if ltb n f.lowest_acked then below else if ltb f.largest_acked n then stop else middle)
Processed-cases f n ps g below stop middle x y z = elim (Bool-cases (ltb n f.lowest_acked)) [
  | inl e ↦ rw e (x (ground arith))
  | inr e ↦ elim (Bool-cases (ltb f.largest_acked n)) [
    | inl d ↦ rw (e, d) (y (ground arith))
    | inr d ↦ rw (e, d) (z (ground arith) (ground arith))
  ]
]
