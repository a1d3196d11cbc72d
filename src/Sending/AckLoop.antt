-- ===== src/Sending/AckLoop.antt =====
-- The loop of ReceivedAck in ackhandler/sent_packet_handler.go, with ackPacket, nackPacket and
-- queuePacketForRetransmission. The linked list is a list, the oldest packet first.
use quic_go.Base.{ℕ, ◌+◌, ◌%◌, Bool, true, List, [], ◌∷◌, ◌++◌, ltb, leb, ◌==◌, if◌then◌else◌}
use quic_go.Protocol.{sub64}
use quic_go.Frames.Ack.{AckRange, AckFrame, has_missing_ranges}
use quic_go.Sending.StopWaiting.{StopWaitingManager, queued_retransmission}
use quic_go.Sending.Packet.{Packet, PacketInfo, SendAlgorithm, retransmission_threshold}

-- One ACK range, or the next one while the packet lies above it and one is left. The ranges that are
-- left come lowest first: AckRanges from the end on.
unfoldable pub advance : ℕ → List AckRange → List AckRange
advance p [] = []
advance p (r ∷ []) = r ∷ []
advance p (r ∷ s ∷ rs) = let next = advance p (s ∷ rs) in if ltb r.last p then next else r ∷ s ∷ rs

-- What the loop of ReceivedAck changes.
pub record Progress (C : Type 0) : Type 0 where
  pub kept : List Packet
  pub in_flight : ℕ
  pub queue : List Packet
  pub stop_waiting : StopWaitingManager
  pub congestion : C
  pub acked : List PacketInfo
  pub lost : List PacketInfo
  pub rtt_updated : Bool
  pub bug : Bool

abbrev pub info : Packet → PacketInfo
info p = record { number = p.packet_number; bytes = p.bytes }

abbrev pub report_missing : Packet → Packet
report_missing p = record p { missing_reports = (p.missing_reports + 1) % 256 }

module _ {C : Type 0} where
  -- The packets in front of a list stay where they are.
  abbrev pub put_back : Packet → Progress C → Progress C
  put_back p g = record g { kept = p ∷ g.kept }

  -- ackPacket, with the packet noted as acked
  unfoldable pub ack_packet : Packet → Progress C → Progress C
  ack_packet p g = record g {
    in_flight = sub64 g.in_flight p.bytes;
    acked = g.acked ++ (info p ∷ []);
  }

  -- queuePacketForRetransmission, with the packet noted as lost
  unfoldable pub lose_packet : Packet → Progress C → Progress C
  lose_packet p g = record g {
    in_flight = sub64 g.in_flight p.bytes;
    queue = g.queue ++ (p ∷ []);
    stop_waiting = queued_retransmission g.stop_waiting p.packet_number;
    lost = g.lost ++ (info p ∷ []);
  }

  -- nackPacket, and then the rest of the loop
  unfoldable pub nack_packet : Packet → Progress C → (Progress C → Progress C) → Progress C
  unfolding lose_packet
  nack_packet p g rest =
      if ltb retransmission_threshold (report_missing p).missing_reports
      then rest (lose_packet (report_missing p) g)
      else put_back (report_missing p) (rest g)

  -- A packet against the range that the loop has come to, and then the rest of the loop.
  unfoldable pub by_range :
      Packet
      → List Packet
      → Progress C
      → List AckRange
      → (List AckRange → Progress C → Progress C)
      → Progress C
  by_range p ps g [] rest = record g { kept = p ∷ ps; bug = true }
  by_range p ps g (r ∷ rs) rest =
      if leb r.first p.packet_number
      then if ltb r.last p.packet_number
        then record g { kept = p ∷ ps; bug = true }
        else rest (r ∷ rs) (ack_packet p g)
      else nack_packet p g (rest (r ∷ rs))

module _ {C : Type 0} (alg : SendAlgorithm C) where
  -- UpdateRTT for the packet that has the largest acked number
  unfoldable pub measure_rtt : ℕ → AckFrame → Packet → Progress C → Progress C
  measure_rtt rcv_time f p g =
      if p.packet_number == f.largest_acked
      then record g {
        rtt_updated = true;
        congestion = alg.update_rtt g.congestion (sub64 rcv_time p.send_time) f.delay_time rcv_time;
      }
      else g

  -- The loop of ReceivedAck over the packet history; `left` are the ranges from ackRangeIndex on.
  -- A packet beyond the largest acked number ends it. It is a panic of the source, and no list of
  -- ranges of a frame with missing ranges is empty, that ends it at `[]`.
  unfoldable pub ack_loop : ℕ → AckFrame → List AckRange → List Packet → Progress C → Progress C
  unfolding measure_rtt
  ack_loop rcv_time f left [] g = g
  ack_loop rcv_time f left (p ∷ ps) g =
      let below = nack_packet p g (λ g'. ack_loop rcv_time f left ps g') in
      let g1 = measure_rtt rcv_time f p g in
      let stop = record g1 { kept = p ∷ ps } in
      let whole = ack_loop rcv_time f left ps (ack_packet p g1) in
      let ranged =
        by_range p ps g1 (advance p.packet_number left) (λ rs g'. ack_loop rcv_time f rs ps g') in
      if ltb p.packet_number f.lowest_acked
      then below
      else if ltb f.largest_acked p.packet_number
      then stop
      else if has_missing_ranges f
      then ranged
      else whole
