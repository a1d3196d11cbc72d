-- ===== src/Sending/Handler/Timeouts.antt =====
-- The retransmission timeout of the sent packet handler.
use quic_go.Base.{
  ℕ, ◌+◌, ◌*◌, ◌%◌, ◌^◌, ◌≤◌, ◌≡◌, refl, arith, false, ◌==◌, if◌then◌else◌, min, max,
}
use native.Mathlib.Nat.{mul-le-mul, pow-le-pow_right}
use quic_go.Protocol.{gt_signed}
use quic_go.Sending.Handler.{
  SendAlgorithm, SentHandler, get_rto, before_first_rto, maybe_queue_rtos,
}

-- The clamped timeout for the delay `m` and the factor `k`.
clamp :
    (least k x : ℕ)
    → least ≤ 60_000_000_000
    → 200_000_000 ≤ least
    → k ≤ 2 ^ 26
    → x ≡ least * k
    → (if gt_signed (x % 2 ^ 64) 60_000_000_000 then 60_000_000_000 else x % 2 ^ 64)
      ≡ min x 60_000_000_000
clamp least k x a b c e = let l = mul-le-mul a c in ground (arith, l, e)

least_max :
    (b : ℕ)
    → b ≤ 60_000_000_000
    → (if gt_signed b 200_000_000 then b else 200_000_000) ≡ max b 200_000_000
least_max b l = ground arith

-- A measured delay of 0 stands for none.
abbrev pub delay_or_default : ℕ → ℕ
delay_or_default m = if m == 0 then 500_000_000 else m

module _ {C : Type 0} (alg : SendAlgorithm C) (h : SentHandler C) where
  -- For a measured delay of at most 60 s and at most 26 timeouts in a row nothing overflows: the
  -- timeout is the larger of 200 ms and the measured delay (500 ms if there is none), doubled for
  -- each timeout in a row, but at most 60 s.
  pub get_rto_lem :
      alg.retransmission_delay h.congestion ≤ 60_000_000_000
      → h.consecutive_rto_count ≤ 26
      → get_rto alg h
        ≡ min
            (max (delay_or_default (alg.retransmission_delay h.congestion)) 200_000_000
              * 2 ^ h.consecutive_rto_count)
            60_000_000_000
  unfolding get_rto
  get_rto_lem m n =
      let base = delay_or_default (alg.retransmission_delay h.congestion) in
      let l : base ≤ 60_000_000_000 = ground (arith, m) in
      let least = max base 200_000_000 in
      rw (least_max base l) (
        clamp least (2 ^ h.consecutive_rto_count) (least * 2 ^ h.consecutive_rto_count)
          (omega (arith, l)) (omega arith) (pow-le-pow_right (omega arith) n) refl)

  -- A handler that has not sent anything counts a timeout, whenever it is asked, since
  -- TimeOfFirstRTO is the zero time then.
  pub maybe_queue_rtos-unsent :
      (now : ℕ)
      → h.last_sent_packet_time ≡ 0
      → (maybe_queue_rtos alg h now).consecutive_rto_count ≡ (h.consecutive_rto_count + 1) % 2 ^ 32
  unfolding maybe_queue_rtos
  maybe_queue_rtos-unsent now z =
      let b : before_first_rto alg h now ≡ false = unfold before_first_rto in ground (arith, z) in
      rw b refl
