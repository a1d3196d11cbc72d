-- ===== src/Packets/Unpacker/Ends.antt =====
-- The loop over the frames of a packet ends.
use quic_go.Base.{
  ℕ, zero, suc, ◌<◌, ◌≡◌, ◌≢◌, ◌⊎◌, inl, inr, refl, arith, sym, List, [], ◌∷◌, ◌++◌, ok, err,
  length, Option-cases, Option, Error,
}
use quic_go.Wire.{Reads}
use quic_go.Frames.Ack.Shorter.{parse_ack_frame-shorter}
use quic_go.Frames.Control.{
  parse_window_update_frame, parse_rst_stream_frame, parse_blocked_frame, parse_ping_frame,
}
use quic_go.Frames.Closing.{parse_connection_close_frame, parse_goaway_frame}
use quic_go.Frames.StopWaiting.{parse_stop_waiting_frame}
use quic_go.Frames.Ack.Parse.{parse_ack_frame}
use quic_go.Frames.StreamFrame.{parse_stream_frame}
use quic_go.Frames.Kinds.{
  Frame, stream_frame, ack_frame, stop_waiting_frame, rst_stream_frame, connection_close_frame,
  goaway_frame, window_update_frame, blocked_frame, ping_frame,
}
use quic_go.Packets.Unpacker.Shorter.{
  parse_window_update_frame-shorter, parse_rst_stream_frame-shorter, parse_blocked_frame-shorter,
  parse_ping_frame-shorter, parse_connection_close_frame-shorter, parse_goaway_frame-shorter,
  parse_stop_waiting_frame-shorter, parse_stream_frame-shorter,
}
use quic_go.Packets.Unpacker.{
  UnpackError, invalid_stream_data, invalid_ack_data, invalid_rst_stream_data,
  invalid_connection_close_data, invalid_goaway_data, invalid_window_update_data,
  invalid_blocked_data, invalid_stop_waiting_data, invalid_ping, Round, padding, next, bad,
  out_of_fuel, round, read_control, read_frame, read_loop, unpack,
}

round-shorter :
    {A : Type 0} (kind : A → Frame) (code : Error → UnpackError) (x : Reads A) (r : List ℕ)
    (f : Frame) (r' : List ℕ)
    → ((a : A) (s : List ℕ) → x ≡ ok (a, s) → length s < length r)
    → round kind code x ≡ next f r'
    → length r' < length r
round-shorter kind code (ok (a, s)) r f r' l h =
    let same : s ≡ r' = cc in rw (sym same) (l a s refl)
round-shorter kind code (err e) r f r' l h = absurd (cc)

read_control-shorter :
    (pn len t : ℕ) (r : List ℕ) (f : Frame) (r' : List ℕ)
    → read_control pn len t r ≡ next f r'
    → length r' < length r
unfolding read_control
read_control-shorter pn len t r f r' h = ground (
  arith,
  round-shorter rst_stream_frame invalid_rst_stream_data (parse_rst_stream_frame r) r f r'
      (parse_rst_stream_frame-shorter r),
  round-shorter connection_close_frame invalid_connection_close_data
      (parse_connection_close_frame r) r f r' (parse_connection_close_frame-shorter r),
  round-shorter goaway_frame invalid_goaway_data (parse_goaway_frame r) r f r'
      (parse_goaway_frame-shorter r),
  round-shorter window_update_frame invalid_window_update_data (parse_window_update_frame r) r f r'
      (parse_window_update_frame-shorter r),
  round-shorter blocked_frame invalid_blocked_data (parse_blocked_frame r) r f r'
      (parse_blocked_frame-shorter r),
  round-shorter stop_waiting_frame invalid_stop_waiting_data (parse_stop_waiting_frame r pn len) r f
      r' (parse_stop_waiting_frame-shorter r pn len),
  round-shorter ping_frame invalid_ping (parse_ping_frame r) r f r' (parse_ping_frame-shorter r),
)

read_frame-shorter :
    (pn len t : ℕ) (r : List ℕ) (f : Frame) (r' : List ℕ)
    → read_frame pn len t r ≡ next f r'
    → length r' < length r
unfolding read_frame
read_frame-shorter pn len t r f r' h = ground (
  arith,
  round-shorter stream_frame invalid_stream_data (parse_stream_frame r) r f r'
      (parse_stream_frame-shorter r),
  round-shorter ack_frame invalid_ack_data (parse_ack_frame r) r f r' (parse_ack_frame-shorter r),
  read_control-shorter pn len t r f r',
)

Round-cases :
    (x : Round)
    → (x ≡ padding)
      ⊎ ((f : Frame) × (r : List ℕ) × (x ≡ next f r))
      ⊎ ((e : UnpackError) × (x ≡ bad e))
Round-cases padding = inl refl
Round-cases (next f r) = inr (inl (f, r, refl))
Round-cases (bad e) = inr (inr (e, refl))

-- With more fuel than bytes the loop returns.
read_loop-ends :
    (pn len n : ℕ) (r : List ℕ) (fs : List Frame)
    → length r < n
    → read_loop pn len n r fs ≢ out_of_fuel
unfolding read_loop
read_loop-ends pn len zero r fs h = absurd (omega arith)
read_loop-ends pn len (suc n) [] fs h = λ e. absurd (cc)
read_loop-ends pn len (suc n) (t ∷ r) fs h = elim (Round-cases (read_frame pn len t (t ∷ r))) [
  | inl e ↦ rw (e, read_loop) (λ p. absurd (cc))
  | inr (inl (f, r', e)) ↦
      rw (e, read_loop)
        (read_loop-ends pn len n r' (fs ++ (f ∷ []))
          (omega (arith, read_frame-shorter pn len t (t ∷ r) f r' e)))
  | inr (inr (e, p)) ↦ rw (p, read_loop) (λ q. absurd (cc))
]

-- Whatever the AEAD opens, the loop over the frames ends within one round for each byte: Unpack
-- returns frames or an error.
pub unpack-ends :
    (open_data : List ℕ → ℕ → List ℕ → Option (List ℕ)) (header : List ℕ) (pn len : ℕ)
    (bytes : List ℕ)
    → unpack open_data header pn len bytes ≢ out_of_fuel
unfolding unpack
unpack-ends open_data header pn len bytes = elim (Option-cases (open_data bytes pn header)) [
  | inl e ↦ rw (e, unpack) (λ p. absurd (cc))
  | inr ([], e) ↦ rw (e, unpack) (λ p. absurd (cc))
  | inr (t ∷ r, e) ↦
      rw (e, unpack) (read_loop-ends pn len (suc (length (t ∷ r))) (t ∷ r) [] (omega arith))
]
