-- ===== src/Frames/StopWaiting.antt =====
-- frames/stop_waiting_frame.go. `packet_number_len` is a uint8; 0 is PacketNumberLenInvalid.
pub mod RoundTrip
mod Runs
use quic_go.Base.{
  ℕ, ◌+◌, ◌-◌, ◌%◌, ◌^◌, Bool, List, [], ◌∷◌, ◌++◌, Option, none, some, Error, Result, ok, err,
  packet_number_not_set, least_unacked_higher, packet_number_len_not_set, invalid_stop_waiting,
  ◌>>=◌, ltb, ◌==◌, if◌then◌else◌,
}
use quic_go.Wire.{Reads, read_byte, read_uint_n, write_uint16, write_uint32, write_uint48}
use quic_go.Frames.Closing.{Written}

pub record StopWaitingFrame : Type 0 where
  pub least_unacked : ℕ
  pub packet_number_len : ℕ
  pub packet_number : ℕ

-- The `switch` on the packet number length. `none` is its default case.
unfoldable pub write_packet_number : List ℕ → ℕ → ℕ → Option (List ℕ)
unfolding write_uint16 write_uint32 write_uint48
write_packet_number b len v =
    if len == 1
    then some (b ++ ((v % 256) ∷ []))
    else if len == 2
    then some (write_uint16 b (v % 2 ^ 16))
    else if len == 4
    then some (write_uint32 b (v % 2 ^ 32))
    else if len == 6
    then some (write_uint48 b v)
    else none

unfoldable pub write_stop_waiting_frame : StopWaitingFrame → List ℕ → Written
unfolding write_packet_number
write_stop_waiting_frame f b =
    let b' = b ++ (0x06 ∷ []) in
    if f.packet_number == 0
    then (b', some packet_number_not_set)
    else if ltb f.packet_number f.least_unacked
    then (b', some least_unacked_higher)
    else elim (write_packet_number b' f.packet_number_len (f.packet_number - f.least_unacked)) [
      | none ↦ (b', some packet_number_len_not_set)
      | some b'' ↦ (b'', none)
    ]

unfoldable pub min_length_stop_waiting_frame : StopWaitingFrame → Result ℕ
min_length_stop_waiting_frame f =
    if f.packet_number_len == 0 then err packet_number_len_not_set else ok (1 + f.packet_number_len)

-- The parser sets LeastUnacked only.
unfoldable pub parse_stop_waiting_frame : List ℕ → ℕ → ℕ → Reads StopWaitingFrame
unfolding read_byte
parse_stop_waiting_frame r packet_number packet_number_len = do
  (_, r1) ← read_byte r
  (delta, r2) ← read_uint_n r1 packet_number_len
  if ltb packet_number delta
      then err invalid_stop_waiting
      else ok (
        record { least_unacked = packet_number - delta; packet_number_len = 0; packet_number = 0 },
        r2,
      )
