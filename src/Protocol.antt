-- ===== src/Protocol.antt =====
-- protocol/packet_number.go, with the constants of protocol/protocol.go and server_parameters.go
-- that several components share. A PacketNumber is a uint64.
pub mod Infer
mod Runs
use quic_go.Base.{Bool, ℕ, ◌+◌, ◌-◌, ◌*◌, ◌%◌, ◌^◌, ◌≡◌, ltb, if◌then◌else◌}

-- MaxPacketSize
abbrev pub max_packet_size : ℕ
max_packet_size = 1350

-- DefaultTCPMSS
abbrev pub default_tcp_mss : ℕ
default_tcp_mss = 1460

-- The lengths PacketNumberLen1, 2, 4 and 6, each with the first number that does not fit it.
pub data IsLen : ℕ → ℕ → Type 0 where
  len1 : {l m : ℕ} → l ≡ 1 → m ≡ 2 ^ 8 → IsLen l m
  len2 : {l m : ℕ} → l ≡ 2 → m ≡ 2 ^ 16 → IsLen l m
  len4 : {l m : ℕ} → l ≡ 4 → m ≡ 2 ^ 32 → IsLen l m
  len6 : {l m : ℕ} → l ≡ 6 → m ≡ 2 ^ 48 → IsLen l m

-- uint64 arithmetic
abbrev pub add64 : ℕ → ℕ → ℕ
add64 a b = (a + b) % 2 ^ 64

abbrev pub sub64 : ℕ → ℕ → ℕ
sub64 a b = (a + 2 ^ 64 - b) % 2 ^ 64

-- `a > b` for two int64 by their bit patterns.
abbrev pub gt_signed : ℕ → ℕ → Bool
gt_signed a b = ltb ((b + 2 ^ 63) % 2 ^ 64) ((a + 2 ^ 63) % 2 ^ 64)

delta : ℕ → ℕ → ℕ
delta a b = if ltb a b then sub64 b a else sub64 a b

closest_to : ℕ → ℕ → ℕ → ℕ
unfolding delta
closest_to target a b = if ltb (delta target a) (delta target b) then a else b

-- `x & ^(epochDelta - 1)` takes off the low bits: it is `x - x % epochDelta`.
unfoldable pub infer_packet_number : ℕ → ℕ → ℕ → ℕ
unfolding closest_to
infer_packet_number len last wire =
    let epoch_delta = 2 ^ (len * 8 % 256) % 2 ^ 64 in
    let epoch = last - last % epoch_delta in
    let prev_epoch_begin = sub64 epoch epoch_delta in
    let next_epoch_begin = add64 epoch epoch_delta in
    closest_to (add64 last 1) (add64 epoch wire)
      (closest_to (add64 last 1) (add64 prev_epoch_begin wire) (add64 next_epoch_begin wire))

-- The bounds are `2 << (16 - 2)` and `2 << (32 - 2)`.
unfoldable pub get_packet_number_length_for_public_header : ℕ → ℕ → ℕ
get_packet_number_length_for_public_header packet_number least_unacked =
    let diff = sub64 packet_number least_unacked in
    if ltb diff (2 ^ 15) then 2 else if ltb diff (2 ^ 31) then 4 else 6

unfoldable pub get_packet_number_length : ℕ → ℕ
get_packet_number_length packet_number =
    if ltb packet_number (2 ^ 8)
    then 1
    else if ltb packet_number (2 ^ 16)
    then 2
    else if ltb packet_number (2 ^ 32)
    then 4
    else 6
