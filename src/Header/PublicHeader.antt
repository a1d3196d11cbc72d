-- ===== src/Header/PublicHeader.antt =====
-- public_header.go. A flag byte is built from bits that are set once each, so `|=` is a sum.
pub mod RoundTrip
mod Runs
use quic_go.Base.{
  ℕ, ◌+◌, ◌-◌, ◌*◌, ◌/◌, ◌%◌, ◌^◌, ◌≤◌, ◌<◌, ◌≡◌, ◌≢◌, refl, ap, ◌∙◌, arith, Bool, true, false, not,
  ◌&&◌, ◌||◌, List, [], ◌∷◌, ◌++◌, Option, none, some, Error, Result, ok, err,
  reset_and_version_flag, invalid_nonce_length, truncated_connection_id, invalid_connection_id,
  length_only_for_regular, packet_number_len_not_set, ◌>>=◌, length, ltb, ◌==◌, if◌then◌else◌,
  bit_and,
}
use quic_go.Wire.{Reads, read_byte, read_uint_n, read_uint32, read_uint64, write_uint64}
use quic_go.Frames.Closing.{Written}
use quic_go.Frames.StopWaiting.{write_packet_number}

pub record PublicHeader : Type 0 where
  pub raw : List ℕ
  pub connection_id : ℕ
  pub version_flag : Bool
  pub reset_flag : Bool
  pub truncate_connection_id : Bool
  pub packet_number_len : ℕ
  pub packet_number : ℕ
  pub version_number : ℕ
  pub diversification_nonce : List ℕ

-- VersionTagToNumber; the sum is one of uint32.
unfoldable pub version_tag_to_number : ℕ → ℕ
version_tag_to_number v =
    let digit = λ (k : ℕ). (v / 2 ^ k % 256 + 2 ^ 32 - 48) % 2 ^ 32 in
    (digit 8 * 100 + digit 16 * 10 + digit 24) % 2 ^ 32

unfoldable pub len_bits : ℕ → ℕ
len_bits len = if len == 2 then 0x10 else if len == 4 then 0x20 else if len == 6 then 0x30 else 0

unfoldable pub flag_byte : PublicHeader → ℕ
unfolding len_bits
flag_byte h =
    (if h.version_flag then 0x01 else 0)
    + (if h.reset_flag then 0x02 else 0)
    + (if h.truncate_connection_id then 0 else 0x08)
    + (if ltb 0 (length h.diversification_nonce) then 0x04 else 0)
    + (if not h.reset_flag && not h.version_flag then len_bits h.packet_number_len else 0)

-- The version is not used. The switch over the packet number length is that of a STOP_WAITING frame.
unfoldable pub write_public_header : PublicHeader → List ℕ → Written
unfolding flag_byte
write_public_header h b =
    let b1 = b ++ (flag_byte h ∷ []) in
    let b2 = if h.truncate_connection_id then b1 else write_uint64 b1 h.connection_id in
    let b3 = b2 ++ h.diversification_nonce in
    let regular : Written = elim (write_packet_number b3 h.packet_number_len h.packet_number) [
      | none ↦ (b3, some packet_number_len_not_set)
      | some b4 ↦ (b4, none)
    ] in
    if h.version_flag && h.reset_flag
    then (b, some reset_and_version_flag)
    else if ltb 0 (length h.diversification_nonce) && not (length h.diversification_nonce == 32)
    then (b, some invalid_nonce_length)
    else if not h.reset_flag && not h.version_flag
    then regular
    else (b3, none)

unfoldable pub len_of_bits : ℕ → ℕ
len_of_bits x = if x == 0x30 then 6 else if x == 0x20 then 4 else if x == 0x10 then 2 else 1

-- The version tag, if the flag is set.
unfoldable pub read_version : Bool → List ℕ → Reads ℕ
unfolding version_tag_to_number
read_version true r = do (tag, r1) ← read_uint32 r; ok (version_tag_to_number tag, r1)
read_version false r = ok (0, r)

-- ParsePublicHeader behind the connection ID.
unfoldable pub parse_after_id : ℕ → ℕ → List ℕ → Reads PublicHeader
unfolding read_version len_of_bits
parse_after_id flags connection_id r =
    let version_flag = ltb 0 (bit_and flags 0x01) in
    let len = len_of_bits (bit_and flags 0x30) in
    do
      (version, r1) ← read_version version_flag r
      (packet_number, r2) ← read_uint_n r1 len
      ok (
        record {
          raw = [];
          connection_id = connection_id;
          version_flag = version_flag;
          reset_flag = ltb 0 (bit_and flags 0x02);
          truncate_connection_id = false;
          packet_number_len = len;
          packet_number = packet_number;
          version_number = version;
          diversification_nonce = [];
        },
        r2,
      )

unfoldable pub parse_public_header : List ℕ → Reads PublicHeader
unfolding parse_after_id
parse_public_header r = do
  (flags, r1) ← read_byte r
  if bit_and flags 0x08 == 0 then err truncated_connection_id else do
    (connection_id, r2) ← read_uint64 r1
    if connection_id == 0 then err invalid_connection_id else parse_after_id flags connection_id r2

unfoldable pub get_length : PublicHeader → Result ℕ
get_length h =
    let len = h.packet_number_len in
    let known = len == 1 || (len == 2 || (len == 4 || len == 6)) in
    if h.version_flag || h.reset_flag
    then err length_only_for_regular
    else if not known
    then err packet_number_len_not_set
    else ok (1 + (if h.truncate_connection_id then 0 else 8) + length h.diversification_nonce + len)
