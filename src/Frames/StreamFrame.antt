-- ===== src/Frames/StreamFrame.antt =====
-- frames/stream_frame.go. The data is a list of bytes; MaxPacketSize is `max_packet_size`.
pub mod TypeByte
pub mod RoundTrip
mod Runs
use quic_go.Base.{
  ℕ, ◌+◌, ◌-◌, ◌*◌, ◌/◌, ◌%◌, ◌^◌, Bool, ◌&&◌, not, List, [], ◌∷◌, ◌++◌, Option, none, some, ok,
  err, ◌>>=◌, bit_and, bit_xor, length, take, drop, ltb, ◌==◌, if◌then◌else◌,
  empty_frame_without_fin, data_len_too_large, short_stream_data, empty_stream_frame_no_fin,
  invalid_stream_id_len, invalid_offset_len,
}
use quic_go.Wire.{
  Reads, read_byte, read_uint_n, read_uint16, write_uint16, write_uint24, write_uint32,
  write_uint40, write_uint48, write_uint56, write_uint64,
}
use quic_go.Protocol.{max_packet_size}
use quic_go.Frames.Closing.{Written}

pub record StreamFrame : Type 0 where
  pub stream_id : ℕ
  pub fin_bit : Bool
  pub data_len_present : Bool
  pub offset : ℕ
  pub bytes : List ℕ

abbrev pub data_len : StreamFrame → ℕ
data_len f = length f.bytes

-- The four fields that the parser takes from the type byte.
unfoldable pub has_fin : ℕ → Bool
has_fin t = ltb 0 (bit_and t 0x40)

unfoldable pub has_data_len : ℕ → Bool
has_data_len t = ltb 0 (bit_and t 0x20)

unfoldable pub offset_len_of : ℕ → ℕ
offset_len_of t = let code = bit_and t 0x1c / 2 ^ 2 in if code == 0 then code else code + 1

unfoldable pub stream_id_len_of : ℕ → ℕ
stream_id_len_of t = bit_and t 0x03 + 1

-- `r.Read` into a slice of `n` bytes, with the check that it was filled.
unfoldable pub read_data : ℕ → List ℕ → Reads (List ℕ)
read_data n r = if ltb (length r) n then err short_stream_data else ok (take n r, drop n r)

-- The part of the parser behind the offset.
unfoldable pub parse_stream_data : Bool → List ℕ → Reads (List ℕ)
unfolding read_uint16
parse_stream_data present r = do
  (len, r1) ← if present then read_uint16 r else ok (0, r)
  if ltb max_packet_size len
      then err data_len_too_large
      else let n = if len == 0 then length r1 % 2 ^ 16 else len in read_data n r1

unfoldable pub parse_stream_frame : List ℕ → Reads StreamFrame
unfolding read_byte
parse_stream_frame r = do
  (t, r1) ← read_byte r
  (sid, r2) ← read_uint_n r1 (stream_id_len_of t)
  (offset, r3) ← read_uint_n r2 (offset_len_of t)
  (bytes, r4) ← parse_stream_data (has_data_len t) r3
  if not (has_fin t) && length bytes == 0
      then err empty_stream_frame_no_fin
      else ok (
        record {
          stream_id = sid % 2 ^ 32;
          fin_bit = has_fin t;
          data_len_present = has_data_len t;
          offset = offset;
          bytes = bytes;
        },
        r4,
      )

unfoldable pub calculate_stream_id_length : StreamFrame → ℕ
calculate_stream_id_length f =
    if ltb f.stream_id (2 ^ 8)
    then 1
    else if ltb f.stream_id (2 ^ 16)
    then 2
    else if ltb f.stream_id (2 ^ 24)
    then 3
    else 4

unfoldable pub get_offset_length : StreamFrame → ℕ
get_offset_length f =
    if f.offset == 0
    then 0
    else if ltb f.offset (2 ^ 16)
    then 2
    else if ltb f.offset (2 ^ 24)
    then 3
    else if ltb f.offset (2 ^ 32)
    then 4
    else if ltb f.offset (2 ^ 40)
    then 5
    else if ltb f.offset (2 ^ 48)
    then 6
    else if ltb f.offset (2 ^ 56)
    then 7
    else 8

-- The type byte that `Write` puts together.
unfoldable pub type_byte : Bool → Bool → ℕ → ℕ → ℕ
type_byte fin present offset_length id_length =
    let t1 = if fin then bit_xor 0x80 0x40 else 0x80 in
    let t2 = if present then bit_xor t1 0x20 else t1 in
    let t3 = if ltb 0 offset_length then bit_xor t2 ((offset_length - 1) * 2 ^ 2 % 256) else t2 in
    bit_xor t3 (id_length - 1)

-- The two `switch` statements; `none` is the default case.
unfoldable pub write_stream_id : List ℕ → ℕ → ℕ → Option (List ℕ)
unfolding write_uint16 write_uint24 write_uint32
write_stream_id b len v =
    if len == 1
    then some (b ++ ((v % 256) ∷ []))
    else if len == 2
    then some (write_uint16 b (v % 2 ^ 16))
    else if len == 3
    then some (write_uint24 b (v % 2 ^ 32))
    else if len == 4
    then some (write_uint32 b (v % 2 ^ 32))
    else none

unfoldable pub write_offset : List ℕ → ℕ → ℕ → Option (List ℕ)
unfolding write_uint16 write_uint24 write_uint32 write_uint40 write_uint48 write_uint56 write_uint64
write_offset b len v =
    if len == 0
    then some b
    else if len == 2
    then some (write_uint16 b (v % 2 ^ 16))
    else if len == 3
    then some (write_uint24 b (v % 2 ^ 32))
    else if len == 4
    then some (write_uint32 b (v % 2 ^ 32))
    else if len == 5
    then some (write_uint40 b (v % 2 ^ 64))
    else if len == 6
    then some (write_uint48 b (v % 2 ^ 64))
    else if len == 7
    then some (write_uint56 b (v % 2 ^ 64))
    else if len == 8
    then some (write_uint64 b (v % 2 ^ 64))
    else none

-- The part of `Write` behind the type byte.
unfoldable pub write_stream_fields : StreamFrame → List ℕ → Written
unfolding write_uint16
write_stream_fields f b = elim (write_stream_id b (calculate_stream_id_length f) f.stream_id) [
  | none ↦ (b, some invalid_stream_id_len)
  | some b1 ↦ elim (write_offset b1 (get_offset_length f) f.offset) [
    | none ↦ (b1, some invalid_offset_len)
    | some b2 ↦
        let b3 = if f.data_len_present then write_uint16 b2 (data_len f % 2 ^ 16) else b2 in
        (b3 ++ f.bytes, none)
  ]
]

unfoldable pub write_stream_frame : StreamFrame → List ℕ → Written
write_stream_frame f b =
    if length f.bytes == 0 && not f.fin_bit
    then (b, some empty_frame_without_fin)
    else write_stream_fields f (
        b
        ++ (type_byte f.fin_bit f.data_len_present (get_offset_length f)
              (calculate_stream_id_length f)
            ∷ []))

-- MinLength, the length of the header.
unfoldable pub min_length_stream_frame : StreamFrame → ℕ
min_length_stream_frame f =
    let len = 1 + calculate_stream_id_length f + get_offset_length f in
    if f.data_len_present then len + 2 else len
