-- ===== src/Frames/Closing.antt =====
-- frames/connection_close_frame.go and goaway_frame.go. A reason phrase is a Go string: its bytes.
pub mod RoundTrip
mod Runs
use quic_go.Base.{
  ℕ, zero, suc, ◌+◌, ◌%◌, ◌^◌, ◌<◌, Bool, List, [], ◌∷◌, ◌++◌, Option, none, some, Error, ok, err,
  eof, unexpected_eof, reason_phrase_too_long, ◌>>=◌, length, ltb, if◌then◌else◌,
}
use quic_go.Protocol.{max_packet_size}
use quic_go.Wire.{Reads, read_byte, read_uint16, read_uint32, write_uint16, write_uint32}

-- What a `Write` that can fail leaves in the buffer, and the error that it returns.
abbrev pub Written : Type 0
Written = List ℕ × Option Error

-- `io.ReadFull` into a slice of the given length: an empty reader gives EOF, a short one
-- ErrUnexpectedEOF.
unfoldable pub read_full_rest : ℕ → List ℕ → Reads (List ℕ)
read_full_rest zero r = ok ([], r)
read_full_rest (suc n) [] = err unexpected_eof
read_full_rest (suc n) (b ∷ r) = do (bs, r') ← read_full_rest n r; ok (b ∷ bs, r')

unfoldable pub read_full : ℕ → List ℕ → Reads (List ℕ)
unfolding read_full_rest
read_full zero r = ok ([], r)
read_full (suc n) [] = err eof
read_full (suc n) (b ∷ r) = read_full_rest (suc n) (b ∷ r)

pub record ConnectionCloseFrame : Type 0 where
  pub error_code : ℕ
  pub reason_phrase : List ℕ

pub record GoawayFrame : Type 0 where
  pub error_code : ℕ
  pub last_good_stream : ℕ
  pub reason_phrase : List ℕ

unfoldable pub parse_connection_close_frame : List ℕ → Reads ConnectionCloseFrame
unfolding read_byte read_uint16 read_uint32
parse_connection_close_frame r = do
  (_, r1) ← read_byte r
  (error_code, r2) ← read_uint32 r1
  (len, r3) ← read_uint16 r2
  if ltb max_packet_size len then err reason_phrase_too_long else do
    (reason, r4) ← read_full len r3
    ok (record { error_code = error_code; reason_phrase = reason }, r4)

abbrev pub min_length_connection_close_frame : ConnectionCloseFrame → ℕ
min_length_connection_close_frame f = 1 + 4 + 2 + length f.reason_phrase

-- The length check stands behind the first two writes.
unfoldable pub write_connection_close_frame : ConnectionCloseFrame → List ℕ → Written
unfolding write_uint16 write_uint32
write_connection_close_frame f b =
    let b' = write_uint32 (b ++ (0x02 ∷ [])) (f.error_code % 2 ^ 32) in
    if ltb 65535 (length f.reason_phrase)
    then (b', some reason_phrase_too_long)
    else (write_uint16 b' (length f.reason_phrase % 2 ^ 16) ++ f.reason_phrase, none)

unfoldable pub parse_goaway_frame : List ℕ → Reads GoawayFrame
unfolding read_byte read_uint16 read_uint32
parse_goaway_frame r = do
  (_, r1) ← read_byte r
  (error_code, r2) ← read_uint32 r1
  (last_good_stream, r3) ← read_uint32 r2
  (len, r4) ← read_uint16 r3
  if ltb max_packet_size len then err reason_phrase_too_long else do
    (reason, r5) ← read_full len r4
    ok (
      record {
        error_code = error_code;
        last_good_stream = last_good_stream;
        reason_phrase = reason;
      },
      r5,
    )

unfoldable pub write_goaway_frame : GoawayFrame → List ℕ → List ℕ
unfolding write_uint16 write_uint32
write_goaway_frame f b =
    write_uint16
      (write_uint32 (write_uint32 (b ++ (0x03 ∷ [])) (f.error_code % 2 ^ 32))
        (f.last_good_stream % 2 ^ 32))
      (length f.reason_phrase % 2 ^ 16)
    ++ f.reason_phrase

abbrev pub min_length_goaway_frame : GoawayFrame → ℕ
min_length_goaway_frame f = 1 + 4 + 4 + 2 + length f.reason_phrase
