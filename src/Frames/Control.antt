-- ===== src/Frames/Control.antt =====
-- frames/window_update_frame.go, rst_stream_frame.go, blocked_frame.go and ping_frame.go.
-- A frame's `Write` appends to a buffer and cannot fail here; a parser consumes a reader.
pub mod RoundTrip
use quic_go.Base.{ℕ, ◌+◌, ◌%◌, ◌^◌, ◌<◌, List, [], ◌∷◌, ◌++◌, ok, ◌>>=◌}
use quic_go.Wire.{Reads, read_byte, read_uint32, read_uint64, write_uint32, write_uint64}

pub record WindowUpdateFrame : Type 0 where
  pub stream_id : ℕ
  pub byte_offset : ℕ

pub record RstStreamFrame : Type 0 where
  pub stream_id : ℕ
  pub error_code : ℕ
  pub byte_offset : ℕ

pub record BlockedFrame : Type 0 where
  pub stream_id : ℕ

pub record PingFrame : Type 0 where

unfoldable pub write_window_update_frame : WindowUpdateFrame → List ℕ → List ℕ
unfolding write_uint32 write_uint64
write_window_update_frame f b =
    write_uint64 (write_uint32 (b ++ (0x04 ∷ [])) (f.stream_id % 2 ^ 32)) (f.byte_offset % 2 ^ 64)

abbrev pub min_length_window_update_frame : WindowUpdateFrame → ℕ
min_length_window_update_frame f = 1 + 4 + 8

unfoldable pub parse_window_update_frame : List ℕ → Reads WindowUpdateFrame
unfolding read_byte read_uint32 read_uint64
parse_window_update_frame r = do
  (_, r1) ← read_byte r
  (sid, r2) ← read_uint32 r1
  (byte_offset, r3) ← read_uint64 r2
  ok (record { stream_id = sid; byte_offset = byte_offset }, r3)

unfoldable pub write_rst_stream_frame : RstStreamFrame → List ℕ → List ℕ
unfolding write_uint32 write_uint64
write_rst_stream_frame f b =
    write_uint32
      (write_uint64 (write_uint32 (b ++ (0x01 ∷ [])) (f.stream_id % 2 ^ 32))
        (f.byte_offset % 2 ^ 64))
      f.error_code

abbrev pub min_length_rst_stream_frame : RstStreamFrame → ℕ
min_length_rst_stream_frame f = 1 + 4 + 8 + 4

unfoldable pub parse_rst_stream_frame : List ℕ → Reads RstStreamFrame
unfolding read_byte read_uint32 read_uint64
parse_rst_stream_frame r = do
  (_, r1) ← read_byte r
  (sid, r2) ← read_uint32 r1
  (byte_offset, r3) ← read_uint64 r2
  (error_code, r4) ← read_uint32 r3
  ok (record { stream_id = sid; error_code = error_code; byte_offset = byte_offset }, r4)

unfoldable pub write_blocked_frame : BlockedFrame → List ℕ → List ℕ
unfolding write_uint32
write_blocked_frame f b = write_uint32 (b ++ (0x05 ∷ [])) (f.stream_id % 2 ^ 32)

abbrev pub min_length_blocked_frame : BlockedFrame → ℕ
min_length_blocked_frame f = 1 + 4

unfoldable pub parse_blocked_frame : List ℕ → Reads BlockedFrame
unfolding read_byte read_uint32
parse_blocked_frame r = do
  (_, r1) ← read_byte r
  (sid, r2) ← read_uint32 r1
  ok (record { stream_id = sid }, r2)

unfoldable pub write_ping_frame : PingFrame → List ℕ → List ℕ
write_ping_frame f b = b ++ (0x07 ∷ [])

abbrev pub min_length_ping_frame : PingFrame → ℕ
min_length_ping_frame f = 1

unfoldable pub parse_ping_frame : List ℕ → Reads PingFrame
unfolding read_byte
parse_ping_frame r = do (_, r1) ← read_byte r; ok (record {}, r1)
