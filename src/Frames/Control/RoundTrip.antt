-- ===== src/Frames/Control/RoundTrip.antt =====
-- What the writers of the control frames write, and that the parsers read it back.
use quic_go.Base.{ℕ, ◌+◌, ◌^◌, ◌<◌, ◌≡◌, refl, arith, List, [], ◌++◌, ok, length, length-append}
use quic_go.Frames.Control.{
  WindowUpdateFrame, RstStreamFrame, BlockedFrame, PingFrame, write_window_update_frame,
  parse_window_update_frame, min_length_window_update_frame, write_rst_stream_frame,
  parse_rst_stream_frame, min_length_rst_stream_frame, write_blocked_frame, parse_blocked_frame,
  min_length_blocked_frame, write_ping_frame, parse_ping_frame, min_length_ping_frame,
}

-- A WINDOW_UPDATE frame whose stream ID is a uint32 and whose offset is a uint64 is parsed back
-- from the bytes that Write produced, with what follows them left unread, and Write appends
-- MinLength bytes to any buffer.
pub parse-write_window_update_frame :
    (f : WindowUpdateFrame) (b rest : List ℕ)
    → f.stream_id < 2 ^ 32
    → f.byte_offset < 2 ^ 64
    → (parse_window_update_frame (write_window_update_frame f [] ++ rest) ≡ ok (f, rest))
      × (length (write_window_update_frame f b) ≡ length b + min_length_window_update_frame f)
unfolding parse_window_update_frame write_window_update_frame
parse-write_window_update_frame f b rest hs ho = (ground arith, simp length-append (omega arith))

-- The same of a RST_STREAM frame, whose error code is a uint32.
pub parse-write_rst_stream_frame :
    (f : RstStreamFrame) (b rest : List ℕ)
    → f.stream_id < 2 ^ 32
    → f.error_code < 2 ^ 32
    → f.byte_offset < 2 ^ 64
    → (parse_rst_stream_frame (write_rst_stream_frame f [] ++ rest) ≡ ok (f, rest))
      × (length (write_rst_stream_frame f b) ≡ length b + min_length_rst_stream_frame f)
unfolding parse_rst_stream_frame write_rst_stream_frame
parse-write_rst_stream_frame f b rest hs he ho = (ground arith, simp length-append (omega arith))

-- The same of a BLOCKED frame and of a PING frame.
pub parse-write_blocked_frame :
    (f : BlockedFrame) (p : PingFrame) (b rest : List ℕ)
    → f.stream_id < 2 ^ 32
    → (parse_blocked_frame (write_blocked_frame f [] ++ rest) ≡ ok (f, rest))
      × (length (write_blocked_frame f b) ≡ length b + min_length_blocked_frame f)
      × (parse_ping_frame (write_ping_frame p [] ++ rest) ≡ ok (p, rest))
      × (length (write_ping_frame p b) ≡ length b + min_length_ping_frame p)
unfolding parse_blocked_frame write_blocked_frame parse_ping_frame write_ping_frame
parse-write_blocked_frame f p b rest hs =
    (ground arith, simp length-append (omega arith), refl, simp length-append (omega arith))
