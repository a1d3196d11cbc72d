-- ===== src/Base/Results.antt =====
-- Go's (value, error) returns. Each constructor of `Error` is one error value of the source.

pub data Error : Type 0 where
  -- io.EOF of a reader, and io.ErrUnexpectedEOF of io.ReadFull
  eof unexpected_eof : Error
  -- frames/stream_frame.go
  empty_frame_without_fin data_len_too_large short_stream_data empty_stream_frame_no_fin : Error
  invalid_stream_id_len invalid_offset_len : Error
  -- frames/stop_waiting_frame.go
  packet_number_not_set least_unacked_higher packet_number_len_not_set invalid_stop_waiting : Error
  -- frames/connection_close_frame.go, frames/goaway_frame.go
  reason_phrase_too_long : Error
  -- frames/ack_frame.go
  invalid_ack_ranges invalid_first_ack_range : Error
  -- public_header.go
  reset_and_version_flag invalid_nonce_length truncated_connection_id : Error
  invalid_connection_id length_only_for_regular : Error

-- `pair a e` of Go with `e == nil` is `ok a`; with an error the value is never read.
pub data Result {ℓ} (A : Type ℓ) : Type ℓ where
  ok : A → Result A
  err : Error → Result A

infixl 5 ◌>>=◌
abbrev pub ◌>>=◌ {ℓ κ} : {A : Type ℓ} {B : Type κ} → Result A → (A → Result B) → Result B
ok a >>= f = f a
err e >>= f = err e
