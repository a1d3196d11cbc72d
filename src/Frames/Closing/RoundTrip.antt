-- ===== src/Frames/Closing/RoundTrip.antt =====
-- The close frames are parsed back, and a reason that is longer than a packet is refused.
use quic_go.Base.{
  ℕ, ◌+◌, ◌^◌, ◌≤◌, ◌<◌, ◌≡◌, refl, arith, List, [], ◌∷◌, ◌++◌, ok, err, none, length,
  length-append, reason_phrase_too_long, some, ltb, ltb→lt, ltb→le, Bool-cases, ◌⊎◌, inl, inr,
  false,
}
use quic_go.Protocol.{max_packet_size}
use quic_go.Frames.Closing.{
  ConnectionCloseFrame, GoawayFrame, read_full_rest, read_full, parse_connection_close_frame,
  write_connection_close_frame, min_length_connection_close_frame, parse_goaway_frame,
  write_goaway_frame, min_length_goaway_frame,
}

read_full_rest-append : (bs rest : List ℕ) → read_full_rest (length bs) (bs ++ rest) ≡ ok (bs, rest)
unfolding read_full_rest
read_full_rest-append [] rest = refl
read_full_rest-append (b ∷ bs) rest = rw (read_full_rest-append bs rest) refl

pub read_full-append : (bs rest : List ℕ) → read_full (length bs) (bs ++ rest) ≡ ok (bs, rest)
unfolding read_full
read_full-append [] rest = refl
read_full-append (b ∷ bs) rest = read_full_rest-append (b ∷ bs) rest

-- A CONNECTION_CLOSE frame with a uint32 code whose reason fits a packet is written with no error
-- and parsed back, and Write appends MinLength bytes.
pub parse-write_connection_close_frame :
    (f : ConnectionCloseFrame) (b rest : List ℕ)
    → f.error_code < 2 ^ 32
    → length f.reason_phrase ≤ max_packet_size
    → (parse_connection_close_frame ((write_connection_close_frame f []).0 ++ rest) ≡ ok (f, rest))
      × ((write_connection_close_frame f b).1 ≡ none)
      × (length (write_connection_close_frame f b).0
          ≡ length b + min_length_connection_close_frame f)
unfolding parse_connection_close_frame write_connection_close_frame
parse-write_connection_close_frame f b rest he hl =
    let short : ltb 65535 (length f.reason_phrase) ≡ false = ground arith in
    (
      ground (arith, read_full-append f.reason_phrase rest),
      ground arith,
      rw short (simp length-append (omega arith)),
    )

-- The same of a GOAWAY frame, whose last good stream is a uint32.
pub parse-write_goaway_frame :
    (f : GoawayFrame) (b rest : List ℕ)
    → f.error_code < 2 ^ 32
    → f.last_good_stream < 2 ^ 32
    → length f.reason_phrase ≤ max_packet_size
    → (parse_goaway_frame (write_goaway_frame f [] ++ rest) ≡ ok (f, rest))
      × (length (write_goaway_frame f b) ≡ length b + min_length_goaway_frame f)
unfolding parse_goaway_frame write_goaway_frame
parse-write_goaway_frame f b rest he hs hl =
    (ground (arith, read_full-append f.reason_phrase rest), simp length-append (omega arith))

-- What becomes of a CONNECTION_CLOSE frame with a uint32 code, by the length of its reason. One that
-- fits a packet is written without an error and parsed back. A longer one that still fits 16 bits
-- is written without an error as well, and refused by the parser. One that does not fit them is
-- refused by Write, which has appended five bytes by then.
pub write_connection_close_frame_long :
    (f : ConnectionCloseFrame) (b rest : List ℕ)
    → f.error_code < 2 ^ 32
    → ((length f.reason_phrase ≤ max_packet_size)
        × ((write_connection_close_frame f b).1 ≡ none)
        × (parse_connection_close_frame ((write_connection_close_frame f []).0 ++ rest)
            ≡ ok (f, rest)))
      ⊎ ((max_packet_size < length f.reason_phrase)
          × (length f.reason_phrase ≤ 65535)
          × ((write_connection_close_frame f b).1 ≡ none)
          × (parse_connection_close_frame ((write_connection_close_frame f []).0 ++ rest)
              ≡ err reason_phrase_too_long))
      ⊎ ((65535 < length f.reason_phrase)
          × ((write_connection_close_frame f b).1 ≡ some reason_phrase_too_long)
          × (length (write_connection_close_frame f b).0 ≡ length b + 5))
unfolding parse_connection_close_frame write_connection_close_frame
write_connection_close_frame_long f b rest h =
    elim (Bool-cases (ltb max_packet_size (length f.reason_phrase))) [
      | inr small ↦
          let n = ltb→le _ _ small in
          let (parsed, written, _) = parse-write_connection_close_frame f b rest h n in
          inl (n, written, parsed)
      | inl long ↦ elim (Bool-cases (ltb 65535 (length f.reason_phrase))) [
        | inl big ↦ inr (inr (ltb→lt _ _ big, rw big, rw big (simp length-append (omega arith))))
        | inr fits ↦ inr (inl (ltb→lt _ _ long, ltb→le _ _ fits, rw fits, ground arith))
      ]
    ]
