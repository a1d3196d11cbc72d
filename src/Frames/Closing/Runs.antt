-- ===== src/Frames/Closing/Runs.antt =====
-- The close frames at concrete inputs.
use quic_go.Base.{
  ℕ, zero, suc, ◌+◌, ◌≡◌, ◌≤◌, ◌<◌, ◌⊎◌, refl, arith, List, [], ◌∷◌, ◌++◌, ok, err, none, some,
  length, reason_phrase_too_long,
}
use quic_go.Protocol.{max_packet_size}
use quic_go.Frames.Closing.{
  ConnectionCloseFrame, parse_connection_close_frame, write_connection_close_frame,
  min_length_connection_close_frame,
}
use quic_go.Frames.Closing.RoundTrip.{
  parse-write_connection_close_frame, write_connection_close_frame_long,
}

abbrev close : ConnectionCloseFrame
close = record { error_code = 0xdeadbeef; reason_phrase = b'b' ∷ b'y' ∷ b'e' ∷ [] }

parse-write_connection_close_frame_example :
    (parse_connection_close_frame ((write_connection_close_frame close []).0 ++ (9 ∷ []))
      ≡ ok (close, 9 ∷ []))
    × ((write_connection_close_frame close (4 ∷ [])).1 ≡ none)
    × (length (write_connection_close_frame close (4 ∷ [])).0
        ≡ 1 + min_length_connection_close_frame close)
parse-write_connection_close_frame_example =
    parse-write_connection_close_frame close (4 ∷ []) (9 ∷ []) (omega arith) (omega arith)

replicate : ℕ → ℕ → List ℕ
replicate zero b = []
replicate (suc n) b = b ∷ replicate n b

length-replicate : (n b : ℕ) → length (replicate n b) ≡ n
unfolding replicate
length-replicate zero b = refl
length-replicate (suc n) b = omega (arith, length-replicate n b)

abbrev rambling : ConnectionCloseFrame
rambling = record { error_code = 1; reason_phrase = replicate 1400 b'x' }

write_connection_close_frame_long_example :
    ((length rambling.reason_phrase ≤ max_packet_size)
      × ((write_connection_close_frame rambling []).1 ≡ none)
      × (parse_connection_close_frame ((write_connection_close_frame rambling []).0 ++ [])
          ≡ ok (rambling, [])))
    ⊎ ((max_packet_size < length rambling.reason_phrase)
        × (length rambling.reason_phrase ≤ 65535)
        × ((write_connection_close_frame rambling []).1 ≡ none)
        × (parse_connection_close_frame ((write_connection_close_frame rambling []).0 ++ [])
            ≡ err reason_phrase_too_long))
    ⊎ ((65535 < length rambling.reason_phrase)
        × ((write_connection_close_frame rambling []).1 ≡ some reason_phrase_too_long)
        × (length (write_connection_close_frame rambling []).0 ≡ 0 + 5))
write_connection_close_frame_long_example =
    write_connection_close_frame_long rambling [] [] (omega arith)
