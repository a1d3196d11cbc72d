-- ===== src/Frames/StreamFrame/Runs.antt =====
-- STREAM frames at concrete inputs.
use quic_go.Base.{◌≡◌, refl, arith, inl, inr, true, false, [], ◌∷◌, ◌++◌, ok, none}
use quic_go.Frames.StreamFrame.{StreamFrame, parse_stream_frame, write_stream_frame}
use quic_go.Frames.StreamFrame.RoundTrip.{
  IsValid, parse-write_stream_frame, parse_stream_frame_swallows,
}

abbrev foobar : StreamFrame
foobar = record {
  stream_id = 0x0decaf;
  fin_bit = false;
  data_len_present = true;
  offset = 0x10000;
  bytes = b'f' ∷ b'o' ∷ b'o' ∷ [];
}

foobar-IsValid : IsValid foobar
foobar-IsValid = record {
  id_fits = omega arith;
  offset_fits = omega arith;
  small = omega arith;
  not_empty = inr (omega arith);
}

abbrev fin : StreamFrame
fin = record { stream_id = 5; fin_bit = true; data_len_present = true; offset = 100; bytes = [] }

fin-IsValid : IsValid fin
fin-IsValid = record {
  id_fits = omega arith;
  offset_fits = omega arith;
  small = omega arith;
  not_empty = inl refl;
}

parse-write_stream_frame_example :
    ((write_stream_frame foobar (1 ∷ [])).1 ≡ none)
    × (parse_stream_frame ((write_stream_frame foobar []).0 ++ (7 ∷ [])) ≡ ok (foobar, 7 ∷ []))
parse-write_stream_frame_example =
    parse-write_stream_frame foobar (1 ∷ []) (7 ∷ []) foobar-IsValid (inl (refl, omega arith))

-- The PING frame behind the FIN becomes its data.
parse_stream_frame_swallows_example :
    parse_stream_frame ((write_stream_frame fin []).0 ++ (0x07 ∷ []))
    ≡ ok (record fin { bytes = 0x07 ∷ [] }, [])
parse_stream_frame_swallows_example =
    parse_stream_frame_swallows fin (0x07 ∷ []) fin-IsValid refl refl (omega arith)
