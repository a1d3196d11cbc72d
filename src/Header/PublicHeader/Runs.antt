-- ===== src/Header/PublicHeader/Runs.antt =====
-- A public header in concrete bytes.
use quic_go.Base.{ℕ, ◌≡◌, refl, arith, true, false, List, [], ◌∷◌, ◌++◌, none, ok}
use quic_go.Protocol.{len2}
use quic_go.Wire.{write_uint64, write_uint16}
use quic_go.Frames.StopWaiting.{write_packet_number}
use quic_go.Header.PublicHeader.{
  PublicHeader, write_public_header, parse_public_header, flag_byte, len_bits,
}
use quic_go.Header.PublicHeader.RoundTrip.{IsRegular, parse-write_public_header}

abbrev header : PublicHeader
header = record {
  raw = [];
  connection_id = 0x1122334455667788;
  version_flag = false;
  reset_flag = false;
  truncate_connection_id = false;
  packet_number_len = 2;
  packet_number = 0x1337;
  version_number = 0;
  diversification_nonce = [];
}

header-IsRegular : IsRegular header
header-IsRegular = record { no_version = refl; no_reset = refl }

-- The bytes of that header
header_bytes :
    write_public_header header []
    ≡ (0x18 ∷ 0x88 ∷ 0x77 ∷ 0x66 ∷ 0x55 ∷ 0x44 ∷ 0x33 ∷ 0x22 ∷ 0x11 ∷ 0x37 ∷ 0x13 ∷ [], none)
unfolding write_public_header flag_byte len_bits write_uint64 write_uint16 write_packet_number
header_bytes = refl

parse-write_public_header_example :
    parse_public_header ((write_public_header header []).0 ++ 0xAB ∷ []) ≡ ok (header, 0xAB ∷ [])
parse-write_public_header_example =
    parse-write_public_header header (0xAB ∷ []) header-IsRegular (len2 refl refl) refl refl
      (omega arith) (omega arith) (omega arith)

abbrev thirty_two : List ℕ
thirty_two =
    1 ∷ 2 ∷ 3 ∷ 4 ∷ 5 ∷ 6 ∷ 7 ∷ 8 ∷ 1 ∷ 2 ∷ 3 ∷ 4 ∷ 5 ∷ 6 ∷ 7 ∷ 8 ∷ 1 ∷ 2 ∷ 3 ∷ 4 ∷ 5 ∷ 6 ∷ 7 ∷ 8
    ∷ 1 ∷ 2 ∷ 3 ∷ 4 ∷ 5 ∷ 6 ∷ 7 ∷ 8 ∷ []

-- The server's header: no connection ID, and a nonce.
abbrev server_header : PublicHeader
server_header = record header { truncate_connection_id = true; diversification_nonce = thirty_two }
