-- ===== src/Protocol/Runs.antt =====
-- Packet number inference and lengths at concrete inputs.
use quic_go.Base.{◌%◌, ◌*◌, ◌^◌, ◌<◌, ◌≤◌, ◌≡◌, ◌⊎◌, refl, arith}
use quic_go.Protocol.{
  len2, infer_packet_number, get_packet_number_length_for_public_header, get_packet_number_length,
}
use quic_go.Protocol.Infer.{
  infer_packet_number-mod, infer-get_packet_number_length_for_public_header,
  get_packet_number_length_fits,
}

-- The receiver expects number 0x10001; the sender is a little ahead.
infer_packet_number-mod_example : infer_packet_number 2 0x10000 (0x10005 % 2 ^ 16) ≡ 0x10005
infer_packet_number-mod_example =
    infer_packet_number-mod 0x10000 0x10005 (len2 refl refl) (omega arith) (omega arith)
      (omega arith)

infer-get_packet_number_length_for_public_header_example :
    infer_packet_number
      (get_packet_number_length_for_public_header 40000 2)
      10
      (40000 % 2 ^ (8 * get_packet_number_length_for_public_header 40000 2))
    ≡ 40000
infer-get_packet_number_length_for_public_header_example =
    infer-get_packet_number_length_for_public_header 10 40000 2 (omega arith) (omega arith)
      (omega arith) (omega arith) (omega arith) (omega arith)

length_of_number_test :
    (0x1234 < 2 ^ (8 * get_packet_number_length 0x1234))
    × ((get_packet_number_length 0x1234 ≡ 1)
        ⊎ ((get_packet_number_length 0x1234 ≡ 2) × (2 ^ 8 ≤ 0x1234))
        ⊎ ((get_packet_number_length 0x1234 ≡ 4) × (2 ^ 16 ≤ 0x1234))
        ⊎ ((get_packet_number_length 0x1234 ≡ 6) × (2 ^ 32 ≤ 0x1234)))
length_of_number_test = get_packet_number_length_fits 0x1234 (omega arith)
