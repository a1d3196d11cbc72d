-- ===== src/Header/PublicHeader/RoundTrip.antt =====
-- A public header on the wire.
use quic_go.Base.{
  ℕ, not, ◌&&◌, ◌||◌, ◌+◌, ◌-◌, ◌^◌, ◌<◌, ◌≡◌, ◌≢◌, ◌⊎◌, inl, refl, ap, arith, Bool, true, false,
  List, [], ◌∷◌, ◌++◌, none, ok, length, length-append, ltb, ◌==◌, if◌then◌else◌, bit_and,
}
use quic_go.Protocol.{IsLen, len1, len2, len4, len6}
use quic_go.Wire.{write_uint64, read_byte}
use quic_go.Wire.RoundTrip.{write_uint64-le_bytes, read_uint64-le_bytes}
use quic_go.Wire.Codes.{le_bytes, length-le_bytes}
use quic_go.Frames.StopWaiting.RoundTrip.{write_packet_number-le_bytes, read-packet_number}
use quic_go.Header.PublicHeader.{
  PublicHeader, flag_byte, len_bits, len_of_bits, write_public_header, parse_public_header,
  parse_after_id, read_version, get_length,
}

-- A packet that is neither a reset nor a version negotiation.
pub record IsRegular (h : PublicHeader) : Type 0 where
  pub no_version : h.version_flag ≡ false
  pub no_reset : h.reset_flag ≡ false

-- The nonce is absent or has 32 bytes.
abbrev pub NonceFits : PublicHeader → Type 0
NonceFits h = (length h.diversification_nonce ≡ 0) ⊎ (length h.diversification_nonce ≡ 32)

-- What stands in front of the packet number.
abbrev front_of : Bool → ℕ → ℕ → List ℕ → List ℕ → List ℕ
front_of truncated flags id nonce b =
    (if truncated then b ++ (flags ∷ []) else write_uint64 (b ++ (flags ∷ [])) id) ++ nonce

abbrev front : PublicHeader → List ℕ → List ℕ
front h b =
    front_of h.truncate_connection_id (flag_byte h) h.connection_id h.diversification_nonce b

written :
    {m : ℕ} (h : PublicHeader) (b : List ℕ)
    → IsRegular h
    → IsLen h.packet_number_len m
    → NonceFits h
    → h.packet_number < m
    → write_public_header h b ≡ (front h b ++ le_bytes h.packet_number_len h.packet_number, none)
unfolding write_public_header flag_byte
written h b r l n p =
    let fits : (ltb 0 (length h.diversification_nonce)
          && not (length h.diversification_nonce == 32))
        ≡ false =
      ground (arith, n) in
    let one : (h.version_flag && h.reset_flag) ≡ false = ground (arith, r.no_version) in
    let plain : (not h.reset_flag && not h.version_flag) ≡ true =
      ground (arith, r.no_version, r.no_reset) in
    rw
      (
        write_public_header,
        one,
        fits,
        write_packet_number-le_bytes (front h b) h.packet_number l p,
        plain,
      )
      refl

length-front_of :
    (truncated : Bool) (flags id : ℕ) (nonce b : List ℕ)
    → length (front_of truncated flags id nonce b)
      ≡ length b + 1 + (if truncated then 0 else 8) + length nonce
length-front_of true flags id nonce b =
    rw (length-append (b ++ (flags ∷ [])) nonce, length-append b (flags ∷ [])) (omega arith)
length-front_of false flags id nonce b =
    rw
      (
        write_uint64-le_bytes,
        length-append ((b ++ (flags ∷ [])) ++ le_bytes 8 id) nonce,
        length-append (b ++ (flags ∷ [])) (le_bytes 8 id),
        length-append b (flags ∷ []),
      )
      (omega arith)

get_length-known :
    {m : ℕ} (h : PublicHeader)
    → IsRegular h
    → IsLen h.packet_number_len m
    → get_length h
      ≡ ok (
          1
          + (if h.truncate_connection_id then 0 else 8)
          + length h.diversification_nonce
          + h.packet_number_len)
unfolding get_length
get_length-known h r l =
    let either : (h.version_flag || h.reset_flag) ≡ false =
      ground (arith, r.no_version, r.no_reset) in
    rw (either, known l) refl
  where
    known : {k m : ℕ} → IsLen k m → (k == 1 || (k == 2 || (k == 4 || k == 6))) ≡ true
    known (len1 e _) = rw e refl
    known (len2 e _) = rw e refl
    known (len4 e _) = rw e refl
    known (len6 e _) = rw e refl

-- GetLength of a regular header with a valid packet number length is the number of bytes that Write
-- appends, with a connection ID or without, with a nonce of 32 bytes or without one, and Write
-- returns no error. The packet number fits its length.
pub length-write_public_header :
    {m : ℕ} (h : PublicHeader) (b : List ℕ)
    → IsRegular h
    → IsLen h.packet_number_len m
    → NonceFits h
    → h.packet_number < m
    → ((write_public_header h b).1 ≡ none)
      × (get_length h ≡ ok (length (write_public_header h b).0 - length b))
      × (length b < length (write_public_header h b).0)
length-write_public_header h b r l n p =
    let total : length (front h b ++ le_bytes h.packet_number_len h.packet_number)
        ≡ length b
          + (1
              + (if h.truncate_connection_id then 0 else 8)
              + length h.diversification_nonce
              + h.packet_number_len) =
      rw
        (
          length-append (front h b) (le_bytes h.packet_number_len h.packet_number),
          length-le_bytes h.packet_number_len h.packet_number,
        )
        (omega (
          arith,
          length-front_of h.truncate_connection_id (flag_byte h) h.connection_id
              h.diversification_nonce b,
        )) in
    rw (written h b r l n p, get_length-known h r l, total)
      (refl, ap (λ (k : ℕ). ok k) (omega arith), omega arith)

-- The flags are read back.
flags_read :
    {l m : ℕ}
    → IsLen l m
    → (bit_and (8 + len_bits l) 0x08 ≡ 8)
      × (bit_and (8 + len_bits l) 0x01 ≡ 0)
      × (bit_and (8 + len_bits l) 0x02 ≡ 0)
      × (len_of_bits (bit_and (8 + len_bits l) 0x30) ≡ l)
unfolding len_bits len_of_bits
flags_read (len1 e _) = rw e (refl, refl, refl, refl)
flags_read (len2 e _) = rw e (refl, refl, refl, refl)
flags_read (len4 e _) = rw e (refl, refl, refl, refl)
flags_read (len6 e _) = rw e (refl, refl, refl, refl)

client_flags :
    (h : PublicHeader)
    → IsRegular h
    → h.truncate_connection_id ≡ false
    → h.diversification_nonce ≡ []
    → flag_byte h ≡ 8 + len_bits h.packet_number_len
unfolding flag_byte
client_flags h r t n = ground (arith, r.no_version, r.no_reset, t, n)

parse_bytes :
    {l m : ℕ} (id pn : ℕ) (rest : List ℕ)
    → IsLen l m
    → pn < m
    → id ≢ 0
    → id < 2 ^ 64
    → parse_public_header ((8 + len_bits l) ∷ (le_bytes 8 id ++ (le_bytes l pn ++ rest)))
      ≡ ok (
        record {
          raw = [];
          connection_id = id;
          version_flag = false;
          reset_flag = false;
          truncate_connection_id = false;
          packet_number_len = l;
          packet_number = pn;
          version_number = 0;
          diversification_nonce = [];
        },
        rest,
      )
unfolding parse_public_header parse_after_id read_version read_byte
parse_bytes {l} id pn rest k p z c =
    let (id_flag, version, reset, len) = flags_read k in
    let other : (id == 0) ≡ false = ground (arith, z) in
    rw
      (
        id_flag,
        read_uint64-le_bytes id (le_bytes l pn ++ rest) c,
        other,
        version,
        reset,
        len,
        read-packet_number pn rest k p,
      )
      refl

-- A regular header with a connection ID other than 0 and without a nonce, as a client sends it, is
-- parsed back, and what follows it stays unread; the version number and the raw bytes are not on the
-- wire. The packet number fits its length, which is 1, 2, 4 or 6, and the ID is a uint64.
pub parse-write_public_header :
    {m : ℕ} (h : PublicHeader) (rest : List ℕ)
    → IsRegular h
    → IsLen h.packet_number_len m
    → h.truncate_connection_id ≡ false
    → h.diversification_nonce ≡ []
    → h.packet_number < m
    → h.connection_id ≢ 0
    → h.connection_id < 2 ^ 64
    → parse_public_header ((write_public_header h []).0 ++ rest)
      ≡ ok (record h { raw = []; version_number = 0 }, rest)
parse-write_public_header h rest r l t n p z c =
    let fits : NonceFits h = inl (rw n refl) in
    let bytes : (write_public_header h []).0 ++ rest
        ≡ (8 + len_bits h.packet_number_len)
          ∷ (le_bytes 8 h.connection_id ++ (le_bytes h.packet_number_len h.packet_number ++ rest)) =
      rw (written h [] r l fits p, client_flags h r t n, t, n, write_uint64-le_bytes) refl in
    rw (bytes, parse_bytes h.connection_id h.packet_number rest l p z c)
      (rw (r.no_version, r.no_reset, t, n) refl)
