-- ===== src/Protocol/Infer.antt =====
-- Packet numbers are cut to their low bytes on the wire, and inferred from the last one received.
use quic_go.Base.{
  ℕ, ◌+◌, ◌-◌, ◌*◌, ◌/◌, ◌%◌, ◌^◌, ◌≤◌, ◌<◌, ◌≡◌, ◌⊎◌, inl, inr, arith, Bool-cases, ltb,
}
use quic_go.Protocol.{
  IsLen, len1, len2, len4, len6, infer_packet_number, get_packet_number_length,
  get_packet_number_length_for_public_header, sub64,
}

-- The numbers nearer than half of what the length can tell apart to the one expected next.
abbrev pub IsNear : ℕ → ℕ → ℕ → Type 0
IsNear m last pn = (last + 1 < pn + m / 2) × (pn < last + 1 + m / 2)

module _ (last pn : ℕ) (hl : last < 2 ^ 63) (hp : pn < 2 ^ 63) where
  infer1 : IsNear (2 ^ 8) last pn → infer_packet_number 1 last (pn % 2 ^ 8) ≡ pn
  unfolding infer_packet_number
  infer1 n = ground arith

  infer2 : IsNear (2 ^ 16) last pn → infer_packet_number 2 last (pn % 2 ^ 16) ≡ pn
  unfolding infer_packet_number
  infer2 n = ground arith

  infer4 : IsNear (2 ^ 32) last pn → infer_packet_number 4 last (pn % 2 ^ 32) ≡ pn
  unfolding infer_packet_number
  infer4 n = ground arith

  infer6 : IsNear (2 ^ 48) last pn → infer_packet_number 6 last (pn % 2 ^ 48) ≡ pn
  unfolding infer_packet_number
  infer6 n = ground arith

-- For each packet number length, a packet number that was cut to that length is inferred from the
-- last packet number, if it is nearer than half an epoch to the number expected next; both numbers
-- are below 2 ^ 63.
pub infer_packet_number-mod :
    {l m : ℕ} (last pn : ℕ)
    → IsLen l m
    → last < 2 ^ 63
    → pn < 2 ^ 63
    → IsNear m last pn
    → infer_packet_number l last (pn % m) ≡ pn
infer_packet_number-mod last pn (len1 el em) hl hp n =
    rw (el, em) (infer1 last pn hl hp (rw em at n))
infer_packet_number-mod last pn (len2 el em) hl hp n =
    rw (el, em) (infer2 last pn hl hp (rw em at n))
infer_packet_number-mod last pn (len4 el em) hl hp n =
    rw (el, em) (infer4 last pn hl hp (rw em at n))
infer_packet_number-mod last pn (len6 el em) hl hp n =
    rw (el, em) (infer6 last pn hl hp (rw em at n))

-- The length that the sender chooses from its least unacked packet number is enough: a receiver
-- whose last packet number is at least the number before that, and at most 2 ^ 14 numbers past this
-- packet's, infers this packet's number from its low bytes. Fewer than 2 ^ 47 packet numbers are
-- unacked, and all numbers are below 2 ^ 63.
pub infer-get_packet_number_length_for_public_header :
    (last pn lu : ℕ)
    → last < 2 ^ 63
    → pn < 2 ^ 63
    → lu ≤ pn
    → pn < lu + 2 ^ 47
    → lu ≤ last + 1
    → last ≤ pn + 2 ^ 14
    → infer_packet_number
        (get_packet_number_length_for_public_header pn lu)
        last
        (pn % 2 ^ (8 * get_packet_number_length_for_public_header pn lu))
      ≡ pn
unfolding get_packet_number_length_for_public_header
infer-get_packet_number_length_for_public_header last pn lu hl hp h1 h2 h3 h4 =
    let diff : sub64 pn lu ≡ pn - lu = omega arith in
    elim (Bool-cases (ltb (sub64 pn lu) (2 ^ 15))) [
      | inl a ↦ rw a (infer2 last pn hl hp (ground arith))
      | inr a ↦ elim (Bool-cases (ltb (sub64 pn lu) (2 ^ 31))) [
        | inl b ↦ rw (a, b) (infer4 last pn hl hp (ground arith))
        | inr b ↦ rw (a, b) (infer6 last pn hl hp (ground arith))
      ]
    ]

-- The length chosen for an ACK frame holds every packet number below 2 ^ 48, and the next shorter
-- length does not.
pub get_packet_number_length_fits :
    (pn : ℕ)
    → pn < 2 ^ 48
    → (pn < 2 ^ (8 * get_packet_number_length pn))
      × ((get_packet_number_length pn ≡ 1)
          ⊎ ((get_packet_number_length pn ≡ 2) × (2 ^ 8 ≤ pn))
          ⊎ ((get_packet_number_length pn ≡ 4) × (2 ^ 16 ≤ pn))
          ⊎ ((get_packet_number_length pn ≡ 6) × (2 ^ 32 ≤ pn)))
unfolding get_packet_number_length
get_packet_number_length_fits pn h = ground arith
