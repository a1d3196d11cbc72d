-- ===== src/Frames/Ack/Shorter.antt =====
-- ParseAckFrame takes at least one byte, whatever it is given.
use quic_go.Base.{
  ℕ, zero, suc, ◌≤◌, ◌<◌, ◌≡◌, inl, inr, arith, sym, Bool, true, false, List, ok, length, bit_and,
  ltb, ◌==◌, ◌&&◌, if◌then◌else◌, Bool-cases, invalid_ack_ranges, invalid_first_ack_range,
}
use quic_go.Wire.{read_byte, read_uint_n, read_uint16}
use quic_go.Wire.Bounds.{
  ok-bind, ok-injective, err-ne-ok, read_byte-length, read_uint_n-length, read_uint16-length,
}
use quic_go.Wire.Float.{read_ufloat16}
use quic_go.Frames.Ack.{AckRange, AckFrame}
use quic_go.Frames.Ack.Parse.{
  largest_acked_len_of, delta_len_of, Blocks, first_block, read_blocks, read_ranges,
  parse_ack_blocks, parse_ack_frame,
}
use quic_go.Frames.Ack.Parsed.{parse_ack_end-same}

read_blocks-shorter :
    (n d : ℕ) (b : Blocks) (r : List ℕ) (b' : Blocks) (r' : List ℕ)
    → read_blocks n d b r ≡ ok (b', r')
    → length r' ≤ length r
unfolding read_blocks
read_blocks-shorter zero d b r b' r' h =
    let (_, same) = ok-injective _ b' r r' h in rw (sym same) (omega arith)
read_blocks-shorter (suc n) d b r b' r' h =
    let (gap, r1, e1, h1) = ok-bind (read_byte r) _ b' r' h in
    let (len, r2, e2, h2) = ok-bind (read_uint_n r1 d) _ b' r' h1 in
    omega (
      arith,
      read_byte-length r gap r1 e1,
      read_uint_n-length d r1 len r2 e2,
      read_blocks-shorter n d _ r2 b' r' h2,
    )

read_ranges-shorter :
    (missing : Bool) (num d largest len : ℕ) (r : List ℕ) (p : List AckRange × ℕ) (r' : List ℕ)
    → read_ranges missing num d largest len r ≡ ok (p, r')
    → length r' ≤ length r
unfolding read_ranges
read_ranges-shorter false num d largest len r p r' h =
    let (_, same) = ok-injective _ p r r' h in rw (sym same) (omega arith)
read_ranges-shorter true num d largest len r p r' h =
    let (b, r1, e1, h1) = ok-bind (read_blocks num d (first_block largest len) r) _ p r' h in
    let (_, same) = ok-injective _ p r1 r' h1 in
    rw (sym same) (read_blocks-shorter num d _ r b r1 e1)

parse_ack_blocks-shorter :
    (t largest delay num : ℕ) (r : List ℕ) (f : AckFrame) (r' : List ℕ)
    → parse_ack_blocks t largest delay num r ≡ ok (f, r')
    → length r' < length r
unfolding parse_ack_blocks
parse_ack_blocks-shorter t largest delay num r f r' h =
    let missing = bit_and t 0x20 == 0x20 in
    let d : ℕ = delta_len_of t in
    elim (Bool-cases (missing && num == 0)) [
      | inl z ↦ absurd (err-ne-ok invalid_ack_ranges f r' (rw (parse_ack_blocks, z) at h))
      | inr z ↦
          let (len, r1, e1, h1) =
            ok-bind (read_uint_n r d) _ f r' (rw (parse_ack_blocks, z) at h) in
          elim (Bool-cases (ltb 0 largest && ltb len 1)) [
            | inl y ↦ absurd (err-ne-ok invalid_first_ack_range f r' (rw y at h1))
            | inr y ↦ elim (Bool-cases (ltb largest len)) [
              | inl x ↦ absurd (err-ne-ok invalid_ack_ranges f r' (rw (y, x) at h1))
              | inr x ↦
                  let (p, r2, e2, h2) =
                    ok-bind (read_ranges missing num d largest len r1) _ f r' (rw (y, x) at h1) in
                  omega (
                    arith,
                    (parse_ack_end-same _ r2 f r' h2).2,
                    read_ranges-shorter missing num d largest len r1 p r2 e2,
                    read_uint_n-length d r len r1 e1,
                  )
            ]
          ]
    ]

maybe_byte-shorter :
    (missing : Bool) (r : List ℕ) (num : ℕ) (r' : List ℕ)
    → (if missing then read_byte r else ok (0, r)) ≡ ok (num, r')
    → length r' ≤ length r
maybe_byte-shorter true r num r' e = omega (arith, read_byte-length r num r' e)
maybe_byte-shorter false r num r' e =
    let (_, same) = ok-injective _ num r r' e in rw (sym same) (omega arith)

read_ufloat16-shorter :
    (r : List ℕ) (v : ℕ) (r' : List ℕ) → read_ufloat16 r ≡ ok (v, r') → length r' ≤ length r
unfolding read_ufloat16
read_ufloat16-shorter r v r' e =
    let (w, r1, e1, h1) = ok-bind (read_uint16 r) _ v r' e in
    let (_, same) = ok-injective _ v r1 r' h1 in
    rw (sym same) (omega (arith, read_uint16-length r w r1 e1))

pub parse_ack_frame-shorter :
    (r : List ℕ) (f : AckFrame) (r' : List ℕ)
    → parse_ack_frame r ≡ ok (f, r')
    → length r' < length r
unfolding parse_ack_frame
parse_ack_frame-shorter r f r' h =
    let (t, r1, e1, h1) = ok-bind (read_byte r) _ f r' h in
    let (largest, r2, e2, h2) = ok-bind (read_uint_n r1 (largest_acked_len_of t)) _ f r' h1 in
    let (delay, r3, e3, h3) = ok-bind (read_ufloat16 r2) _ f r' h2 in
    let (num, r4, e4, h4) =
      ok-bind (if bit_and t 0x20 == 0x20 then read_byte r3 else ok (0, r3)) _ f r' h3 in
    omega (
      arith,
      read_byte-length r t r1 e1,
      read_uint_n-length (largest_acked_len_of t) r1 largest r2 e2,
      read_ufloat16-shorter r2 delay r3 e3,
      maybe_byte-shorter (bit_and t 0x20 == 0x20) r3 num r4 e4,
      parse_ack_blocks-shorter t largest delay num r4 f r' h4,
    )
