-- ===== src/Frames/Ack/Parsed.antt =====
-- What an ACK frame that ParseAckFrame accepts guarantees.
use quic_go.Base.{
  ℕ, zero, suc, ◌-◌, ◌^◌, ◌≤◌, ◌<◌, ◌≡◌, ◌⊎◌, inl, inr, refl, arith, sym, ap, ◌∙◌, Bool, true,
  false, ◌&&◌, List, [], ◌∷◌, ok, length, All, IsByte, subst, bit_and, ltb, leb, ◌==◌,
  if◌then◌else◌, Bool-cases, ltb→le, invalid_ack_ranges, invalid_first_ack_range,
}
use quic_go.Base.Bits.{check_below, check_below_sound}
use quic_go.Wire.{read_byte, read_uint_n, read_uint16, read_uint32}
use quic_go.Wire.Bounds.{
  ok-bind, err-ne-ok, ok-injective, read_byte-length, read_byte-IsByte, read_uint_n-length,
  read_uint_n-IsByte, read_uint16-length, read_uint16-IsByte, read_uint32-length,
}
use quic_go.Wire.Float.{read_ufloat16}
use quic_go.Frames.Ack.{
  AckRange, AckFrame, validate_ack_ranges, all_valid, all_apart, any_range, acks_packet,
  validate_ranges,
}
use quic_go.Frames.Ack.Ranges.{lowest, lowest_le, acks_packet-any_range}
use quic_go.Frames.Ack.Blocks.{Whole, lowest_in, short_uint, apart-NoWrap, read_ranges-Whole}
use quic_go.Frames.Ack.Parse.{
  largest_acked_len_of, delta_len_of, skip_timestamps, skip_all_timestamps, read_ranges,
  parse_ack_end, parse_ack_blocks, parse_ack_frame,
}

skip_timestamps-length :
    (n : ℕ) (r : List ℕ) (u : Unit {0}) (r' : List ℕ)
    → skip_timestamps n r ≡ ok (u, r')
    → length r' ≤ length r
unfolding skip_timestamps
skip_timestamps-length zero r u r' h = ground arith
skip_timestamps-length (suc n) r u r' h =
    let (_, r1, e1, h1) = ok-bind (read_byte r) _ u r' h in
    let (_, r2, e2, h2) = ok-bind (read_uint16 r1) _ u r' h1 in
    omega (
      arith,
      read_byte-length r _ r1 e1,
      read_uint16-length r1 _ r2 e2,
      skip_timestamps-length n r2 u r' h2,
    )

skip_all_timestamps-length :
    (r : List ℕ) (u : Unit {0}) (r' : List ℕ)
    → skip_all_timestamps r ≡ ok (u, r')
    → length r' < length r
unfolding skip_all_timestamps
skip_all_timestamps-length r u r' h =
    let (num, r1, e1, h1) = ok-bind (read_byte r) _ u r' h in
    elim (Bool-cases (num == 0)) [
      | inl z ↦ let h1' = rw z at h1 in ground (arith, read_byte-length r _ r1 e1)
      | inr z ↦
          let (_, r2, e2, h2) = ok-bind (read_byte r1) _ u r' (rw z at h1) in
          let (_, r3, e3, h3) = ok-bind (read_uint32 r2) _ u r' h2 in
          omega (
            arith,
            read_byte-length r _ r1 e1,
            read_byte-length r1 _ r2 e2,
            read_uint32-length r2 _ r3 e3,
            skip_timestamps-length (num - 1) r3 u r' h3,
          )
    ]

-- The lengths that a type byte announces.
lens_small : check_below 256 (λ t. leb (delta_len_of t) 6 && leb (largest_acked_len_of t) 6) ≡ true
unfolding check_below delta_len_of largest_acked_len_of
lens_small = refl

lens-le : (t : ℕ) → t < 256 → (delta_len_of t ≤ 6) × (largest_acked_len_of t ≤ 6)
lens-le t h =
    let e =
      check_below_sound 256 (λ k. leb (delta_len_of k) 6 && leb (largest_acked_len_of k) 6) t
        lens_small h in
    ground (arith, e)

maybe-IsByte :
    (missing : Bool) (r : List ℕ) (num : ℕ) (r' : List ℕ)
    → All IsByte r
    → (if missing then read_byte r else ok (0, r)) ≡ ok (num, r')
    → All IsByte r' × (length r' ≤ length r)
maybe-IsByte true r num r' a e =
    ((read_byte-IsByte r num r' a e).1, omega (arith, read_byte-length r num r' e))
maybe-IsByte false r num r' a e =
    let q : r ≡ r' = cc in (subst (All IsByte) q a, rw q (omega arith))

read_ufloat16-rest :
    (r : List ℕ) (v : ℕ) (r' : List ℕ)
    → All IsByte r
    → read_ufloat16 r ≡ ok (v, r')
    → All IsByte r' × (length r' ≤ length r)
unfolding read_ufloat16
read_ufloat16-rest r v r' a e =
    let (w, r1, e1, h1) = ok-bind (read_uint16 r) _ v r' e in
    let q : r1 ≡ r' = cc in
    (
      subst (All IsByte) q (read_uint16-IsByte r w r1 a e1),
      rw (sym q) (omega (arith, read_uint16-length r w r1 e1)),
    )

-- What the frame of a successful parse satisfies, and what is left of the reader.
record IsParsed (f : AckFrame) (r r' : List ℕ) : Type 0 where
  largest_short : f.largest_acked < 2 ^ 48
  whole : All Whole f.ack_ranges
  low :
      (f.lowest_acked ≡ lowest_in f.ack_ranges)
      ⊎ ((f.ack_ranges ≡ []) × (f.lowest_acked ≤ f.largest_acked))
  valid : validate_ack_ranges f ≡ true
  shorter : length r' < length r

positive_block :
    (largest len : ℕ) → (ltb 0 largest && ltb len 1) ≡ false → (1 ≤ len) ⊎ (largest ≡ 0)
positive_block largest len y = ground arith

pub parse_ack_end-same :
    (g : AckFrame) (r : List ℕ) (f : AckFrame) (r' : List ℕ)
    → parse_ack_end g r ≡ ok (f, r')
    → (g ≡ f) × (validate_ack_ranges g ≡ true) × (length r' < length r)
unfolding parse_ack_end
parse_ack_end-same g r f r' h = elim (Bool-cases (validate_ack_ranges g)) [
  | inr w ↦ absurd (err-ne-ok invalid_ack_ranges f r' (rw (parse_ack_end, w) at h))
  | inl w ↦
      let (u, r1, e1, h1) = ok-bind (skip_all_timestamps r) _ f r' (rw (parse_ack_end, w) at h) in
      let (same, rest) = ok-injective g f r1 r' h1 in
      (same, w, rw (sym rest) (skip_all_timestamps-length r u r1 e1))
]

parse_ack_blocks-IsParsed :
    (t largest delay num : ℕ) (r : List ℕ) (f : AckFrame) (r' : List ℕ)
    → All IsByte r
    → t < 256
    → largest < 2 ^ 48
    → parse_ack_blocks t largest delay num r ≡ ok (f, r')
    → IsParsed f r r'
unfolding parse_ack_blocks
parse_ack_blocks-IsParsed t largest delay num r f r' a b l h =
    let missing = bit_and t 0x20 == 0x20 in
    let d : ℕ = delta_len_of t in
    elim (Bool-cases (missing && num == 0)) [
      | inl z ↦ absurd (err-ne-ok invalid_ack_ranges f r' (rw (parse_ack_blocks, z) at h))
      | inr z ↦
          let (len, r1, e1, h1) =
            ok-bind (read_uint_n r d) _ f r' (rw (parse_ack_blocks, z) at h) in
          elim (Bool-cases (ltb 0 largest && ltb len 1)) [
            | inl y ↦ absurd (err-ne-ok invalid_first_ack_range f r' (rw y at h1))
            | inr y ↦ elim (Bool-cases (ltb largest len)) [
              | inl x ↦ absurd (err-ne-ok invalid_ack_ranges f r' (rw (y, x) at h1))
              | inr x ↦
                  let (parsed, r2, e2, h2) =
                    ok-bind (read_ranges missing num d largest len r1) _ f r' (rw (y, x) at h1) in
                  let (same, valid, l3) = parse_ack_end-same _ r2 f r' h2 in
                  let (whole, lows, l2) =
                    read_ranges-Whole missing num d largest len r1 parsed.0 parsed.1 r2
                      (read_uint_n-IsByte d r len r1 a e1) ((lens-le t b).0) l
                      (ltb→le largest len x) (positive_block largest len y) e2 in
                  subst (λ g. IsParsed g r r') same
                    (record {
                      largest_short = l;
                      whole = whole;
                      low = lows;
                      valid = valid;
                      shorter = omega (arith, l3, l2, read_uint_n-length d r len r1 e1);
                    })
            ]
          ]
    ]

parse_ack_frame-IsParsed :
    (r : List ℕ) (f : AckFrame) (r' : List ℕ)
    → All IsByte r
    → parse_ack_frame r ≡ ok (f, r')
    → IsParsed f r r'
unfolding parse_ack_frame
parse_ack_frame-IsParsed r f r' a h =
    let (t, r1, e1, h1) = ok-bind (read_byte r) _ f r' h in
    let (b, a1) = read_byte-IsByte r t r1 a e1 in
    let n : ℕ = largest_acked_len_of t in
    let (largest, r2, e2, h2) = ok-bind (read_uint_n r1 n) _ f r' h1 in
    let l = short_uint n r1 largest r2 a1 ((lens-le t b).1) e2 in
    let (delay, r3, e3, h3) = ok-bind (read_ufloat16 r2) _ f r' h2 in
    let (a3, l3) = read_ufloat16-rest r2 delay r3 (read_uint_n-IsByte n r1 largest r2 a1 e2) e3 in
    let missing = bit_and t 0x20 == 0x20 in
    let (num, r4, e4, h4) = ok-bind (if missing then read_byte r3 else ok (0, r3)) _ f r' h3 in
    let (a4, l4) = maybe-IsByte missing r3 num r4 a3 e4 in
    let p = parse_ack_blocks-IsParsed t largest delay num r4 f r' a4 b l h4 in
    record {
      largest_short = p.largest_short;
      whole = p.whole;
      low = p.low;
      valid = p.valid;
      shorter = omega (
        arith,
        p.shorter,
        l4,
        l3,
        read_byte-length r t r1 e1,
        read_uint_n-length n r1 largest r2 e2,
      );
    }

first_below :
    (r : AckRange) (rs : List AckRange)
    → all_valid (r ∷ rs) ≡ true
    → r.last < 2 ^ 48
    → (r.first < 2 ^ 48) × (all_valid rs ≡ true)
unfolding all_valid
first_below r rs v l = ground arith

ranges-acks :
    (f : AckFrame) (p : ℕ) (r : AckRange) (rs : List AckRange)
    → f.ack_ranges ≡ r ∷ rs
    → f.largest_acked < 2 ^ 48
    → All Whole (r ∷ rs)
    → f.lowest_acked ≡ lowest r rs
    → validate_ack_ranges f ≡ true
    → acks_packet f p ≡ any_range p f.ack_ranges
unfolding validate_ack_ranges validate_ranges
ranges-acks f p r [] e l w low v = let v' : false ≡ true = rw e at v in absurd (cc)
ranges-acks f p r (s ∷ rs) e l w low v =
    let v' : validate_ranges f.largest_acked (r ∷ s ∷ rs) ≡ true = rw e at v in
    let valid : all_valid (r ∷ s ∷ rs) ≡ true = ground arith in
    let apart : all_apart r (s ∷ rs) ≡ true = ground arith in
    let top : r.last ≡ f.largest_acked = ground arith in
    let first : (r.first < 2 ^ 48) × (all_valid (s ∷ rs) ≡ true) =
      first_below r (s ∷ rs) valid (omega (arith, top)) in
    acks_packet-any_range f r (s ∷ rs) p e v low (apart-NoWrap r (s ∷ rs) first.0 w.1 first.1 apart)

ranges-le :
    (f : AckFrame) (r : AckRange) (rs : List AckRange)
    → f.ack_ranges ≡ r ∷ rs
    → f.lowest_acked ≡ lowest r rs
    → validate_ack_ranges f ≡ true
    → f.lowest_acked ≤ f.largest_acked
unfolding validate_ack_ranges validate_ranges all_valid
ranges-le f r [] e low v = let v' : false ≡ true = rw e at v in absurd (cc)
ranges-le f r (s ∷ rs) e low v =
    let v' : validate_ranges f.largest_acked (r ∷ s ∷ rs) ≡ true = rw e at v in
    ground (arith, lowest_le r (s ∷ rs))

-- The two ways in which the parser sets LowestAcked.
abbrev LowOf : AckFrame → Type 0
LowOf f =
    (f.lowest_acked ≡ lowest_in f.ack_ranges)
    ⊎ ((f.ack_ranges ≡ []) × (f.lowest_acked ≤ f.largest_acked))

lows-of :
    (f : AckFrame) (r : AckRange) (rs : List AckRange)
    → f.ack_ranges ≡ r ∷ rs
    → LowOf f
    → f.lowest_acked ≡ lowest r rs
lows-of f r rs e (inl l) = l ∙ ap lowest_in e
lows-of f r rs e (inr (n, l)) = absurd (cc)

empty-le : (f : AckFrame) → f.ack_ranges ≡ [] → LowOf f → f.lowest_acked ≤ f.largest_acked
empty-le f e (inl l) = omega (arith, l ∙ ap lowest_in e)
empty-le f e (inr (n, l)) = l

List-cases : (l : List AckRange) → (l ≡ []) ⊎ ((r : AckRange) × (rs : List AckRange) × (l ≡ r ∷ rs))
List-cases [] = inl refl
List-cases (r ∷ rs) = inr (r, rs, refl)

-- A frame that the parser accepts from bytes acknowledges exactly the packets of its ranges, if it
-- has ranges: none of them wraps around, although they are computed in 64 bits. LowestAcked is not
-- above LargestAcked, the ranges pass the validation, and at least one byte was read.
pub parse_ack_frame-acks :
    (r : List ℕ) (f : AckFrame) (r' : List ℕ)
    → All IsByte r
    → parse_ack_frame r ≡ ok (f, r')
    → ((f.ack_ranges ≡ []) ⊎ ((p : ℕ) → acks_packet f p ≡ any_range p f.ack_ranges))
      × (f.lowest_acked ≤ f.largest_acked)
      × (validate_ack_ranges f ≡ true)
      × (length r' < length r)
parse_ack_frame-acks r f r' a h =
    let g = parse_ack_frame-IsParsed r f r' a h in
    elim (List-cases f.ack_ranges) [
      | inl e ↦ (inl e, empty-le f e g.low, g.valid, g.shorter)
      | inr (x, xs, e) ↦
          let low : f.lowest_acked ≡ lowest x xs = lows-of f x xs e g.low in
          (
            inr (λ p.
                ranges-acks f p x xs e g.largest_short (subst (All Whole) e g.whole) low g.valid),
            ranges-le f x xs e low g.valid,
            g.valid,
            g.shorter,
          )
    ]
