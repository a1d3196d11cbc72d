-- ===== src/Frames/StreamFrame/TypeByte.antt =====
-- The type byte of a STREAM frame: what the parser takes from it is what Write put there.
use quic_go.Base.{
  ℕ, ◌+◌, ◌-◌, ◌*◌, ◌/◌, ◌%◌, ◌<◌, ◌≤◌, ◌≡◌, ◌≢◌, refl, arith, Bool, true, false, ◌&&◌, not, ◌==◌,
  ltb, bit_and, if◌then◌else◌,
}
use quic_go.Base.Bits.{check_below, check_below_sound}
use quic_go.Frames.StreamFrame.{type_byte, has_fin, has_data_len, offset_len_of, stream_id_len_of}

same : Bool → Bool → Bool
same true b = b
same false b = not b

-- `n` codes the offset code (0 to 7) and the stream ID length less one (0 to 3).
abbrev offset_len : ℕ → ℕ
offset_len n = if ltb n 4 then 0 else n / 4 + 1

fields_agree : Bool → Bool → ℕ → Bool
unfolding type_byte has_fin has_data_len offset_len_of stream_id_len_of same
fields_agree fin present n =
    let t = type_byte fin present (offset_len n) (n % 4 + 1) in
    same (has_fin t) fin
    && (same (has_data_len t) present
        && (offset_len_of t == offset_len n && stream_id_len_of t == n % 4 + 1))

all_agree : (fin present : Bool) → check_below 32 (fields_agree fin present) ≡ true
unfolding check_below fields_agree
all_agree true true = refl
all_agree true false = refl
all_agree false true = refl
all_agree false false = refl

same→eq : (a b : Bool) → same a b ≡ true → a ≡ b
unfolding same
same→eq a b h = ground arith

-- For every length that Write can choose, the parser's fields are Write's.
pub type_byte_fields :
    (fin present : Bool) (ol il : ℕ)
    → ol ≤ 8
    → ol ≢ 1
    → 1 ≤ il
    → il ≤ 4
    → (has_fin (type_byte fin present ol il) ≡ fin)
      × (has_data_len (type_byte fin present ol il) ≡ present)
      × (offset_len_of (type_byte fin present ol il) ≡ ol)
      × (stream_id_len_of (type_byte fin present ol il) ≡ il)
unfolding fields_agree
type_byte_fields fin present ol il h1 h2 h3 h4 =
    ground (arith, agreed, same→eq (has_fin t) fin, same→eq (has_data_len t) present)
  where
    n : ℕ
    n = (if ol == 0 then 0 else ol - 1) * 4 + (il - 1)

    t : ℕ
    t = type_byte fin present ol il

    n-lt : n < 32
    n-lt = ground arith

    ol_eq : offset_len n ≡ ol
    ol_eq = ground arith

    il_eq : n % 4 + 1 ≡ il
    il_eq = ground arith

    agreed :
        same (has_fin t) fin
          && (same (has_data_len t) present && (offset_len_of t == ol && stream_id_len_of t == il))
        ≡ true
    agreed =
        rw (fields_agree, ol_eq, il_eq) at
          (check_below_sound 32 (fields_agree fin present) n (all_agree fin present) n-lt)

-- The highest bit tells STREAM frames from the others.
is_stream : Bool → Bool → ℕ → Bool
is_stream fin present n = bit_and (type_byte fin present (offset_len n) (n % 4 + 1)) 0x80 == 0x80

all_stream : (fin present : Bool) → check_below 32 (is_stream fin present) ≡ true
unfolding check_below is_stream type_byte
all_stream true true = refl
all_stream true false = refl
all_stream false true = refl
all_stream false false = refl

pub type_byte-stream :
    (fin present : Bool) (ol il : ℕ)
    → ol ≤ 8
    → ol ≢ 1
    → 1 ≤ il
    → il ≤ 4
    → (bit_and (type_byte fin present ol il) 0x80 == 0x80) ≡ true
unfolding is_stream
type_byte-stream fin present ol il h1 h2 h3 h4 =
    rw (is_stream, ol_eq, il_eq) at
      (check_below_sound 32 (is_stream fin present) n (all_stream fin present) n-lt)
  where
    n : ℕ
    n = (if ol == 0 then 0 else ol - 1) * 4 + (il - 1)

    n-lt : n < 32
    n-lt = ground arith

    ol_eq : offset_len n ≡ ol
    ol_eq = ground arith

    il_eq : n % 4 + 1 ≡ il
    il_eq = ground arith
