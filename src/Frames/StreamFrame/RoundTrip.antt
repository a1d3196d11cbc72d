-- ===== src/Frames/StreamFrame/RoundTrip.antt =====
-- A STREAM frame on the wire.
use quic_go.Base.{
  ℕ, zero, suc, ◌+◌, ◌^◌, ◌<◌, ◌≤◌, ◌≡◌, ◌≢◌, ◌⊎◌, inl, inr, refl, arith, Bool, true, false, ◌&&◌,
  not, ◌==◌, if◌then◌else◌, List, [], ◌∷◌, ◌++◌, ok, none, some, length, length-append, bit_and,
  take-append_length, drop-append_length, append_assoc, append-nil,
}
use quic_go.Wire.Codes.{le_bytes, length-le_bytes, read_uint_n-le_bytes}
use quic_go.Protocol.{max_packet_size}
use quic_go.Frames.StreamFrame.{
  StreamFrame, data_len, type_byte, read_data, parse_stream_data, parse_stream_frame,
  calculate_stream_id_length, get_offset_length, write_stream_id, write_offset, write_stream_fields,
  write_stream_frame, min_length_stream_frame,
}
use quic_go.Frames.StreamFrame.TypeByte.{type_byte_fields, type_byte-stream}

id_length :
    (f : StreamFrame)
    → f.stream_id < 2 ^ 32
    → (1 ≤ calculate_stream_id_length f)
      × (calculate_stream_id_length f ≤ 4)
      × (f.stream_id < 256 ^ calculate_stream_id_length f)
unfolding calculate_stream_id_length
id_length f h = ground arith

offset_length :
    (f : StreamFrame)
    → f.offset < 2 ^ 64
    → (get_offset_length f ≤ 8) × (get_offset_length f ≢ 1) × (f.offset < 256 ^ get_offset_length f)
unfolding get_offset_length
offset_length f h = ground arith

write_stream_id-le_bytes :
    (b : List ℕ) (l v : ℕ)
    → 1 ≤ l
    → l ≤ 4
    → v < 256 ^ l
    → write_stream_id b l v ≡ some (b ++ le_bytes l v)
unfolding write_stream_id
write_stream_id-le_bytes b zero v h1 h2 h = absurd (omega arith)
write_stream_id-le_bytes b (suc zero) v h1 h2 h = ground arith
write_stream_id-le_bytes b (suc (suc zero)) v h1 h2 h = ground arith
write_stream_id-le_bytes b (suc (suc (suc zero))) v h1 h2 h = ground arith
write_stream_id-le_bytes b (suc (suc (suc (suc zero)))) v h1 h2 h = ground arith
write_stream_id-le_bytes b (suc (suc (suc (suc (suc l))))) v h1 h2 h = absurd (omega arith)

write_offset-le_bytes :
    (b : List ℕ) (l v : ℕ)
    → l ≤ 8
    → l ≢ 1
    → v < 256 ^ l
    → write_offset b l v ≡ some (b ++ le_bytes l v)
unfolding write_offset
write_offset-le_bytes b zero v h1 h2 h = ground (arith, append-nil b)
write_offset-le_bytes b (suc zero) v h1 h2 h = absurd (omega arith)
write_offset-le_bytes b (suc (suc zero)) v h1 h2 h = ground arith
write_offset-le_bytes b (suc (suc (suc zero))) v h1 h2 h = ground arith
write_offset-le_bytes b (suc (suc (suc (suc zero)))) v h1 h2 h = ground arith
write_offset-le_bytes b (suc (suc (suc (suc (suc zero))))) v h1 h2 h = ground arith
write_offset-le_bytes b (suc (suc (suc (suc (suc (suc zero)))))) v h1 h2 h = ground arith
write_offset-le_bytes b (suc (suc (suc (suc (suc (suc (suc zero))))))) v h1 h2 h = ground arith
write_offset-le_bytes b (suc (suc (suc (suc (suc (suc (suc (suc zero)))))))) v h1 h2 h =
    ground arith
write_offset-le_bytes b (suc (suc (suc (suc (suc (suc (suc (suc (suc l))))))))) v h1 h2 h =
    absurd (omega arith)

-- A frame as the parser can give it: values in range, and not an empty frame without FIN.
pub record IsValid (f : StreamFrame) : Type 0 where
  pub id_fits : f.stream_id < 2 ^ 32
  pub offset_fits : f.offset < 2 ^ 64
  pub small : data_len f ≤ max_packet_size
  pub not_empty : (f.fin_bit ≡ true) ⊎ (data_len f ≢ 0)

abbrev length_bytes : StreamFrame → List ℕ
length_bytes f = if f.data_len_present then le_bytes 2 (data_len f) else []

-- The bytes of a frame in order, bracketed as the parser takes them.
abbrev wire : StreamFrame → List ℕ → List ℕ
wire f rest =
    type_byte f.fin_bit f.data_len_present (get_offset_length f) (calculate_stream_id_length f)
    ∷ (le_bytes (calculate_stream_id_length f) f.stream_id
        ++ (le_bytes (get_offset_length f) f.offset ++ (length_bytes f ++ (f.bytes ++ rest))))

fields_written :
    (f : StreamFrame) (b : List ℕ)
    → IsValid f
    → write_stream_fields f b ≡ (
      (((b ++ le_bytes (calculate_stream_id_length f) f.stream_id)
              ++ le_bytes (get_offset_length f) f.offset)
            ++ length_bytes f)
          ++ f.bytes,
      none,
    )
unfolding write_stream_fields
fields_written f b v =
    let (i1, i2, i3) = id_length f v.id_fits in
    let (o1, o2, o3) = offset_length f v.offset_fits in
    let b1 : List ℕ = b ++ le_bytes (calculate_stream_id_length f) f.stream_id in
    let b2 : List ℕ = b1 ++ le_bytes (get_offset_length f) f.offset in
    ground (
      arith,
      v.small,
      write_stream_id-le_bytes b (calculate_stream_id_length f) f.stream_id i1 i2 i3,
      write_offset-le_bytes b1 (get_offset_length f) f.offset o1 o2 o3,
      append-nil b2,
    )

write-wire :
    (f : StreamFrame) (b rest : List ℕ)
    → IsValid f
    → ((write_stream_frame f b).1 ≡ none) × ((write_stream_frame f b).0 ++ rest ≡ b ++ wire f rest)
unfolding write_stream_frame
write-wire f b rest v =
    let test : length f.bytes == 0 && not f.fin_bit ≡ false = ground arith in
    rw (test, fields_written f _ v) (refl, simp append_assoc)

data_read : (bs rest : List ℕ) → read_data (length bs) (bs ++ rest) ≡ ok (bs, rest)
unfolding read_data
data_read bs rest =
    ground (arith, length-append bs rest, take-append_length bs rest, drop-append_length bs rest)

-- Where the length is not written, or is written as 0, the parser takes all that is left.
parse_stream_data-wire :
    (f : StreamFrame) (rest : List ℕ)
    → data_len f ≤ max_packet_size
    → ((f.data_len_present ≡ true) × (data_len f ≢ 0)) ⊎ (rest ≡ [])
    → parse_stream_data f.data_len_present (length_bytes f ++ (f.bytes ++ rest))
      ≡ ok (f.bytes, rest)
unfolding parse_stream_data
parse_stream_data-wire f rest h (inl (p, n)) =
    ground (arith, data_read f.bytes rest, length-append f.bytes rest)
parse_stream_data-wire f rest h (inr e) =
    rw e (ground (arith, data_read f.bytes [], append-nil f.bytes))

-- The parser on the bytes of a valid frame, up to the data.
parse-wire :
    (f : StreamFrame) (rest taken left : List ℕ)
    → IsValid f
    → parse_stream_data f.data_len_present (length_bytes f ++ (f.bytes ++ rest)) ≡ ok (taken, left)
    → (f.fin_bit ≡ true) ⊎ (length taken ≢ 0)
    → parse_stream_frame (wire f rest) ≡ ok (record f { bytes = taken }, left)
unfolding parse_stream_frame
parse-wire f rest taken left v e ne =
    let (i1, i2, i3) = id_length f v.id_fits in
    let (o1, o2, o3) = offset_length f v.offset_fits in
    let (t1, t2, t3, t4) =
      type_byte_fields f.fin_bit f.data_len_present (get_offset_length f)
        (calculate_stream_id_length f) o1 o2 i1 i2 in
    let r2 : List ℕ = length_bytes f ++ (f.bytes ++ rest) in
    let r1 : List ℕ = le_bytes (get_offset_length f) f.offset ++ r2 in
    ground (
      arith,
      t1,
      t2,
      t3,
      t4,
      read_uint_n-le_bytes (calculate_stream_id_length f) f.stream_id r1 (omega arith) i3,
      read_uint_n-le_bytes (get_offset_length f) f.offset r2 o1 o3,
    )

-- A frame in range, with data or FIN, is written without an error. If its length is on the wire and
-- it has data, or if nothing follows it, the parser gets it back and leaves what follows.
pub parse-write_stream_frame :
    (f : StreamFrame) (b rest : List ℕ)
    → IsValid f
    → ((f.data_len_present ≡ true) × (data_len f ≢ 0)) ⊎ (rest ≡ [])
    → ((write_stream_frame f b).1 ≡ none)
      × (parse_stream_frame ((write_stream_frame f []).0 ++ rest) ≡ ok (f, rest))
parse-write_stream_frame f b rest v w = (
  (write-wire f b rest v).0,
  rw ((write-wire f [] rest v).1)
      (parse-wire f rest f.bytes rest v (parse_stream_data-wire f rest v.small w) v.not_empty),
)

-- Write puts out MinLength bytes of header and then the data.
pub length-write_stream_frame :
    (f : StreamFrame) (b : List ℕ)
    → IsValid f
    → length (write_stream_frame f b).0 ≡ length b + min_length_stream_frame f + data_len f
unfolding min_length_stream_frame
length-write_stream_frame f b v =
    let ids : List ℕ = le_bytes (calculate_stream_id_length f) f.stream_id in
    let offsets : List ℕ = le_bytes (get_offset_length f) f.offset in
    let tail : List ℕ = length_bytes f ++ (f.bytes ++ []) in
    ground (
      arith,
      (write-wire f b [] v).1,
      append-nil (write_stream_frame f b).0,
      append-nil f.bytes,
      length-append b (wire f []),
      length-append ids (offsets ++ tail),
      length-append offsets tail,
      length-append (length_bytes f) (f.bytes ++ []),
      length-le_bytes (calculate_stream_id_length f) f.stream_id,
      length-le_bytes (get_offset_length f) f.offset,
    )

empty_data_read :
    (present : Bool) (rest : List ℕ)
    → length rest < 2 ^ 16
    → parse_stream_data present ((if present then le_bytes 2 0 else []) ++ rest) ≡ ok (rest, [])
unfolding parse_stream_data
empty_data_read present rest h = ground (arith, data_read rest [], append-nil rest)

-- A FIN frame with no data swallows whatever follows it in the packet, although its length 0 is on
-- the wire: the parser takes a written length 0 for an absent one.
pub parse_stream_frame_swallows :
    (f : StreamFrame) (rest : List ℕ)
    → IsValid f
    → f.fin_bit ≡ true
    → f.bytes ≡ []
    → length rest < 2 ^ 16
    → parse_stream_frame ((write_stream_frame f []).0 ++ rest) ≡ ok (record f { bytes = rest }, [])
parse_stream_frame_swallows f rest v fin e h =
    rw ((write-wire f [] rest v).1)
      (parse-wire f rest rest [] v (rw e (empty_data_read f.data_len_present rest h)) (inl fin))

-- A written frame begins with a byte that has the highest bit.
pub write_stream_frame-first :
    (f : StreamFrame) (rest : List ℕ)
    → IsValid f
    → (t : ℕ) × (r : List ℕ) × ((write_stream_frame f []).0 ++ rest ≡ t ∷ r)
      × ((bit_and t 0x80 == 0x80) ≡ true)
write_stream_frame-first f rest v =
    let (i1, i2, i3) = id_length f v.id_fits in
    let (o1, o2, o3) = offset_length f v.offset_fits in
    (
      _,
      _,
      (write-wire f [] rest v).1,
      type_byte-stream f.fin_bit f.data_len_present (get_offset_length f)
          (calculate_stream_id_length f) o1 o2 i1 i2,
    )
