-- ===== src/Frames/StopWaiting/RoundTrip.antt =====
-- A STOP_WAITING frame on the wire, and what its checks guarantee.
use quic_go.Base.{
  ℕ, ◌-◌, ◌≤◌, ◌<◌, ◌≡◌, ◌≢◌, ◌⊎◌, refl, arith, List, [], ◌∷◌, ◌++◌, ok, none, some, length,
  length-append, packet_number_not_set, least_unacked_higher, packet_number_len_not_set,
}
use quic_go.Protocol.{IsLen, len1, len2, len4, len6}
use quic_go.Wire.{read_uint_n}
use quic_go.Wire.Codes.{le_bytes, length-le_bytes, read_uint_n-le_bytes}
use quic_go.Frames.StopWaiting.{
  StopWaitingFrame, write_packet_number, write_stop_waiting_frame, min_length_stop_waiting_frame,
  parse_stop_waiting_frame,
}

pub write_packet_number-le_bytes :
    {l m : ℕ} (b : List ℕ) (v : ℕ)
    → IsLen l m
    → v < m
    → write_packet_number b l v ≡ some (b ++ le_bytes l v)
unfolding write_packet_number
write_packet_number-le_bytes b v (len1 el em) h = rw el (ground arith)
write_packet_number-le_bytes b v (len2 el em) h = rw el (ground arith)
write_packet_number-le_bytes b v (len4 el em) h = rw el (ground arith)
write_packet_number-le_bytes b v (len6 el em) h = rw el (ground arith)

pub read-packet_number :
    {l m : ℕ} (v : ℕ) (rest : List ℕ)
    → IsLen l m
    → v < m
    → read_uint_n (le_bytes l v ++ rest) l ≡ ok (v, rest)
read-packet_number v rest (len1 el em) h =
    rw el (read_uint_n-le_bytes 1 v rest (omega arith) (omega arith))
read-packet_number v rest (len2 el em) h =
    rw el (read_uint_n-le_bytes 2 v rest (omega arith) (omega arith))
read-packet_number v rest (len4 el em) h =
    rw el (read_uint_n-le_bytes 4 v rest (omega arith) (omega arith))
read-packet_number v rest (len6 el em) h =
    rw el (read_uint_n-le_bytes 6 v rest (omega arith) (omega arith))

written :
    {m : ℕ} (f : StopWaitingFrame) (b : List ℕ)
    → IsLen f.packet_number_len m
    → f.packet_number ≢ 0
    → f.least_unacked ≤ f.packet_number
    → f.packet_number - f.least_unacked < m
    → write_stop_waiting_frame f b
      ≡ ((b ++ 0x06 ∷ []) ++ le_bytes f.packet_number_len (f.packet_number - f.least_unacked), none)
unfolding write_stop_waiting_frame
written f b hl hp hu hm =
    ground (
      arith,
      write_packet_number-le_bytes (b ++ 0x06 ∷ []) (f.packet_number - f.least_unacked) hl hm,
    )

pub write_stop_waiting_frame-first :
    {m : ℕ} (f : StopWaitingFrame)
    → IsLen f.packet_number_len m
    → f.packet_number ≢ 0
    → f.least_unacked ≤ f.packet_number
    → f.packet_number - f.least_unacked < m
    → (write_stop_waiting_frame f []).0
      ≡ 0x06 ∷ le_bytes f.packet_number_len (f.packet_number - f.least_unacked)
write_stop_waiting_frame-first f hl hp hu hm = rw (written f [] hl hp hu hm) refl

IsLen-length : {l m : ℕ} (v : ℕ) → IsLen l m → (length (le_bytes l v) ≡ l) × (l ≢ 0)
IsLen-length {l} v h = (length-le_bytes l v, positive h)
  where
    positive : {k m : ℕ} → IsLen k m → k ≢ 0
    positive (len1 e _) = omega arith
    positive (len2 e _) = omega arith
    positive (len4 e _) = omega arith
    positive (len6 e _) = omega arith

-- A STOP_WAITING frame of a sent packet, with a known packet number length that can hold the
-- distance to LeastUnacked, is written with no error. The parser, given the number and the number
-- length of that packet, gets LeastUnacked back and leaves what follows. Write appends MinLength
-- bytes.
pub parse-write_stop_waiting_frame :
    {m : ℕ} (f : StopWaitingFrame) (b rest : List ℕ)
    → IsLen f.packet_number_len m
    → f.packet_number ≢ 0
    → f.least_unacked ≤ f.packet_number
    → f.packet_number - f.least_unacked < m
    → ((write_stop_waiting_frame f b).1 ≡ none)
      × (parse_stop_waiting_frame
            ((write_stop_waiting_frame f []).0 ++ rest)
            f.packet_number
            f.packet_number_len
          ≡ ok (record f { packet_number_len = 0; packet_number = 0 }, rest))
      × (min_length_stop_waiting_frame f ≡ ok (length (write_stop_waiting_frame f b).0 - length b))
unfolding parse_stop_waiting_frame min_length_stop_waiting_frame
parse-write_stop_waiting_frame f b rest hl hp hu hm =
    let d = f.packet_number - f.least_unacked in
    let (len, pos) = IsLen-length d hl in
    rw (written f b hl hp hu hm, written f [] hl hp hu hm)
      (
        refl,
        ground (arith, read-packet_number d rest hl hm),
        ground (
          arith,
          length-append (b ++ 0x06 ∷ []) (le_bytes f.packet_number_len d),
          length-append b (0x06 ∷ []),
        ),
      )

-- Write refuses exactly three things, in this order, and then has appended the type byte alone: a
-- packet number 0, a LeastUnacked above the packet number, and an unknown packet number length.
pub write_stop_waiting_frame_errors :
    (f : StopWaitingFrame) (b : List ℕ)
    → ((f.packet_number ≡ 0)
        × (write_stop_waiting_frame f b ≡ (b ++ 0x06 ∷ [], some packet_number_not_set)))
      ⊎ ((f.packet_number ≢ 0)
          × (f.packet_number < f.least_unacked)
          × (write_stop_waiting_frame f b ≡ (b ++ 0x06 ∷ [], some least_unacked_higher)))
      ⊎ ((f.packet_number ≢ 0)
          × (f.least_unacked ≤ f.packet_number)
          × (f.packet_number_len ≢ 1)
          × (f.packet_number_len ≢ 2)
          × (f.packet_number_len ≢ 4)
          × (f.packet_number_len ≢ 6)
          × (write_stop_waiting_frame f b ≡ (b ++ 0x06 ∷ [], some packet_number_len_not_set)))
      ⊎ ((f.packet_number ≢ 0)
          × (f.least_unacked ≤ f.packet_number)
          × ((write_stop_waiting_frame f b).1 ≡ none))
unfolding write_stop_waiting_frame
write_stop_waiting_frame_errors f b = ground arith

-- What the parser accepts is never above the packet number that it was given.
pub parse_stop_waiting_frame-le :
    (r rest : List ℕ) (pn len : ℕ) (f : StopWaitingFrame)
    → parse_stop_waiting_frame r pn len ≡ ok (f, rest)
    → f.least_unacked ≤ pn
unfolding parse_stop_waiting_frame
parse_stop_waiting_frame-le r rest pn len f h = ground arith
