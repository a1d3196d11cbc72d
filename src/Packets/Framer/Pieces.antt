-- ===== src/Packets/Framer/Pieces.antt =====
-- What STREAM frames say of their streams, byte by byte.
use quic_go.Base.{
  ℕ, zero, suc, ◌+◌, ◌-◌, ◌%◌, ◌^◌, ◌≤◌, ◌≡◌, refl, arith, ap, sym, ◌∙◌, true, false, List, [], ◌∷◌,
  ◌++◌, length, take, drop, append_assoc, append-nil, if◌then◌else◌,
}
use quic_go.Protocol.{add64}
use quic_go.Frames.StreamFrame.{StreamFrame, data_len}

-- A byte of a stream at an offset, or the end of the stream there.
pub data Piece : Type 0 where
  byte_at : ℕ → ℕ → ℕ → Piece
  end_at : ℕ → ℕ → Piece

abbrev pub bytes_from : ℕ → ℕ → List ℕ → List Piece
bytes_from id start [] = []
bytes_from id start (b ∷ bs) = byte_at id (start % 2 ^ 64) b ∷ bytes_from id (start + 1) bs

abbrev pub fin_of : StreamFrame → List Piece
fin_of f = if f.fin_bit then end_at f.stream_id ((f.offset + data_len f) % 2 ^ 64) ∷ [] else []

abbrev pub contents : List StreamFrame → List Piece
contents [] = []
contents (f ∷ fs) = bytes_from f.stream_id f.offset f.bytes ++ (fin_of f ++ contents fs)

length-drop : (n : ℕ) (xs : List ℕ) → length (drop n xs) ≡ length xs - n
length-drop zero xs = omega arith
length-drop (suc n) [] = omega arith
length-drop (suc n) (x ∷ xs) = omega (arith, length-drop n xs)

bytes_from-mod :
    (id o p : ℕ) (xs : List ℕ) → o % 2 ^ 64 ≡ p % 2 ^ 64 → bytes_from id o xs ≡ bytes_from id p xs
bytes_from-mod id o p [] e = refl
bytes_from-mod id o p (x ∷ xs) e =
    let next : (o + 1) % 2 ^ 64 ≡ (p + 1) % 2 ^ 64 = omega arith in
    rw (e, bytes_from-mod id (o + 1) (p + 1) xs next) refl

take-drop :
    (id o n : ℕ) (xs : List ℕ)
    → bytes_from id o (take n xs) ++ bytes_from id (o + n) (drop n xs) ≡ bytes_from id o xs
take-drop id o zero xs = ap (λ k. bytes_from id k xs) (omega arith)
take-drop id o (suc n) [] = refl
take-drop id o (suc n) (x ∷ xs) =
    let e : o + suc n ≡ o + 1 + n = omega arith in
    ap (λ (l : List Piece). byte_at id (o % 2 ^ 64) x ∷ l) (rw e (take-drop id (o + 1) n xs))

-- The end of the stream stays where it is when the first bytes are split off.
fin_of-drop :
    (n : ℕ) (f : StreamFrame)
    → n ≤ data_len f
    → fin_of
        (record f { data_len_present = true; offset = add64 f.offset n; bytes = drop n f.bytes })
      ≡ fin_of f
fin_of-drop n f h =
    let e : (add64 f.offset n + length (drop n f.bytes)) % 2 ^ 64
        ≡ (f.offset + data_len f) % 2 ^ 64 =
      omega (arith, length-drop n f.bytes) in
    rw e refl

-- A frame that is split says the same as its parts.
pub split_contents :
    (n : ℕ) (f : StreamFrame) (ys : List Piece)
    → n ≤ data_len f
    → contents (record f { fin_bit = false; data_len_present = true; bytes = take n f.bytes } ∷ [])
        ++ (bytes_from f.stream_id (add64 f.offset n) (drop n f.bytes)
            ++ (fin_of (record f {
              data_len_present = true;
              offset = add64 f.offset n;
              bytes = drop n f.bytes;
            })
                ++ ys))
      ≡ bytes_from f.stream_id f.offset f.bytes ++ (fin_of f ++ ys)
split_contents n f ys h =
    let front : List Piece = bytes_from f.stream_id f.offset (take n f.bytes) in
    let back : List Piece = bytes_from f.stream_id (f.offset + n) (drop n f.bytes) in
    let moved =
      bytes_from-mod f.stream_id (add64 f.offset n) (f.offset + n) (drop n f.bytes) (omega arith) in
    let whole : front ++ back ≡ bytes_from f.stream_id f.offset f.bytes =
      take-drop f.stream_id f.offset n f.bytes in
    rw (append-nil front, moved, fin_of-drop n f h)
      (sym (append_assoc front back (fin_of f ++ ys))
        ∙ ap (λ (l : List Piece). l ++ (fin_of f ++ ys)) whole)
