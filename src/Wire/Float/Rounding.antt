-- ===== src/Wire/Float/Rounding.antt =====
-- What a value becomes when it is written as a 16-bit float and read back.
use quic_go.Base.{
  ℕ, zero, suc, ◌+◌, ◌-◌, ◌*◌, ◌/◌, ◌%◌, ◌^◌, ◌≤◌, ◌<◌, ◌≡◌, ◌⊎◌, inl, inr, refl, arith, sym, ap,
  ◌∙◌, subst, List, [], ◌∷◌, ◌++◌, ok, ltb, leb, true, false, Bool-cases, leb→le, leb→lt,
}
use native.Mathlib.Nat.{
  pow-suc, pow-le-pow_right, one-le-pow, mod-eq_of_lt, mul-le-mul, le-div_iff_mul-le,
  div-lt_iff_lt-mul, div-div-eq-div-mul, mul_assoc, div-one,
}
use quic_go.Wire.{read_uint16, write_uint16}
use quic_go.Wire.Float.{
  float_max_value, float_value, read_ufloat16, shift_round, shift_loop, float_bits, write_ufloat16,
}

two_pow_add : (a b : ℕ) → 2 ^ (a + b) ≡ 2 ^ a * 2 ^ b
two_pow_add a zero = let e : a + 0 ≡ a = omega arith in rw e (omega arith)
two_pow_add a (suc b) =
    let e : a + suc b ≡ suc (a + b) = omega arith in
    rw (e, pow-suc 2 (a + b), pow-suc 2 b, two_pow_add a b) (mul_assoc (2 ^ a) (2 ^ b) 2)

positive : (e : ℕ) → 0 < 2 ^ e
positive e = one-le-pow e 2 (omega arith)

-- The exponent of a value: its highest bit is the bit 11 + e.
abbrev pub HasExponent : ℕ → ℕ → Type 0
HasExponent e v = (2 ^ (11 + e) ≤ v) × (v < 2 ^ (12 + e))

-- A shift by at most the exponent lowers it.
HasExponent-shift : (e o v : ℕ) → o ≤ e → HasExponent e v → HasExponent (e - o) (v / 2 ^ o)
HasExponent-shift e o v h (l, u) =
    let low : 11 + (e - o) + o ≡ 11 + e = omega arith in
    let high : 12 + (e - o) + o ≡ 12 + e = omega arith in
    (
      (le-div_iff_mul-le (positive o)).1 (rw (sym (two_pow_add (11 + (e - o)) o), low) l),
      (div-lt_iff_lt-mul (positive o)).1 (rw (sym (two_pow_add (12 + (e - o)) o), high) u),
    )

-- The offsets can add up to an exponent, taken from the first on.
abbrev Fits : ℕ → List ℕ → Type 0
Fits e [] = e ≡ 0
Fits e (o ∷ os) = (o ≤ e → Fits (e - o) os) × (e < o → Fits e os)

shift_loop-lem :
    (os : List ℕ) (e v x : ℕ)
    → HasExponent e v
    → Fits e os
    → shift_loop os (v, x) ≡ (v / 2 ^ e, x + e)
unfolding shift_loop shift_round
shift_loop-lem [] e v x h f = rw f (ground arith)
shift_loop-lem (o ∷ os) e v x h f = elim (Bool-cases (leb o e)) [
  | inl t ↦
      let o≤e = leb→le o e t in
      let test : leb (2 ^ (11 + o)) v ≡ true =
        ground
          (arith, pow-le-pow_right {n = 2} (omega arith) {i = 11 + o} {j = 11 + e} (omega arith)) in
      let sum : o + (e - o) ≡ e = omega arith in
      let ih =
        shift_loop-lem os (e - o) (v / 2 ^ o) (x + o) (HasExponent-shift e o v o≤e h) (f.0 o≤e) in
      let quotient : v / 2 ^ o / 2 ^ (e - o) ≡ v / 2 ^ e =
        div-div-eq-div-mul v (2 ^ o) (2 ^ (e - o))
        ∙ ap (λ k. v / k) (sym (two_pow_add o (e - o)) ∙ ap (λ k. 2 ^ k) sum) in
      let count : x + o + (e - o) ≡ x + e = omega arith in rw (test, ih, quotient, count) refl
  | inr t ↦
      let e<o = leb→lt o e t in
      let test : leb (2 ^ (11 + o)) v ≡ false =
        ground
          (arith, pow-le-pow_right {n = 2} (omega arith) {i = 12 + e} {j = 11 + o} (omega arith)) in
      rw test (shift_loop-lem os e v x h (f.1 e<o))
]

fits : (e : ℕ) → e ≤ 30 → Fits e (16 ∷ 8 ∷ 4 ∷ 2 ∷ 1 ∷ [])
fits e h = ground arith

-- The mantissa of a value in range.
mantissa : (e v : ℕ) → HasExponent e v → (2 ^ 11 ≤ v / 2 ^ e) × (v / 2 ^ e < 2 ^ 12)
mantissa e v (l, u) = (
  (le-div_iff_mul-le (positive e)).1 (rw (sym (two_pow_add 11 e)) l),
  (div-lt_iff_lt-mul (positive e)).1 (rw (sym (two_pow_add 12 e)) u),
)

float_value-parts :
    (e m : ℕ) → e ≤ 30 → 2 ^ 11 ≤ m → m < 2 ^ 12 → float_value (m + e * 2 ^ 11) ≡ m * 2 ^ e
unfolding float_value
float_value-parts zero m h l u = ground arith
float_value-parts (suc e) m h l u =
    let test : ltb (m + suc e * 2 ^ 11) (2 ^ 12) ≡ false = ground arith in
    let exponent : (m + suc e * 2 ^ 11) / 2 ^ 11 - 1 ≡ suc e = omega arith in
    let hidden : m + suc e * 2 ^ 11 - suc e * 2 ^ 11 % 2 ^ 64 ≡ m = omega arith in
    let room : m * 2 ^ suc e < 2 ^ 64 = omega (
      arith,
      mul-le-mul {n₁ = m} {m₁ = 2 ^ suc e} {n₂ = 2 ^ 12} {m₂ = 2 ^ 30} (omega arith)
          (pow-le-pow_right {n = 2} (omega arith) {i = suc e} {j = 30} h),
    ) in
    rw (test, exponent, hidden) (mod-eq_of_lt room)

-- The exponent of the values that the greatest float stands for.
greatest : (e v : ℕ) → e ≤ 30 → HasExponent e v → float_max_value ≤ v → e ≡ 30
greatest e v h (l, u) m =
    ground (arith, pow-le-pow_right {n = 2} (omega arith) {i = 12 + e} {j = 41})

float_bits-parts : (e v : ℕ) → e ≤ 30 → HasExponent e v → float_bits v ≡ v / 2 ^ e + e * 2 ^ 11
unfolding float_bits
float_bits-parts zero v h x = ground (arith, div-one v)
float_bits-parts (suc e) v h x =
    let loop = shift_loop-lem (16 ∷ 8 ∷ 4 ∷ 2 ∷ 1 ∷ []) (suc e) v 0 x (fits (suc e) h) in
    let test : ltb v (2 ^ 12) ≡ false =
      ground
        (arith, pow-le-pow_right {n = 2} (omega arith) {i = 12} {j = 11 + suc e} (omega arith)) in
    let m = mantissa (suc e) v x in
    elim (Bool-cases (leb float_max_value v)) [
      | inl big ↦
          let top = greatest (suc e) v h x (leb→le float_max_value v big) in
          let bounds : HasExponent 30 v = subst (λ k. HasExponent k v) top x in
          rw (loop, test, big, top)
            (omega (arith, bounds.0, bounds.1, leb→le float_max_value v big))
      | inr small ↦ rw (loop, test, small) (omega (arith, m.0, m.1))
    ]

float_value-float_bits :
    (e v : ℕ) → e ≤ 30 → HasExponent e v → float_value (float_bits v) ≡ v / 2 ^ e * 2 ^ e
float_value-float_bits e v h x =
    rw (float_bits-parts e v h x)
      (float_value-parts e (v / 2 ^ e) h ((mantissa e v x).0) ((mantissa e v x).1))

float_value-small : (v : ℕ) → v < 2 ^ 12 → float_value (float_bits v) ≡ v
unfolding float_bits float_value
float_value-small v h = ground arith

float_bits-lt : (v : ℕ) → float_bits v < 2 ^ 16
unfolding float_bits
float_bits-lt v = ground arith

two_bytes : (w : ℕ) → w < 2 ^ 16 → w / 2 ^ (8 * 0) % 256 + w / 2 ^ (8 * 1) % 256 * 2 ^ 8 ≡ w
two_bytes w h = omega arith

read-write :
    (v : ℕ) (rest : List ℕ)
    → read_ufloat16 (write_ufloat16 [] v ++ rest) ≡ ok (float_value (float_bits v), rest)
unfolding read_ufloat16 write_ufloat16 read_uint16 write_uint16
read-write v rest = ap (λ k. ok (float_value k, rest)) (two_bytes (float_bits v) (float_bits-lt v))

-- A value below 2 ^ 42 is written as the greatest float that is not above it, and that is read back:
-- with the highest bit at 11 + e it is the greatest multiple of 2 ^ e, and a value without such a
-- bit, so below 2 ^ 12, is kept (e is 0 there). What follows the two bytes stays unread.
pub read_ufloat16-write_ufloat16 :
    (e v : ℕ) (rest : List ℕ)
    → e ≤ 30
    → v < 2 ^ (12 + e)
    → (e ≡ 0) ⊎ (2 ^ (11 + e) ≤ v)
    → read_ufloat16 (write_ufloat16 [] v ++ rest) ≡ ok (v / 2 ^ e * 2 ^ e, rest)
read_ufloat16-write_ufloat16 e v rest h u (inl z) =
    let small : v < 2 ^ 12 = subst (λ k. v < 2 ^ (12 + k)) z u in
    let same : v / 2 ^ e * 2 ^ e ≡ v = rw z (omega arith) in
    rw (read-write v rest, same) (ap (λ k. ok (k, rest)) (float_value-small v small))
read_ufloat16-write_ufloat16 e v rest h u (inr l) =
    rw (read-write v rest) (ap (λ k. ok (k, rest)) (float_value-float_bits e v h (l, u)))
