-- ===== src/Base/Bits.antt =====
-- `^` of a number below 2 ^ k with a multiple of 2 ^ k is their sum, at every k.
-- The native operation means a recursion on binary digits with fuel; `bit_xor_step` drops the fuel.
use Prim.Native.Nat.{ℕ, zero, suc, ◌+◌, ◌*◌, ◌/◌, ◌%◌, ◌^◌, ◌≤◌, ◌<◌, bit_xor, differ}
use Prim.Native.Nat.{digits, bit_xor-bitwise}
use mathlib.Core.Path.{◌≡◌, refl, ap}
use mathlib.Core.Bool.{Bool, true, ◌&&◌}
use native.Mathlib.Omega.{arith}
use native.Mathlib.Nat.{pow-suc}

abbrev xor_digits : ℕ → ℕ → ℕ → ℕ
xor_digits = digits (λ b. b) differ

-- Any fuel that is at least the first number gives the same digits.
xor_digits_fuel : (n m a b : ℕ) → a ≤ n → a ≤ m → xor_digits n a b ≡ xor_digits m a b
xor_digits_fuel zero zero a b p q = refl
xor_digits_fuel zero (suc m) zero b p q = refl
xor_digits_fuel (suc n) zero zero b p q = refl
xor_digits_fuel (suc n) (suc m) zero b p q = refl
xor_digits_fuel zero (suc m) (suc a) b p q = absurd (omega arith)
xor_digits_fuel (suc n) zero (suc a) b p q = absurd (omega arith)
xor_digits_fuel (suc n) (suc m) (suc a) b p q =
    ap (λ (d : ℕ). d * 2 + differ (suc a % 2) (b % 2))
      (xor_digits_fuel n m (suc a / 2) (b / 2) (omega arith) (omega arith))

zero-bit_xor : (b : ℕ) → bit_xor 0 b ≡ b
zero-bit_xor b = bit_xor-bitwise 0 b

bit_xor_step : (a b : ℕ) → bit_xor a b ≡ bit_xor (a / 2) (b / 2) * 2 + differ (a % 2) (b % 2)
bit_xor_step zero b = omega (arith, zero-bit_xor b, zero-bit_xor (b / 2))
bit_xor_step (suc a) b = omega (
  arith,
  bit_xor-bitwise (suc a) b,
  bit_xor-bitwise (suc a / 2) (b / 2),
  xor_digits_fuel a (suc a / 2) (suc a / 2) (b / 2) (omega arith) (omega arith),
)

differ-zero : (x : ℕ) → differ x 0 ≡ x
differ-zero zero = refl
differ-zero (suc x) = refl

mul-two_pow-suc : (b k : ℕ) → b * 2 ^ suc k ≡ 2 * (b * 2 ^ k)
mul-two_pow-suc b k = omega (arith, ap (λ (t : ℕ). b * t) (pow-suc 2 k))

double_halved : (a c : ℕ) → bit_xor a (2 * c) ≡ bit_xor (a / 2) c * 2 + a % 2
double_halved a c =
    let even : 2 * c % 2 ≡ 0 = omega arith in
    let half : 2 * c / 2 ≡ c = omega arith in
    rw (bit_xor_step a (2 * c), even, half, differ-zero (a % 2))

-- What the reader of a little-endian number does with its next byte.
pub bit_xor-shifted : (k acc b : ℕ) → acc < 2 ^ k → bit_xor acc (b * 2 ^ k) ≡ acc + b * 2 ^ k
bit_xor-shifted zero zero b h = omega (arith, zero-bit_xor (b * 1))
bit_xor-shifted zero (suc acc) b h = absurd (omega arith)
bit_xor-shifted (suc k) acc b h = omega (
  arith,
  ap (bit_xor acc) (mul-two_pow-suc b k),
  double_halved acc (b * 2 ^ k),
  mul-two_pow-suc b k,
  pow-suc 2 k,
  bit_xor-shifted k (acc / 2) b (omega (arith, pow-suc 2 k)),
)

-- A test of every number below a bound, by evaluation.
unfoldable pub check_below : ℕ → (ℕ → Bool) → Bool
check_below zero p = true
check_below (suc n) p = p n && check_below n p

pub check_below_sound : (n : ℕ) (p : ℕ → Bool) (x : ℕ) → check_below n p ≡ true → x < n → p x ≡ true
unfolding check_below
check_below_sound zero p x h lt = absurd (omega arith)
check_below_sound (suc n) p x h lt = ground (arith, check_below_sound n p x)
