-- ===== src/Header/Numbers.antt =====
-- packet_number_generator.go. The random number of a call is an argument, `none` the error of
-- rand.Read.
use quic_go.Base.{
  ℕ, zero, suc, ◌+◌, ◌*◌, ◌/◌, ◌%◌, ◌^◌, ◌≤◌, ◌<◌, ◌≡◌, ◌⊎◌, inl, inr, refl, ap, ◌∙◌, arith, false,
  List, [], ◌∷◌, Option, none, some, length, ◌==◌, if◌then◌else◌, Bool-cases,
}
use quic_go.Protocol.{add64, sub64}

pub record PacketNumberGenerator : Type 0 where
  pub average_period : ℕ
  pub next : ℕ
  pub next_to_skip : ℕ

unfoldable pub new_packet_number_generator : ℕ → PacketNumberGenerator
new_packet_number_generator average_period = record {
  average_period = average_period;
  next = 1;
  next_to_skip = 0;
}

-- `math.MaxUint16 / 2` is 32767.
unfoldable pub generate_new_skip : PacketNumberGenerator → Option ℕ → PacketNumberGenerator
generate_new_skip p none = p
generate_new_skip p (some num) =
    let skip = num * sub64 p.average_period 1 % 2 ^ 64 / 32767 in
    record p { next_to_skip = add64 (add64 p.next 2) skip }

unfoldable pub pop_number : PacketNumberGenerator → Option ℕ → PacketNumberGenerator × ℕ
unfolding generate_new_skip
pop_number p num =
    let p1 = record p { next = add64 p.next 1 } in
    let p2 = generate_new_skip (record p { next = add64 (add64 p.next 1) 1 }) num in
    if p1.next == p.next_to_skip then (p2, p.next) else (p1, p.next)

-- The numbers that the next calls return.
abbrev pub numbers : PacketNumberGenerator → List (Option ℕ) → List ℕ
numbers p [] = []
numbers p (num ∷ nums) = let (p', n) = pop_number p num in n ∷ numbers p' nums

abbrev pub from : ℕ → ℕ → List ℕ
from n zero = []
from n (suc k) = n ∷ from (n + 1) k

numbers-from :
    (p : PacketNumberGenerator) (nums : List (Option ℕ))
    → p.next_to_skip ≤ p.next
    → p.next + length nums < 2 ^ 64
    → numbers p nums ≡ from p.next (length nums)
unfolding pop_number
numbers-from p [] s l = refl
numbers-from p (num ∷ nums) s l =
    let a : add64 p.next 1 ≡ p.next + 1 = omega (arith, l) in
    let e : (p.next + 1 == p.next_to_skip) ≡ false = ground (arith, s) in
    rw (a, e)
      (ap (λ (ns : List ℕ). p.next ∷ ns)
        (numbers-from (record p { next = p.next + 1 }) nums (omega (arith, s)) (omega (arith, l))))

-- A new generator never skips a packet number, whatever the period and the random numbers are: it
-- gives out 1, 2, 3 and so on, since NextToSkip is 0 until a number is skipped. The numbers do not
-- overflow.
pub new_packet_number_generator-numbers :
    (average_period : ℕ) (nums : List (Option ℕ))
    → length nums < 2 ^ 63
    → numbers (new_packet_number_generator average_period) nums ≡ from 1 (length nums)
unfolding new_packet_number_generator
new_packet_number_generator-numbers average_period nums l =
    numbers-from (new_packet_number_generator average_period) nums (omega arith) (omega (arith, l))

-- After a number was skipped, the next number to skip does not follow at once.
skipped_apart :
    (p : PacketNumberGenerator) (num : Option ℕ)
    → p.next < 2 ^ 62 + 4
    → p.next_to_skip + 1 ≡ p.next
    → let q = generate_new_skip p num in
      (q.next ≡ p.next) × ((q.next + 1 == q.next_to_skip) ≡ false)
unfolding generate_new_skip
skipped_apart p none l e = (refl, ground (arith, e))
skipped_apart p (some num) l e = (refl, ground (arith, l))

no_skip :
    (p : PacketNumberGenerator) (num : Option ℕ)
    → p.next < 2 ^ 63
    → (p.next + 1 == p.next_to_skip) ≡ false
    → (pop_number p num).0.next ≡ p.next + 1
unfolding pop_number
no_skip p num l e =
    let a : add64 p.next 1 ≡ p.next + 1 = omega (arith, l) in rw (pop_number, a, e) refl

-- Each call goes on by one number or by two, and never by two in two calls in a row: no two numbers
-- in a row are skipped, whatever the period and the random numbers are. The packet numbers are below
-- 2^62.
pub pop_number-apart :
    (p : PacketNumberGenerator) (num num' : Option ℕ)
    → p.next < 2 ^ 62
    → let p' = (pop_number p num).0 in
      let p'' = (pop_number p' num').0 in
      (p'.next ≡ p.next + 1) ⊎ ((p'.next ≡ p.next + 2) × (p''.next ≡ p.next + 3))
unfolding pop_number generate_new_skip
pop_number-apart p num num' l =
    let a : add64 p.next 1 ≡ p.next + 1 = omega (arith, l) in
    let b : add64 (p.next + 1) 1 ≡ p.next + 2 = omega (arith, l) in
    elim (Bool-cases (p.next + 1 == p.next_to_skip)) [
      | inl e ↦
          let p1 = record p { next = p.next + 2 } in
          let (same, apart) = skipped_apart p1 num (omega (arith, l)) (ground arith) in
          let p' = generate_new_skip p1 num in
          let first : (pop_number p num).0 ≡ p' = rw (pop_number, a, b, e) refl in
          rw first (
            inr (
              same,
              no_skip p' num' (omega (arith, l, same)) apart ∙ ap (λ n. n + 1) same ∙ omega arith,
            ))
      | inr e ↦ inl (no_skip p num (omega (arith, l)) e)
    ]
