-- ===== src/Received/History/Ranges.antt =====
-- The list of ranges as a set of packet numbers.
use quic_go.Base.{
  ℕ, ◌+◌, ◌^◌, ◌≤◌, ◌<◌, ◌≡◌, ◌⊎◌, inl, inr, refl, arith, Bool, false, ◌||◌, ◌&&◌, List, [], ◌∷◌,
  leb, ◌==◌,
}
use quic_go.Received.History.{PacketInterval, merge, add_to_ranges}

abbrev pub covers : List PacketInterval → ℕ → Bool
covers [] q = false
covers (el ∷ rest) q = (leb el.start q && leb q el.end) || covers rest q

abbrev pub Above : ℕ → List PacketInterval → Type 0
Above s [] = Unit {0}
Above s (el ∷ rest) = el.end + 1 < s

-- The ranges are not empty, fall, and never touch.
abbrev pub Separate : List PacketInterval → Type 0
Separate [] = Unit {0}
Separate (el ∷ rest) = (el.start ≤ el.end) × Above el.start rest × Separate rest

-- No packet number of a range is the last uint64.
abbrev pub Bounded : List PacketInterval → Type 0
Bounded [] = Unit {0}
Bounded (el ∷ rest) = (el.end < 2 ^ 63) × Bounded rest

-- A range that was extended downwards may touch the next one, and no more.
Over : ℕ → List PacketInterval → Type 0
Over s [] = Unit {0}
Over s (el ∷ rest) = el.end < s

covers-merge :
    (el : PacketInterval) (rs : List PacketInterval) (q : ℕ)
    → el.start ≤ el.end
    → Over el.start rs
    → Bounded rs
    → Separate rs
    → covers (merge el rs) q ≡ covers (el ∷ rs) q
unfolding merge Over
covers-merge el [] q h o b s = refl
covers-merge el (prev ∷ more) q h o b s = ground arith

Separate-merge :
    (el : PacketInterval) (rs : List PacketInterval)
    → el.start ≤ el.end
    → Over el.start rs
    → Bounded rs
    → Separate rs
    → Separate (merge el rs)
unfolding merge Over
Separate-merge el [] h o b s = ground arith
Separate-merge el (prev ∷ []) h o b s = ground arith
Separate-merge el (prev ∷ next ∷ more) h o b s = ground arith

Above-Over : {s : ℕ} (t : ℕ) (rs : List PacketInterval) → Above s rs → s ≤ t + 1 → Over t rs
unfolding Over
Above-Over t [] a h = tt
Above-Over t (el ∷ rs) a h = omega arith

-- The five cases of one round of the loop.
module _ (p : ℕ) (el : PacketInterval) (rest : List PacketInterval) (h0 : 0 < p) (h : p < 2 ^ 63)
    (b : Bounded (el ∷ rest)) (s : Separate (el ∷ rest)) where
  pub add_to_ranges_cases :
      ((el.start ≤ p) × (p ≤ el.end) × (add_to_ranges p (el ∷ rest) ≡ el ∷ rest))
      ⊎ ((el.end + 1 ≡ p) × (add_to_ranges p (el ∷ rest) ≡ merge (record el { end = p }) rest))
      ⊎ ((p + 1 ≡ el.start) × (add_to_ranges p (el ∷ rest) ≡ merge (record el { start = p }) rest))
      ⊎ ((el.end + 1 < p)
          × (add_to_ranges p (el ∷ rest) ≡ record { start = p; end = p } ∷ el ∷ rest))
      ⊎ ((p + 1 < el.start) × (add_to_ranges p (el ∷ rest) ≡ el ∷ add_to_ranges p rest))
  unfolding add_to_ranges
  add_to_ranges_cases = ground arith

-- The test of one interval, and of what lies before it, after a number was added.
module _ (lo hi p q : ℕ) (r : Bool) where
  inside_old :
      lo ≤ p → p ≤ hi → (leb lo q && leb q hi || r) ≡ ((leb lo q && leb q hi || r) || q == p)
  inside_old a b = ground arith

  above_old :
      lo ≤ hi → hi + 1 ≡ p → (leb lo q && leb q p || r) ≡ ((leb lo q && leb q hi || r) || q == p)
  above_old a b = ground arith

  below_old :
      lo ≤ hi → p + 1 ≡ lo → (leb p q && leb q hi || r) ≡ ((leb lo q && leb q hi || r) || q == p)
  below_old a b = ground arith

  alone : (leb p q && leb q p || r) ≡ (r || q == p)
  alone = ground arith

or_regroup : (a b c d : Bool) → b ≡ (c || d) → (a || b) ≡ ((a || c) || d)
or_regroup a b c d e = ground arith

-- Adding a packet number to separate ranges adds that number to the set, and no other.
pub covers-add_to_ranges :
    (p : ℕ) (rs : List PacketInterval) (q : ℕ)
    → 0 < p
    → p < 2 ^ 63
    → Bounded rs
    → Separate rs
    → covers (add_to_ranges p rs) q ≡ (covers rs q || q == p)
covers-add_to_ranges p [] q h0 h b s = unfold add_to_ranges in ground arith
covers-add_to_ranges p (el ∷ rest) q h0 h b s = elim (add_to_ranges_cases p el rest h0 h b s) [
  | inl (lo, hi, e) ↦ rw e (inside_old el.start el.end p q (covers rest q) lo hi)
  | inr (inl (t, e)) ↦
      rw
        (
          e,
          covers-merge (record el { end = p }) rest q (omega arith)
              (Above-Over el.start rest s.1 (omega arith)) b.1 s.2,
        )
        (above_old el.start el.end p q (covers rest q) s.0 t)
  | inr (inr (inl (t, e))) ↦
      rw
        (
          e,
          covers-merge (record el { start = p }) rest q (omega arith)
              (Above-Over p rest s.1 (omega arith)) b.1 s.2,
        )
        (below_old el.start el.end p q (covers rest q) s.0 t)
  | inr (inr (inr (inl (t, e)))) ↦ rw e (alone 0 0 p q (covers (el ∷ rest) q))
  | inr (inr (inr (inr (t, e)))) ↦
      rw e (or_regroup _ _ _ _ (covers-add_to_ranges p rest q h0 h b.1 s.2))
]

Above-merge :
    (s : ℕ) (el : PacketInterval) (rest : List PacketInterval)
    → el.end + 1 < s
    → Above s (merge el rest)
unfolding merge
Above-merge s el [] h = h
Above-merge s el (prev ∷ more) h = ground arith

Above-add_to_ranges :
    (s p : ℕ) (rs : List PacketInterval)
    → 0 < p
    → p < 2 ^ 63
    → Bounded rs
    → Separate rs
    → p + 1 < s
    → Above s rs
    → Above s (add_to_ranges p rs)
Above-add_to_ranges s p [] h0 h b sep ps a = unfold add_to_ranges in ps
Above-add_to_ranges s p (el ∷ rest) h0 h b sep ps a =
    elim (add_to_ranges_cases p el rest h0 h b sep) [
      | inl (lo, hi, e) ↦ rw e a
      | inr (inl (t, e)) ↦ rw e (Above-merge s _ rest ps)
      | inr (inr (inl (t, e))) ↦ rw e (Above-merge s _ rest a)
      | inr (inr (inr (inl (t, e)))) ↦ rw e ps
      | inr (inr (inr (inr (t, e)))) ↦ rw e a
    ]

-- The ranges stay separate, also where two of them are merged.
pub Separate-add_to_ranges :
    (p : ℕ) (rs : List PacketInterval)
    → 0 < p
    → p < 2 ^ 63
    → Bounded rs
    → Separate rs
    → Separate (add_to_ranges p rs)
Separate-add_to_ranges p [] h0 h b s = unfold add_to_ranges in omega arith
Separate-add_to_ranges p (el ∷ rest) h0 h b s = elim (add_to_ranges_cases p el rest h0 h b s) [
  | inl (lo, hi, e) ↦ rw e s
  | inr (inl (t, e)) ↦
      rw e
        (Separate-merge _ rest (omega arith) (Above-Over el.start rest s.1 (omega arith)) b.1 s.2)
  | inr (inr (inl (t, e))) ↦
      rw e (Separate-merge _ rest (omega arith) (Above-Over p rest s.1 (omega arith)) b.1 s.2)
  | inr (inr (inr (inl (t, e)))) ↦ rw e (omega arith, t, s)
  | inr (inr (inr (inr (t, e)))) ↦ rw e (
    s.0,
    Above-add_to_ranges el.start p rest h0 h b.1 s.2 t s.1,
    Separate-add_to_ranges p rest h0 h b.1 s.2,
  )
]

Bounded-merge :
    (el : PacketInterval) (rest : List PacketInterval)
    → el.end < 2 ^ 63
    → Bounded rest
    → Bounded (merge el rest)
unfolding merge
Bounded-merge el [] h b = (h, b)
Bounded-merge el (prev ∷ more) h b = ground arith

pub Bounded-add_to_ranges :
    (p : ℕ) (rs : List PacketInterval)
    → 0 < p
    → p < 2 ^ 63
    → Bounded rs
    → Separate rs
    → Bounded (add_to_ranges p rs)
Bounded-add_to_ranges p [] h0 h b s = unfold add_to_ranges in (h, tt)
Bounded-add_to_ranges p (el ∷ rest) h0 h b s = elim (add_to_ranges_cases p el rest h0 h b s) [
  | inl (lo, hi, e) ↦ rw e b
  | inr (inl (t, e)) ↦ rw e (Bounded-merge _ rest h b.1)
  | inr (inr (inl (t, e))) ↦ rw e (Bounded-merge _ rest b.0 b.1)
  | inr (inr (inr (inl (t, e)))) ↦ rw e (h, b)
  | inr (inr (inr (inr (t, e)))) ↦ rw e (b.0, Bounded-add_to_ranges p rest h0 h b.1 s.2)
]
