-- ===== src/Sending/Handler/Ranges.antt =====
-- The ranges of an ACK frame, lowest first, as the loop of ReceivedAck goes through them.
use mathlib.Core.List.{reverse, reverse-cons}
use quic_go.Base.{
  ℕ, ◌≤◌, ◌<◌, ◌≡◌, inl, inr, refl, sym, subst, ◌∙◌, arith, true, false, ◌||◌, List, [], ◌∷◌, ◌++◌,
  All, ltb, leb, Bool-cases,
}
use quic_go.Frames.Ack.{
  AckRange, AckFrame, any_range, all_valid, all_apart, validate_ranges, validate_ack_ranges,
}
use quic_go.Frames.Ack.Ranges.{NoWrap}
use quic_go.Sending.Handler.{advance}

-- Ranges that are not empty and rise without touching.
abbrev pub Rises : List AckRange → Type 0
Rises [] = Unit {0}
Rises (r ∷ rs) = (r.first ≤ r.last) × All (λ s. r.last < s.first) rs × Rises rs

-- The end of the highest range.
abbrev pub top : AckRange → List AckRange → ℕ
top r [] = r.last
top r (s ∷ rs) = top s rs

none_above :
    (p n : ℕ) (rs : List AckRange) → p ≤ n → All (λ s. n < s.first) rs → any_range p rs ≡ false
unfolding any_range
none_above p n [] h a = refl
none_above p n (r ∷ rs) h a = ground (arith, none_above p n rs h a.1)

-- A packet number that is not above the first range lies in a range exactly when it lies in that one.
pub any_range_first :
    (p : ℕ) (r : AckRange) (rs : List AckRange)
    → Rises (r ∷ rs)
    → p ≤ r.last
    → any_range p (r ∷ rs) ≡ leb r.first p
unfolding any_range
any_range_first p r rs h l = ground (arith, none_above p r.last rs l h.1)

-- Where the loop has gone on to a range for a packet number, nothing is lost for later ones.
pub record Advanced (p : ℕ) (old : List AckRange) (n : ℕ) (rs : List AckRange) : Type 0 where
  pub rises : Rises rs
  pub same : (q : ℕ) → p ≤ q → any_range q rs ≡ any_range q old
  pub first : AckRange
  pub others : List AckRange
  pub shape : rs ≡ first ∷ others
  pub reaches : p ≤ first.last
  pub same_top : top first others ≡ n

skip_range :
    (p q : ℕ) (r : AckRange) (rs : List AckRange)
    → p ≤ q
    → r.last < p
    → any_range q (r ∷ rs) ≡ any_range q rs
unfolding any_range
skip_range p q r rs h l = ground arith

stay :
    (p n : ℕ) (r : AckRange) (rs : List AckRange)
    → Rises (r ∷ rs)
    → top r rs ≡ n
    → p ≤ r.last
    → Advanced p (r ∷ rs) n (r ∷ rs)
stay p n r rs h t l = record {
  rises = h;
  same = λ q _. refl;
  first = r;
  others = rs;
  shape = refl;
  reaches = l;
  same_top = t;
}

go_on :
    (p n : ℕ) (r s : AckRange) (rs ss : List AckRange)
    → r.last < p
    → Advanced p (s ∷ rs) n ss
    → Advanced p (r ∷ s ∷ rs) n ss
go_on p n r s rs ss l a = record {
  rises = a.rises;
  same = λ q k. a.same q k ∙ sym (skip_range p q r (s ∷ rs) k l);
  first = a.first;
  others = a.others;
  shape = a.shape;
  reaches = a.reaches;
  same_top = a.same_top;
}

pub advance_lem :
    (p n : ℕ) (r : AckRange) (rs : List AckRange)
    → Rises (r ∷ rs)
    → p ≤ n
    → top r rs ≡ n
    → Advanced p (r ∷ rs) n (advance p (r ∷ rs))
unfolding advance
advance_lem p n r [] h l t = stay p n r [] h t (omega arith)
advance_lem p n r (s ∷ rs) h l t =
    let later = advance_lem p n s rs h.2 l t in
    elim (Bool-cases (ltb r.last p)) [
      | inl e ↦ rw e (go_on p n r s rs _ (ground arith) later)
      | inr e ↦ rw e (stay p n r (s ∷ rs) h t (ground arith))
    ]

-- Reversing the ranges of a frame that passed the validation.
any_range-append :
    (p : ℕ) (rs ss : List AckRange) → any_range p (rs ++ ss) ≡ (any_range p rs || any_range p ss)
unfolding any_range
any_range-append p [] ss = refl
any_range-append p (r ∷ rs) ss = ground (arith, any_range-append p rs ss)

any_range-reverse : (p : ℕ) (rs : List AckRange) → any_range p (reverse rs) ≡ any_range p rs
unfolding any_range
any_range-reverse p [] = refl
any_range-reverse p (r ∷ rs) =
    rw (reverse-cons r rs, any_range-append p (reverse rs) (r ∷ []), any_range-reverse p rs)
      (ground arith)

All-append {ℓ} :
    {A : Type ℓ} (P : A → Type 0) (xs ys : List A) → All P xs → All P ys → All P (xs ++ ys)
All-append P [] ys h k = k
All-append P (x ∷ xs) ys h k = (h.0, All-append P xs ys h.1 k)

All-reverse {ℓ} : {A : Type ℓ} (P : A → Type 0) (xs : List A) → All P xs → All P (reverse xs)
All-reverse P [] h = tt
All-reverse P (x ∷ xs) h =
    rw (reverse-cons x xs) (All-append P (reverse xs) (x ∷ []) (All-reverse P xs h.1) (h.0, tt))

Rises-snoc :
    (rs : List AckRange) (r : AckRange)
    → Rises rs
    → All (λ s. s.last < r.first) rs
    → r.first ≤ r.last
    → Rises (rs ++ r ∷ [])
Rises-snoc [] r h a k = (k, tt, tt)
Rises-snoc (s ∷ rs) r h a k =
    (h.0, All-append _ rs (r ∷ []) h.1 (a.0, tt), Rises-snoc rs r h.2 a.1 k)

top-snoc : (s : AckRange) (rs : List AckRange) (r : AckRange) → top s (rs ++ r ∷ []) ≡ r.last
top-snoc s [] r = refl
top-snoc s (t ∷ rs) r = top-snoc t rs r

lasts_below :
    (x : ℕ) (prev : AckRange) (rs : List AckRange)
    → prev.first ≤ x
    → NoWrap rs
    → all_valid rs ≡ true
    → all_apart prev rs ≡ true
    → All (λ s. s.last < x) rs
unfolding all_valid all_apart
lasts_below x prev [] h w v a = tt
lasts_below x prev (r ∷ rs) h w v a =
    (ground arith, lasts_below x r rs (ground arith) w.1 (ground arith) (ground arith))

Rises-reverse :
    (r : AckRange) (rs : List AckRange)
    → NoWrap rs
    → all_valid (r ∷ rs) ≡ true
    → all_apart r rs ≡ true
    → Rises (reverse (r ∷ rs))
unfolding all_valid all_apart
Rises-reverse r [] w v a = (ground arith, tt, tt)
Rises-reverse r (s ∷ rs) w v a = rw (reverse-cons r (s ∷ rs)) (
    Rises-snoc (reverse (s ∷ rs)) r (Rises-reverse s rs w.1 (ground arith) (ground arith))
      (All-reverse (λ t. t.last < r.first) (s ∷ rs)
        (lasts_below r.first r (s ∷ rs) (omega arith) w (ground arith) a))
      (ground arith))

-- The reversed ranges of a valid frame: they rise up to the largest acked number.
pub record Reversed (largest : ℕ) (rs : List AckRange) : Type 0 where
  pub first : AckRange
  pub others : List AckRange
  pub shape : reverse rs ≡ first ∷ others
  pub rises : Rises (first ∷ others)
  pub ends : top first others ≡ largest
  pub same : (p : ℕ) → any_range p (first ∷ others) ≡ any_range p rs

Reversed-from :
    (r : AckRange) (rs front : List AckRange)
    → reverse rs ≡ front
    → Rises (reverse (r ∷ rs))
    → Reversed r.last (r ∷ rs)
Reversed-from r rs [] e h =
    let shape : reverse (r ∷ rs) ≡ r ∷ [] = rw (reverse-cons r rs, e) refl in
    record {
      first = r;
      others = [];
      shape = shape;
      rises = rw shape at h;
      ends = refl;
      same = λ p. rw (← shape) (any_range-reverse p (r ∷ rs));
    }
Reversed-from r rs (s ∷ ss) e h =
    let shape : reverse (r ∷ rs) ≡ s ∷ (ss ++ r ∷ []) = rw (reverse-cons r rs, e) refl in
    record {
      first = s;
      others = ss ++ r ∷ [];
      shape = shape;
      rises = rw shape at h;
      ends = top-snoc s ss r;
      same = λ p. rw (← shape) (any_range-reverse p (r ∷ rs));
    }

valid_parts :
    (n : ℕ) (r : AckRange) (rs : List AckRange)
    → validate_ranges n (r ∷ rs) ≡ true
    → (r.last ≡ n) × (all_valid (r ∷ rs) ≡ true) × (all_apart r rs ≡ true)
unfolding validate_ranges
valid_parts n r [] h = cc
valid_parts n r (s ∷ rs) h = ground arith

pub Reversed-ranges :
    (f : AckFrame) (r : AckRange) (rs : List AckRange)
    → f.ack_ranges ≡ r ∷ rs
    → validate_ack_ranges f ≡ true
    → NoWrap rs
    → Reversed f.largest_acked (r ∷ rs)
unfolding validate_ack_ranges
Reversed-ranges f r rs e v w =
    let (t, valid, apart) = valid_parts f.largest_acked r rs (rw e at v) in
    subst (λ (n : ℕ). Reversed n (r ∷ rs)) t
      (Reversed-from r rs (reverse rs) refl (Rises-reverse r rs w valid apart))
