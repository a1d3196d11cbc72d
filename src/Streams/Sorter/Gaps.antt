-- ===== src/Streams/Sorter/Gaps.antt =====
-- What the loop over the gaps does, counted byte by byte.
use quic_go.Base.{
  ℕ, ◌+◌, ◌≤◌, ◌<◌, ◌≡◌, ◌≢◌, ◌⊎◌, inl, inr, refl, ap, arith, Bool, true, false, ◌&&◌, ◌||◌, List,
  [], ◌∷◌, leb, ltb, if◌then◌else◌, Bool-cases, ◌==◌,
}
use quic_go.Streams.Sorter.{
  ByteInterval, place, keep, Placement, Outcome, in_gap, no_gap, start_of_gap, end_of_gap,
}

-- 1 if the byte lies in the interval.
abbrev pub within : ℕ → ℕ → ℕ → ℕ
within lo hi q = if leb lo q && ltb q hi then 1 else 0

-- How many gaps a byte lies in.
abbrev pub gap_count : ℕ → List ByteInterval → ℕ
gap_count q [] = 0
gap_count q (g ∷ rest) = within g.start g.end q + gap_count q rest

abbrev pub NonEmpty : List ByteInterval → Type 0
NonEmpty [] = Unit {0}
NonEmpty (g ∷ rest) = (g.start < g.end) × NonEmpty rest

-- A gap that ends where the interval starts.
abbrev pub Touches : ℕ → List ByteInterval → Type 0
Touches s [] = ⊥
Touches s (g ∷ rest) = (g.end ≡ s) ⊎ Touches s rest

-- No byte of the interval lies in a gap.
abbrev pub Outside : ℕ → ℕ → List ByteInterval → Type 0
Outside s e gs = (q : ℕ) → s ≤ q → q < e → gap_count q gs ≡ 0

-- The gaps lose exactly the bytes of the interval.
abbrev pub Takes : ℕ → ℕ → List ByteInterval → List ByteInterval → Type 0
Takes s e gs gs' = (q : ℕ) → gap_count q gs' + within s e q ≡ gap_count q gs

abbrev pub PlaceCases : Bool → ℕ → ℕ → List ByteInterval → Placement → Type 0
PlaceCases found s e gs p =
    (Takes s e gs p.gaps × NonEmpty p.gaps × (p.outcome ≡ in_gap))
    ⊎ ((p.gaps ≡ gs)
        × (gap_count s gs ≡ 0)
        × ((found ≡ true) ⊎ Touches s gs)
        × (p.outcome ≡ in_gap))
    ⊎ ((p.gaps ≡ gs) × (p.outcome ≢ in_gap) × (p.outcome ≡ no_gap → Outside s e gs))

-- The gap does not touch the interval.
abbrev pub Apart : ℕ → ℕ → ByteInterval → Type 0
Apart s e g = (e ≤ g.start) ⊎ (g.end < s)

-- One round of the loop: the gap is passed over, refuses the interval, gives up its bytes, or ends
-- where the interval starts.
abbrev pub Round : Bool → ℕ → ℕ → ByteInterval → List ByteInterval → Placement → Type 0
Round found s e g rest p =
    (Apart s e g × (p ≡ keep g (place found s e rest)))
    ⊎ ((p.gaps ≡ g ∷ rest) × ((p.outcome ≡ start_of_gap) ⊎ (p.outcome ≡ end_of_gap)))
    ⊎ (((q : ℕ) → gap_count q p.gaps + within s e q ≡ gap_count q (g ∷ rest))
        × (NonEmpty rest → NonEmpty p.gaps)
        × (p.outcome ≡ in_gap))
    ⊎ ((g.end ≡ s) × (p ≡ keep g (place true s e rest)))

-- The bytes of the interval come off the gap that holds it.
module _ (s e q r : ℕ) where
  cut_all : r + within s e q ≡ within s e q + r
  cut_all = omega arith

  cut_front : (b : ℕ) → s < e → e < b → (within e b q + r) + within s e q ≡ within s b q + r
  cut_front b h k = ground arith

  cut_back : (a : ℕ) → a < s → s < e → (within a s q + r) + within s e q ≡ within a e q + r
  cut_back a h k = ground arith

  cut_middle :
      (a b : ℕ)
      → a < s
      → s < e
      → e < b
      → (within a s q + (within e b q + r)) + within s e q ≡ within a b q + r
  cut_middle a b h k l = ground arith

round :
    (found : Bool) (s e : ℕ) (g : ByteInterval) (rest : List ByteInterval)
    → s < e
    → g.start < g.end
    → Round found s e g rest (place found s e (g ∷ rest))
unfolding place
round found s e g rest h n = elim (Bool-cases (leb e g.start || ltb g.end s)) [
  | inl t ↦ rw t (inl (ground arith, refl))
  | inr t ↦ rw t (elim (Bool-cases (ltb s g.start)) [
    | inl u ↦ rw u (inr (inl (refl, inl refl)))
    | inr u ↦ rw u (elim (Bool-cases (ltb s g.end && ltb g.end e)) [
      | inl v ↦ rw v (inr (inl (refl, inr refl)))
      | inr v ↦ rw v (elim (Bool-cases (s == g.start && e == g.end)) [
        | inl w ↦
            let a : (s ≡ g.start) × (e ≡ g.end) = ground arith in
            rw w (
              inr (
                inr
                  (inl (λ q. rw (← a.0, ← a.1) (cut_all s e q (gap_count q rest)), λ m. m, refl))))
        | inr w ↦ rw w (elim (Bool-cases (s == g.start && ltb e g.end)) [
          | inl x ↦
              let a : (s ≡ g.start) × (e < g.end) = ground arith in
              rw x (
                inr (
                  inr (
                    inl (
                      λ q. rw (← a.0) (cut_front s e q (gap_count q rest) g.end h a.1),
                      λ m. (a.1, m),
                      refl,
                    ))))
          | inr x ↦ rw x (elim (Bool-cases (e == g.end)) [
            | inl y ↦
                let a : (g.start < s) × (e ≡ g.end) = ground arith in
                rw y (
                  inr (
                    inr (
                      inl (
                        λ q. rw (← a.1) (cut_back s e q (gap_count q rest) g.start a.0 h),
                        λ m. (a.0, m),
                        refl,
                      ))))
            | inr y ↦ rw y (elim (Bool-cases (ltb e g.end)) [
              | inl z ↦
                  let a : (g.start < s) × (e < g.end) = ground arith in
                  rw z (
                    inr (
                      inr (
                        inl (
                          λ q. cut_middle s e q (gap_count q rest) g.start g.end a.0 h a.1,
                          λ m. (a.0, (a.1, m)),
                          refl,
                        ))))
              | inr z ↦ rw z (inr (inr (inr (ground arith, refl))))
            ])
          ])
        ])
      ])
    ])
  ])
]

-- A gap that no byte of the interval lies in adds nothing.
outside_gap :
    (s e q : ℕ) (g : ByteInterval)
    → s ≤ q
    → q < e
    → (e ≤ g.start) ⊎ (g.end ≤ s)
    → within g.start g.end q ≡ 0
outside_gap s e q g a b (inl h) = ground arith
outside_gap s e q g a b (inr h) = ground arith

module _ (s e : ℕ) (g : ByteInterval) (rest : List ByteInterval) (p : Placement) (h : s < e)
    (n : g.start < g.end) where
  -- The gap lies off the interval, and stays.
  kept :
      (found more : Bool)
      → (e ≤ g.start) ⊎ (g.end ≤ s)
      → ((more ≡ true) → (found ≡ true) ⊎ Touches s (g ∷ rest))
      → PlaceCases more s e rest p
      → PlaceCases found s e (g ∷ rest) (keep g p)
  kept found more a f (inl (t, m, o)) = inl (λ q. omega (arith, t q), (n, m), o)
  kept found more a f (inr (inl (u, z, t, o))) = inr (
      inl (
        ap (λ (l : List ByteInterval). g ∷ l) u,
        omega (arith, z, outside_gap s e s g (omega arith) h a),
        touching t,
        o,
      ))
    where
      touching : (more ≡ true) ⊎ Touches s rest → (found ≡ true) ⊎ Touches s (g ∷ rest)
      touching (inl t) = f t
      touching (inr t) = inr (inr t)
  kept found more a f (inr (inr (u, o, z))) = inr (
      inr (
        ap (λ (l : List ByteInterval). g ∷ l) u,
        o,
        λ c q b d. omega (arith, z c q b d, outside_gap s e q g b d a),
      ))

Apart-le : (s e : ℕ) (g : ByteInterval) → Apart s e g → (e ≤ g.start) ⊎ (g.end ≤ s)
Apart-le s e g (inl h) = inl h
Apart-le s e g (inr h) = inr (omega arith)

not-in_gap : {o : Outcome} → (o ≡ start_of_gap) ⊎ (o ≡ end_of_gap) → o ≢ in_gap
not-in_gap (inl a) c = cc
not-in_gap (inr a) c = cc

not-no_gap : {o : Outcome} → (o ≡ start_of_gap) ⊎ (o ≡ end_of_gap) → o ≢ no_gap
not-no_gap (inl a) c = cc
not-no_gap (inr a) c = cc

-- For an interval with a byte in it and gaps that are not empty, the loop takes exactly its bytes
-- off the gaps, or leaves the gaps alone.
pub place_cases :
    (found : Bool) (s e : ℕ) (gs : List ByteInterval)
    → s < e
    → NonEmpty gs
    → PlaceCases found s e gs (place found s e gs)
place_cases true s e [] h n = unfold place in inr (inl (refl, refl, inl refl, refl))
place_cases false s e [] h n = unfold place in inr (inr (refl, λ c. cc, λ _ q a b. refl))
place_cases found s e (g ∷ rest) h n = elim (round found s e g rest h n.0) [
  | inl (a, p) ↦ rw p (
      kept s e g rest _ h n.0 found found (Apart-le s e g a) (λ t. inl t)
        (place_cases found s e rest h n.1))
  | inr (inl (a, o)) ↦ inr (inr (a, λ c. not-in_gap o c, λ c. absurd (not-no_gap o c)))
  | inr (inr (inl (t, m, o))) ↦ inl (t, m n.1, o)
  | inr (inr (inr (a, p))) ↦ rw p (
      kept s e g rest _ h n.0 found true (inr (omega arith)) (λ t. inr (inl a))
        (place_cases true s e rest h n.1))
]
