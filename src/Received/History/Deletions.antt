-- ===== src/Received/History/Deletions.antt =====
-- What DeleteBelow takes off the ranges and off the set of numbers.
use quic_go.Base.{
  ℕ, zero, suc, ◌+◌, ◌-◌, ◌≤◌, ◌<◌, ◌≡◌, ◌⊎◌, inl, inr, refl, arith, Bool, true, false, not, ◌&&◌,
  ◌||◌, List, [], ◌∷◌, leb, ltb, ◌==◌,
}
use quic_go.Received.History.{PacketInterval, has, put, del, del_from, delete_one, delete_ranges}
use quic_go.Received.History.Ranges.{covers, Above, Separate, Bounded}

pub has-put : (p : ℕ) (qs : List ℕ) (q : ℕ) → has q (put p qs) ≡ (has q qs || q == p)
unfolding put
has-put p qs q = ground arith

has-del : (p : ℕ) (qs : List ℕ) (q : ℕ) → has q (del p qs) ≡ (has q qs && not (q == p))
unfolding del has
has-del p [] q = refl
has-del p (x ∷ qs) q = ground (arith, has-del p qs q)

has-del_from :
    (n i : ℕ) (qs : List ℕ) (q : ℕ)
    → has q (del_from n i qs) ≡ (has q qs && not (leb i q && ltb q (i + n)))
unfolding del_from
has-del_from zero i qs q = ground arith
has-del_from (suc n) i qs q = ground (arith, has-del_from n (i + 1) (del i qs) q, has-del i qs q)

-- The loop returns at a range that ends at or above the bound, so all later ones lie above it.
stopped :
    (lu s : ℕ) (rs : List PacketInterval) (qs : List ℕ)
    → Separate rs
    → Above s rs
    → (delete_ranges lu rs qs).going ≡ false
    → lu < s
unfolding delete_ranges delete_one
stopped lu s [] qs sep a h = cc
stopped lu s (el ∷ rest) qs sep a h = ground (arith, stopped lu el.start rest qs sep.2 sep.1)

-- One round, as one of three cases.
pub delete_cases :
    (lu : ℕ) (el : PacketInterval) (rest : List PacketInterval) (qs : List ℕ)
    → Separate (el ∷ rest)
    → let d = delete_ranges lu rest qs in
      let e = delete_ranges lu (el ∷ rest) qs in
      ((lu ≤ el.start) × (e.kept ≡ el ∷ d.kept) × (e.left ≡ d.left))
      ⊎ ((el.start < lu)
          × (lu ≤ el.end)
          × (e.kept ≡ record el { start = lu } ∷ d.kept)
          × (e.left ≡ del_from (lu - el.start) el.start d.left))
      ⊎ ((el.end < lu)
          × (e.kept ≡ d.kept)
          × (e.left ≡ del_from (el.end + 1 - el.start) el.start d.left))
unfolding delete_ranges delete_one
delete_cases lu el rest qs sep = ground (arith, stopped lu el.start rest qs sep.2 sep.1)

module _ (lo hi lu q : ℕ) (r h : Bool) where
  keep_whole :
      lu ≤ lo
      → (leb lo q && leb q hi || (r && leb lu q)) ≡ ((leb lo q && leb q hi || r) && leb lu q)
  keep_whole a = ground arith

  keep_part :
      lo < lu
      → (leb lu q && leb q hi || (r && leb lu q)) ≡ ((leb lo q && leb q hi || r) && leb lu q)
  keep_part a = ground arith

  keep_none : hi < lu → (r && leb lu q) ≡ ((leb lo q && leb q hi || r) && leb lu q)
  keep_none a = ground arith

  numbers_whole :
      lu ≤ lo → (h && not (r && ltb q lu)) ≡ (h && not ((leb lo q && leb q hi || r) && ltb q lu))
  numbers_whole a = ground arith

  numbers_part :
      lo < lu
      → lu ≤ hi
      → ((h && not (r && ltb q lu)) && not (leb lo q && ltb q (lo + (lu - lo))))
        ≡ (h && not ((leb lo q && leb q hi || r) && ltb q lu))
  numbers_part a b = ground arith

  numbers_none :
      lo ≤ hi
      → hi < lu
      → ((h && not (r && ltb q lu)) && not (leb lo q && ltb q (lo + (hi + 1 - lo))))
        ≡ (h && not ((leb lo q && leb q hi || r) && ltb q lu))
  numbers_none a b = ground arith

-- The ranges keep exactly their numbers from the bound on.
pub covers-delete_ranges :
    (lu : ℕ) (rs : List PacketInterval) (qs : List ℕ) (q : ℕ)
    → Separate rs
    → covers (delete_ranges lu rs qs).kept q ≡ (covers rs q && leb lu q)
covers-delete_ranges lu [] qs q sep = unfold delete_ranges in refl
covers-delete_ranges lu (el ∷ rest) qs q sep =
    let ih = covers-delete_ranges lu rest qs q sep.2 in
    elim (delete_cases lu el rest qs sep) [
      | inl (a, k, _) ↦ rw (k, ih) (keep_whole el.start el.end lu q (covers rest q) true a)
      | inr (inl (a, _, k, _)) ↦ rw (k, ih) (keep_part el.start el.end lu q (covers rest q) true a)
      | inr (inr (a, k, _)) ↦ rw (k, ih) (keep_none el.start el.end lu q (covers rest q) true a)
    ]

-- The set loses exactly the numbers of the ranges that lie below the bound.
pub has-delete_ranges :
    (lu : ℕ) (rs : List PacketInterval) (qs : List ℕ) (q : ℕ)
    → Separate rs
    → has q (delete_ranges lu rs qs).left ≡ (has q qs && not (covers rs q && ltb q lu))
has-delete_ranges lu [] qs q sep = unfold delete_ranges in ground arith
has-delete_ranges lu (el ∷ rest) qs q sep =
    let ih = has-delete_ranges lu rest qs q sep.2 in
    elim (delete_cases lu el rest qs sep) [
      | inl (a, _, l) ↦ rw (l, ih) (numbers_whole el.start el.end lu q (covers rest q) (has q qs) a)
      | inr (inl (a, b, _, l)) ↦
          rw (l, has-del_from _ _ (delete_ranges lu rest qs).left q, ih)
            (numbers_part el.start el.end lu q (covers rest q) (has q qs) a b)
      | inr (inr (a, _, l)) ↦
          rw (l, has-del_from _ _ (delete_ranges lu rest qs).left q, ih)
            (numbers_none el.start el.end lu q (covers rest q) (has q qs) sep.0 a)
    ]

Above-higher : {s t : ℕ} (rs : List PacketInterval) → Above s rs → s ≤ t → Above t rs
Above-higher [] a h = tt
Above-higher (el ∷ rs) a h = omega arith

Above-delete_ranges :
    (s lu : ℕ) (rs : List PacketInterval) (qs : List ℕ)
    → Separate rs
    → Above s rs
    → Above s (delete_ranges lu rs qs).kept
Above-delete_ranges s lu [] qs sep a = unfold delete_ranges in tt
Above-delete_ranges s lu (el ∷ rest) qs sep a = elim (delete_cases lu el rest qs sep) [
  | inl (_, k, _) ↦ rw k a
  | inr (inl (_, _, k, _)) ↦ rw k a
  | inr (inr (_, k, _)) ↦ rw k (
      Above-delete_ranges s lu rest qs sep.2 (Above-higher {s = el.start} rest sep.1 (omega arith)))
]

pub Separate-delete_ranges :
    (lu : ℕ) (rs : List PacketInterval) (qs : List ℕ)
    → Separate rs
    → Separate (delete_ranges lu rs qs).kept
Separate-delete_ranges lu [] qs sep = unfold delete_ranges in tt
Separate-delete_ranges lu (el ∷ rest) qs sep =
    let ih = Separate-delete_ranges lu rest qs sep.2 in
    let over = Above-delete_ranges el.start lu rest qs sep.2 sep.1 in
    elim (delete_cases lu el rest qs sep) [
      | inl (_, k, _) ↦ rw k (sep.0, over, ih)
      | inr (inl (a, b, k, _)) ↦
          rw k
            (b, Above-higher {s = el.start} (delete_ranges lu rest qs).kept over (omega arith), ih)
      | inr (inr (_, k, _)) ↦ rw k ih
    ]

pub Bounded-delete_ranges :
    (lu : ℕ) (rs : List PacketInterval) (qs : List ℕ)
    → Separate rs
    → Bounded rs
    → Bounded (delete_ranges lu rs qs).kept
Bounded-delete_ranges lu [] qs sep b = unfold delete_ranges in tt
Bounded-delete_ranges lu (el ∷ rest) qs sep b =
    let ih = Bounded-delete_ranges lu rest qs sep.2 b.1 in
    elim (delete_cases lu el rest qs sep) [
      | inl (_, k, _) ↦ rw k (b.0, ih)
      | inr (inl (_, _, k, _)) ↦ rw k (b.0, ih)
      | inr (inr (_, k, _)) ↦ rw k ih
    ]
