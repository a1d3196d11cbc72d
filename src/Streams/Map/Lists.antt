-- ===== src/Streams/Map/Lists.antt =====
-- The list of the open streams and the map behind it.
use quic_go.Base.{
  ℕ, ◌+◌, ◌%◌, ◌≤◌, ◌≡◌, inl, inr, refl, arith, false, List, [], ◌∷◌, ◌++◌, Option, none, some,
  ◌==◌, if◌then◌else◌, Bool-cases, Option-cases, ==_iff, subst,
}
use quic_go.Base.Maps.{find, UniqueKeys, is_some, is_some-false}
use quic_go.Streams.Map.{is_kept, retain, index_of, delete_first}

-- How often an ID stands in a list, and how many IDs have a remainder by 2.
abbrev pub occurs : ℕ → List ℕ → ℕ
occurs id [] = 0
occurs id (x ∷ xs) = (if x == id then 1 else 0) + occurs id xs

abbrev pub parity : ℕ → List ℕ → ℕ
parity r [] = 0
parity r (x ∷ xs) = (if x % 2 == r then 1 else 0) + parity r xs

pub occurs-append : (id : ℕ) (xs ys : List ℕ) → occurs id (xs ++ ys) ≡ occurs id xs + occurs id ys
occurs-append id [] ys = omega arith
occurs-append id (x ∷ xs) ys = omega (arith, occurs-append id xs ys)

pub parity-append : (r : ℕ) (xs ys : List ℕ) → parity r (xs ++ ys) ≡ parity r xs + parity r ys
parity-append r [] ys = omega arith
parity-append r (x ∷ xs) ys = omega (arith, parity-append r xs ys)

pub occurs-delete_first :
    (j id : ℕ) (xs : List ℕ)
    → 1 ≤ occurs id xs
    → occurs j (delete_first id xs) + (if id == j then 1 else 0) ≡ occurs j xs
unfolding delete_first
occurs-delete_first j id [] h = absurd (omega arith)
occurs-delete_first j id (x ∷ xs) h = ground (arith, occurs-delete_first j id xs)

pub parity-delete_first :
    (r id : ℕ) (xs : List ℕ)
    → 1 ≤ occurs id xs
    → parity r (delete_first id xs) + (if id % 2 == r then 1 else 0) ≡ parity r xs
unfolding delete_first
parity-delete_first r id [] h = absurd (omega arith)
parity-delete_first r id (x ∷ xs) h = ground (arith, parity-delete_first r id xs)

pub index_of-occurs : (id : ℕ) (xs : List ℕ) → index_of id xs ≡ none → occurs id xs ≡ 0
unfolding index_of
index_of-occurs id [] h = refl
index_of-occurs id (x ∷ xs) h = elim (Bool-cases (x == id)) [
  | inl e ↦ let k = rw e at h in cc
  | inr e ↦ elim (Option-cases (index_of id xs)) [
    | inl n ↦ ground (arith, index_of-occurs id xs n)
    | inr (i, n) ↦ let k = rw (e, n) at h in cc
  ]
]

module _ {S : Type 0} where
  -- What the garbage collection leaves of an entry.
  abbrev pub kept : ℕ → ℕ → Option (Option S) → Option (Option S)
  kept highest id none = none
  kept highest id (some s) = if is_kept highest id s then some s else none

  pub find-retain :
      (highest id : ℕ) (m : List (ℕ × Option S))
      → UniqueKeys m
      → find id (retain highest m) ≡ kept highest id (find id m)
  unfolding find retain
  find-retain highest id [] u = refl
  find-retain highest id ((j, s) ∷ m) u = elim (Bool-cases (j == id)) [
    | inl e ↦
        let j≡id : j ≡ id = omega (arith, (==_iff j id).0 e) in
        let absent : find id m ≡ none =
          is_some-false (find id m) (subst (λ k. is_some (find k m) ≡ false) j≡id u.0) in
        ground (arith, find-retain highest id m u.1)
    | inr e ↦ ground (arith, find-retain highest id m u.1)
  ]

  pub retain-UniqueKeys :
      (highest : ℕ) (m : List (ℕ × Option S)) → UniqueKeys m → UniqueKeys (retain highest m)
  unfolding find retain
  retain-UniqueKeys highest [] u = tt
  retain-UniqueKeys highest ((j, s) ∷ m) u =
      let absent : find j m ≡ none = is_some-false (find j m) u.0 in
      ground (arith, retain-UniqueKeys highest m u.1, find-retain highest j m u.1)
