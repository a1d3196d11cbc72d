-- ===== src/Base/Maps.antt =====
-- Go maps with numbers as keys, as lists of keys and values, and the laws of their operations.
use quic_go.Base.{
  ℕ, ◌≡◌, refl, arith, List, [], ◌∷◌, Bool, true, false, Option, none, some, ◌==◌, if◌then◌else◌,
}

abbrev pub is_some {ℓ} : {A : Type ℓ} → Option A → Bool
is_some none = false
is_some (some _) = true

pub is_some-false {ℓ} : {A : Type ℓ} (o : Option A) → is_some o ≡ false → o ≡ none
is_some-false none h = refl
is_some-false (some a) h = absurd (cc)

-- Reading, assigning and deleting a key of a map.
unfoldable pub find {ℓ} : {A : Type ℓ} → ℕ → List (ℕ × A) → Option A
find k [] = none
find k ((j, a) ∷ m) = if j == k then some a else find k m

unfoldable pub assign {ℓ} : {A : Type ℓ} → ℕ → A → List (ℕ × A) → List (ℕ × A)
assign k a [] = (k, a) ∷ []
assign k a ((j, b) ∷ m) = if j == k then (k, a) ∷ m else (j, b) ∷ assign k a m

unfoldable pub remove {ℓ} : {A : Type ℓ} → ℕ → List (ℕ × A) → List (ℕ × A)
remove k [] = []
remove k ((j, a) ∷ m) = if j == k then remove k m else (j, a) ∷ remove k m

pub find-assign {ℓ} :
    {A : Type ℓ} (k j : ℕ) (a : A) (m : List (ℕ × A))
    → find j (assign k a m) ≡ (if k == j then some a else find j m)
unfolding find assign
find-assign k j a [] = refl
find-assign k j a ((i, b) ∷ m) = ground (arith, find-assign k j a m)

pub find-remove {ℓ} :
    {A : Type ℓ} (k j : ℕ) (m : List (ℕ × A))
    → find j (remove k m) ≡ (if k == j then none else find j m)
unfolding find remove
find-remove k j [] = ground arith
find-remove k j ((i, b) ∷ m) = ground (arith, find-remove k j m)

-- No key twice.
abbrev pub UniqueKeys {ℓ} : {A : Type ℓ} → List (ℕ × A) → Type 0
UniqueKeys [] = Unit {0}
UniqueKeys ((k, _) ∷ m) = (is_some (find k m) ≡ false) × UniqueKeys m

pub assign-UniqueKeys {ℓ} :
    {A : Type ℓ} (k : ℕ) (a : A) (m : List (ℕ × A)) → UniqueKeys m → UniqueKeys (assign k a m)
unfolding find assign
assign-UniqueKeys k a [] h = (refl, tt)
assign-UniqueKeys k a ((j, b) ∷ m) h =
    ground (arith, assign-UniqueKeys k a m h.1, find-assign k j a m)
