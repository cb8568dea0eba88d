-- ===== src/Base/Extremes.antt =====
-- The loops `for x in rest: if rank[x] > rank[result]: result = x`, and their laws.
use Prim.Native.Nat.{ℕ, ◌≤◌}
use mathlib.Core.Path.{◌≡◌, refl}
use mathlib.Core.Logic.{inl, inr}
use mathlib.Core.List.{List, [], ◌∷◌}
use native.Mathlib.Omega.{arith}
use blastoise.Base.Tests.{ltb, if◌then◌else◌, Bool-cases}
use blastoise.Base.Lists.{All, Any}

module _ {A : Type 0} (rank : A → ℕ) where
  -- The first element of the largest rank.
  unfoldable pub max_by : A → List A → A
  max_by result [] = result
  max_by result (x ∷ xs) = max_by (if ltb (rank result) (rank x) then x else result) xs

  -- The first element of the smallest rank.
  unfoldable pub min_by : A → List A → A
  min_by result [] = result
  min_by result (x ∷ xs) = min_by (if ltb (rank x) (rank result) then x else result) xs

  pub max_by-ge_first : (a : A) (xs : List A) → rank a ≤ rank (max_by a xs)
  unfolding max_by
  max_by-ge_first a [] = omega arith
  max_by-ge_first a (x ∷ xs) = ground (arith, max_by-ge_first x xs, max_by-ge_first a xs)

  pub min_by-le_first : (a : A) (xs : List A) → rank (min_by a xs) ≤ rank a
  unfolding min_by
  min_by-le_first a [] = omega arith
  min_by-le_first a (x ∷ xs) = ground (arith, min_by-le_first x xs, min_by-le_first a xs)

  max_by-bounds : (xs : List A) (a top : A) → max_by a xs ≡ top → All (λ x. rank x ≤ rank top) xs
  unfolding max_by
  max_by-bounds [] a top h = tt
  max_by-bounds (x ∷ xs) a top h =
      (ground (arith, max_by-ge_first x xs, max_by-ge_first a xs), max_by-bounds xs _ top h)

  min_by-bounds : (xs : List A) (a low : A) → min_by a xs ≡ low → All (λ x. rank low ≤ rank x) xs
  unfolding min_by
  min_by-bounds [] a low h = tt
  min_by-bounds (x ∷ xs) a low h =
      (ground (arith, min_by-le_first x xs, min_by-le_first a xs), min_by-bounds xs _ low h)

  pub max_by-ge : (a : A) (xs : List A) → All (λ x. rank x ≤ rank (max_by a xs)) (a ∷ xs)
  max_by-ge a xs = (max_by-ge_first a xs, max_by-bounds xs a (max_by a xs) refl)

  pub min_by-le : (a : A) (xs : List A) → All (λ x. rank (min_by a xs) ≤ rank x) (a ∷ xs)
  min_by-le a xs = (min_by-le_first a xs, min_by-bounds xs a (min_by a xs) refl)

  pub max_by-mem : (a : A) (xs : List A) (top : A) → max_by a xs ≡ top → Any (λ x. top ≡ x) (a ∷ xs)
  unfolding max_by
  max_by-mem a [] top h = inl (ground arith)
  max_by-mem a (x ∷ xs) top h = elim (Bool-cases (ltb (rank a) (rank x))) [
    | inl t ↦ inr (max_by-mem x xs top (rw t at h))
    | inr f ↦ elim (max_by-mem a xs top (rw f at h)) [ inl e ↦ inl e | inr m ↦ inr (inr m) ]
  ]

  pub min_by-mem : (a : A) (xs : List A) (low : A) → min_by a xs ≡ low → Any (λ x. low ≡ x) (a ∷ xs)
  unfolding min_by
  min_by-mem a [] low h = inl (ground arith)
  min_by-mem a (x ∷ xs) low h = elim (Bool-cases (ltb (rank x) (rank a))) [
    | inl t ↦ inr (min_by-mem x xs low (rw t at h))
    | inr f ↦ elim (min_by-mem a xs low (rw f at h)) [ inl e ↦ inl e | inr m ↦ inr (inr m) ]
  ]
