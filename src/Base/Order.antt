-- ===== src/Base/Order.antt =====
-- Laws of the order of texts, and of `sorted(set(xs))`.
use mathlib.Core.Path.{◌≡◌, refl}
use mathlib.Core.Logic.{inl, inr}
use mathlib.Core.Bool.{Bool, true, false}
use mathlib.Core.List.{List, [], ◌∷◌}
use native.Mathlib.Omega.{arith}
use blastoise.Base.Tests.{Bool-cases}
use blastoise.Base.Lists.{All}
use blastoise.Base.Texts.{Text}
use blastoise.Base.Sorting.{text_lt, place, sorted_set}

pub text_lt-total : (s t : Text) → text_lt s t ≡ false → text_lt t s ≡ false → s ≡ t
unfolding text_lt
text_lt-total [] [] h k = refl
text_lt-total [] (d ∷ ds) h k = cc
text_lt-total (c ∷ cs) [] h k = cc
text_lt-total (c ∷ cs) (d ∷ ds) h k = ground (arith, text_lt-total cs ds)

module _ {A : Type 0} (lt : A → A → Bool) where
  abbrev pub Before : A → List A → Type 0
  Before x [] = Unit
  Before x (y ∷ ys) = lt x y ≡ true

  -- Each element is before the next.
  abbrev pub IsAscending : List A → Type 0
  IsAscending [] = Unit
  IsAscending (x ∷ xs) = Before x xs × IsAscending xs

  place-Before : (b x : A) (ys : List A) → lt b x ≡ true → Before b ys → Before b (place lt x ys)
  unfolding place
  place-Before b x [] h k = h
  place-Before b x (y ∷ ys) h k = elim (Bool-cases (lt x y)) [
    | inl e ↦ rw e h
    | inr n ↦ elim (Bool-cases (lt y x)) [ inl e ↦ rw (n, e) k | inr m ↦ rw (n, m) k ]
  ]

  place-IsAscending : (x : A) (ys : List A) → IsAscending ys → IsAscending (place lt x ys)
  unfolding place
  place-IsAscending x [] h = (tt, tt)
  place-IsAscending x (y ∷ ys) h = elim (Bool-cases (lt x y)) [
    | inl e ↦ rw e (e, h)
    | inr n ↦ elim (Bool-cases (lt y x)) [
      | inl e ↦ rw (n, e) (place-Before y x ys e h.0, place-IsAscending x ys h.1)
      | inr m ↦ rw (n, m) h
    ]
  ]

  pub sorted_set-IsAscending : (xs : List A) → IsAscending (sorted_set lt xs)
  unfolding sorted_set
  sorted_set-IsAscending [] = tt
  sorted_set-IsAscending (x ∷ xs) =
      place-IsAscending x (sorted_set lt xs) (sorted_set-IsAscending xs)

module _ {A : Type 0} (P : A → Type 0) (lt : A → A → Bool) where
  place-All : (x : A) (ys : List A) → P x → All P ys → All P (place lt x ys)
  unfolding place
  place-All x [] h k = (h, tt)
  place-All x (y ∷ ys) h k = elim (Bool-cases (lt x y)) [
    | inl e ↦ rw e (h, k)
    | inr n ↦ elim (Bool-cases (lt y x)) [
      | inl e ↦ rw (n, e) (k.0, place-All x ys h k.1)
      | inr m ↦ rw (n, m) k
    ]
  ]

  pub sorted_set-All : (xs : List A) → All P xs → All P (sorted_set lt xs)
  unfolding sorted_set
  sorted_set-All [] h = tt
  sorted_set-All (x ∷ xs) h = place-All x (sorted_set lt xs) h.0 (sorted_set-All xs h.1)
