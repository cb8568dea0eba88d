-- ===== src/Base/Sorting.antt =====
-- `sorted(set(xs))` and `dict.fromkeys(xs)`.
use mathlib.Core.Bool.{Bool, true, false, ◌&&◌, ◌||◌}
use mathlib.Core.List.{List, [], ◌∷◌}
use blastoise.Base.Tests.{Comparable, nat_beq, ltb, if◌then◌else◌}
use blastoise.Base.Lists.{contains}
use blastoise.Base.Texts.{Text}

-- The order of Python's strings.
unfoldable pub text_lt : Text → Text → Bool
text_lt [] [] = false
text_lt [] (d ∷ ds) = true
text_lt (c ∷ cs) [] = false
text_lt (c ∷ cs) (d ∷ ds) = ltb c d || nat_beq c d && text_lt cs ds

module _ {A : Type 0} (lt : A → A → Bool) where
  unfoldable pub place : A → List A → List A
  place x [] = x ∷ []
  place x (y ∷ ys) =
      let later = place x ys in if lt x y then x ∷ y ∷ ys else if lt y x then y ∷ later else y ∷ ys

  -- Sorted, each element once.
  unfoldable pub sorted_set : List A → List A
  unfolding place
  sorted_set [] = []
  sorted_set (x ∷ xs) = place x (sorted_set xs)

module _ {A : Type 0} ⦃c : Comparable A⦄ where
  distinct_from : List A → List A → List A
  distinct_from seen [] = []
  distinct_from seen (x ∷ xs) =
      let old = distinct_from seen xs in
      let new = distinct_from (x ∷ seen) xs in if contains x seen then old else x ∷ new

  -- The first occurrence of each element, in order.
  unfoldable pub distinct : List A → List A
  unfolding distinct_from
  distinct xs = distinct_from [] xs
