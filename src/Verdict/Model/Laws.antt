-- ===== src/Verdict/Model/Laws.antt =====
-- The combinators of verdict/model.py: the weakest evidence, the worst tier, the band.
use blastoise.Base.{
  ℕ, ◌≤◌, ◌≡◌, refl, List, ◌∷◌, All, Any, arith, min_by-le, min_by-mem, max_by-ge, max_by-mem,
}
use blastoise.Verdict.Model.Evidence.{Method, strength, weakest_method}
use blastoise.Verdict.Model.Tiers.{
  Classification, combine_rank, worse_classification, DurationBand, sub_second, seconds, minutes,
  long, duration_band,
}

strength-injective : (a b : Method) → strength a ≡ strength b → a ≡ b
strength-injective a b h = ground arith

combine_rank-injective : (a b : Classification) → combine_rank a ≡ combine_rank b → a ≡ b
combine_rank-injective a b h = ground arith

-- The combined evidence is one of the contributors, and no contributor is weaker.
weakest_method_lem :
    (first : Method) (rest : List Method)
    → Any (λ m. weakest_method first rest ≡ m) (first ∷ rest)
      × All (λ m. strength (weakest_method first rest) ≤ strength m) (first ∷ rest)
unfolding weakest_method
weakest_method_lem first rest =
    (min_by-mem strength first rest _ refl, min_by-le strength first rest)

-- The combined tier is one of the parts, and no part ranks above it.
worse_classification_lem :
    (first : Classification) (rest : List Classification)
    → Any (λ c. worse_classification first rest ≡ c) (first ∷ rest)
      × All (λ c. combine_rank c ≤ combine_rank (worse_classification first rest)) (first ∷ rest)
unfolding worse_classification
worse_classification_lem first rest =
    (max_by-mem combine_rank first rest _ refl, max_by-ge combine_rank first rest)

abbrev pub band_rank : DurationBand → ℕ
band_rank sub_second = 0
band_rank seconds = 1
band_rank minutes = 2
band_rank long = 3

duration_band_mono : (a b : ℕ) → a ≤ b → band_rank (duration_band a) ≤ band_rank (duration_band b)
unfolding duration_band
duration_band_mono a b h = ground arith
