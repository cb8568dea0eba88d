-- ===== src/Ci/Totals.antt =====
-- What the totals of ci/model.py `CiRun` add up to.
use blastoise.Base.{
  ℕ, ◌+◌, ◌≡◌, refl, Bool, true, false, not, ◌&&◌, List, [], ◌∷◌, All, if_both, map, length, keep,
  arith, Text, codes, ◌==◌, list_eq, nat_eq, list_beq_iff, contains, if◌then◌else◌,
}
use blastoise.Verdict.Model.{Classification}
use blastoise.Ci.{FileOutcome}
use blastoise.Ci.Summary.{
  tier_value, tier_order, Counts, get_count, set_count, count, CiRun, assessed_files,
  unsupported_files, error_files, add_counts, add_outcomes, totals, is_assessed, is_unsupported,
  is_error,
}

-- A dictionary: no key stands in it twice.
abbrev keys_of : Counts → List Text
keys_of counts = map (λ (p : Text × ℕ). p.0) counts

abbrev pub is_dict : Counts → Bool
is_dict [] = true
is_dict ((k, n) ∷ rest) = not (contains k (keys_of rest)) && is_dict rest

abbrev pub sum_over : (FileOutcome → ℕ) → List FileOutcome → ℕ
sum_over f [] = 0
sum_over f (o ∷ os) = f o + sum_over f os

get_count-set_count :
    (j k : Text) (n : ℕ) (t : Counts)
    → get_count j (set_count k n t) ≡ (if k == j then n else get_count j t)
unfolding get_count set_count
get_count-set_count j k n [] = refl
get_count-set_count j k n ((l, m) ∷ rest) =
    ground
      (arith, list_beq_iff k j, list_beq_iff l k, list_beq_iff l j, get_count-set_count j k n rest)

get_count-absent : (j : Text) (t : Counts) → contains j (keys_of t) ≡ false → get_count j t ≡ 0
unfolding get_count
get_count-absent j [] h = refl
get_count-absent j ((k, n) ∷ rest) h =
    ground (arith, list_beq_iff k j, list_beq_iff j k, get_count-absent j rest)

get_count-add_counts :
    (j : Text) (t cs : Counts)
    → is_dict cs ≡ true
    → get_count j (add_counts t cs) ≡ get_count j t + get_count j cs
unfolding add_counts get_count
get_count-add_counts j t [] h = omega arith
get_count-add_counts j t ((k, n) ∷ cs) h = ground (
  arith,
  get_count-add_counts j (set_count k (get_count k t + n) t) cs,
  get_count-set_count j k (get_count k t + n) t,
  get_count-absent k cs,
  list_beq_iff k j,
)

get_count-add_outcomes :
    (j : Text) (t : Counts) (os : List FileOutcome)
    → All (λ (o : FileOutcome). is_dict o.counts ≡ true) os
    → get_count j (add_outcomes t os)
      ≡ get_count j t + sum_over (λ (o : FileOutcome). get_count j o.counts) os
unfolding add_outcomes
get_count-add_outcomes j t [] h = omega arith
get_count-add_outcomes j t (o ∷ os) h = omega (
  arith,
  get_count-add_outcomes j (add_counts t o.counts) os h.1,
  get_count-add_counts j t o.counts h.0,
)

All-keep :
    (P : FileOutcome → Type 0) (p : FileOutcome → Bool) (os : List FileOutcome)
    → All P os
    → All P (keep p os)
All-keep P p [] h = tt
All-keep P p (o ∷ os) h = if_both (All P) (p o) (h.0, All-keep P p os h.1) (All-keep P p os h.1)

get_count-zeros :
    (j : Text) (tiers : List Classification)
    → get_count j (map (λ t. (codes (tier_value t), 0)) tiers) ≡ 0
unfolding get_count
get_count-zeros j [] = refl
get_count-zeros j (t ∷ ts) = ground (arith, get_count-zeros j ts)

parts-length :
    (os : List FileOutcome)
    → length (keep is_assessed os) + length (keep is_unsupported os) + length (keep is_error os)
      ≡ length os
parts-length [] = omega arith
parts-length (o ∷ os) = ground (arith, parts-length os)

-- Where the counts of each file are a dictionary, the total of a tier is the sum of its counts over
-- the assessed files; and the assessed, the unsupported and the failed files are as many as all files.
pub totals-sum :
    (run : CiRun) (tier : Classification)
    → All (λ (o : FileOutcome). is_dict o.counts ≡ true) run.outcomes
    → (get_count (codes (tier_value tier)) (totals run)
        ≡ sum_over (λ o. count o tier) (assessed_files run))
      × (length (assessed_files run) + length (unsupported_files run) + length (error_files run)
          ≡ length run.outcomes)
unfolding totals assessed_files unsupported_files error_files count
totals-sum run tier h =
    let key : Text = codes (tier_value tier) in
    (
      omega (
        arith,
        get_count-add_outcomes key (map (λ t. (codes (tier_value t), 0)) tier_order)
            (keep is_assessed run.outcomes)
            (All-keep (λ (o : FileOutcome). is_dict o.counts ≡ true) is_assessed run.outcomes h),
        get_count-zeros key tier_order,
      ),
      parts-length run.outcomes,
    )
