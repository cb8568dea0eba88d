-- ===== src/Verdict/Safety/Counts.antt =====
-- What `classification_counts` of verdict/model.py counts.
use blastoise.Base.{ℕ, ◌+◌, ◌≡◌, refl, List, [], ◌∷◌, length, keep, if◌then◌else◌, arith}
use blastoise.Verdict.Model.{
  Classification, safe, safe_irreversible, needs_timing, unsafe, StatementAssessment,
  ScriptAssessment, same_tier, TierCounts, increment, count_statements, classification_counts,
}

abbrev pub of_tier : Classification → List StatementAssessment → List StatementAssessment
of_tier c ss = keep (λ (s : StatementAssessment). same_tier s.verdict.classification c) ss

count-of_tier :
    (counts : TierCounts) (ss : List StatementAssessment) (c : Classification)
    → count_statements counts ss c ≡ counts c + length (of_tier c ss)
unfolding count_statements
count-of_tier counts [] c = omega arith
count-of_tier counts (s ∷ ss) c =
    ground (arith, count-of_tier (increment s.verdict.classification counts) ss c)

one_of : Classification → Classification → ℕ
one_of d c = if same_tier d c then 1 else 0

of_tier-cons :
    (c : Classification) (s : StatementAssessment) (ss : List StatementAssessment)
    → length (of_tier c (s ∷ ss)) ≡ one_of s.verdict.classification c + length (of_tier c ss)
unfolding one_of
of_tier-cons c s ss = ground arith

one_of-sum :
    (d : Classification)
    → one_of d safe
        + one_of d safe_irreversible
        + one_of d needs_timing
        + one_of d Classification.unknown
        + one_of d unsafe
      ≡ 1
unfolding one_of
one_of-sum safe = refl
one_of-sum safe_irreversible = refl
one_of-sum needs_timing = refl
one_of-sum Classification.unknown = refl
one_of-sum unsafe = refl

all-tiers :
    (ss : List StatementAssessment)
    → length (of_tier safe ss)
        + length (of_tier safe_irreversible ss)
        + length (of_tier needs_timing ss)
        + length (of_tier Classification.unknown ss)
        + length (of_tier unsafe ss)
      ≡ length ss
all-tiers [] = omega arith
all-tiers (s ∷ ss) = omega (
  arith,
  of_tier-cons safe s ss,
  of_tier-cons safe_irreversible s ss,
  of_tier-cons needs_timing s ss,
  of_tier-cons Classification.unknown s ss,
  of_tier-cons unsafe s ss,
  one_of-sum s.verdict.classification,
  all-tiers ss,
)

-- The count of a tier is the number of statements of that tier, and the five counts add up to the
-- number of statements.
pub classification_counts-length :
    (a : ScriptAssessment) (c : Classification)
    → (classification_counts a c ≡ length (of_tier c a.statements))
      × (classification_counts a safe
            + classification_counts a safe_irreversible
            + classification_counts a needs_timing
            + classification_counts a Classification.unknown
            + classification_counts a unsafe
          ≡ length a.statements)
unfolding classification_counts
classification_counts-length a c =
    let counted = count-of_tier (λ x. 0) a.statements in
    (
      omega (arith, counted c),
      omega (
        arith,
        counted safe,
        counted safe_irreversible,
        counted needs_timing,
        counted Classification.unknown,
        counted unsafe,
        all-tiers a.statements,
      ),
    )
