-- ===== src/Verdict/Model/Counts.antt =====
-- verdict/model.py `ScriptAssessment.classification_counts`.
use blastoise.Base.{ℕ, ◌+◌, Bool, List, [], ◌∷◌, nat_beq, if◌then◌else◌}
use blastoise.Verdict.Model.Tiers.{Classification, combine_rank}
use blastoise.Verdict.Model.Assessments.{StatementAssessment, ScriptAssessment}

-- `==` on tiers, whose ranks differ.
abbrev pub same_tier : Classification → Classification → Bool
same_tier c d = nat_beq (combine_rank c) (combine_rank d)

-- The dictionary has all tiers as keys, so it is a function.
abbrev pub TierCounts : Type 0
TierCounts = Classification → ℕ

-- `counts[tier] += 1`.
unfoldable pub increment : Classification → TierCounts → TierCounts
increment tier counts = λ c. if same_tier tier c then counts c + 1 else counts c

unfoldable pub count_statements : TierCounts → List StatementAssessment → TierCounts
unfolding increment
count_statements counts [] = counts
count_statements counts (s ∷ ss) = count_statements (increment s.verdict.classification counts) ss

unfoldable pub classification_counts : ScriptAssessment → TierCounts
unfolding count_statements
classification_counts a = count_statements (λ c. 0) a.statements
