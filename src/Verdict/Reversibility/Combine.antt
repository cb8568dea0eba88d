-- ===== src/Verdict/Reversibility/Combine.antt =====
-- verdict/reversibility.py `combine`: a composite is as irreversible as its worst part.
use blastoise.Base.{ℕ, List, max_by}
use blastoise.Verdict.Model.{Reversibility, reversible, irreversible, ReversibilityAssessment}

abbrev pub reversibility_rank : Reversibility → ℕ
reversibility_rank reversible = 0
reversibility_rank Reversibility.unknown = 1
reversibility_rank irreversible = 2

abbrev pub part_rank : ReversibilityAssessment → ℕ
part_rank part = reversibility_rank part.reversibility

-- `combine` of the parts `first, *rest`; the engine calls it on no empty tuple.
unfoldable pub combine :
    ReversibilityAssessment → List ReversibilityAssessment → ReversibilityAssessment
combine first rest = max_by part_rank first rest
