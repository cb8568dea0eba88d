-- ===== src/Verdict/Safety/Refusals.antt =====
-- The refusals of verdict/engine.py, from the threshold to the row.
use blastoise.Base.{◌≡◌, true, none, List, [], ◌∷◌, arith, ◌⊎◌}
use blastoise.Catalog.{ResolvedLock}
use blastoise.Verdict.Model.{
  Classification, safe, needs_timing, unsafe, Verdict, RelationLockAssessment, Method, Duration,
  proven,
}
use blastoise.Verdict.Narrow.{NarrowResult}
use blastoise.Verdict.Engine.{
  Context, boundary_refusal, refused_verdict, proportional_verdict, constant_verdict,
  matched_dml_verdict, all_rows_dml_verdict, generic_verdict, apply_narrowing, rows_estimate,
  bytes_estimate, branch, decide, Branch, row_verdict, assess_row, relation_assessments,
  escalate_for_contention, cap_for_conditions, cap_for_guard, floor_for_access_exclusive,
}

abbrev pub SidesDiffer : List Classification → Type 0
SidesDiffer tiers = (tiers ≡ needs_timing ∷ unsafe ∷ []) ⊎ (tiers ≡ safe ∷ needs_timing ∷ [])

-- A refused verdict is UNKNOWN and names the two tiers on the sides of a line.
abbrev pub IsHonestRefusal : Verdict → Type 0
IsHonestRefusal v =
    v.refusal ≡ true
    → (v.classification ≡ Classification.unknown) × SidesDiffer v.refused_alternatives

proportional-refusal :
    (ctx : Context) (rs : List RelationLockAssessment) (d : Duration) (m : Method)
    → IsHonestRefusal (proportional_verdict ctx rs d m)
unfolding proportional_verdict refused_verdict boundary_refusal
proportional-refusal ctx rs d m h = ground arith

all_rows-refusal : (d : Duration) → IsHonestRefusal (all_rows_dml_verdict d)
unfolding all_rows_dml_verdict refused_verdict boundary_refusal
all_rows-refusal d h = ground arith

constant-refusal :
    (rs : List RelationLockAssessment) (m : Method) → IsHonestRefusal (constant_verdict rs m)
unfolding constant_verdict
constant-refusal rs m h = ground arith

module _ (ctx : Context) (r : ResolvedLock) where
  generic-refusal :
      (rs : List RelationLockAssessment) → IsHonestRefusal (generic_verdict ctx r rs).1
  unfolding generic_verdict
  generic-refusal rs h = ground (
    arith,
    constant-refusal rs proven,
    proportional-refusal ctx rs (bytes_estimate ctx r) proven,
    proportional-refusal ctx rs (rows_estimate ctx r none) proven,
  )

  narrowing-refusal :
      (rs : List RelationLockAssessment) (n : NarrowResult)
      → IsHonestRefusal (apply_narrowing ctx r rs n).verdict
  unfolding apply_narrowing
  narrowing-refusal rs n h = grind (arith, constant-refusal, proportional-refusal, generic-refusal)

  decide-refusal :
      (b : Branch) (rs : List RelationLockAssessment) → IsHonestRefusal (decide b ctx r rs).verdict
  unfolding decide matched_dml_verdict
  decide-refusal b rs h =
      grind (
        arith,
        all_rows-refusal (rows_estimate ctx r none),
        generic-refusal rs,
        narrowing-refusal rs,
      )

  -- A refused row is UNKNOWN, and its refusal names the tiers on the sides of the line.
  pub assess_row-refusal :
      (assess_row ctx r).verdict.refusal ≡ true
      → ((assess_row ctx r).verdict.classification ≡ Classification.unknown)
        × SidesDiffer (assess_row ctx r).verdict.refused_alternatives
  unfolding assess_row row_verdict cap_for_conditions escalate_for_contention
      floor_for_access_exclusive cap_for_guard
  assess_row-refusal h = ground (
    arith,
    decide-refusal (branch ctx r (relation_assessments ctx r)) (relation_assessments ctx r),
  )
