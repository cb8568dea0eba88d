-- ===== src/Verdict/Safety/Adjustments.antt =====
-- The adjustments of verdict/engine.py: what each may do to the tier of a verdict.
use blastoise.Base.{ℕ, ◌≤◌, ◌≡◌, ◌≢◌, Bool, true, ◌&&◌, not, ◌↔◌, List, [], ◌∷◌, arith, ◌⊎◌, any}
use blastoise.Verdict.Model.{
  Classification, needs_timing, unsafe, in_safe_tiers, combine_rank, Verdict,
  RelationLockAssessment, ContentionAssessment,
}
use blastoise.Verdict.Engine.{
  Context, has_live_exclusive, is_observed, escalate_for_contention, floor_for_access_exclusive,
  cap_for_guard,
}

abbrev pub rank : Verdict → ℕ
rank v = combine_rank v.classification

-- The floor is a floor: it lowers no tier, it brings in no UNSAFE, it leaves a safe tier exactly
-- where the row takes a live ACCESS EXCLUSIVE lock, and it lifts a verdict to NEEDS_TIMING or not
-- at all.
pub floor_for_access_exclusive_lem :
    (ctx : Context) (v : Verdict) (rs : List RelationLockAssessment)
    → (rank v ≤ rank (floor_for_access_exclusive ctx v rs))
      × (((floor_for_access_exclusive ctx v rs).classification ≡ unsafe)
          ↔ (v.classification ≡ unsafe))
      × (in_safe_tiers (floor_for_access_exclusive ctx v rs).classification
          ≡ (in_safe_tiers v.classification && not (has_live_exclusive ctx rs)))
      × ((floor_for_access_exclusive ctx v rs ≡ v)
          ⊎ ((floor_for_access_exclusive ctx v rs).classification ≡ needs_timing))
unfolding floor_for_access_exclusive has_live_exclusive
floor_for_access_exclusive_lem ctx v rs = ground arith

abbrev pub active_conflict_seen : List ContentionAssessment → Bool
active_conflict_seen cs = any (λ (c : ContentionAssessment). is_observed c && c.active_conflict) cs

active-observed :
    (cs : List ContentionAssessment) → active_conflict_seen cs ≡ true → any is_observed cs ≡ true
active-observed [] h = h
active-observed (c ∷ cs) h = ground (arith, active-observed cs)

-- What was observed lowers no tier, it leaves a safe tier exactly where some conflicting lock was
-- seen, and it reaches UNSAFE exactly from UNSAFE, or from NEEDS_TIMING by an active conflict.
pub escalate_for_contention_lem :
    (v : Verdict) (cs : List ContentionAssessment)
    → (rank v ≤ rank (escalate_for_contention v cs))
      × (in_safe_tiers (escalate_for_contention v cs).classification
          ≡ (in_safe_tiers v.classification && not (any is_observed cs)))
      × (((escalate_for_contention v cs).classification ≡ unsafe) ↔ (
          (v.classification ≡ unsafe)
          ⊎ ((v.classification ≡ needs_timing) × (active_conflict_seen cs ≡ true))))
unfolding escalate_for_contention
escalate_for_contention_lem v cs = ground (arith, active-observed cs)

pub cap_for_guard_lem :
    (v : Verdict)
    → ((v.classification ≡ Classification.unknown) × (cap_for_guard v ≡ v))
      ⊎ ((v.classification ≢ Classification.unknown)
          × ((cap_for_guard v).classification ≡ needs_timing))
unfolding cap_for_guard
cap_for_guard_lem v = ground arith
