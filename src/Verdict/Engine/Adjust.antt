-- ===== src/Verdict/Engine/Adjust.antt =====
-- verdict/engine.py: what happens to the verdict of a row after it is decided.
use blastoise.Base.{
  Bool, true, false, ◌&&◌, some, none, List, [], ◌∷◌, ◌++◌, Text, any, if◌then◌else◌,
}
use blastoise.Verdict.Model.{
  Method, observed, weakest_method, Classification, needs_timing, unsafe, in_safe_tiers, Condition,
  Verdict, RelationLockAssessment, ContentionAssessment, prompt_acquisition_of, guarded,
  if_guard_passes_unsafe,
}
use blastoise.Verdict.Engine.Locks.{Context}
use blastoise.Verdict.Engine.Verdicts.{live_exclusive}

-- A verdict built anew, which forgets a refusal.
abbrev pub reclassified : Classification → Method → List Condition → Verdict → Verdict
reclassified classification method conditions v = record {
  classification = classification;
  method = method;
  conditions = conditions;
  band = v.band;
  refusal = false;
  refused_from = none;
  refused_alternatives = [];
}

abbrev timed : Classification → Bool
timed needs_timing = true
timed unsafe = true
timed _ = false

-- The cap of `_assess_row` for a branch that the narrowing's conditions avoid.
unfoldable pub cap_for_conditions : List Condition → Verdict → Verdict
cap_for_conditions [] v = v
cap_for_conditions (c ∷ cs) v =
    if timed v.classification
    then reclassified needs_timing v.method ((c ∷ cs) ++ v.conditions) v
    else v

-- `conflicting_lock_held.value is True`
abbrev pub is_observed : ContentionAssessment → Bool
is_observed c = elim c.conflicting_lock_held.value [ none ↦ false | some b ↦ b ]

abbrev observed_active : ContentionAssessment → Bool
observed_active c = is_observed c && c.active_conflict

-- `_escalate_for_contention`
unfoldable pub escalate_for_contention : Verdict → List ContentionAssessment → Verdict
escalate_for_contention v contention =
    let to = λ (cls : Classification).
      reclassified cls (weakest_method v.method (observed ∷ [])) v.conditions v in
    if any is_observed contention
    then (elim v.classification [
      | Classification.unknown ↦ v
      | unsafe ↦ v
      | needs_timing ↦ if any observed_active contention then to unsafe else v
      | _ ↦ to needs_timing
    ])
    else v

abbrev relation_names : List RelationLockAssessment → List Text
relation_names [] = []
relation_names (r ∷ rs) =
    let rest = relation_names rs in elim r.relation [ none ↦ rest | some name ↦ name ∷ rest ]

-- `_floor_for_access_exclusive`
unfoldable pub floor_for_access_exclusive :
    Context → Verdict → List RelationLockAssessment → Verdict
floor_for_access_exclusive ctx v relations =
    if in_safe_tiers v.classification
    then (elim (live_exclusive ctx relations) [
      | [] ↦ v
      | r ∷ rs ↦
          reclassified needs_timing v.method
            (prompt_acquisition_of (relation_names (r ∷ rs)) ∷ v.conditions) v
    ])
    else v

-- `_cap_for_guard`
unfoldable pub cap_for_guard : Verdict → Verdict
cap_for_guard v = elim v.classification [
  | Classification.unknown ↦ v
  | unsafe ↦ reclassified needs_timing v.method (guarded ∷ if_guard_passes_unsafe ∷ v.conditions) v
  | _ ↦ reclassified needs_timing v.method (guarded ∷ v.conditions) v
]
