-- ===== src/Verdict/Engine/Rows.antt =====
-- verdict/engine.py `_assess_row`: one catalog row of a statement, assessed.
use blastoise.Base.{
  Bool, true, false, ◌&&◌, ◌||◌, not, Option, some, none, List, [], ◌∷◌, keep, all, if◌then◌else◌,
}
use blastoise.Ir.{StatementKind, Kind, statement}
use blastoise.Catalog.{
  unknown_mode, is_table_lock, CatalogEntry, ResolvedLock, RelationLock, DurationModel,
  proportional_to_rows_matched, unknown_duration, uncalibrated, forbidden,
}
use blastoise.Verdict.Model.{
  proven, unverified, Classification, safe, needs_timing, unsafe, duration_band, Condition, Verdict,
  RelationLockAssessment, Duration, estimate, cannot_estimate, form_does_not_exist,
  form_not_modelled, uncalibrated_stub, errors_before_locks, only_reads, query_volume, source_rows,
  matched_rows, live_context_missing, defining_query_volume, source_query_volume, RowAssessment,
  Narrative,
}
use blastoise.Verdict.Narrow.{NarrowResult, narrow_action}
use blastoise.Verdict.Engine.FileStates.{state_of}
use blastoise.Verdict.Engine.Locks.{Context, relation_assessments}
use blastoise.Verdict.Engine.Contention.{contention_for}
use blastoise.Verdict.Engine.Thresholds.{verdict_of}
use blastoise.Verdict.Engine.Durations.{rows_estimate, file_local_duration}
use blastoise.Verdict.Engine.Verdicts.{
  apply_narrowing, generic_verdict, matched_dml_verdict, all_rows_dml_verdict,
}
use blastoise.Verdict.Engine.Adjust.{
  cap_for_conditions, escalate_for_contention, floor_for_access_exclusive, cap_for_guard,
}

abbrev is_some {ℓ} : {A : Type ℓ} → Option A → Bool
is_some none = false
is_some (some a) = true

abbrev certain_lock : RelationLockAssessment → Bool
certain_lock r = r.certain && is_table_lock r.lock_mode

created_here : Context → RelationLock → Bool
created_here ctx r = elim r.name [
  | none ↦ true
  | some q ↦ if r.certain then is_some (state_of ctx.file_state (some q)) else true
]

-- `_file_local`
unfoldable pub file_local : Context → ResolvedLock → List RelationLockAssessment → Bool
unfolding created_here
file_local ctx resolved relations =
    if ctx.file_state.baseline then true else elim (keep certain_lock relations) [
      | [] ↦ false
      | r ∷ rs ↦
          all (λ (l : RelationLockAssessment). is_some l.relation) (r ∷ rs)
          && all (created_here ctx) resolved.relations
    ]

-- What `_assess_row` decides of a row, a constructor for each branch.
pub data Branch : Type 0 where
  unavailable not_modelled stub forbidden_here local reading loading inserting : Branch
  matching_dml whole_table_dml needing_context plain : Branch

-- The branches of the sets `_PURE_READS`, `_LOADING_CREATES`, `_DML_MATCHED`, `_DML_ALL_ROWS`, and
-- of INSERT. `otherwise` is the branch of any other row.
unfoldable pub branch_of_kind : Kind → DurationModel → Branch → Branch
branch_of_kind (statement StatementKind.select) model otherwise = reading
branch_of_kind (statement StatementKind.show) model otherwise = reading
branch_of_kind (statement StatementKind.create_table_as) model otherwise = loading
branch_of_kind (statement StatementKind.create_matview) model otherwise = loading
branch_of_kind (statement StatementKind.insert) model otherwise = elim model [
  | proportional_to_rows_matched ↦ inserting
  | _ ↦ otherwise
]
branch_of_kind (statement StatementKind.update) model otherwise = matching_dml
branch_of_kind (statement StatementKind.update_batched) model otherwise = matching_dml
branch_of_kind (statement StatementKind.delete) model otherwise = matching_dml
branch_of_kind (statement StatementKind.delete_batched) model otherwise = matching_dml
branch_of_kind (statement StatementKind.update_without_where) model otherwise = whole_table_dml
branch_of_kind (statement StatementKind.delete_without_where) model otherwise = whole_table_dml
branch_of_kind _ model otherwise = otherwise

abbrev pub is_unmodelled : CatalogEntry → Bool
is_unmodelled e = elim e.lock_mode [ unknown_mode ↦ true | _ ↦ false ]

abbrev pub is_stub : CatalogEntry → Bool
is_stub e = elim e.duration_model [
  | unknown_duration ↦ true
  | _ ↦ elim e.calibration [ uncalibrated ↦ true | _ ↦ false ]
]

abbrev pub is_forbidden : CatalogEntry → Bool
is_forbidden e = elim e.transaction_block [ forbidden ↦ true | _ ↦ false ]

-- The conditions of `_assess_row`, in their order.
unfoldable pub branch : Context → ResolvedLock → List RelationLockAssessment → Branch
unfolding branch_of_kind
branch ctx resolved relations =
    let entry = resolved.entry in
    if not entry.available
    then unavailable
    else if is_unmodelled entry
    then not_modelled
    else if is_stub entry
    then stub
    else if is_forbidden entry && (ctx.in_explicit_txn || resolved.in_do_block)
    then forbidden_here
    else if file_local ctx resolved relations
    then local
    else branch_of_kind entry.kind entry.duration_model
        (if entry.requires_live_context then needing_context else plain)

-- The variables of `_assess_row` after the branches.
pub record Decision : Type 0 where
  pub relations : List RelationLockAssessment
  pub duration : Duration
  pub verdict : Verdict
  pub narrowings : List Narrative
  pub conditions_extra : List Condition

abbrev decided : List RelationLockAssessment → Duration → Verdict → Decision
decided relations duration verdict = record {
  relations = relations;
  duration = duration;
  verdict = verdict;
  narrowings = [];
  conditions_extra = [];
}

narrowing : Context → ResolvedLock → Option NarrowResult
narrowing ctx resolved = elim resolved.of_action [
  | none ↦ none
  | some a ↦ elim ctx.snapshot [
    | none ↦ none
    | some snapshot ↦ narrow_action ctx.evaluate a resolved.of_statement snapshot ctx.pg_version
  ]
]

decide_with_context : Context → ResolvedLock → List RelationLockAssessment → Decision
unfolding narrowing
decide_with_context ctx resolved relations = elim (narrowing ctx resolved) [
  | none ↦
      decided relations (cannot_estimate live_context_missing unverified)
        (verdict_of Classification.unknown unverified)
  | some n ↦
      let r = apply_narrowing ctx resolved relations n in
      record {
        relations = r.relations;
        duration = r.duration;
        verdict = r.verdict;
        narrowings = r.narrowings;
        conditions_extra = n.conditions;
      }
]

decide_local : Context → ResolvedLock → List RelationLockAssessment → Decision
decide_local ctx resolved relations =
    let duration = file_local_duration ctx resolved in
    decided relations duration (record (verdict_of safe proven) {
      band = elim duration [
        | estimate d ↦ some (duration_band d.high_ms)
        | cannot_estimate _ _ ↦ none
      ];
    })

-- The branches of `_assess_row`.
unfoldable pub decide : Branch → Context → ResolvedLock → List RelationLockAssessment → Decision
unfolding decide_with_context decide_local
decide unavailable ctx resolved relations =
    decided relations (cannot_estimate form_does_not_exist proven) (verdict_of unsafe proven)
decide not_modelled ctx resolved relations =
    decided relations (cannot_estimate form_not_modelled unverified)
      (verdict_of Classification.unknown unverified)
decide stub ctx resolved relations =
    decided relations (cannot_estimate uncalibrated_stub unverified)
      (verdict_of Classification.unknown unverified)
decide forbidden_here ctx resolved relations =
    decided relations (cannot_estimate errors_before_locks proven) (verdict_of unsafe proven)
decide local ctx resolved relations = decide_local ctx resolved relations
decide reading ctx resolved relations =
    decided relations (cannot_estimate only_reads proven) (verdict_of safe proven)
decide loading ctx resolved relations =
    decided relations (cannot_estimate query_volume unverified)
      (record (verdict_of needs_timing proven) { conditions = defining_query_volume ∷ [] })
decide inserting ctx resolved relations =
    decided relations (cannot_estimate source_rows unverified)
      (record (verdict_of needs_timing proven) { conditions = source_query_volume ∷ [] })
decide matching_dml ctx resolved relations =
    decided relations (cannot_estimate matched_rows unverified) (matched_dml_verdict ctx resolved)
decide whole_table_dml ctx resolved relations =
    let duration = rows_estimate ctx resolved none in
    decided relations duration (all_rows_dml_verdict duration)
decide needing_context ctx resolved relations = decide_with_context ctx resolved relations
decide plain ctx resolved relations =
    let both = generic_verdict ctx resolved relations in decided relations both.0 both.1

-- The verdict of a row, from its decision.
unfoldable pub row_verdict : Context → Bool → Decision → Verdict
row_verdict ctx conditional d =
    let escalated =
      escalate_for_contention (cap_for_conditions d.conditions_extra d.verdict)
        (contention_for ctx d.relations) in
    let floored = floor_for_access_exclusive ctx escalated d.relations in
    if conditional then cap_for_guard floored else floored

-- `_assess_row`, without the notes.
unfoldable pub assess_row : Context → ResolvedLock → RowAssessment
assess_row ctx resolved =
    let relations = relation_assessments ctx resolved in
    let d = decide (branch ctx resolved relations) ctx resolved relations in
    record {
      kind = resolved.entry.kind;
      lock_mode = resolved.entry.lock_mode;
      relations = d.relations;
      duration = d.duration;
      contention = contention_for ctx d.relations;
      verdict = row_verdict ctx resolved.conditional d;
      narrowings = d.narrowings;
    }
