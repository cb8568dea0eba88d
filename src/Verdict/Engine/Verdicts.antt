-- ===== src/Verdict/Engine/Verdicts.antt =====
-- verdict/engine.py: the verdict of a row from its locks and its estimate.
use blastoise.Base.{
  Bool, true, false, ◌&&◌, ◌||◌, not, some, none, List, [], ◌∷◌, ◌++◌, keep, ltb, if◌then◌else◌,
}
use blastoise.Ir.{StatementKind, Kind, statement, details, Details, dml_details}
use blastoise.Catalog.{
  access_exclusive, mode_eq, ResolvedLock, DurationModel, proportional_to_rows,
  proportional_to_index_size,
}
use blastoise.Verdict.Constants.{write_block_short_ms}
use blastoise.Verdict.Model.{
  Method, proven, unverified, weakest_method, Classification, safe, needs_timing, sub_second,
  duration_band, Verdict, RelationLockAssessment, Duration, estimate, cannot_estimate, Narrative,
  no_narrative, live_context_missing, matched_rows, low_traffic_window, prompt_acquisition,
  bounded_matches, consider_batching, acceptable_off_peak,
}
use blastoise.Verdict.Duration.{constant_op_estimate}
use blastoise.Verdict.Narrow.{NarrowResult, NarrowOutcome}
use blastoise.Verdict.Engine.FileStates.{state_of_label}
use blastoise.Verdict.Engine.Locks.{Context, extra_relation_assessment}
use blastoise.Verdict.Engine.Thresholds.{
  Block, reads, writes, block_type, band_of, boundary_refusal, refused_verdict, verdict_of,
}
use blastoise.Verdict.Engine.Durations.{rows_estimate, bytes_estimate, rebuild_estimate}

-- The certain ACCESS EXCLUSIVE locks on relations that the file did not create.
unfoldable pub is_live_exclusive : Context → RelationLockAssessment → Bool
is_live_exclusive ctx r = elim r.lock_mode [
  | access_exclusive ↦
      r.certain && elim (state_of_label ctx.file_state r.relation) [ none ↦ true | some _ ↦ false ]
  | _ ↦ false
]

-- `_live_ael_relations`, as locks: the source lists their names, which only its prose reads.
unfoldable pub live_exclusive : Context → List RelationLockAssessment → List RelationLockAssessment
unfolding is_live_exclusive
live_exclusive ctx relations =
    if ctx.file_state.baseline then [] else keep (is_live_exclusive ctx) relations

unfoldable pub has_live_exclusive : Context → List RelationLockAssessment → Bool
has_live_exclusive ctx relations = elim (live_exclusive ctx relations) [ [] ↦ false | _ ∷ _ ↦ true ]

-- Whether the line between SAFE and NEEDS_TIMING can change the outcome.
unfoldable pub short_matters : Context → Block → List RelationLockAssessment → Bool
short_matters ctx reads relations = not (has_live_exclusive ctx relations)
short_matters ctx writes relations = true

abbrev is_reads : Block → Bool
is_reads reads = true
is_reads writes = false

-- `_proportional_verdict`
unfoldable pub proportional_verdict :
    Context → List RelationLockAssessment → Duration → Method → Verdict
proportional_verdict ctx relations duration base_method = elim (block_type relations) [
  | none ↦ elim duration [
    | estimate d ↦ record (verdict_of safe base_method) { band = some (duration_band d.high_ms) }
    | cannot_estimate _ _ ↦ verdict_of safe base_method
  ]
  | some block ↦ elim duration [
    | cannot_estimate _ _ ↦ verdict_of Classification.unknown unverified
    | estimate d ↦
        let method = weakest_method base_method (d.method ∷ []) in
        let cls = band_of d.high_ms block in
        elim (boundary_refusal d block (short_matters ctx block relations)) [
          | some b ↦ refused_verdict b d method
          | none ↦ record (verdict_of cls method) {
            conditions = elim cls [
              | needs_timing ↦ low_traffic_window (is_reads block) ∷ []
              | _ ↦ []
            ];
            band = some (duration_band d.high_ms);
          }
        ]
  ]
]

-- `_constant_verdict`
unfoldable pub constant_verdict : List RelationLockAssessment → Method → Verdict
constant_verdict relations method = elim (block_type relations) [
  | some reads ↦ record (verdict_of needs_timing method) {
    conditions = prompt_acquisition ∷ [];
    band = some sub_second;
  }
  | _ ↦ record (verdict_of safe method) { band = some sub_second }
]

has_batch_signals : Details → Bool
has_batch_signals (dml_details d) = elim d.batch_signals [ [] ↦ false | _ ∷ _ ↦ true ]
has_batch_signals _ = false

is_batched_kind : Kind → Bool
is_batched_kind (statement StatementKind.update_batched) = true
is_batched_kind (statement StatementKind.delete_batched) = true
is_batched_kind _ = false

-- `_matched_dml_verdict`
unfoldable pub matched_dml_verdict : Context → ResolvedLock → Verdict
unfolding has_batch_signals is_batched_kind
matched_dml_verdict ctx resolved = elim (rows_estimate ctx resolved none) [
  | cannot_estimate _ _ ↦ verdict_of Classification.unknown unverified
  | estimate worst ↦
      let method = weakest_method proven (worst.method ∷ []) in
      let band = duration_band worst.high_ms in
      let batched =
        has_batch_signals (details resolved.of_statement) || is_batched_kind resolved.entry.kind in
      if ltb worst.high_ms write_block_short_ms
      then record (verdict_of safe method) { band = some band }
      else record (verdict_of needs_timing method) {
        conditions = bounded_matches band ∷ (if batched then [] else consider_batching ∷ []);
        band = some band;
      }
]

-- `_all_rows_dml_verdict`
unfoldable pub all_rows_dml_verdict : Duration → Verdict
all_rows_dml_verdict (cannot_estimate reason method) = verdict_of Classification.unknown unverified
all_rows_dml_verdict (estimate d) =
    let cls = band_of d.high_ms writes in
    elim (boundary_refusal d writes true) [
      | some b ↦ refused_verdict b d d.method
      | none ↦ record (verdict_of cls d.method) {
        conditions = elim cls [ needs_timing ↦ acceptable_off_peak ∷ [] | _ ↦ [] ];
        band = some (duration_band d.high_ms);
      }
    ]

-- `_generic_verdict`
unfoldable pub generic_verdict :
    Context → ResolvedLock → List RelationLockAssessment → Duration × Verdict
generic_verdict ctx resolved relations = elim resolved.entry.duration_model [
  | DurationModel.constant ↦
      (estimate (constant_op_estimate proven), constant_verdict relations proven)
  | proportional_to_index_size ↦
      let duration = bytes_estimate ctx resolved in
      (duration, proportional_verdict ctx relations duration proven)
  | proportional_to_rows ↦
      let duration = rows_estimate ctx resolved none in
      (duration, proportional_verdict ctx relations duration proven)
  | _ ↦ (cannot_estimate matched_rows unverified, verdict_of Classification.unknown unverified)
]

-- `if narrowed.narrative`
abbrev pub told : Narrative → List Narrative
told no_narrative = []
told n = n ∷ []

-- What `_apply_narrowing` returns, without the notes.
pub record Narrowed : Type 0 where
  pub relations : List RelationLockAssessment
  pub duration : Duration
  pub verdict : Verdict
  pub narrowings : List Narrative

-- `_apply_narrowing`
unfoldable pub apply_narrowing :
    Context → ResolvedLock → List RelationLockAssessment → NarrowResult → Narrowed
apply_narrowing ctx resolved relations n =
    let locks : List RelationLockAssessment = elim n.extra_relation [
      | none ↦ relations
      | some extra ↦ relations ++ (extra_relation_assessment ctx extra ∷ [])
    ] in
    let method = weakest_method proven (n.method ∷ []) in
    let generic = generic_verdict ctx resolved locks in
    let work : Duration = elim n.rebuild_indexes [
      | [] ↦ rows_estimate ctx resolved n.family_override
      | rebuild ∷ rebuilds ↦ rebuild_estimate ctx resolved rebuild rebuilds
    ] in
    record {
      relations = locks;
      duration = elim n.outcome [
        | NarrowOutcome.unresolved ↦ cannot_estimate live_context_missing unverified
        | NarrowOutcome.constant ↦ estimate (constant_op_estimate n.method)
        | NarrowOutcome.keep_model ↦ generic.0
        | NarrowOutcome.proportional ↦ work
      ];
      verdict = elim n.outcome [
        | NarrowOutcome.unresolved ↦ verdict_of Classification.unknown unverified
        | NarrowOutcome.constant ↦ constant_verdict locks method
        | NarrowOutcome.keep_model ↦ generic.1
        | NarrowOutcome.proportional ↦ proportional_verdict ctx locks work method
      ];
      narrowings = told n.narrative;
    }
