-- ===== src/Tests/Files.antt =====
-- Files, catalogs and runs on concrete inputs.
use blastoise.Base.{
  ◌+◌, length, ◌≡◌, ◌≢◌, refl, inl, false, some, none, List, [], ◌∷◌, All, Any, codes, Succeeds,
  Result, ok, raise, ◌↔◌, arith,
}
use blastoise.Ir.{StatementKind, parsed, Details, no_details, insert_details}
use blastoise.Catalog.{
  check_coverage, check_versions, check_variants, rows_for, resolution_of, entry_for, entries_for,
  pick, resolve, resolve_one, relations_from,
}
use blastoise.Report.Model.{proceed, block}
use blastoise.Ci.{FileOutcome, assessed, unsupported, run_verdict, Got, run_verdict_lem}
use blastoise.Verdict.Model.{
  Classification, safe, safe_irreversible, needs_timing, unsafe, StatementAssessment,
  ScriptAssessment, classification_counts,
}
use blastoise.Verdict.Safety.Counts.{of_tier, classification_counts-length}
use blastoise.Verdict.Engine.{
  FileState, fresh, is_bounded, observe, observe_kind, state_of, clean, tag_target, tagged,
  assess_script, assess_from, assess_statement, transaction_warnings, group_warnings,
  group_exclusive, nth_statement,
}
use blastoise.Verdict.Engine.{
  statement_verdict, with_held_locks, explicit_group_of, with_reversibility, with_opacity,
  is_opaque, combined_rows, worst_from, assess_row, row_verdict, floor_for_access_exclusive,
  escalate_for_contention, contention_for, decide, branch, relation_assessments, context_at,
  cap_for_conditions, reversibility_of,
}
use blastoise.Verdict.Reversibility.{statement_reversibility}
use blastoise.Verdict.Safety.Created
use blastoise.Verdict.Engine.{state_of_label}
use blastoise.Base.{after_last}
use blastoise.Ir.{label, QualifiedName}
use blastoise.Verdict.Safety.Labels.{state_of_label-label}
use blastoise.Verdict.Safety.Spelling.{probe_name-injective}
use blastoise.Verdict.Probes.{probe_name}
use blastoise.Verdict.Collect.{snapshot_probes}
use blastoise.Verdict.Engine.{duration_relation}
use blastoise.Catalog.{ResolvedLock}
use blastoise.Tests.Samples.{resolved_of, outcome_of}
use blastoise.Verdict.Safety.Members.{Among}
use blastoise.Verdict.Safety.Probed.{snapshot_probes-covers}
use blastoise.Verdict.Safety.Scripts
use blastoise.Verdict.Safety.Failures.{FailsAt}
use blastoise.Tests.Samples.{
  users, head_of, create_users, cluster_users, cluster_row, catalog, old_catalog, evaluate, script,
}

cluster_found : Scripts.Resolves catalog 16 cluster_users
unfolding resolve resolution_of resolve_one entry_for entries_for rows_for pick relations_from
cluster_found = tt

assess_script-total_example :
    Succeeds
      (λ (a : ScriptAssessment). Scripts.kinds_of a.statements ≡ StatementKind.cluster ∷ [])
      (assess_script evaluate script catalog 16 none)
assess_script-total_example =
    Scripts.assess_script-total evaluate script catalog 16 none (cluster_found, tt)
      ((omega arith, tt), tt)

checked : check_coverage (cluster_row ∷ []) catalog.version_domain ≡ none
unfolding check_coverage check_versions check_variants
checked = refl

users_held : state_of (Created.observe_file (create_users ∷ []) (fresh false)) (some users) ≢ none
unfolding state_of observe observe_kind tag_target tagged fresh
users_held = λ e. cc

observe_file-created_example : Any (λ s. Created.Creates s users.name) (create_users ∷ [])
observe_file-created_example = Created.observe_file-created (create_users ∷ []) users users_held

abbrev holding : FileState
holding = observe create_users (fresh false)

users_created : holding.created users.name ≡ some clean
unfolding observe observe_kind tag_target tagged fresh
users_created = refl

abbrev load : Details
load = insert_details (codes "select")

users_unbounded : is_bounded load ≡ false
unfolding is_bounded
users_unbounded = refl

holding-baseline : holding.baseline ≡ false
unfolding observe observe_kind tag_target tagged fresh
holding-baseline = refl

users_kept : holding.created users.name ≢ none
unfolding observe observe_kind tag_target tagged fresh
users_kept = λ e. cc

abbrev outcomes : List FileOutcome
outcomes = outcome_of assessed (some block) ∷ outcome_of unsupported none ∷ []

run_verdict_example :
    ((run_verdict outcomes ≡ block) ↔ Any (Got block) outcomes)
    × ((run_verdict outcomes ≡ proceed) ↔ All (Got proceed) outcomes)
run_verdict_example = run_verdict_lem outcomes

abbrev empty_assessment : ScriptAssessment
empty_assessment = record {
  statements = [];
  transaction_warnings = [];
  pg_version = 16;
  online = false;
  baseline_shaped = false;
}

abbrev or_empty : Result ScriptAssessment → ScriptAssessment
or_empty (ok a) = a
or_empty (raise e) = empty_assessment

-- CLUSTER on a version that lacks it.
abbrev failing : ScriptAssessment
failing = or_empty (assess_script evaluate script old_catalog 16 none)

classification_counts-length_example :
    (classification_counts failing unsafe ≡ length (of_tier unsafe failing.statements))
    × (classification_counts failing safe
          + classification_counts failing safe_irreversible
          + classification_counts failing needs_timing
          + classification_counts failing Classification.unknown
          + classification_counts failing unsafe
        ≡ length failing.statements)
classification_counts-length_example = classification_counts-length failing unsafe

abbrev first_of : List StatementAssessment → StatementAssessment
first_of [] = assess_statement 0 cluster_users [] []
first_of (s ∷ ss) = s

abbrev failing_statement : StatementAssessment
failing_statement = first_of failing.statements

failing-assessed : assess_script evaluate script old_catalog 16 none ≡ ok failing
unfolding assess_script assess_from transaction_warnings group_warnings group_exclusive
    nth_statement resolve resolution_of resolve_one entry_for entries_for rows_for pick
    relations_from
failing-assessed = refl

failing-among : Any (λ t. t ≡ failing_statement) failing.statements
unfolding assess_script assess_from transaction_warnings group_warnings group_exclusive
    nth_statement resolve resolution_of resolve_one entry_for entries_for rows_for pick
    relations_from
failing-among = inl refl

failing-unsafe : failing_statement.verdict.classification ≡ unsafe
unfolding assess_script assess_from transaction_warnings group_warnings group_exclusive
    nth_statement resolve resolution_of resolve_one entry_for entries_for rows_for pick
    relations_from assess_statement statement_verdict with_held_locks explicit_group_of
    with_reversibility with_opacity is_opaque combined_rows worst_from assess_row row_verdict
    floor_for_access_exclusive escalate_for_contention contention_for decide branch
    relation_assessments context_at cap_for_conditions reversibility_of statement_reversibility
failing-unsafe = refl

assess_script-offline_example :
    FailsAt old_catalog 16 script.statements script.transaction_groups
      failing_statement.statement_index
assess_script-offline_example =
    Scripts.assess_script-offline evaluate script old_catalog 16 failing failing_statement
      failing-assessed failing-among failing-unsafe

state_of_label-label_example :
    state_of_label holding
      (some (label (record { name = codes "users"; schema = some (codes "public") })))
    ≡ state_of holding (some (record { name = codes "users"; schema = some (codes "public") }))
state_of_label-label_example =
    state_of_label-label holding (codes "users") (some (codes "public")) refl

-- A quoted name with a dot, created in the file, is found by its name and missed by its text.
abbrev dotted : QualifiedName
dotted = record { name = codes "a.b"; schema = none }

abbrev dotted_held : FileState
dotted_held =
    observe (parsed (head_of StatementKind.create_table (dotted ∷ []) []) no_details) (fresh false)

dotted-missed :
    (state_of dotted_held (some dotted) ≡ some clean)
    × (state_of_label dotted_held (some (label dotted)) ≡ none)
unfolding state_of state_of_label label observe observe_kind tag_target tagged fresh after_last
dotted-missed = (refl, refl)

probe_name-injective_example : dotted ≡ dotted
probe_name-injective_example = probe_name-injective dotted dotted refl

abbrev or_none : Result (List ResolvedLock) → List ResolvedLock
or_none (ok rows) = rows
or_none (raise e) = []

abbrev cluster_rows : List ResolvedLock
cluster_rows = or_none (resolve catalog 16 cluster_users)

abbrev first_row : List ResolvedLock → ResolvedLock
first_row [] = resolved_of cluster_row false
first_row (r ∷ rs) = r

cluster-resolved : resolve catalog 16 cluster_users ≡ ok cluster_rows
unfolding resolve resolution_of resolve_one entry_for entries_for rows_for pick relations_from
cluster-resolved = refl

cluster-among : Any (λ row. first_row cluster_rows ≡ row) cluster_rows
unfolding resolve resolution_of resolve_one entry_for entries_for rows_for pick relations_from
cluster-among = inl refl

cluster-sized : duration_relation (first_row cluster_rows) ≡ some users
unfolding resolve resolution_of resolve_one entry_for entries_for rows_for pick relations_from
    duration_relation
cluster-sized = refl

snapshot_probes-covers_example : Among (probe_name users) (snapshot_probes script).relations
snapshot_probes-covers_example =
    snapshot_probes-covers catalog 16 script cluster_users cluster_rows (first_row cluster_rows)
      users (inl refl) cluster-resolved cluster-among cluster-sized
