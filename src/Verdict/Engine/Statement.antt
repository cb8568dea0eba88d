-- ===== src/Verdict/Engine/Statement.antt =====
-- verdict/engine.py `assess_script`, the body of the loop: the verdict of one statement from its
-- rows, its reversibility and the locks that its transaction holds.
use blastoise.Base.{
  ℕ, Bool, true, false, ◌&&◌, ◌||◌, not, some, none, List, [], ◌∷◌, map, any, leb, ltb,
  if◌then◌else◌,
}
use blastoise.Ir.{ParsedStatement, head, details, Details, do_block_details}
use blastoise.Catalog.{LockMode, none_mode, share, level, is_table_lock, ResolvedLock}
use blastoise.Verdict.Constants.{constant_op}
use blastoise.Verdict.Model.{
  observed, unverified, weakest_method, Classification, safe, safe_irreversible, needs_timing,
  unsafe, in_safe_tiers, worse_classification, no_undo, transaction_keeps_locks, Verdict, estimate,
  cannot_estimate, reversible, irreversible, ReversibilityAssessment, RowAssessment, HeldLock,
  StatementAssessment, says_no_table_rewrite, combine_rank,
}
use blastoise.Verdict.Reversibility.{statement_reversibility, action_reversibility, combine}
use blastoise.Verdict.Engine.Thresholds.{verdict_of}
use blastoise.Verdict.Engine.Adjust.{reclassified}

-- `_narrow_relabel`
unfoldable pub narrow_relabel : RowAssessment → Bool
narrow_relabel row = any says_no_table_rewrite row.narrowings

relabelled : ReversibilityAssessment
relabelled = record {
  reversibility = reversible;
  method = observed;
  basis =
      "live: the type change is a pure relabel (no rewrite, values unchanged) — altering back restores the exact state";
  what_is_lost = none;
}

part_of : ResolvedLock × RowAssessment → ReversibilityAssessment
unfolding relabelled
part_of (resolved, row) = elim resolved.of_action [
  | none ↦ statement_reversibility (head resolved.of_statement).kind
  | some a ↦ if narrow_relabel row then relabelled else action_reversibility a.kind
]

-- `_statement_reversibility`
unfoldable pub reversibility_of :
    ParsedStatement → List (ResolvedLock × RowAssessment) → ReversibilityAssessment
unfolding part_of
reversibility_of s [] = statement_reversibility (head s).kind
reversibility_of s (p ∷ ps) = combine (part_of p) (map part_of ps)

-- The row that decides: the first of the worst.
unfoldable pub worst_from : Verdict → List RowAssessment → Verdict
worst_from v [] = v
worst_from v (r ∷ rs) =
    worst_from
      (if leb (combine_rank r.verdict.classification) (combine_rank v.classification)
        then v
        else r.verdict)
      rs

-- The loop over the rows, and `_no_rows_verdict`.
unfoldable pub combined_rows : List RowAssessment → Verdict
unfolding worst_from
combined_rows [] = verdict_of Classification.unknown unverified
combined_rows (r ∷ rs) = worst_from r.verdict rs

-- A DO block with SQL built at run time, or a body that was not parsed.
unfoldable pub is_opaque : Details → Bool
is_opaque (do_block_details d inner) = ltb 0 d.dynamic_sql_count || not d.fully_parsed
is_opaque _ = false

abbrev is_unknown : Classification → Bool
is_unknown Classification.unknown = true
is_unknown _ = false

abbrev is_unsafe : Classification → Bool
is_unsafe unsafe = true
is_unsafe _ = false

unfoldable pub with_opacity : Details → Verdict → Verdict
with_opacity d v =
    if is_opaque d
      && (is_unknown (worse_classification v.classification (Classification.unknown ∷ []))
          && not (is_unsafe v.classification))
    then verdict_of Classification.unknown unverified
    else v

-- SAFE and without an undo is SAFE_IRREVERSIBLE.
unfoldable pub with_reversibility : ReversibilityAssessment → Verdict → Verdict
with_reversibility r v = elim v.classification [
  | safe ↦ elim r.reversibility [
    | irreversible ↦
        reclassified safe_irreversible (weakest_method v.method (r.method ∷ []))
          (no_undo r.what_is_lost ∷ v.conditions) v
    | _ ↦ v
  ]
  | _ ↦ v
]

abbrev is_blocking : HeldLock → Bool
is_blocking l = leb (level share) (level l.lock_mode)

-- Anything but an estimate of a catalog-only operation.
unfoldable pub is_long_running : RowAssessment → Bool
is_long_running row = elim row.duration [
  | cannot_estimate _ _ ↦ true
  | estimate d ↦ elim d.constant_key [ some constant_op ↦ false | _ ↦ true ]
]

-- A statement that runs while its transaction holds a blocking lock.
unfoldable pub with_held_locks : List HeldLock → List RowAssessment → Verdict → Verdict
with_held_locks held rows v =
    if any is_blocking held && (any is_long_running rows && in_safe_tiers v.classification)
    then reclassified needs_timing v.method (transaction_keeps_locks ∷ v.conditions) v
    else v

-- `statement_mode`: the highest table lock of the rows.
unfoldable pub highest_mode : LockMode → List RowAssessment → LockMode
highest_mode mode [] = mode
highest_mode mode (r ∷ rs) =
    highest_mode
      (if is_table_lock r.lock_mode && ltb (level mode) (level r.lock_mode)
        then r.lock_mode
        else mode)
      rs

unfoldable pub statement_verdict :
    Details → ReversibilityAssessment → List HeldLock → List RowAssessment → Verdict
statement_verdict d r held rows =
    with_held_locks held rows (with_reversibility r (with_opacity d (combined_rows rows)))

unfoldable pub assess_statement :
    ℕ → ParsedStatement → List HeldLock → List (ResolvedLock × RowAssessment) → StatementAssessment
assess_statement index s held pairs =
    let rows = map (λ (p : ResolvedLock × RowAssessment). p.1) pairs in
    let r = reversibility_of s pairs in
    record {
      statement_index = index;
      kind = (head s).kind;
      statement_lock_mode = highest_mode none_mode rows;
      rows = rows;
      reversibility = r;
      verdict = statement_verdict (details s) r held rows;
      held_locks_before = held;
    }
