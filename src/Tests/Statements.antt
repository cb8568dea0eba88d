-- ===== src/Tests/Statements.antt =====
-- Statements and adjustments of verdict/engine.py on concrete inputs.
use blastoise.Base.{◌≡◌, ◌≢◌, refl, true, false, some, List, [], ◌∷◌, All, Any, codes}
use blastoise.Ir.{statement, StatementKind, no_details}
use blastoise.Catalog.{target, access_exclusive}
use blastoise.Verdict.Model.{safe, unsafe, proven}
use blastoise.Verdict.Engine.{
  assess_row, verdict_of, is_opaque, with_held_locks, with_reversibility, with_opacity,
  combined_rows, statement_verdict,
}
use blastoise.Verdict.Reversibility.{statement_reversibility}
use blastoise.Verdict.Safety.Statements
use blastoise.Verdict.Model.{
  RowAssessment, Verdict, RelationLockAssessment, irreversible, cannot_estimate, no_snapshot,
  unverified,
}
use blastoise.Tests.Contexts.{online, cluster, missing_form}

abbrev row_with : Verdict → RowAssessment
row_with v = record {
  kind = statement StatementKind.cluster;
  lock_mode = access_exclusive;
  relations = [];
  duration = cannot_estimate no_snapshot unverified;
  contention = [];
  verdict = v;
  narrowings = [];
}

abbrev rows : List RowAssessment
rows = assess_row online cluster ∷ assess_row online missing_form ∷ []

statement_verdict-ge_example :
    All
      (Statements.RankAtMost
        (statement_verdict no_details (statement_reversibility StatementKind.cluster) [] rows))
      rows
statement_verdict-ge_example =
    Statements.statement_verdict-ge no_details (statement_reversibility StatementKind.cluster) []
      rows

missing_statement :
    (statement_verdict no_details
      (statement_reversibility StatementKind.cluster)
      []
      (row_with (verdict_of unsafe proven) ∷ [])).classification
    ≡ unsafe
unfolding statement_verdict with_held_locks with_reversibility with_opacity is_opaque combined_rows
    statement_reversibility
missing_statement = refl

statement_verdict-unsafe_example :
    Any Statements.IsUnsafeRow (row_with (verdict_of unsafe proven) ∷ [])
statement_verdict-unsafe_example =
    Statements.statement_verdict-unsafe no_details (statement_reversibility StatementKind.cluster)
      [] (row_with (verdict_of unsafe proven) ∷ []) missing_statement

baseline_statement :
    (statement_verdict no_details
      (statement_reversibility StatementKind.cluster)
      []
      (row_with (verdict_of safe proven) ∷ [])).classification
    ≡ safe
unfolding statement_verdict with_held_locks with_reversibility with_opacity is_opaque combined_rows
    statement_reversibility
baseline_statement = refl

statement_verdict-safe_example :
    ((statement_reversibility StatementKind.cluster).reversibility ≢ irreversible)
    × (is_opaque no_details ≡ false)
    × ((row_with (verdict_of safe proven) ∷ []) ≢ [])
statement_verdict-safe_example =
    Statements.statement_verdict-safe no_details (statement_reversibility StatementKind.cluster) []
      (row_with (verdict_of safe proven) ∷ []) baseline_statement

abbrev small : Verdict
small = verdict_of safe proven

abbrev lock : RelationLockAssessment
lock = record {
  relation = some (codes "users");
  role = target;
  lock_mode = access_exclusive;
  blocks_reads = true;
  blocks_writes = true;
  conflicting_modes = [];
  certain = true;
  method = proven;
}
