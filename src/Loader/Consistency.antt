-- ===== src/Loader/Consistency.antt =====
-- catalog/loader.py `_parse_entry`: the semantic checks of a row.
use blastoise.Base.{
  Bool, true, false, ◌&&◌, ◌||◌, not, Option, some, none, List, [], ◌∷◌, any, map, keep, first,
  Text, Result, ok, raise, value_error, contains, if◌then◌else◌, ◌==◌, max_by,
}
use blastoise.Ir.{StatementKind, AlterTableActionKind, Kind, statement, action}
use blastoise.Catalog.{
  LockMode, access_share, row_exclusive, none_mode, unknown_mode, level, mode_eq, is_table_lock,
  table_lock_modes, DurationModel, constant, unknown_duration, Calibration, calibrated,
  uncalibrated, TransactionBlock, allowed, WriteBlockScope, no_scope, table_scope,
  matched_rows_scope, Role, target, AffectedRelation, CatalogEntry,
}
use blastoise.Loader.Matrix.{MatrixRows, conflicts_in}
use blastoise.Loader.Scalars.{has_citation}

-- Membership in `UNKNOWN_ALLOWED`.
unfoldable pub unknown_allowed : Kind → Bool
unknown_allowed (statement StatementKind.other) = true
unknown_allowed (action AlterTableActionKind.other) = true
unknown_allowed (action AlterTableActionKind.add_constraint_other) = true
unknown_allowed _ = false

abbrev pub implies : Bool → Bool → Bool
implies a b = if a then b else true

abbrev pub given : Option Text → Bool
given none = false
given (some t) = true

abbrev pub is_unknown_duration : DurationModel → Bool
is_unknown_duration unknown_duration = true
is_unknown_duration _ = false

abbrev pub is_constant : DurationModel → Bool
is_constant constant = true
is_constant _ = false

abbrev pub is_calibrated : Calibration → Bool
is_calibrated calibrated = true
is_calibrated _ = false

abbrev pub is_uncalibrated : Calibration → Bool
is_uncalibrated uncalibrated = true
is_uncalibrated _ = false

abbrev pub is_allowed : TransactionBlock → Bool
is_allowed allowed = true
is_allowed _ = false

abbrev pub is_no_scope : WriteBlockScope → Bool
is_no_scope no_scope = true
is_no_scope _ = false

abbrev pub is_matched : WriteBlockScope → Bool
is_matched matched_rows_scope = true
is_matched _ = false

abbrev is_target : Role → Bool
is_target target = true
is_target _ = false

abbrev pub same_bool : Bool → Bool → Bool
same_bool a b = if a then b else not b

-- An UNKNOWN row.
unfoldable pub unknown_check : CatalogEntry → Bool
unknown_check e =
    implies (e.lock_mode == unknown_mode || is_unknown_duration e.duration_model)
      (unknown_allowed e.kind && is_uncalibrated e.calibration)
    && implies (e.lock_mode == unknown_mode) (e.blocks_reads && e.blocks_writes)

-- A form that the version lacks.
unfoldable pub available_check : CatalogEntry → Bool
available_check e = implies (not e.available) (
    e.lock_mode == none_mode
    && (given e.failure_mode && (is_constant e.duration_model && not e.requires_table_rewrite)))

-- Live context, and a restriction to transaction blocks.
unfoldable pub context_check : CatalogEntry → Bool
context_check e =
    same_bool e.requires_live_context (given e.live_context)
    && implies (not (is_allowed e.transaction_block)) (given e.notes || given e.failure_mode)

-- The flags against the conflicts of the lock mode.
unfoldable pub blocks_check : CatalogEntry → Bool
blocks_check e =
    if is_table_lock e.lock_mode
    then same_bool e.blocks_reads (contains access_share e.conflicts_with)
      && implies (contains row_exclusive e.conflicts_with) e.blocks_writes
    else implies (e.lock_mode == none_mode) (not (e.blocks_reads || e.blocks_writes))

unfoldable pub scope_check : CatalogEntry → Bool
scope_check e =
    same_bool (is_no_scope e.write_block_scope) (not e.blocks_writes)
    && same_bool (is_matched e.write_block_scope) (given e.row_locks)

abbrev strongest : List LockMode → LockMode
strongest [] = none_mode
strongest (m ∷ ms) = max_by level m ms

-- The lock of the target, else the strongest that is not optional.
unfoldable pub primary_mode : List AffectedRelation → LockMode
primary_mode affected = elim (first (λ (r : AffectedRelation). is_target r.role) affected) [
  | some r ↦ r.lock_mode
  | none ↦ strongest (
      map (λ (r : AffectedRelation). r.lock_mode)
        (keep (λ (r : AffectedRelation). not r.optional) affected))
]

unfoldable pub primary_check : CatalogEntry → Bool
unfolding primary_mode
primary_check e =
    primary_mode e.affected_relations == e.lock_mode
    && implies (e.lock_mode == none_mode) (
        not (
          any (λ (r : AffectedRelation). not (r.lock_mode == none_mode) && not r.optional)
            e.affected_relations))

-- All checks of a row with its sources.
unfoldable pub row_checks : CatalogEntry → List Text → Bool
row_checks e sources =
    unknown_check e
    && (implies (is_calibrated e.calibration) (has_citation sources)
        && (available_check e
            && (context_check e && (blocks_check e && (scope_check e && primary_check e)))))

-- `conflicts`.
unfoldable pub entry_conflicts : MatrixRows → LockMode → List LockMode
entry_conflicts matrix unknown_mode = table_lock_modes
entry_conflicts matrix mode = conflicts_in matrix mode

-- The scope where the row gives none.
unfoldable pub default_scope : LockMode → List LockMode → Bool → Result WriteBlockScope
default_scope lock_mode conflicts blocks_writes =
    if not blocks_writes
    then ok no_scope
    else if is_table_lock lock_mode && contains row_exclusive conflicts || lock_mode == unknown_mode
    then ok table_scope
    else raise value_error
