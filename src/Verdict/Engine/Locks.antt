-- ===== src/Verdict/Engine/Locks.antt =====
-- verdict/engine.py: the context of one statement, and the locks of a row.
use blastoise.Base.{
  ℕ, Bool, true, false, Option, some, none, List, [], ◌∷◌, ◌++◌, map, Text, codes, nat_eq, list_eq,
  ◌==◌, contains, keep, if◌then◌else◌,
}
use blastoise.Ir.{label, Volatility}
use blastoise.Catalog.{
  LockMode, access_share, row_exclusive, none_mode, unknown_mode, table_lock_modes, mode_eq,
  Calibration, calibrated, referenced_table, LockCatalog, conflicts_with, RelationLock,
  ResolvedLock,
}
use blastoise.Live.{LiveSnapshot, RelationFacts, known}
use blastoise.Verdict.Model.{Method, proven, observed, unverified, RelationLockAssessment}
use blastoise.Live.Resolve.{Decided}
use blastoise.Verdict.Engine.FileStates.{FileState}

-- `evaluate` stands for `resolve_expression_volatility`, which parses SQL.
pub record Context : Type 0 where
  pub catalog : LockCatalog
  pub pg_version : ℕ
  pub snapshot : Option LiveSnapshot
  pub file_state : FileState
  pub in_explicit_txn : Bool
  pub evaluate : Text → Decided → Volatility

qualified : RelationFacts → Option Text
qualified r = elim r.schema [
  | known (some s) ↦ elim r.name [ known (some n) ↦ some (s ++ (codes "." ++ n)) | _ ↦ none ]
  | _ ↦ none
]

-- A later relation of one spelling wins.
resolved_name_in : List RelationFacts → Text → Option Text
unfolding qualified
resolved_name_in [] requested = none
resolved_name_in (r ∷ rs) requested = elim (resolved_name_in rs requested) [
  | some n ↦ some n
  | none ↦ if r.requested == requested then qualified r else none
]

-- `_resolved_name_map` at one key, with the key as the default.
unfoldable pub resolved_name : LiveSnapshot → Text → Text
unfolding resolved_name_in
resolved_name snapshot requested = elim (resolved_name_in snapshot.relations requested) [
  | none ↦ requested
  | some n ↦ n
]

-- `sorted(conflicts, key=level)`: the modes stand in the order of their levels.
abbrev sorted_by_level : List LockMode → List LockMode
sorted_by_level modes =
    keep (λ m. contains m modes) (none_mode ∷ (table_lock_modes ++ (unknown_mode ∷ [])))

unfoldable pub is_calibrated : Calibration → Bool
is_calibrated calibrated = true
is_calibrated _ = false

relation_assessment : Context → Method → RelationLock → RelationLockAssessment
relation_assessment ctx method relation = record {
  relation = elim relation.name [ none ↦ none | some q ↦ some (label q) ];
  role = relation.role;
  lock_mode = relation.lock_mode;
  blocks_reads = relation.blocks_reads;
  blocks_writes = relation.blocks_writes;
  conflicting_modes = sorted_by_level (conflicts_with ctx.catalog relation.lock_mode);
  certain = relation.certain;
  method = method;
}

-- `_relation_assessments`
unfoldable pub relation_assessments : Context → ResolvedLock → List RelationLockAssessment
unfolding relation_assessment is_calibrated
relation_assessments ctx resolved =
    let method = if is_calibrated resolved.entry.calibration then proven else unverified in
    map (relation_assessment ctx method) resolved.relations

-- `_extra_relation_assessment`
unfoldable pub extra_relation_assessment : Context → Text × LockMode → RelationLockAssessment
extra_relation_assessment ctx (name, mode) =
    let conflicts = conflicts_with ctx.catalog mode in
    record {
      relation = some name;
      role = referenced_table;
      lock_mode = mode;
      blocks_reads = contains access_share conflicts;
      blocks_writes = contains row_exclusive conflicts;
      conflicting_modes = sorted_by_level conflicts;
      certain = true;
      method = observed;
    }
