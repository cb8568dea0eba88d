-- ===== src/Classify/Shapes.antt =====
-- classify.py: the kinds that depend on a field of the statement.
use blastoise.Base.{
  ℕ, zero, suc, Bool, true, false, not, Option, some, none, List, [], ◌∷◌, Text, String, codes,
  if◌then◌else◌, drop_prefix,
}
use blastoise.Ir.{
  StatementKind, SourceSpan, ParsedStatement, parsed, QualifiedName, Details, no_details,
}
use blastoise.Sql.{
  RangeVar, Node, absent, TransactionStmtKind, trans_begin, trans_start, trans_commit,
  trans_rollback, trans_savepoint, trans_release, trans_rollback_to, ObjectType, object_table,
  object_index, object_view, object_matview, object_foreign_table, object_type, object_column,
  object_tabconstraint, object_name, InsertSource, no_source, values_lists, other_query,
  ObjectReference,
}
use blastoise.Classify.Names.{lower, targets, one_target}
use blastoise.Classify.Drops.{object_qname}

-- A statement without actions.
abbrev pub built :
    StatementKind → String → Text → SourceSpan → List QualifiedName → Details → ParsedStatement
built kind node_tag sql span names d =
    parsed
      (record {
        kind = kind;
        sql = sql;
        span = span;
        node_tag = codes node_tag;
        targets = names;
        alter_actions = [];
        only = false;
      })
      d

-- `_simple`.
abbrev pub simple_statement :
    StatementKind → String → Text → SourceSpan → List (Option RangeVar) → ParsedStatement
simple_statement kind node_tag sql span rangevars =
    built kind node_tag sql span (targets rangevars) no_details

-- `_TRANSACTION_KINDS`.
unfoldable pub transaction_kind : Option TransactionStmtKind → StatementKind
transaction_kind (some trans_begin) = StatementKind.begin
transaction_kind (some trans_start) = StatementKind.begin
transaction_kind (some trans_commit) = StatementKind.commit
transaction_kind (some trans_rollback) = StatementKind.rollback
transaction_kind (some trans_savepoint) = StatementKind.savepoint
transaction_kind (some trans_release) = StatementKind.release_savepoint
transaction_kind (some trans_rollback_to) = StatementKind.rollback_to_savepoint
transaction_kind _ = StatementKind.transaction_other

-- `_ALTER_RELATION_KINDS`.
unfoldable pub alter_relation_kind : Option ObjectType → StatementKind
alter_relation_kind (some object_table) = StatementKind.alter_table
alter_relation_kind (some object_index) = StatementKind.alter_index
alter_relation_kind (some object_view) = StatementKind.alter_view
alter_relation_kind (some object_matview) = StatementKind.alter_matview
alter_relation_kind (some object_foreign_table) = StatementKind.alter_foreign_table
alter_relation_kind (some object_type) = StatementKind.alter_composite_type
alter_relation_kind _ = StatementKind.alter_table

-- `_RENAME_KINDS`.
unfoldable pub rename_kind : Option ObjectType → StatementKind
rename_kind (some object_table) = StatementKind.rename_table
rename_kind (some object_column) = StatementKind.rename_column
rename_kind (some object_index) = StatementKind.rename_index
rename_kind (some object_tabconstraint) = StatementKind.rename_constraint
rename_kind (some object_view) = StatementKind.rename_view
rename_kind (some object_matview) = StatementKind.rename_matview
rename_kind (some object_type) = StatementKind.rename_type
rename_kind _ = StatementKind.rename_other

-- The relation, or the name of the object where there is none.
unfoldable pub rename_targets : Option RangeVar → ObjectReference → List QualifiedName
rename_targets relation object = elim (targets (relation ∷ [])) [
  | [] ↦ one_target (object_qname object)
  | name ∷ names ↦ name ∷ names
]

abbrev pub object_type_name : Option ObjectType → Text
object_type_name none = codes "unknown"
object_type_name (some t) = object_name t

-- `ONLY`: `node.relation is not None and node.relation.inh is False`.
abbrev pub only_relation : Option RangeVar → Bool
only_relation none = false
only_relation (some r) = not r.inh

abbrev without_prefix : Text → Text → Text
without_prefix prefix t = elim (drop_prefix prefix t) [ none ↦ t | some rest ↦ rest ]

-- `node.kind.name.removeprefix("REINDEX_OBJECT_").lower()`.
unfoldable pub reindex_scope : Option Text → Text
reindex_scope none = codes "index"
reindex_scope (some name) = lower (without_prefix (codes "REINDEX_OBJECT_") name)

unfoldable pub vacuum_kind : Bool → Bool → StatementKind
vacuum_kind is_vacuumcmd full =
    if is_vacuumcmd
    then (if full then StatementKind.vacuum_full else StatementKind.vacuum)
    else StatementKind.analyze

unfoldable pub insert_source : InsertSource → Text
insert_source no_source = codes "default_values"
insert_source values_lists = codes "values"
insert_source other_query = codes "select"

-- Some item of an index is an expression.
unfoldable pub has_expression : List (Option Node) → Bool
has_expression [] = false
has_expression (none ∷ ps) = has_expression ps
has_expression (some absent ∷ ps) = has_expression ps
has_expression (some expr ∷ ps) = true

-- `node.accessMethod or "btree"`.
abbrev pub index_method : Option Text → Text
index_method none = codes "btree"
index_method (some []) = codes "btree"
index_method (some (c ∷ cs)) = c ∷ cs

-- `_LOCK_MODE_NAMES`.
unfoldable pub lock_mode_name : ℕ → Text
lock_mode_name (suc zero) = codes "ACCESS SHARE"
lock_mode_name (suc (suc zero)) = codes "ROW SHARE"
lock_mode_name (suc (suc (suc zero))) = codes "ROW EXCLUSIVE"
lock_mode_name (suc (suc (suc (suc zero)))) = codes "SHARE UPDATE EXCLUSIVE"
lock_mode_name (suc (suc (suc (suc (suc zero))))) = codes "SHARE"
lock_mode_name (suc (suc (suc (suc (suc (suc zero)))))) = codes "SHARE ROW EXCLUSIVE"
lock_mode_name (suc (suc (suc (suc (suc (suc (suc zero))))))) = codes "EXCLUSIVE"
lock_mode_name (suc (suc (suc (suc (suc (suc (suc (suc zero)))))))) = codes "ACCESS EXCLUSIVE"
lock_mode_name _ = codes "UNKNOWN"

-- `node.mode if node.mode is not None else 8`.
abbrev pub mode_or_strongest : Option ℕ → ℕ
mode_or_strongest none = 8
mode_or_strongest (some mode) = mode
