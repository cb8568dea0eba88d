-- ===== src/Loader/Rows.antt =====
-- catalog/loader.py `_parse_entry`: one row of the catalog.
use blastoise.Base.{
  Bool, true, false, List, [], ◌∷◌, ◌++◌, Text, codes, Result, ok, ◌>>=◌, contains, if◌then◌else◌,
  list_eq, nat_eq,
}
use blastoise.Ir.{Kind}
use blastoise.Catalog.{LockMode, Calibration, measured, VersionRange, WriteBlockScope, CatalogEntry}
use blastoise.Loader.Documents.{Yaml, null, string, Mapping, keys, get, as_mapping, require, within}
use blastoise.Loader.Spellings.{
  lock_modes, duration_models, calibrations, transaction_blocks, write_block_scopes,
}
use blastoise.Loader.Scalars.{enum, bool, bool_or, opt_str, parse_versions, parse_source}
use blastoise.Loader.Matrix.{MatrixRows}
use blastoise.Loader.Relations.{parse_affected, parse_when}
use blastoise.Loader.Consistency.{row_checks, entry_conflicts, default_scope}

-- `_REQUIRED_FIELDS`.
unfoldable pub required_fields : List Text
required_fields =
    codes "pg_versions"
    ∷ codes "calibration"
    ∷ codes "lock_mode"
    ∷ codes "blocks_reads"
    ∷ codes "blocks_writes"
    ∷ codes "requires_table_rewrite"
    ∷ codes "duration_model"
    ∷ codes "source"
    ∷ []

-- `_OPTIONAL_FIELDS`.
unfoldable pub optional_fields : List Text
optional_fields =
    codes "available"
    ∷ codes "write_block_scope"
    ∷ codes "row_locks"
    ∷ codes "requires_live_context"
    ∷ codes "live_context"
    ∷ codes "transaction_block"
    ∷ codes "failure_mode"
    ∷ codes "affected_relations"
    ∷ codes "when"
    ∷ codes "notes"
    ∷ []

-- `_ir_attribute_names()`: the fields of a statement, of an action and of the details.
unfoldable pub ir_attribute_names : List Text
ir_attribute_names =
    codes "kind"
    ∷ codes "sql"
    ∷ codes "span"
    ∷ codes "node_tag"
    ∷ codes "targets"
    ∷ codes "alter_actions"
    ∷ codes "details"
    ∷ codes "only"
    ∷ codes "column"
    ∷ codes "constraint_name"
    ∷ codes "column_type"
    ∷ codes "default"
    ∷ codes "not_null"
    ∷ codes "not_valid"
    ∷ codes "has_using_expression"
    ∷ codes "using_index"
    ∷ codes "inline_constraints"
    ∷ codes "partition"
    ∷ codes "referenced_table"
    ∷ codes "cascade"
    ∷ codes "missing_ok"
    ∷ codes "detail"
    ∷ codes "persistence"
    ∷ codes "if_not_exists"
    ∷ codes "partition_of"
    ∷ codes "inherits"
    ∷ codes "referenced_tables"
    ∷ codes "no_data"
    ∷ codes "index_name"
    ∷ codes "unique"
    ∷ codes "method"
    ∷ codes "partial"
    ∷ codes "has_expression"
    ∷ codes "object_names"
    ∷ codes "restart_identity"
    ∷ codes "scope"
    ∷ codes "object_name"
    ∷ codes "old_name"
    ∷ codes "new_name"
    ∷ codes "object_type"
    ∷ codes "name"
    ∷ codes "is_local"
    ∷ codes "mode"
    ∷ codes "mode_name"
    ∷ codes "nowait"
    ∷ codes "savepoint_name"
    ∷ codes "chain"
    ∷ codes "language"
    ∷ codes "statements"
    ∷ codes "dynamic_sql_count"
    ∷ codes "fully_parsed"
    ∷ codes "existence_guarded"
    ∷ codes "has_where"
    ∷ codes "batch_signals"
    ∷ codes "source"
    ∷ []

-- A key with a default: `raw.get(key, default)`.
abbrev get_or : Yaml → Text → Mapping → Yaml
get_or default key m = if contains key (keys m) then get key m else default

abbrev pub not_measured : Calibration → Bool
not_measured measured = false
not_measured _ = true

-- `write_block_scope`, given or not.
unfoldable pub parse_scope : LockMode → List LockMode → Bool → Yaml → Result WriteBlockScope
unfolding default_scope
parse_scope lock_mode conflicts blocks_writes null = default_scope lock_mode conflicts blocks_writes
parse_scope lock_mode conflicts blocks_writes y = enum write_block_scopes y

-- The fields of a row, before the checks, with its sources.
unfoldable pub parse_fields :
    MatrixRows → VersionRange → Kind → Mapping → Result (CatalogEntry × List Text)
unfolding parse_scope
parse_fields matrix domain kind m =
    parse_versions domain (get (codes "pg_versions") m) >>= λ versions.
    enum calibrations (get (codes "calibration") m) >>= λ calibration.
    require (not_measured calibration) >>= λ _.
    bool_or (contains (codes "available") (keys m)) true (get (codes "available") m)
    >>= λ available. enum lock_modes (get (codes "lock_mode") m) >>= λ lock_mode.
        bool (get (codes "blocks_reads") m) >>= λ blocks_reads.
        bool (get (codes "blocks_writes") m) >>= λ blocks_writes.
        bool (get (codes "requires_table_rewrite") m) >>= λ rewrite.
        enum duration_models (get (codes "duration_model") m) >>= λ duration.
        bool_or (contains (codes "requires_live_context") (keys m)) false
          (get (codes "requires_live_context") m)
        >>= λ live. opt_str (get (codes "live_context") m) >>= λ live_context.
            enum transaction_blocks
              (get_or (string (codes "ALLOWED")) (codes "transaction_block") m)
            >>= λ txn. opt_str (get (codes "failure_mode") m) >>= λ failure_mode.
                opt_str (get (codes "row_locks") m) >>= λ row_locks.
                opt_str (get (codes "notes") m) >>= λ notes.
                parse_affected lock_mode (get (codes "affected_relations") m) >>= λ affected.
                parse_when ir_attribute_names (get (codes "when") m) >>= λ when.
                parse_source (get (codes "source") m) >>= λ sources.
                parse_scope lock_mode (entry_conflicts matrix lock_mode) blocks_writes
                  (get (codes "write_block_scope") m)
                >>= λ scope. ok (
                  record {
                    kind = kind;
                    pg_versions = versions;
                    calibration = calibration;
                    available = available;
                    lock_mode = lock_mode;
                    conflicts_with = entry_conflicts matrix lock_mode;
                    blocks_reads = blocks_reads;
                    blocks_writes = blocks_writes;
                    write_block_scope = scope;
                    row_locks = row_locks;
                    requires_table_rewrite = rewrite;
                    duration_model = duration;
                    requires_live_context = live;
                    live_context = live_context;
                    transaction_block = txn;
                    failure_mode = failure_mode;
                    affected_relations = affected;
                    when = when;
                    notes = notes;
                  },
                  sources,
                )

-- `_parse_entry`.
unfoldable pub parse_entry : MatrixRows → VersionRange → Kind → Yaml → Result CatalogEntry
unfolding parse_fields row_checks
parse_entry matrix domain kind raw = as_mapping raw >>= λ m.
    require (within (keys m) (required_fields ++ optional_fields)) >>= λ _.
    require (within required_fields (keys m)) >>= λ _.
    parse_fields matrix domain kind m >>= λ row. require (row_checks row.0 row.1) >>= λ _. ok row.0
