-- ===== src/Verdict/Duration/Families.antt =====
-- verdict/duration.py: which throughput constant a kind draws on.
use blastoise.Base.{Option, some, none}
use blastoise.Ir.{StatementKind, AlterTableActionKind, Kind, statement, action}
use blastoise.Verdict.Constants.{
  Family, heap_rewrite, add_column_rewrite, validation_scan, fk_validation, index_build_btree,
  index_build_expression, dml_update, dml_delete, index_bytes,
}

statement_rows_family : StatementKind → Option Family
statement_rows_family StatementKind.create_index = some index_build_btree
statement_rows_family StatementKind.create_index_concurrently = some index_build_btree
statement_rows_family StatementKind.reindex = some index_build_expression
statement_rows_family StatementKind.update = some dml_update
statement_rows_family StatementKind.update_batched = some dml_update
statement_rows_family StatementKind.update_without_where = some dml_update
statement_rows_family StatementKind.delete = some dml_delete
statement_rows_family StatementKind.delete_batched = some dml_delete
statement_rows_family StatementKind.delete_without_where = some dml_delete
statement_rows_family StatementKind.vacuum = some validation_scan
statement_rows_family StatementKind.vacuum_full = some heap_rewrite
statement_rows_family StatementKind.cluster = some heap_rewrite
statement_rows_family StatementKind.copy_to = some validation_scan
statement_rows_family StatementKind.alter_domain = some validation_scan
statement_rows_family _ = none

action_rows_family : AlterTableActionKind → Option Family
action_rows_family AlterTableActionKind.add_check = some validation_scan
action_rows_family AlterTableActionKind.set_not_null = some validation_scan
action_rows_family AlterTableActionKind.add_not_null_constraint = some validation_scan
action_rows_family AlterTableActionKind.validate_constraint = some validation_scan
action_rows_family AlterTableActionKind.attach_partition = some validation_scan
action_rows_family AlterTableActionKind.add_foreign_key = some fk_validation
action_rows_family AlterTableActionKind.add_primary_key = some index_build_btree
action_rows_family AlterTableActionKind.add_unique = some index_build_btree
action_rows_family AlterTableActionKind.add_exclusion = some index_build_expression
action_rows_family AlterTableActionKind.alter_column_type = some heap_rewrite
action_rows_family AlterTableActionKind.add_column_default_nonvolatile = some heap_rewrite
action_rows_family AlterTableActionKind.add_column_default_volatile = some add_column_rewrite
action_rows_family AlterTableActionKind.add_column_default_unknown_volatility =
    some add_column_rewrite
action_rows_family AlterTableActionKind.add_column_serial = some add_column_rewrite
action_rows_family AlterTableActionKind.add_column_identity = some add_column_rewrite
action_rows_family AlterTableActionKind.add_column_generated_stored = some add_column_rewrite
action_rows_family AlterTableActionKind.set_logged = some heap_rewrite
action_rows_family AlterTableActionKind.set_unlogged = some heap_rewrite
action_rows_family AlterTableActionKind.set_tablespace = some heap_rewrite
action_rows_family AlterTableActionKind.set_access_method = some heap_rewrite
action_rows_family AlterTableActionKind.set_expression = some heap_rewrite
action_rows_family _ = none

-- `ROWS_FAMILY_BY_KIND.get`
unfoldable pub rows_family_by_kind : Kind → Option Family
unfolding statement_rows_family action_rows_family
rows_family_by_kind (statement k) = statement_rows_family k
rows_family_by_kind (action k) = action_rows_family k

statement_bytes_family : StatementKind → Option Family
statement_bytes_family StatementKind.reindex = some index_bytes
statement_bytes_family StatementKind.reindex_concurrently = some index_bytes
statement_bytes_family _ = none

-- `BYTES_FAMILY_BY_KIND.get`
unfoldable pub bytes_family_by_kind : Kind → Option Family
unfolding statement_bytes_family
bytes_family_by_kind (statement k) = statement_bytes_family k
bytes_family_by_kind (action k) = none
