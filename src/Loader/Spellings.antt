-- ===== src/Loader/Spellings.antt =====
-- The values of the enumerations of catalog/model.py, and all members of those of ir.py.
use blastoise.Base.{
  Bool, true, false, Option, some, none, List, [], ◌∷◌, Text, codes, if◌then◌else◌, ◌==◌, list_eq,
  nat_eq, first,
}
use blastoise.Ir.{StatementKind, AlterTableActionKind, statement_kind_value, action_kind_value}
use blastoise.Catalog.{
  LockMode, access_share, row_share, row_exclusive, share_update_exclusive, share,
  share_row_exclusive, exclusive, access_exclusive, none_mode, unknown_mode, DurationModel,
  constant, proportional_to_rows, proportional_to_index_size, proportional_to_rows_matched,
  unknown_duration, Calibration, calibrated, uncalibrated, measured, TransactionBlock, allowed,
  forbidden, restricted, WriteBlockScope, no_scope, table_scope, matched_rows_scope, Resolution,
  direct, per_action, inner_statements, Role, target, additional_targets, referenced_table,
  referenced_tables, partition, parent, unresolvable,
}

-- `cls(value)`: the first member with the value.
unfoldable pub member_named {ℓ} : {A : Type ℓ} → Text → List (Text × A) → Option A
member_named t [] = none
member_named t ((u, a) ∷ rest) = if u == t then some a else member_named t rest

unfoldable pub lock_modes : List (Text × LockMode)
lock_modes =
    (codes "ACCESS SHARE", access_share)
    ∷ (codes "ROW SHARE", row_share)
    ∷ (codes "ROW EXCLUSIVE", row_exclusive)
    ∷ (codes "SHARE UPDATE EXCLUSIVE", share_update_exclusive)
    ∷ (codes "SHARE", share)
    ∷ (codes "SHARE ROW EXCLUSIVE", share_row_exclusive)
    ∷ (codes "EXCLUSIVE", exclusive)
    ∷ (codes "ACCESS EXCLUSIVE", access_exclusive)
    ∷ (codes "NONE", none_mode)
    ∷ (codes "UNKNOWN", unknown_mode)
    ∷ []

unfoldable pub duration_models : List (Text × DurationModel)
duration_models =
    (codes "CONSTANT", constant)
    ∷ (codes "PROPORTIONAL_TO_ROWS", proportional_to_rows)
    ∷ (codes "PROPORTIONAL_TO_INDEX_SIZE", proportional_to_index_size)
    ∷ (codes "PROPORTIONAL_TO_ROWS_MATCHED", proportional_to_rows_matched)
    ∷ (codes "UNKNOWN", unknown_duration)
    ∷ []

unfoldable pub calibrations : List (Text × Calibration)
calibrations =
    (codes "CALIBRATED", calibrated)
    ∷ (codes "UNCALIBRATED", uncalibrated)
    ∷ (codes "MEASURED", measured)
    ∷ []

unfoldable pub transaction_blocks : List (Text × TransactionBlock)
transaction_blocks =
    (codes "ALLOWED", allowed)
    ∷ (codes "FORBIDDEN", forbidden)
    ∷ (codes "RESTRICTED", restricted)
    ∷ []

unfoldable pub write_block_scopes : List (Text × WriteBlockScope)
write_block_scopes =
    (codes "NONE", no_scope)
    ∷ (codes "TABLE", table_scope)
    ∷ (codes "MATCHED_ROWS", matched_rows_scope)
    ∷ []

unfoldable pub resolutions : List (Text × Resolution)
resolutions =
    (codes "direct", direct)
    ∷ (codes "per_action", per_action)
    ∷ (codes "inner_statements", inner_statements)
    ∷ []

-- `KNOWN_ROLES`.
unfoldable pub known_roles : List (Text × Role)
known_roles =
    (codes "target", target)
    ∷ (codes "additional_targets", additional_targets)
    ∷ (codes "referenced_table", referenced_table)
    ∷ (codes "referenced_tables", referenced_tables)
    ∷ (codes "partition", partition)
    ∷ (codes "parent", parent)
    ∷ (codes "owning_table", unresolvable (codes "owning_table"))
    ∷ (codes "source_relations", unresolvable (codes "source_relations"))
    ∷ (codes "dependent_relations", unresolvable (codes "dependent_relations"))
    ∷ (codes "referencing_tables", unresolvable (codes "referencing_tables"))
    ∷ (codes "domain_dependent_tables", unresolvable (codes "domain_dependent_tables"))
    ∷ (codes "owned_sequences", unresolvable (codes "owned_sequences"))
    ∷ (codes "all_partitions", unresolvable (codes "all_partitions"))
    ∷ []

-- Membership in `UNRESOLVABLE_ROLES`.
abbrev pub is_unresolvable : Role → Bool
is_unresolvable (unresolvable name) = true
is_unresolvable _ = false

-- The members of `StatementKind`, in order.
unfoldable pub statement_kinds : List StatementKind
statement_kinds =
    StatementKind.begin ∷ StatementKind.commit ∷ StatementKind.rollback ∷ StatementKind.savepoint
    ∷ StatementKind.release_savepoint ∷ StatementKind.rollback_to_savepoint
    ∷ StatementKind.transaction_other ∷ StatementKind.create_table
    ∷ StatementKind.create_table_partition_of ∷ StatementKind.create_table_as
    ∷ StatementKind.select_into ∷ StatementKind.drop_table ∷ StatementKind.truncate
    ∷ StatementKind.alter_table ∷ StatementKind.alter_index ∷ StatementKind.alter_view
    ∷ StatementKind.alter_matview ∷ StatementKind.create_foreign_table
    ∷ StatementKind.alter_foreign_table ∷ StatementKind.alter_composite_type
    ∷ StatementKind.rename_table ∷ StatementKind.rename_column ∷ StatementKind.rename_index
    ∷ StatementKind.rename_constraint ∷ StatementKind.rename_view ∷ StatementKind.rename_matview
    ∷ StatementKind.rename_type ∷ StatementKind.rename_other ∷ StatementKind.alter_object_schema
    ∷ StatementKind.alter_owner ∷ StatementKind.create_index
    ∷ StatementKind.create_index_concurrently ∷ StatementKind.drop_index
    ∷ StatementKind.drop_index_concurrently ∷ StatementKind.reindex
    ∷ StatementKind.reindex_concurrently ∷ StatementKind.vacuum ∷ StatementKind.vacuum_full
    ∷ StatementKind.analyze ∷ StatementKind.cluster ∷ StatementKind.refresh_matview
    ∷ StatementKind.refresh_matview_concurrently ∷ StatementKind.create_view
    ∷ StatementKind.create_matview ∷ StatementKind.drop_view ∷ StatementKind.drop_matview
    ∷ StatementKind.create_sequence ∷ StatementKind.alter_sequence ∷ StatementKind.drop_sequence
    ∷ StatementKind.create_enum_type ∷ StatementKind.create_composite_type
    ∷ StatementKind.create_range_type ∷ StatementKind.alter_enum_add_value
    ∷ StatementKind.alter_enum_rename_value ∷ StatementKind.create_domain
    ∷ StatementKind.alter_domain ∷ StatementKind.drop_type ∷ StatementKind.drop_domain
    ∷ StatementKind.create_statistics ∷ StatementKind.alter_statistics
    ∷ StatementKind.create_aggregate ∷ StatementKind.drop_aggregate ∷ StatementKind.create_function
    ∷ StatementKind.create_procedure ∷ StatementKind.alter_function ∷ StatementKind.drop_function
    ∷ StatementKind.drop_procedure ∷ StatementKind.create_trigger ∷ StatementKind.drop_trigger
    ∷ StatementKind.create_policy ∷ StatementKind.alter_policy ∷ StatementKind.drop_policy
    ∷ StatementKind.create_rule ∷ StatementKind.create_extension ∷ StatementKind.alter_extension
    ∷ StatementKind.drop_extension ∷ StatementKind.create_schema ∷ StatementKind.drop_schema
    ∷ StatementKind.create_role ∷ StatementKind.alter_role ∷ StatementKind.drop_role
    ∷ StatementKind.grant ∷ StatementKind.revoke ∷ StatementKind.alter_default_privileges
    ∷ StatementKind.comment_on ∷ StatementKind.insert ∷ StatementKind.update
    ∷ StatementKind.update_without_where ∷ StatementKind.update_batched ∷ StatementKind.delete
    ∷ StatementKind.delete_without_where ∷ StatementKind.delete_batched ∷ StatementKind.merge
    ∷ StatementKind.select ∷ StatementKind.copy_from ∷ StatementKind.copy_to ∷ StatementKind.call
    ∷ StatementKind.set ∷ StatementKind.reset ∷ StatementKind.show ∷ StatementKind.lock_table
    ∷ StatementKind.alter_system ∷ StatementKind.create_database ∷ StatementKind.alter_database
    ∷ StatementKind.drop_database ∷ StatementKind.create_tablespace ∷ StatementKind.drop_tablespace
    ∷ StatementKind.do_block ∷ StatementKind.other ∷ []

-- The members of `AlterTableActionKind`, in order.
unfoldable pub action_kinds : List AlterTableActionKind
action_kinds =
    AlterTableActionKind.add_column ∷ AlterTableActionKind.add_column_not_null_no_default
    ∷ AlterTableActionKind.add_column_default_nonvolatile
    ∷ AlterTableActionKind.add_column_default_volatile
    ∷ AlterTableActionKind.add_column_default_unknown_volatility
    ∷ AlterTableActionKind.add_column_serial ∷ AlterTableActionKind.add_column_identity
    ∷ AlterTableActionKind.add_column_generated_stored
    ∷ AlterTableActionKind.add_column_generated_virtual ∷ AlterTableActionKind.drop_column
    ∷ AlterTableActionKind.alter_column_type ∷ AlterTableActionKind.set_column_default
    ∷ AlterTableActionKind.drop_column_default ∷ AlterTableActionKind.set_not_null
    ∷ AlterTableActionKind.drop_not_null ∷ AlterTableActionKind.add_identity
    ∷ AlterTableActionKind.set_identity ∷ AlterTableActionKind.drop_identity
    ∷ AlterTableActionKind.set_expression ∷ AlterTableActionKind.drop_expression
    ∷ AlterTableActionKind.set_statistics ∷ AlterTableActionKind.set_storage
    ∷ AlterTableActionKind.set_compression ∷ AlterTableActionKind.set_column_options
    ∷ AlterTableActionKind.reset_column_options ∷ AlterTableActionKind.add_primary_key
    ∷ AlterTableActionKind.add_primary_key_using_index ∷ AlterTableActionKind.add_unique
    ∷ AlterTableActionKind.add_unique_using_index ∷ AlterTableActionKind.add_foreign_key
    ∷ AlterTableActionKind.add_foreign_key_not_valid ∷ AlterTableActionKind.add_check
    ∷ AlterTableActionKind.add_check_not_valid ∷ AlterTableActionKind.add_not_null_constraint
    ∷ AlterTableActionKind.add_not_null_constraint_not_valid ∷ AlterTableActionKind.add_exclusion
    ∷ AlterTableActionKind.add_constraint_other ∷ AlterTableActionKind.validate_constraint
    ∷ AlterTableActionKind.drop_constraint ∷ AlterTableActionKind.alter_constraint
    ∷ AlterTableActionKind.set_storage_params ∷ AlterTableActionKind.reset_storage_params
    ∷ AlterTableActionKind.replace_storage_params ∷ AlterTableActionKind.set_logged
    ∷ AlterTableActionKind.set_unlogged ∷ AlterTableActionKind.set_tablespace
    ∷ AlterTableActionKind.set_access_method ∷ AlterTableActionKind.attach_partition
    ∷ AlterTableActionKind.detach_partition ∷ AlterTableActionKind.detach_partition_concurrently
    ∷ AlterTableActionKind.detach_partition_finalize ∷ AlterTableActionKind.enable_trigger
    ∷ AlterTableActionKind.disable_trigger ∷ AlterTableActionKind.enable_rule
    ∷ AlterTableActionKind.disable_rule ∷ AlterTableActionKind.enable_row_security
    ∷ AlterTableActionKind.disable_row_security ∷ AlterTableActionKind.force_row_security
    ∷ AlterTableActionKind.no_force_row_security ∷ AlterTableActionKind.cluster_on
    ∷ AlterTableActionKind.drop_cluster ∷ AlterTableActionKind.change_owner
    ∷ AlterTableActionKind.inherit ∷ AlterTableActionKind.no_inherit ∷ AlterTableActionKind.of_type
    ∷ AlterTableActionKind.not_of ∷ AlterTableActionKind.replica_identity
    ∷ AlterTableActionKind.other ∷ []

-- `==` on kinds, which are strings.
abbrev pub same_statement : StatementKind → StatementKind → Bool
same_statement k l = codes (statement_kind_value k) == codes (statement_kind_value l)

abbrev pub same_action : AlterTableActionKind → AlterTableActionKind → Bool
same_action k l = codes (action_kind_value k) == codes (action_kind_value l)

-- `StatementKind(value)` and `AlterTableActionKind(value)`.
unfoldable pub statement_kind_of : Text → Option StatementKind
statement_kind_of t = first (λ k. codes (statement_kind_value k) == t) statement_kinds

unfoldable pub action_kind_of : Text → Option AlterTableActionKind
action_kind_of t = first (λ k. codes (action_kind_value k) == t) action_kinds
