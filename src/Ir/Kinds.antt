-- ===== src/Ir/Kinds.antt =====
-- The classifications of ir.py: statements, ALTER TABLE subcommands, volatilities.
-- `StatementKind`, in the order of the source.
pub data StatementKind : Type 0 where
  begin commit rollback savepoint release_savepoint : StatementKind
  rollback_to_savepoint transaction_other create_table : StatementKind
  create_table_partition_of create_table_as select_into drop_table : StatementKind
  truncate alter_table alter_index alter_view alter_matview : StatementKind
  create_foreign_table alter_foreign_table alter_composite_type : StatementKind
  rename_table rename_column rename_index rename_constraint rename_view : StatementKind
  rename_matview rename_type rename_other alter_object_schema : StatementKind
  alter_owner create_index create_index_concurrently drop_index : StatementKind
  drop_index_concurrently reindex reindex_concurrently vacuum : StatementKind
  vacuum_full analyze cluster refresh_matview : StatementKind
  refresh_matview_concurrently create_view create_matview drop_view : StatementKind
  drop_matview create_sequence alter_sequence drop_sequence : StatementKind
  create_enum_type create_composite_type create_range_type : StatementKind
  alter_enum_add_value alter_enum_rename_value create_domain : StatementKind
  alter_domain drop_type drop_domain create_statistics alter_statistics : StatementKind
  create_aggregate drop_aggregate create_function create_procedure : StatementKind
  alter_function drop_function drop_procedure create_trigger : StatementKind
  drop_trigger create_policy alter_policy drop_policy create_rule : StatementKind
  create_extension alter_extension drop_extension create_schema : StatementKind
  drop_schema create_role alter_role drop_role grant revoke : StatementKind
  alter_default_privileges comment_on insert update : StatementKind
  update_without_where update_batched delete delete_without_where : StatementKind
  delete_batched merge select copy_from copy_to call set reset show : StatementKind
  lock_table alter_system create_database alter_database drop_database : StatementKind
  create_tablespace drop_tablespace do_block other : StatementKind

-- `AlterTableActionKind`: one ALTER TABLE subcommand.
pub data AlterTableActionKind : Type 0 where
  add_column add_column_not_null_no_default : AlterTableActionKind
  add_column_default_nonvolatile add_column_default_volatile : AlterTableActionKind
  add_column_default_unknown_volatility add_column_serial : AlterTableActionKind
  add_column_identity add_column_generated_stored : AlterTableActionKind
  add_column_generated_virtual drop_column alter_column_type : AlterTableActionKind
  set_column_default drop_column_default set_not_null drop_not_null : AlterTableActionKind
  add_identity set_identity drop_identity set_expression : AlterTableActionKind
  drop_expression set_statistics set_storage set_compression : AlterTableActionKind
  set_column_options reset_column_options add_primary_key : AlterTableActionKind
  add_primary_key_using_index add_unique add_unique_using_index : AlterTableActionKind
  add_foreign_key add_foreign_key_not_valid add_check : AlterTableActionKind
  add_check_not_valid add_not_null_constraint : AlterTableActionKind
  add_not_null_constraint_not_valid add_exclusion add_constraint_other : AlterTableActionKind
  validate_constraint drop_constraint alter_constraint : AlterTableActionKind
  set_storage_params reset_storage_params replace_storage_params : AlterTableActionKind
  set_logged set_unlogged set_tablespace set_access_method : AlterTableActionKind
  attach_partition detach_partition detach_partition_concurrently : AlterTableActionKind
  detach_partition_finalize enable_trigger disable_trigger enable_rule : AlterTableActionKind
  disable_rule enable_row_security disable_row_security : AlterTableActionKind
  force_row_security no_force_row_security cluster_on drop_cluster : AlterTableActionKind
  change_owner inherit no_inherit of_type not_of replica_identity other : AlterTableActionKind

-- `Volatility`, from the safest to the most dangerous.
pub data Volatility : Type 0 where
  constant immutable stable unknown volatile : Volatility

-- The kind of a catalog row: a statement, or one ALTER TABLE subcommand.
pub data Kind : Type 0 where
  statement : StatementKind → Kind
  action : AlterTableActionKind → Kind
