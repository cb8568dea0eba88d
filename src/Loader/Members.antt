-- ===== src/Loader/Members.antt =====
-- The values of the kinds of ir.py, and catalog/loader.py `_enum` on them.
use blastoise.Base.{◌≡◌, refl, some, codes}
use blastoise.Ir.{StatementKind, AlterTableActionKind, statement_kind_value, action_kind_value}
use blastoise.Loader.Spellings.{statement_kinds, action_kinds, statement_kind_of, action_kind_of}

-- Every statement kind is read back from its value.
pub statement_kind_of-statement_kind_value :
    (k : StatementKind) → statement_kind_of (codes (statement_kind_value k)) ≡ some k
unfolding statement_kind_of statement_kinds
statement_kind_of-statement_kind_value StatementKind.begin = refl
statement_kind_of-statement_kind_value StatementKind.commit = refl
statement_kind_of-statement_kind_value StatementKind.rollback = refl
statement_kind_of-statement_kind_value StatementKind.savepoint = refl
statement_kind_of-statement_kind_value StatementKind.release_savepoint = refl
statement_kind_of-statement_kind_value StatementKind.rollback_to_savepoint = refl
statement_kind_of-statement_kind_value StatementKind.transaction_other = refl
statement_kind_of-statement_kind_value StatementKind.create_table = refl
statement_kind_of-statement_kind_value StatementKind.create_table_partition_of = refl
statement_kind_of-statement_kind_value StatementKind.create_table_as = refl
statement_kind_of-statement_kind_value StatementKind.select_into = refl
statement_kind_of-statement_kind_value StatementKind.drop_table = refl
statement_kind_of-statement_kind_value StatementKind.truncate = refl
statement_kind_of-statement_kind_value StatementKind.alter_table = refl
statement_kind_of-statement_kind_value StatementKind.alter_index = refl
statement_kind_of-statement_kind_value StatementKind.alter_view = refl
statement_kind_of-statement_kind_value StatementKind.alter_matview = refl
statement_kind_of-statement_kind_value StatementKind.create_foreign_table = refl
statement_kind_of-statement_kind_value StatementKind.alter_foreign_table = refl
statement_kind_of-statement_kind_value StatementKind.alter_composite_type = refl
statement_kind_of-statement_kind_value StatementKind.rename_table = refl
statement_kind_of-statement_kind_value StatementKind.rename_column = refl
statement_kind_of-statement_kind_value StatementKind.rename_index = refl
statement_kind_of-statement_kind_value StatementKind.rename_constraint = refl
statement_kind_of-statement_kind_value StatementKind.rename_view = refl
statement_kind_of-statement_kind_value StatementKind.rename_matview = refl
statement_kind_of-statement_kind_value StatementKind.rename_type = refl
statement_kind_of-statement_kind_value StatementKind.rename_other = refl
statement_kind_of-statement_kind_value StatementKind.alter_object_schema = refl
statement_kind_of-statement_kind_value StatementKind.alter_owner = refl
statement_kind_of-statement_kind_value StatementKind.create_index = refl
statement_kind_of-statement_kind_value StatementKind.create_index_concurrently = refl
statement_kind_of-statement_kind_value StatementKind.drop_index = refl
statement_kind_of-statement_kind_value StatementKind.drop_index_concurrently = refl
statement_kind_of-statement_kind_value StatementKind.reindex = refl
statement_kind_of-statement_kind_value StatementKind.reindex_concurrently = refl
statement_kind_of-statement_kind_value StatementKind.vacuum = refl
statement_kind_of-statement_kind_value StatementKind.vacuum_full = refl
statement_kind_of-statement_kind_value StatementKind.analyze = refl
statement_kind_of-statement_kind_value StatementKind.cluster = refl
statement_kind_of-statement_kind_value StatementKind.refresh_matview = refl
statement_kind_of-statement_kind_value StatementKind.refresh_matview_concurrently = refl
statement_kind_of-statement_kind_value StatementKind.create_view = refl
statement_kind_of-statement_kind_value StatementKind.create_matview = refl
statement_kind_of-statement_kind_value StatementKind.drop_view = refl
statement_kind_of-statement_kind_value StatementKind.drop_matview = refl
statement_kind_of-statement_kind_value StatementKind.create_sequence = refl
statement_kind_of-statement_kind_value StatementKind.alter_sequence = refl
statement_kind_of-statement_kind_value StatementKind.drop_sequence = refl
statement_kind_of-statement_kind_value StatementKind.create_enum_type = refl
statement_kind_of-statement_kind_value StatementKind.create_composite_type = refl
statement_kind_of-statement_kind_value StatementKind.create_range_type = refl
statement_kind_of-statement_kind_value StatementKind.alter_enum_add_value = refl
statement_kind_of-statement_kind_value StatementKind.alter_enum_rename_value = refl
statement_kind_of-statement_kind_value StatementKind.create_domain = refl
statement_kind_of-statement_kind_value StatementKind.alter_domain = refl
statement_kind_of-statement_kind_value StatementKind.drop_type = refl
statement_kind_of-statement_kind_value StatementKind.drop_domain = refl
statement_kind_of-statement_kind_value StatementKind.create_statistics = refl
statement_kind_of-statement_kind_value StatementKind.alter_statistics = refl
statement_kind_of-statement_kind_value StatementKind.create_aggregate = refl
statement_kind_of-statement_kind_value StatementKind.drop_aggregate = refl
statement_kind_of-statement_kind_value StatementKind.create_function = refl
statement_kind_of-statement_kind_value StatementKind.create_procedure = refl
statement_kind_of-statement_kind_value StatementKind.alter_function = refl
statement_kind_of-statement_kind_value StatementKind.drop_function = refl
statement_kind_of-statement_kind_value StatementKind.drop_procedure = refl
statement_kind_of-statement_kind_value StatementKind.create_trigger = refl
statement_kind_of-statement_kind_value StatementKind.drop_trigger = refl
statement_kind_of-statement_kind_value StatementKind.create_policy = refl
statement_kind_of-statement_kind_value StatementKind.alter_policy = refl
statement_kind_of-statement_kind_value StatementKind.drop_policy = refl
statement_kind_of-statement_kind_value StatementKind.create_rule = refl
statement_kind_of-statement_kind_value StatementKind.create_extension = refl
statement_kind_of-statement_kind_value StatementKind.alter_extension = refl
statement_kind_of-statement_kind_value StatementKind.drop_extension = refl
statement_kind_of-statement_kind_value StatementKind.create_schema = refl
statement_kind_of-statement_kind_value StatementKind.drop_schema = refl
statement_kind_of-statement_kind_value StatementKind.create_role = refl
statement_kind_of-statement_kind_value StatementKind.alter_role = refl
statement_kind_of-statement_kind_value StatementKind.drop_role = refl
statement_kind_of-statement_kind_value StatementKind.grant = refl
statement_kind_of-statement_kind_value StatementKind.revoke = refl
statement_kind_of-statement_kind_value StatementKind.alter_default_privileges = refl
statement_kind_of-statement_kind_value StatementKind.comment_on = refl
statement_kind_of-statement_kind_value StatementKind.insert = refl
statement_kind_of-statement_kind_value StatementKind.update = refl
statement_kind_of-statement_kind_value StatementKind.update_without_where = refl
statement_kind_of-statement_kind_value StatementKind.update_batched = refl
statement_kind_of-statement_kind_value StatementKind.delete = refl
statement_kind_of-statement_kind_value StatementKind.delete_without_where = refl
statement_kind_of-statement_kind_value StatementKind.delete_batched = refl
statement_kind_of-statement_kind_value StatementKind.merge = refl
statement_kind_of-statement_kind_value StatementKind.select = refl
statement_kind_of-statement_kind_value StatementKind.copy_from = refl
statement_kind_of-statement_kind_value StatementKind.copy_to = refl
statement_kind_of-statement_kind_value StatementKind.call = refl
statement_kind_of-statement_kind_value StatementKind.set = refl
statement_kind_of-statement_kind_value StatementKind.reset = refl
statement_kind_of-statement_kind_value StatementKind.show = refl
statement_kind_of-statement_kind_value StatementKind.lock_table = refl
statement_kind_of-statement_kind_value StatementKind.alter_system = refl
statement_kind_of-statement_kind_value StatementKind.create_database = refl
statement_kind_of-statement_kind_value StatementKind.alter_database = refl
statement_kind_of-statement_kind_value StatementKind.drop_database = refl
statement_kind_of-statement_kind_value StatementKind.create_tablespace = refl
statement_kind_of-statement_kind_value StatementKind.drop_tablespace = refl
statement_kind_of-statement_kind_value StatementKind.do_block = refl
statement_kind_of-statement_kind_value StatementKind.other = refl

pub action_kind_of-action_kind_value :
    (k : AlterTableActionKind) → action_kind_of (codes (action_kind_value k)) ≡ some k
unfolding action_kind_of action_kinds
action_kind_of-action_kind_value AlterTableActionKind.add_column = refl
action_kind_of-action_kind_value AlterTableActionKind.add_column_not_null_no_default = refl
action_kind_of-action_kind_value AlterTableActionKind.add_column_default_nonvolatile = refl
action_kind_of-action_kind_value AlterTableActionKind.add_column_default_volatile = refl
action_kind_of-action_kind_value AlterTableActionKind.add_column_default_unknown_volatility = refl
action_kind_of-action_kind_value AlterTableActionKind.add_column_serial = refl
action_kind_of-action_kind_value AlterTableActionKind.add_column_identity = refl
action_kind_of-action_kind_value AlterTableActionKind.add_column_generated_stored = refl
action_kind_of-action_kind_value AlterTableActionKind.add_column_generated_virtual = refl
action_kind_of-action_kind_value AlterTableActionKind.drop_column = refl
action_kind_of-action_kind_value AlterTableActionKind.alter_column_type = refl
action_kind_of-action_kind_value AlterTableActionKind.set_column_default = refl
action_kind_of-action_kind_value AlterTableActionKind.drop_column_default = refl
action_kind_of-action_kind_value AlterTableActionKind.set_not_null = refl
action_kind_of-action_kind_value AlterTableActionKind.drop_not_null = refl
action_kind_of-action_kind_value AlterTableActionKind.add_identity = refl
action_kind_of-action_kind_value AlterTableActionKind.set_identity = refl
action_kind_of-action_kind_value AlterTableActionKind.drop_identity = refl
action_kind_of-action_kind_value AlterTableActionKind.set_expression = refl
action_kind_of-action_kind_value AlterTableActionKind.drop_expression = refl
action_kind_of-action_kind_value AlterTableActionKind.set_statistics = refl
action_kind_of-action_kind_value AlterTableActionKind.set_storage = refl
action_kind_of-action_kind_value AlterTableActionKind.set_compression = refl
action_kind_of-action_kind_value AlterTableActionKind.set_column_options = refl
action_kind_of-action_kind_value AlterTableActionKind.reset_column_options = refl
action_kind_of-action_kind_value AlterTableActionKind.add_primary_key = refl
action_kind_of-action_kind_value AlterTableActionKind.add_primary_key_using_index = refl
action_kind_of-action_kind_value AlterTableActionKind.add_unique = refl
action_kind_of-action_kind_value AlterTableActionKind.add_unique_using_index = refl
action_kind_of-action_kind_value AlterTableActionKind.add_foreign_key = refl
action_kind_of-action_kind_value AlterTableActionKind.add_foreign_key_not_valid = refl
action_kind_of-action_kind_value AlterTableActionKind.add_check = refl
action_kind_of-action_kind_value AlterTableActionKind.add_check_not_valid = refl
action_kind_of-action_kind_value AlterTableActionKind.add_not_null_constraint = refl
action_kind_of-action_kind_value AlterTableActionKind.add_not_null_constraint_not_valid = refl
action_kind_of-action_kind_value AlterTableActionKind.add_exclusion = refl
action_kind_of-action_kind_value AlterTableActionKind.add_constraint_other = refl
action_kind_of-action_kind_value AlterTableActionKind.validate_constraint = refl
action_kind_of-action_kind_value AlterTableActionKind.drop_constraint = refl
action_kind_of-action_kind_value AlterTableActionKind.alter_constraint = refl
action_kind_of-action_kind_value AlterTableActionKind.set_storage_params = refl
action_kind_of-action_kind_value AlterTableActionKind.reset_storage_params = refl
action_kind_of-action_kind_value AlterTableActionKind.replace_storage_params = refl
action_kind_of-action_kind_value AlterTableActionKind.set_logged = refl
action_kind_of-action_kind_value AlterTableActionKind.set_unlogged = refl
action_kind_of-action_kind_value AlterTableActionKind.set_tablespace = refl
action_kind_of-action_kind_value AlterTableActionKind.set_access_method = refl
action_kind_of-action_kind_value AlterTableActionKind.attach_partition = refl
action_kind_of-action_kind_value AlterTableActionKind.detach_partition = refl
action_kind_of-action_kind_value AlterTableActionKind.detach_partition_concurrently = refl
action_kind_of-action_kind_value AlterTableActionKind.detach_partition_finalize = refl
action_kind_of-action_kind_value AlterTableActionKind.enable_trigger = refl
action_kind_of-action_kind_value AlterTableActionKind.disable_trigger = refl
action_kind_of-action_kind_value AlterTableActionKind.enable_rule = refl
action_kind_of-action_kind_value AlterTableActionKind.disable_rule = refl
action_kind_of-action_kind_value AlterTableActionKind.enable_row_security = refl
action_kind_of-action_kind_value AlterTableActionKind.disable_row_security = refl
action_kind_of-action_kind_value AlterTableActionKind.force_row_security = refl
action_kind_of-action_kind_value AlterTableActionKind.no_force_row_security = refl
action_kind_of-action_kind_value AlterTableActionKind.cluster_on = refl
action_kind_of-action_kind_value AlterTableActionKind.drop_cluster = refl
action_kind_of-action_kind_value AlterTableActionKind.change_owner = refl
action_kind_of-action_kind_value AlterTableActionKind.inherit = refl
action_kind_of-action_kind_value AlterTableActionKind.no_inherit = refl
action_kind_of-action_kind_value AlterTableActionKind.of_type = refl
action_kind_of-action_kind_value AlterTableActionKind.not_of = refl
action_kind_of-action_kind_value AlterTableActionKind.replica_identity = refl
action_kind_of-action_kind_value AlterTableActionKind.other = refl
