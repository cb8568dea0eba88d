-- ===== src/Ir/Spelling.antt =====
-- The spelling of a kind: `auto()` of a `StrEnum` is the member's name in lower case.
use Prim.Native.String.{String}
use blastoise.Ir.Kinds.{StatementKind, AlterTableActionKind}

abbrev pub statement_kind_value : StatementKind → String
statement_kind_value StatementKind.begin = "begin"
statement_kind_value StatementKind.commit = "commit"
statement_kind_value StatementKind.rollback = "rollback"
statement_kind_value StatementKind.savepoint = "savepoint"
statement_kind_value StatementKind.release_savepoint = "release_savepoint"
statement_kind_value StatementKind.rollback_to_savepoint = "rollback_to_savepoint"
statement_kind_value StatementKind.transaction_other = "transaction_other"
statement_kind_value StatementKind.create_table = "create_table"
statement_kind_value StatementKind.create_table_partition_of = "create_table_partition_of"
statement_kind_value StatementKind.create_table_as = "create_table_as"
statement_kind_value StatementKind.select_into = "select_into"
statement_kind_value StatementKind.drop_table = "drop_table"
statement_kind_value StatementKind.truncate = "truncate"
statement_kind_value StatementKind.alter_table = "alter_table"
statement_kind_value StatementKind.alter_index = "alter_index"
statement_kind_value StatementKind.alter_view = "alter_view"
statement_kind_value StatementKind.alter_matview = "alter_matview"
statement_kind_value StatementKind.create_foreign_table = "create_foreign_table"
statement_kind_value StatementKind.alter_foreign_table = "alter_foreign_table"
statement_kind_value StatementKind.alter_composite_type = "alter_composite_type"
statement_kind_value StatementKind.rename_table = "rename_table"
statement_kind_value StatementKind.rename_column = "rename_column"
statement_kind_value StatementKind.rename_index = "rename_index"
statement_kind_value StatementKind.rename_constraint = "rename_constraint"
statement_kind_value StatementKind.rename_view = "rename_view"
statement_kind_value StatementKind.rename_matview = "rename_matview"
statement_kind_value StatementKind.rename_type = "rename_type"
statement_kind_value StatementKind.rename_other = "rename_other"
statement_kind_value StatementKind.alter_object_schema = "alter_object_schema"
statement_kind_value StatementKind.alter_owner = "alter_owner"
statement_kind_value StatementKind.create_index = "create_index"
statement_kind_value StatementKind.create_index_concurrently = "create_index_concurrently"
statement_kind_value StatementKind.drop_index = "drop_index"
statement_kind_value StatementKind.drop_index_concurrently = "drop_index_concurrently"
statement_kind_value StatementKind.reindex = "reindex"
statement_kind_value StatementKind.reindex_concurrently = "reindex_concurrently"
statement_kind_value StatementKind.vacuum = "vacuum"
statement_kind_value StatementKind.vacuum_full = "vacuum_full"
statement_kind_value StatementKind.analyze = "analyze"
statement_kind_value StatementKind.cluster = "cluster"
statement_kind_value StatementKind.refresh_matview = "refresh_matview"
statement_kind_value StatementKind.refresh_matview_concurrently = "refresh_matview_concurrently"
statement_kind_value StatementKind.create_view = "create_view"
statement_kind_value StatementKind.create_matview = "create_matview"
statement_kind_value StatementKind.drop_view = "drop_view"
statement_kind_value StatementKind.drop_matview = "drop_matview"
statement_kind_value StatementKind.create_sequence = "create_sequence"
statement_kind_value StatementKind.alter_sequence = "alter_sequence"
statement_kind_value StatementKind.drop_sequence = "drop_sequence"
statement_kind_value StatementKind.create_enum_type = "create_enum_type"
statement_kind_value StatementKind.create_composite_type = "create_composite_type"
statement_kind_value StatementKind.create_range_type = "create_range_type"
statement_kind_value StatementKind.alter_enum_add_value = "alter_enum_add_value"
statement_kind_value StatementKind.alter_enum_rename_value = "alter_enum_rename_value"
statement_kind_value StatementKind.create_domain = "create_domain"
statement_kind_value StatementKind.alter_domain = "alter_domain"
statement_kind_value StatementKind.drop_type = "drop_type"
statement_kind_value StatementKind.drop_domain = "drop_domain"
statement_kind_value StatementKind.create_statistics = "create_statistics"
statement_kind_value StatementKind.alter_statistics = "alter_statistics"
statement_kind_value StatementKind.create_aggregate = "create_aggregate"
statement_kind_value StatementKind.drop_aggregate = "drop_aggregate"
statement_kind_value StatementKind.create_function = "create_function"
statement_kind_value StatementKind.create_procedure = "create_procedure"
statement_kind_value StatementKind.alter_function = "alter_function"
statement_kind_value StatementKind.drop_function = "drop_function"
statement_kind_value StatementKind.drop_procedure = "drop_procedure"
statement_kind_value StatementKind.create_trigger = "create_trigger"
statement_kind_value StatementKind.drop_trigger = "drop_trigger"
statement_kind_value StatementKind.create_policy = "create_policy"
statement_kind_value StatementKind.alter_policy = "alter_policy"
statement_kind_value StatementKind.drop_policy = "drop_policy"
statement_kind_value StatementKind.create_rule = "create_rule"
statement_kind_value StatementKind.create_extension = "create_extension"
statement_kind_value StatementKind.alter_extension = "alter_extension"
statement_kind_value StatementKind.drop_extension = "drop_extension"
statement_kind_value StatementKind.create_schema = "create_schema"
statement_kind_value StatementKind.drop_schema = "drop_schema"
statement_kind_value StatementKind.create_role = "create_role"
statement_kind_value StatementKind.alter_role = "alter_role"
statement_kind_value StatementKind.drop_role = "drop_role"
statement_kind_value StatementKind.grant = "grant"
statement_kind_value StatementKind.revoke = "revoke"
statement_kind_value StatementKind.alter_default_privileges = "alter_default_privileges"
statement_kind_value StatementKind.comment_on = "comment_on"
statement_kind_value StatementKind.insert = "insert"
statement_kind_value StatementKind.update = "update"
statement_kind_value StatementKind.update_without_where = "update_without_where"
statement_kind_value StatementKind.update_batched = "update_batched"
statement_kind_value StatementKind.delete = "delete"
statement_kind_value StatementKind.delete_without_where = "delete_without_where"
statement_kind_value StatementKind.delete_batched = "delete_batched"
statement_kind_value StatementKind.merge = "merge"
statement_kind_value StatementKind.select = "select"
statement_kind_value StatementKind.copy_from = "copy_from"
statement_kind_value StatementKind.copy_to = "copy_to"
statement_kind_value StatementKind.call = "call"
statement_kind_value StatementKind.set = "set"
statement_kind_value StatementKind.reset = "reset"
statement_kind_value StatementKind.show = "show"
statement_kind_value StatementKind.lock_table = "lock_table"
statement_kind_value StatementKind.alter_system = "alter_system"
statement_kind_value StatementKind.create_database = "create_database"
statement_kind_value StatementKind.alter_database = "alter_database"
statement_kind_value StatementKind.drop_database = "drop_database"
statement_kind_value StatementKind.create_tablespace = "create_tablespace"
statement_kind_value StatementKind.drop_tablespace = "drop_tablespace"
statement_kind_value StatementKind.do_block = "do_block"
statement_kind_value StatementKind.other = "other"

abbrev pub action_kind_value : AlterTableActionKind → String
action_kind_value AlterTableActionKind.add_column = "add_column"
action_kind_value AlterTableActionKind.add_column_not_null_no_default =
    "add_column_not_null_no_default"
action_kind_value AlterTableActionKind.add_column_default_nonvolatile =
    "add_column_default_nonvolatile"
action_kind_value AlterTableActionKind.add_column_default_volatile = "add_column_default_volatile"
action_kind_value AlterTableActionKind.add_column_default_unknown_volatility =
    "add_column_default_unknown_volatility"
action_kind_value AlterTableActionKind.add_column_serial = "add_column_serial"
action_kind_value AlterTableActionKind.add_column_identity = "add_column_identity"
action_kind_value AlterTableActionKind.add_column_generated_stored = "add_column_generated_stored"
action_kind_value AlterTableActionKind.add_column_generated_virtual = "add_column_generated_virtual"
action_kind_value AlterTableActionKind.drop_column = "drop_column"
action_kind_value AlterTableActionKind.alter_column_type = "alter_column_type"
action_kind_value AlterTableActionKind.set_column_default = "set_column_default"
action_kind_value AlterTableActionKind.drop_column_default = "drop_column_default"
action_kind_value AlterTableActionKind.set_not_null = "set_not_null"
action_kind_value AlterTableActionKind.drop_not_null = "drop_not_null"
action_kind_value AlterTableActionKind.add_identity = "add_identity"
action_kind_value AlterTableActionKind.set_identity = "set_identity"
action_kind_value AlterTableActionKind.drop_identity = "drop_identity"
action_kind_value AlterTableActionKind.set_expression = "set_expression"
action_kind_value AlterTableActionKind.drop_expression = "drop_expression"
action_kind_value AlterTableActionKind.set_statistics = "set_statistics"
action_kind_value AlterTableActionKind.set_storage = "set_storage"
action_kind_value AlterTableActionKind.set_compression = "set_compression"
action_kind_value AlterTableActionKind.set_column_options = "set_column_options"
action_kind_value AlterTableActionKind.reset_column_options = "reset_column_options"
action_kind_value AlterTableActionKind.add_primary_key = "add_primary_key"
action_kind_value AlterTableActionKind.add_primary_key_using_index = "add_primary_key_using_index"
action_kind_value AlterTableActionKind.add_unique = "add_unique"
action_kind_value AlterTableActionKind.add_unique_using_index = "add_unique_using_index"
action_kind_value AlterTableActionKind.add_foreign_key = "add_foreign_key"
action_kind_value AlterTableActionKind.add_foreign_key_not_valid = "add_foreign_key_not_valid"
action_kind_value AlterTableActionKind.add_check = "add_check"
action_kind_value AlterTableActionKind.add_check_not_valid = "add_check_not_valid"
action_kind_value AlterTableActionKind.add_not_null_constraint = "add_not_null_constraint"
action_kind_value AlterTableActionKind.add_not_null_constraint_not_valid =
    "add_not_null_constraint_not_valid"
action_kind_value AlterTableActionKind.add_exclusion = "add_exclusion"
action_kind_value AlterTableActionKind.add_constraint_other = "add_constraint_other"
action_kind_value AlterTableActionKind.validate_constraint = "validate_constraint"
action_kind_value AlterTableActionKind.drop_constraint = "drop_constraint"
action_kind_value AlterTableActionKind.alter_constraint = "alter_constraint"
action_kind_value AlterTableActionKind.set_storage_params = "set_storage_params"
action_kind_value AlterTableActionKind.reset_storage_params = "reset_storage_params"
action_kind_value AlterTableActionKind.replace_storage_params = "replace_storage_params"
action_kind_value AlterTableActionKind.set_logged = "set_logged"
action_kind_value AlterTableActionKind.set_unlogged = "set_unlogged"
action_kind_value AlterTableActionKind.set_tablespace = "set_tablespace"
action_kind_value AlterTableActionKind.set_access_method = "set_access_method"
action_kind_value AlterTableActionKind.attach_partition = "attach_partition"
action_kind_value AlterTableActionKind.detach_partition = "detach_partition"
action_kind_value AlterTableActionKind.detach_partition_concurrently =
    "detach_partition_concurrently"
action_kind_value AlterTableActionKind.detach_partition_finalize = "detach_partition_finalize"
action_kind_value AlterTableActionKind.enable_trigger = "enable_trigger"
action_kind_value AlterTableActionKind.disable_trigger = "disable_trigger"
action_kind_value AlterTableActionKind.enable_rule = "enable_rule"
action_kind_value AlterTableActionKind.disable_rule = "disable_rule"
action_kind_value AlterTableActionKind.enable_row_security = "enable_row_security"
action_kind_value AlterTableActionKind.disable_row_security = "disable_row_security"
action_kind_value AlterTableActionKind.force_row_security = "force_row_security"
action_kind_value AlterTableActionKind.no_force_row_security = "no_force_row_security"
action_kind_value AlterTableActionKind.cluster_on = "cluster_on"
action_kind_value AlterTableActionKind.drop_cluster = "drop_cluster"
action_kind_value AlterTableActionKind.change_owner = "change_owner"
action_kind_value AlterTableActionKind.inherit = "inherit"
action_kind_value AlterTableActionKind.no_inherit = "no_inherit"
action_kind_value AlterTableActionKind.of_type = "of_type"
action_kind_value AlterTableActionKind.not_of = "not_of"
action_kind_value AlterTableActionKind.replica_identity = "replica_identity"
action_kind_value AlterTableActionKind.other = "other"
