-- ===== src/Classify/Alter.antt =====
-- classify.py: the subcommands of ALTER TABLE.
use blastoise.Base.{Bool, true, false, Option, some, none, [], Text, codes}
use blastoise.Ir.{AlterTableAction, AlterTableActionKind}
use blastoise.Sql.{
  Pglast, Node, absent, other_node, end, AlterTableCmd, AlterTableType, at_add_column,
  at_add_constraint, at_column_default, at_alter_column_type, at_alter_constraint,
  at_attach_partition, at_detach_partition, at_detach_partition_finalize, at_other, Def, no_def,
  column_def, alter_constraint, expression, at_drop_column, at_set_not_null, at_drop_not_null,
  at_validate_constraint, at_drop_constraint, at_set_statistics, at_set_storage, at_set_compression,
  at_set_options, at_reset_options, at_set_expression, at_drop_expression, at_add_identity,
  at_set_identity, at_drop_identity, at_set_rel_options, at_reset_rel_options,
  at_replace_rel_options, at_set_logged, at_set_un_logged, at_set_table_space, at_set_access_method,
  at_enable_row_security, at_disable_row_security, at_force_row_security, at_no_force_row_security,
  at_cluster_on, at_drop_cluster, at_change_owner, at_add_inherit, at_drop_inherit, at_add_of,
  at_drop_of, at_replica_identity, at_enable_trig, at_enable_always_trig, at_enable_replica_trig,
  at_disable_trig, at_enable_trig_all, at_disable_trig_all, at_enable_trig_user,
  at_disable_trig_user, at_enable_rule, at_enable_always_rule, at_enable_replica_rule,
  at_disable_rule,
}
use blastoise.Classify.Names.{default_info}
use blastoise.Classify.Columns.{bare, add_column_action, deparse_type}
use blastoise.Classify.Constraints.{add_constraint_action, partition_action, detach_kind}

-- `_SIMPLE_ALTER_KINDS`.
unfoldable pub simple_alter_kind : AlterTableType → Option AlterTableActionKind
simple_alter_kind at_drop_column = some AlterTableActionKind.drop_column
simple_alter_kind at_set_not_null = some AlterTableActionKind.set_not_null
simple_alter_kind at_drop_not_null = some AlterTableActionKind.drop_not_null
simple_alter_kind at_validate_constraint = some AlterTableActionKind.validate_constraint
simple_alter_kind at_drop_constraint = some AlterTableActionKind.drop_constraint
simple_alter_kind at_set_statistics = some AlterTableActionKind.set_statistics
simple_alter_kind at_set_storage = some AlterTableActionKind.set_storage
simple_alter_kind at_set_compression = some AlterTableActionKind.set_compression
simple_alter_kind at_set_options = some AlterTableActionKind.set_column_options
simple_alter_kind at_reset_options = some AlterTableActionKind.reset_column_options
simple_alter_kind at_set_expression = some AlterTableActionKind.set_expression
simple_alter_kind at_drop_expression = some AlterTableActionKind.drop_expression
simple_alter_kind at_add_identity = some AlterTableActionKind.add_identity
simple_alter_kind at_set_identity = some AlterTableActionKind.set_identity
simple_alter_kind at_drop_identity = some AlterTableActionKind.drop_identity
simple_alter_kind at_set_rel_options = some AlterTableActionKind.set_storage_params
simple_alter_kind at_reset_rel_options = some AlterTableActionKind.reset_storage_params
simple_alter_kind at_replace_rel_options = some AlterTableActionKind.replace_storage_params
simple_alter_kind at_set_logged = some AlterTableActionKind.set_logged
simple_alter_kind at_set_un_logged = some AlterTableActionKind.set_unlogged
simple_alter_kind at_set_table_space = some AlterTableActionKind.set_tablespace
simple_alter_kind at_set_access_method = some AlterTableActionKind.set_access_method
simple_alter_kind at_enable_row_security = some AlterTableActionKind.enable_row_security
simple_alter_kind at_disable_row_security = some AlterTableActionKind.disable_row_security
simple_alter_kind at_force_row_security = some AlterTableActionKind.force_row_security
simple_alter_kind at_no_force_row_security = some AlterTableActionKind.no_force_row_security
simple_alter_kind at_cluster_on = some AlterTableActionKind.cluster_on
simple_alter_kind at_drop_cluster = some AlterTableActionKind.drop_cluster
simple_alter_kind at_change_owner = some AlterTableActionKind.change_owner
simple_alter_kind at_add_inherit = some AlterTableActionKind.inherit
simple_alter_kind at_drop_inherit = some AlterTableActionKind.no_inherit
simple_alter_kind at_add_of = some AlterTableActionKind.of_type
simple_alter_kind at_drop_of = some AlterTableActionKind.not_of
simple_alter_kind at_replica_identity = some AlterTableActionKind.replica_identity
simple_alter_kind _ = none

-- `_TRIGGER_RULE_KINDS`: the kind and the variant.
unfoldable pub trigger_rule_kind : AlterTableType → Option (AlterTableActionKind × Option Text)
trigger_rule_kind at_enable_trig = some (AlterTableActionKind.enable_trigger, none)
trigger_rule_kind at_enable_always_trig =
    some (AlterTableActionKind.enable_trigger, some (codes "always"))
trigger_rule_kind at_enable_replica_trig =
    some (AlterTableActionKind.enable_trigger, some (codes "replica"))
trigger_rule_kind at_disable_trig = some (AlterTableActionKind.disable_trigger, none)
trigger_rule_kind at_enable_trig_all =
    some (AlterTableActionKind.enable_trigger, some (codes "all"))
trigger_rule_kind at_disable_trig_all =
    some (AlterTableActionKind.disable_trigger, some (codes "all"))
trigger_rule_kind at_enable_trig_user =
    some (AlterTableActionKind.enable_trigger, some (codes "user"))
trigger_rule_kind at_disable_trig_user =
    some (AlterTableActionKind.disable_trigger, some (codes "user"))
trigger_rule_kind at_enable_rule = some (AlterTableActionKind.enable_rule, none)
trigger_rule_kind at_enable_always_rule =
    some (AlterTableActionKind.enable_rule, some (codes "always"))
trigger_rule_kind at_enable_replica_rule =
    some (AlterTableActionKind.enable_rule, some (codes "replica"))
trigger_rule_kind at_disable_rule = some (AlterTableActionKind.disable_rule, none)
trigger_rule_kind _ = none

-- What the bare `name` of a subcommand names: `_CONSTRAINT_NAME_KINDS`, `_NON_COLUMN_NAME_KINDS`,
-- and a column for all others.
pub data NameUse : Type 0 where
  names_constraint names_object names_column : NameUse

unfoldable pub name_use : AlterTableActionKind → NameUse
name_use AlterTableActionKind.validate_constraint = names_constraint
name_use AlterTableActionKind.drop_constraint = names_constraint
name_use AlterTableActionKind.set_tablespace = names_object
name_use AlterTableActionKind.set_access_method = names_object
name_use AlterTableActionKind.cluster_on = names_object
name_use _ = names_column

abbrev with_name : NameUse → Option Text → AlterTableAction → AlterTableAction
with_name names_constraint name a = record a { constraint_name = name }
with_name names_object name a = record a { detail = name }
with_name names_column name a = record a { column = name }

-- `AT_ColumnDefault`: without a definition it drops the default. Of the other classes, which stand
-- elsewhere, no walk over an expression reads anything.
unfoldable pub column_default_action : Pglast → Option Text → Def → AlterTableAction
unfolding default_info
column_default_action pglast name no_def = record (bare AlterTableActionKind.drop_column_default) {
  column = name;
}
column_default_action pglast name (expression expr) =
    record (bare AlterTableActionKind.set_column_default) {
      column = name;
      default = some (default_info pglast expr);
    }
column_default_action pglast name _ = record (bare AlterTableActionKind.set_column_default) {
  column = name;
  default = some (default_info pglast (other_node end));
}

abbrev is_there : Node → Bool
is_there absent = false
is_there _ = true

unfoldable pub column_type_action : Pglast → Option Text → Def → AlterTableAction
unfolding deparse_type
column_type_action pglast name (column_def d) =
    record (bare AlterTableActionKind.alter_column_type) {
      column = name;
      column_type = deparse_type pglast d.type_name;
      has_using_expression = is_there d.raw_default;
    }
column_type_action pglast name _ = record (bare AlterTableActionKind.alter_column_type) {
  column = name;
}

abbrev altered_constraint : Def → Option Text
altered_constraint (alter_constraint conname) = conname
altered_constraint _ = none

-- The last branch keeps the name of the subcommand; the members that have a branch or an entry of
-- their own do not reach it.
abbrev other_name : AlterTableType → Text
other_name (at_other name) = name
other_name _ = []

-- A subcommand of neither table.
unfoldable pub other_action : AlterTableType → Option Text → AlterTableAction
other_action subtype name = record (bare AlterTableActionKind.other) {
  column = name;
  detail = some (other_name subtype);
}

unfoldable pub table_action : AlterTableType → AlterTableCmd → AlterTableAction
unfolding trigger_rule_kind simple_alter_kind name_use other_action
table_action subtype cmd = elim (trigger_rule_kind subtype) [
  | some (kind, variant) ↦ record (bare kind) { constraint_name = cmd.name; detail = variant }
  | none ↦ elim (simple_alter_kind subtype) [
    | some kind ↦
        with_name (name_use kind) cmd.name
          (record (bare kind) { cascade = cmd.cascade; missing_ok = cmd.missing_ok })
    | none ↦ other_action subtype cmd.name
  ]
]

unfoldable pub action_of : Pglast → AlterTableType → AlterTableCmd → AlterTableAction
unfolding column_default_action column_type_action table_action
action_of pglast at_add_column cmd = add_column_action pglast cmd.def cmd.missing_ok
action_of pglast at_add_constraint cmd = add_constraint_action cmd.def
action_of pglast at_column_default cmd = column_default_action pglast cmd.name cmd.def
action_of pglast at_alter_column_type cmd = column_type_action pglast cmd.name cmd.def
action_of pglast at_alter_constraint cmd = record (bare AlterTableActionKind.alter_constraint) {
  constraint_name = altered_constraint cmd.def;
}
action_of pglast at_attach_partition cmd =
    partition_action AlterTableActionKind.attach_partition cmd.def
action_of pglast at_detach_partition cmd = partition_action (detach_kind cmd.def) cmd.def
action_of pglast at_detach_partition_finalize cmd =
    partition_action AlterTableActionKind.detach_partition_finalize cmd.def
action_of pglast subtype cmd = table_action subtype cmd

-- `_alter_table_action`.
unfoldable pub alter_table_action : Pglast → AlterTableCmd → AlterTableAction
unfolding action_of
alter_table_action pglast cmd = elim cmd.subtype [
  | none ↦ record (bare AlterTableActionKind.other) { column = cmd.name }
  | some subtype ↦ action_of pglast subtype cmd
]
