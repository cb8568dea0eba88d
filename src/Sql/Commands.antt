-- ===== src/Sql/Commands.antt =====
-- Constraints, column definitions and the subcommands of ALTER TABLE.
use blastoise.Base.{Bool, Option, List, Text, codes}
use blastoise.Sql.Trees.{Name, RangeVar, Node}

-- `enums.ConstrType`. Other members carry their name.
pub data ConstrType : Type 0 where
  constr_notnull constr_default constr_identity constr_generated : ConstrType
  constr_check constr_primary constr_unique constr_exclusion : ConstrType
  constr_foreign : ConstrType
  constr_other : (name : Text) → ConstrType

-- `ConstrType.name`.
abbrev pub constr_name : ConstrType → Text
constr_name constr_notnull = codes "CONSTR_NOTNULL"
constr_name constr_default = codes "CONSTR_DEFAULT"
constr_name constr_identity = codes "CONSTR_IDENTITY"
constr_name constr_generated = codes "CONSTR_GENERATED"
constr_name constr_check = codes "CONSTR_CHECK"
constr_name constr_primary = codes "CONSTR_PRIMARY"
constr_name constr_unique = codes "CONSTR_UNIQUE"
constr_name constr_exclusion = codes "CONSTR_EXCLUSION"
constr_name constr_foreign = codes "CONSTR_FOREIGN"
constr_name (constr_other name) = name

-- `ast.Constraint`.
pub record Constraint : Type 0 where
  pub contype : Option ConstrType
  pub conname : Option Text
  pub raw_expr : Node
  pub generated_kind : Option Text
  pub skip_validation : Bool
  pub indexname : Option Text
  pub pktable : Option RangeVar
  pub keys : List Name

-- `ast.TypeName`, with its spelling for the deparser as the node.
pub record TypeName : Type 0 where
  pub names : List Name
  pub as_node : Node

-- `ast.ColumnDef`. A `none` among the constraints is a node of another class.
pub record ColumnDef : Type 0 where
  pub colname : Option Text
  pub type_name : Option TypeName
  pub constraints : List (Option Constraint)
  pub raw_default : Node

-- `ast.PartitionCmd`.
pub record PartitionCmd : Type 0 where
  pub name : Option RangeVar
  pub concurrent : Bool

-- `AlterTableCmd.def_`, by its class: `no_def` is `None`, and a node of none of the classes that
-- the code asks for is `expression`.
pub data Def : Type 0 where
  no_def : Def
  column_def : ColumnDef → Def
  constraint : Constraint → Def
  partition_cmd : PartitionCmd → Def
  alter_constraint : (conname : Option Text) → Def
  expression : Node → Def

-- `enums.AlterTableType`. Other members carry their name.
pub data AlterTableType : Type 0 where
  at_add_column at_column_default at_drop_not_null at_set_not_null : AlterTableType
  at_set_expression at_drop_expression at_set_statistics at_set_options : AlterTableType
  at_reset_options at_set_storage at_set_compression at_drop_column : AlterTableType
  at_add_constraint at_alter_constraint at_validate_constraint : AlterTableType
  at_drop_constraint at_alter_column_type at_change_owner : AlterTableType
  at_cluster_on at_drop_cluster at_set_logged at_set_un_logged : AlterTableType
  at_set_access_method at_set_table_space at_set_rel_options : AlterTableType
  at_reset_rel_options at_replace_rel_options at_enable_trig : AlterTableType
  at_enable_always_trig at_enable_replica_trig at_disable_trig : AlterTableType
  at_enable_trig_all at_disable_trig_all at_enable_trig_user : AlterTableType
  at_disable_trig_user at_enable_rule at_enable_always_rule : AlterTableType
  at_enable_replica_rule at_disable_rule at_add_inherit at_drop_inherit : AlterTableType
  at_add_of at_drop_of at_replica_identity at_enable_row_security : AlterTableType
  at_disable_row_security at_force_row_security : AlterTableType
  at_no_force_row_security at_attach_partition at_detach_partition : AlterTableType
  at_detach_partition_finalize at_add_identity at_set_identity : AlterTableType
  at_drop_identity : AlterTableType
  at_other : (name : Text) → AlterTableType

-- `ast.AlterTableCmd`. `cascade` tells that `behavior` is `DROP_CASCADE`.
pub record AlterTableCmd : Type 0 where
  pub subtype : Option AlterTableType
  pub name : Option Text
  pub def : Def
  pub cascade : Bool
  pub missing_ok : Bool
