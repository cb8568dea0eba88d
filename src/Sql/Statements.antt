-- ===== src/Sql/Statements.antt =====
-- Statements of a parse tree: a constructor for each class that `classify_statement` asks for.
use blastoise.Base.{ℕ, ℤ, Bool, Option, List, Text, codes}
use blastoise.Sql.Trees.{Name, RangeVar, Node, Nodes}
use blastoise.Sql.Commands.{Constraint, ColumnDef, AlterTableCmd, TypeName}

-- `enums.ObjectType`. Other members carry their name.
pub data ObjectType : Type 0 where
  object_table object_index object_view object_matview object_foreign_table : ObjectType
  object_type object_sequence object_domain object_extension object_trigger : ObjectType
  object_function object_routine object_procedure object_aggregate : ObjectType
  object_schema object_policy object_column object_tabconstraint : ObjectType
  object_other : (name : Text) → ObjectType

-- `ObjectType.name`.
abbrev pub object_name : ObjectType → Text
object_name object_table = codes "OBJECT_TABLE"
object_name object_index = codes "OBJECT_INDEX"
object_name object_view = codes "OBJECT_VIEW"
object_name object_matview = codes "OBJECT_MATVIEW"
object_name object_foreign_table = codes "OBJECT_FOREIGN_TABLE"
object_name object_type = codes "OBJECT_TYPE"
object_name object_sequence = codes "OBJECT_SEQUENCE"
object_name object_domain = codes "OBJECT_DOMAIN"
object_name object_extension = codes "OBJECT_EXTENSION"
object_name object_trigger = codes "OBJECT_TRIGGER"
object_name object_function = codes "OBJECT_FUNCTION"
object_name object_routine = codes "OBJECT_ROUTINE"
object_name object_procedure = codes "OBJECT_PROCEDURE"
object_name object_aggregate = codes "OBJECT_AGGREGATE"
object_name object_schema = codes "OBJECT_SCHEMA"
object_name object_policy = codes "OBJECT_POLICY"
object_name object_column = codes "OBJECT_COLUMN"
object_name object_tabconstraint = codes "OBJECT_TABCONSTRAINT"
object_name (object_other name) = name

-- `enums.TransactionStmtKind`.
pub data TransactionStmtKind : Type 0 where
  trans_begin trans_start trans_commit trans_rollback : TransactionStmtKind
  trans_savepoint trans_release trans_rollback_to : TransactionStmtKind
  trans_prepare trans_commit_prepared trans_rollback_prepared : TransactionStmtKind

-- The argument of an `ast.DefElem`.
pub data DefArg : Type 0 where
  no_arg : DefArg
  string_arg : (sval : Option Text) → DefArg
  integer_arg : (ival : ℤ) → DefArg
  boolean_arg : (boolval : Bool) → DefArg
  other_arg : DefArg

pub record DefElem : Type 0 where
  pub defname : Option Text
  pub arg : DefArg

-- A reference to an object: `DropStmt.objects` and `RenameStmt.object`.
pub data ObjectReference : Type 0 where
  named_by_string : (sval : Option Text) → ObjectReference
  named_by_list : List Name → ObjectReference
  named_by_type : TypeName → ObjectReference
  object_with_args : (objname : List Name) → ObjectReference
  other_reference : ObjectReference

-- An item of `CreateStmt.tableElts`.
pub data TableElement : Type 0 where
  table_column : ColumnDef → TableElement
  table_constraint : Constraint → TableElement
  other_element : TableElement

pub record CreateStmt : Type 0 where
  pub relation : Option RangeVar
  pub table_elts : List TableElement
  pub inh_relations : List (Option RangeVar)
  pub has_partbound : Bool
  pub if_not_exists : Bool

pub record DropStmt : Type 0 where
  pub remove_type : Option ObjectType
  pub concurrent : Bool
  pub objects : List ObjectReference
  pub cascade : Bool
  pub missing_ok : Bool

pub record IndexStmt : Type 0 where
  pub idxname : Option Text
  pub relation : Option RangeVar
  pub concurrent : Bool
  pub unique : Bool
  pub access_method : Option Text
  pub where_clause : Node
  pub index_params : List (Option Node)
  pub if_not_exists : Bool

-- The two fields of UPDATE and DELETE that the code reads. `others` are the rest of the node.
pub record DmlStmt : Type 0 where
  pub relation : Option RangeVar
  pub where_clause : Node
  pub others : Nodes

-- `InsertStmt.selectStmt`: nothing, a SELECT with `valuesLists`, or any other query.
pub data InsertSource : Type 0 where
  no_source values_lists other_query : InsertSource

-- Where a list may hold nodes of a class that the code passes over, these are `none`. `IntoClause`
-- is its relation and its flag, and `ResTarget` its value.
pub data Statement : Type 0 where
  transaction_stmt :
      (kind : Option TransactionStmtKind) (savepoint_name : Option Text) (chain : Bool) → Statement
  alter_table_stmt :
      (objtype : Option ObjectType) (cmds : List (Option AlterTableCmd))
      (relation : Option RangeVar)
      → Statement
  create_foreign_table_stmt : (base : Option CreateStmt) → Statement
  create_stmt : CreateStmt → Statement
  create_table_as_stmt :
      (objtype : Option ObjectType) (rel : Option RangeVar) (skip_data : Bool) → Statement
  drop_stmt : DropStmt → Statement
  truncate_stmt : (relations : List (Option RangeVar)) (cascade restart_seqs : Bool) → Statement
  rename_stmt :
      (rename_type : Option ObjectType) (relation : Option RangeVar) (object : ObjectReference)
      (subname newname : Option Text)
      → Statement
  alter_object_schema_stmt alter_owner_stmt : (relation : Option RangeVar) → Statement
  index_stmt : IndexStmt → Statement
  create_stats_stmt : (relations : List (Option RangeVar)) → Statement
  alter_stats_stmt : (defnames : List Name) → Statement
  reindex_stmt :
      (kind_name : Option Text) (relation : Option RangeVar) (name : Option Text)
      (params : List (Option DefElem))
      → Statement
  vacuum_stmt :
      (is_vacuumcmd : Bool) (options : List (Option DefElem)) (rels : List (Option RangeVar))
      → Statement
  cluster_stmt : (relation : Option RangeVar) → Statement
  refresh_matview_stmt : (concurrent skip_data : Bool) (relation : Option RangeVar) → Statement
  view_stmt : (view : Option RangeVar) → Statement
  create_seq_stmt alter_seq_stmt : (sequence : Option RangeVar) → Statement
  create_enum_stmt : (type_name : List Name) → Statement
  composite_type_stmt : (typevar : Option RangeVar) → Statement
  create_range_stmt : (type_name : List Name) → Statement
  define_stmt : (kind : Option ObjectType) (defnames : List Name) → Statement
  alter_enum_stmt : (type_name : List Name) (old_val : Option Text) → Statement
  create_domain_stmt : (domainname : List Name) → Statement
  alter_domain_stmt : (type_name : List Name) → Statement
  create_function_stmt : (is_procedure : Bool) (funcname : List Name) → Statement
  alter_function_stmt : Statement
  create_trig_stmt : (relation : Option RangeVar) → Statement
  create_policy_stmt alter_policy_stmt : (table : Option RangeVar) → Statement
  rule_stmt : (relation : Option RangeVar) → Statement
  create_extension_stmt alter_extension_stmt create_schema_stmt : Statement
  create_role_stmt alter_role_stmt alter_role_set_stmt drop_role_stmt : Statement
  grant_stmt grant_role_stmt : (is_grant : Bool) → Statement
  alter_default_privileges_stmt comment_stmt : Statement
  insert_stmt : (source : InsertSource) (relation : Option RangeVar) → Statement
  update_stmt delete_stmt : DmlStmt → Statement
  merge_stmt : (relation : Option RangeVar) → Statement
  select_stmt :
      (into : Option (Option RangeVar)) (target_list : Option (List (Option Node))) → Statement
  copy_stmt : (is_from : Bool) (relation : Option RangeVar) → Statement
  call_stmt : Statement
  variable_set_stmt : (resets : Bool) (name : Option Text) (is_local : Bool) → Statement
  variable_show_stmt : Statement
  lock_stmt : (relations : List (Option RangeVar)) (mode : Option ℕ) (nowait : Bool) → Statement
  alter_system_stmt createdb_stmt alter_database_stmt : Statement
  alter_database_set_stmt dropdb_stmt create_table_space_stmt : Statement
  drop_table_space_stmt : Statement
  do_stmt : (args : List (Option DefElem)) → Statement
  other_stmt : (class_name : Text) → Statement
