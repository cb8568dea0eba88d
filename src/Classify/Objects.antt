-- ===== src/Classify/Objects.antt =====
-- classify.py `classify_statement`: types, functions, roles, data, sessions.
use blastoise.Base.{
  Bool, true, false, Option, some, none, List, [], ◌∷◌, Text, if◌then◌else◌, list_eq, nat_eq,
}
use blastoise.Ir.{
  StatementKind, SourceSpan, ParsedStatement, parsed, no_details, QualifiedName, insert_details,
  set_details, lock_details,
}
use blastoise.Sql
use blastoise.Sql.{
  Pglast, accepted, refused, RawStmt, Statement, RangeVar, strings, of_class, DefElem, DefArg,
  string_arg, DmlStmt, Node, ObjectType, object_matview, object_aggregate, IndexStmt, AlterTableCmd,
}
use blastoise.Classify.Names.{targets, qname_from_strings, one_target}
use blastoise.Classify.Windows.{classify_dml}
use blastoise.Classify.Shapes.{
  built, simple_statement, insert_source, lock_mode_name, mode_or_strongest,
}

abbrev pub named_target : List Sql.Name → List QualifiedName
named_target items = one_target (qname_from_strings (strings items))

abbrev is_aggregate : Option ObjectType → Bool
is_aggregate (some object_aggregate) = true
is_aggregate _ = false

-- Data, and the state of a session or server. The last clause is for DO and the classes of the other
-- functions, which do not reach it.
unfoldable pub classify_data : Statement → Text → SourceSpan → ParsedStatement
classify_data (Statement.insert_stmt source relation) sql span =
    built StatementKind.insert "InsertStmt" sql span (targets (relation ∷ []))
      (insert_details (insert_source source))
classify_data (Statement.update_stmt d) sql span = classify_dml true d sql span
classify_data (Statement.delete_stmt d) sql span = classify_dml false d sql span
classify_data (Statement.merge_stmt relation) sql span =
    simple_statement StatementKind.merge "MergeStmt" sql span (relation ∷ [])
classify_data (Statement.select_stmt none target_list) sql span =
    simple_statement StatementKind.select "SelectStmt" sql span []
classify_data (Statement.select_stmt (some rel) target_list) sql span =
    simple_statement StatementKind.select_into "SelectStmt" sql span (rel ∷ [])
classify_data (Statement.copy_stmt is_from relation) sql span =
    simple_statement (if is_from then StatementKind.copy_from else StatementKind.copy_to) "CopyStmt"
      sql span (relation ∷ [])
classify_data Statement.call_stmt sql span =
    simple_statement StatementKind.call "CallStmt" sql span []
classify_data (Statement.variable_set_stmt resets name is_local) sql span =
    built (if resets then StatementKind.reset else StatementKind.set) "VariableSetStmt" sql span []
      (set_details (record { name = name; is_local = is_local }))
classify_data Statement.variable_show_stmt sql span =
    simple_statement StatementKind.show "VariableShowStmt" sql span []
classify_data (Statement.lock_stmt relations mode nowait) sql span =
    built StatementKind.lock_table "LockStmt" sql span (targets relations) (
      lock_details (record {
        mode = mode_or_strongest mode;
        mode_name = lock_mode_name (mode_or_strongest mode);
        nowait = nowait;
      }))
classify_data Statement.alter_system_stmt sql span =
    simple_statement StatementKind.alter_system "AlterSystemStmt" sql span []
classify_data Statement.createdb_stmt sql span =
    simple_statement StatementKind.create_database "CreatedbStmt" sql span []
classify_data Statement.alter_database_stmt sql span =
    simple_statement StatementKind.alter_database "AlterDatabaseStmt" sql span []
classify_data Statement.alter_database_set_stmt sql span =
    simple_statement StatementKind.alter_database "AlterDatabaseSetStmt" sql span []
classify_data Statement.dropdb_stmt sql span =
    simple_statement StatementKind.drop_database "DropdbStmt" sql span []
classify_data Statement.create_table_space_stmt sql span =
    simple_statement StatementKind.create_tablespace "CreateTableSpaceStmt" sql span []
classify_data Statement.drop_table_space_stmt sql span =
    simple_statement StatementKind.drop_tablespace "DropTableSpaceStmt" sql span []
classify_data (Statement.other_stmt class_name) sql span =
    parsed
      (record {
        kind = StatementKind.other;
        sql = sql;
        span = span;
        node_tag = class_name;
        targets = [];
        alter_actions = [];
        only = false;
      })
      no_details
classify_data _ sql span = simple_statement StatementKind.do_block "DoStmt" sql span []

-- Types, functions, extensions, roles and their kin.
unfoldable pub classify_definition : Statement → Text → SourceSpan → ParsedStatement
unfolding classify_data
classify_definition (Statement.create_enum_stmt type_name) sql span =
    built StatementKind.create_enum_type "CreateEnumStmt" sql span (named_target type_name)
      no_details
classify_definition (Statement.composite_type_stmt typevar) sql span =
    simple_statement StatementKind.create_composite_type "CompositeTypeStmt" sql span (typevar ∷ [])
classify_definition (Statement.create_range_stmt type_name) sql span =
    built StatementKind.create_range_type "CreateRangeStmt" sql span (named_target type_name)
      no_details
classify_definition (Statement.define_stmt kind defnames) sql span =
    if is_aggregate kind
    then built StatementKind.create_aggregate "DefineStmt" sql span (named_target defnames)
        no_details
    else simple_statement StatementKind.other "DefineStmt" sql span []
classify_definition (Statement.alter_enum_stmt type_name old_val) sql span =
    built
      (elim old_val [
        | none ↦ StatementKind.alter_enum_add_value
        | some _ ↦ StatementKind.alter_enum_rename_value
      ])
      "AlterEnumStmt" sql span (named_target type_name) no_details
classify_definition (Statement.create_domain_stmt domainname) sql span =
    built StatementKind.create_domain "CreateDomainStmt" sql span (named_target domainname)
      no_details
classify_definition (Statement.alter_domain_stmt type_name) sql span =
    built StatementKind.alter_domain "AlterDomainStmt" sql span (named_target type_name) no_details
classify_definition (Statement.create_function_stmt is_procedure funcname) sql span =
    built (if is_procedure then StatementKind.create_procedure else StatementKind.create_function)
      "CreateFunctionStmt" sql span (named_target funcname) no_details
classify_definition Statement.alter_function_stmt sql span =
    simple_statement StatementKind.alter_function "AlterFunctionStmt" sql span []
classify_definition (Statement.create_trig_stmt relation) sql span =
    simple_statement StatementKind.create_trigger "CreateTrigStmt" sql span (relation ∷ [])
classify_definition (Statement.create_policy_stmt table) sql span =
    simple_statement StatementKind.create_policy "CreatePolicyStmt" sql span (table ∷ [])
classify_definition (Statement.alter_policy_stmt table) sql span =
    simple_statement StatementKind.alter_policy "AlterPolicyStmt" sql span (table ∷ [])
classify_definition (Statement.rule_stmt relation) sql span =
    simple_statement StatementKind.create_rule "RuleStmt" sql span (relation ∷ [])
classify_definition Statement.create_extension_stmt sql span =
    simple_statement StatementKind.create_extension "CreateExtensionStmt" sql span []
classify_definition Statement.alter_extension_stmt sql span =
    simple_statement StatementKind.alter_extension "AlterExtensionStmt" sql span []
classify_definition Statement.create_schema_stmt sql span =
    simple_statement StatementKind.create_schema "CreateSchemaStmt" sql span []
classify_definition Statement.create_role_stmt sql span =
    simple_statement StatementKind.create_role "CreateRoleStmt" sql span []
classify_definition Statement.alter_role_stmt sql span =
    simple_statement StatementKind.alter_role "AlterRoleStmt" sql span []
classify_definition Statement.alter_role_set_stmt sql span =
    simple_statement StatementKind.alter_role "AlterRoleSetStmt" sql span []
classify_definition Statement.drop_role_stmt sql span =
    simple_statement StatementKind.drop_role "DropRoleStmt" sql span []
classify_definition (Statement.grant_stmt is_grant) sql span =
    simple_statement (if is_grant then StatementKind.grant else StatementKind.revoke) "GrantStmt"
      sql span []
classify_definition (Statement.grant_role_stmt is_grant) sql span =
    simple_statement (if is_grant then StatementKind.grant else StatementKind.revoke)
      "GrantRoleStmt" sql span []
classify_definition Statement.alter_default_privileges_stmt sql span =
    simple_statement StatementKind.alter_default_privileges "AlterDefaultPrivilegesStmt" sql span []
classify_definition Statement.comment_stmt sql span =
    simple_statement StatementKind.comment_on "CommentStmt" sql span []
classify_definition stmt sql span = classify_data stmt sql span
