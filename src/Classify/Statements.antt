-- ===== src/Classify/Statements.antt =====
-- classify.py `classify_statement`: transactions, tables, indexes, views. The rest is in `Objects`.
use blastoise.Base.{
  Bool, true, false, Option, some, List, [], ◌∷◌, map, Text, codes, if◌then◌else◌, list_eq, nat_eq,
}
use blastoise.Ir.{
  StatementKind, SourceSpan, ParsedStatement, parsed, no_details, transaction_details,
  create_table_as_details, truncate_details, rename_details, index_details, reindex_details,
}
use blastoise.Sql.{
  Pglast, Statement, RangeVar, of_class, ObjectType, object_matview, IndexStmt, AlterTableCmd,
}
use blastoise.Classify.Names.{targets, option_enabled}
use blastoise.Classify.Windows.{present}
use blastoise.Classify.Alter.{alter_table_action}
use blastoise.Classify.Drops.{classify_drop}
use blastoise.Classify.Tables.{classify_create, classify_foreign_table}
use blastoise.Classify.Shapes.{
  built, simple_statement, transaction_kind, alter_relation_kind, rename_kind, rename_targets,
  object_type_name, only_relation, reindex_scope, vacuum_kind, has_expression, index_method,
}
use blastoise.Classify.Objects.{named_target, classify_definition}

unfoldable pub classify_alter :
    Pglast
    → Option ObjectType
    → List (Option AlterTableCmd)
    → Option RangeVar
    → Text
    → SourceSpan
    → ParsedStatement
classify_alter pglast objtype cmds relation sql span =
    parsed
      (record {
        kind = alter_relation_kind objtype;
        sql = sql;
        span = span;
        node_tag = codes "AlterTableStmt";
        targets = targets (relation ∷ []);
        alter_actions = map (alter_table_action pglast) (of_class cmds);
        only = only_relation relation;
      })
      no_details

unfoldable pub classify_index : IndexStmt → Text → SourceSpan → ParsedStatement
classify_index i sql span =
    parsed
      (record {
        kind =
            if i.concurrent
            then StatementKind.create_index_concurrently
            else StatementKind.create_index;
        sql = sql;
        span = span;
        node_tag = codes "IndexStmt";
        targets = targets (i.relation ∷ []);
        alter_actions = [];
        only = only_relation i.relation;
      })
      (index_details (record {
        index_name = i.idxname;
        unique = i.unique;
        method = index_method i.access_method;
        partial = present i.where_clause;
        has_expression = has_expression i.index_params;
        if_not_exists = i.if_not_exists;
      }))

abbrev is_matview : Option ObjectType → Bool
is_matview (some object_matview) = true
is_matview _ = false

-- Indexes, maintenance, views and sequences.
unfoldable pub classify_maintenance : Statement → Text → SourceSpan → ParsedStatement
unfolding classify_definition
classify_maintenance (Statement.index_stmt i) sql span = classify_index i sql span
classify_maintenance (Statement.create_stats_stmt relations) sql span =
    simple_statement StatementKind.create_statistics "CreateStatsStmt" sql span relations
classify_maintenance (Statement.alter_stats_stmt defnames) sql span =
    built StatementKind.alter_statistics "AlterStatsStmt" sql span (named_target defnames)
      no_details
classify_maintenance (Statement.reindex_stmt kind_name relation name params) sql span =
    built
      (if option_enabled (codes "concurrently") (of_class params)
        then StatementKind.reindex_concurrently
        else StatementKind.reindex)
      "ReindexStmt" sql span (targets (relation ∷ []))
      (reindex_details (record { scope = reindex_scope kind_name; object_name = name }))
classify_maintenance (Statement.vacuum_stmt is_vacuumcmd options rels) sql span =
    simple_statement (vacuum_kind is_vacuumcmd (option_enabled (codes "full") (of_class options)))
      "VacuumStmt" sql span rels
classify_maintenance (Statement.cluster_stmt relation) sql span =
    simple_statement StatementKind.cluster "ClusterStmt" sql span (relation ∷ [])
classify_maintenance (Statement.refresh_matview_stmt concurrent skip_data relation) sql span =
    built
      (if concurrent
        then StatementKind.refresh_matview_concurrently
        else StatementKind.refresh_matview)
      "RefreshMatViewStmt" sql span (targets (relation ∷ [])) (create_table_as_details skip_data)
classify_maintenance (Statement.view_stmt view) sql span =
    simple_statement StatementKind.create_view "ViewStmt" sql span (view ∷ [])
classify_maintenance (Statement.create_seq_stmt sequence) sql span =
    simple_statement StatementKind.create_sequence "CreateSeqStmt" sql span (sequence ∷ [])
classify_maintenance (Statement.alter_seq_stmt sequence) sql span =
    simple_statement StatementKind.alter_sequence "AlterSeqStmt" sql span (sequence ∷ [])
classify_maintenance stmt sql span = classify_definition stmt sql span

-- Every class of statement but DO: transactions and tables, then the rest.
unfoldable pub classify_plain : Pglast → Statement → Text → SourceSpan → ParsedStatement
unfolding classify_maintenance
classify_plain pglast (Statement.transaction_stmt kind savepoint_name chain) sql span =
    built (transaction_kind kind) "TransactionStmt" sql span []
      (transaction_details (record { savepoint_name = savepoint_name; chain = chain }))
classify_plain pglast (Statement.alter_table_stmt objtype cmds relation) sql span =
    classify_alter pglast objtype cmds relation sql span
classify_plain pglast (Statement.create_foreign_table_stmt base) sql span =
    classify_foreign_table base sql span
classify_plain pglast (Statement.create_stmt c) sql span = classify_create c sql span
classify_plain pglast (Statement.create_table_as_stmt objtype rel skip_data) sql span =
    built
      (if is_matview objtype then StatementKind.create_matview else StatementKind.create_table_as)
      "CreateTableAsStmt" sql span (targets (rel ∷ [])) (create_table_as_details skip_data)
classify_plain pglast (Statement.drop_stmt d) sql span = classify_drop d sql span
classify_plain pglast (Statement.truncate_stmt relations cascade restart_seqs) sql span =
    built StatementKind.truncate "TruncateStmt" sql span (targets relations)
      (truncate_details (record { cascade = cascade; restart_identity = restart_seqs }))
classify_plain pglast (Statement.rename_stmt rename_type relation object subname newname) sql span =
    built (rename_kind rename_type) "RenameStmt" sql span (rename_targets relation object) (
      rename_details (record {
        old_name = subname;
        new_name = newname;
        object_type = object_type_name rename_type;
      }))
classify_plain pglast (Statement.alter_object_schema_stmt relation) sql span =
    simple_statement StatementKind.alter_object_schema "AlterObjectSchemaStmt" sql span
      (relation ∷ [])
classify_plain pglast (Statement.alter_owner_stmt relation) sql span =
    simple_statement StatementKind.alter_owner "AlterOwnerStmt" sql span (relation ∷ [])
classify_plain pglast stmt sql span = classify_maintenance stmt sql span
