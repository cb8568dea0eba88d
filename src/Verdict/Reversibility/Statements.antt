-- ===== src/Verdict/Reversibility/Statements.antt =====
-- verdict/reversibility.py: the table of the statements.
use blastoise.Ir.{StatementKind}
use blastoise.Verdict.Model.{ReversibilityAssessment}
use blastoise.Verdict.Reversibility.Shared.{
  created, irrev, maintenance, no_change, read_only, rename, rev, settings, undecided,
}

unfoldable pub statement_reversibility : StatementKind → ReversibilityAssessment
statement_reversibility StatementKind.begin = no_change
statement_reversibility StatementKind.commit = no_change
statement_reversibility StatementKind.rollback = no_change
statement_reversibility StatementKind.savepoint = no_change
statement_reversibility StatementKind.release_savepoint = no_change
statement_reversibility StatementKind.rollback_to_savepoint = no_change
statement_reversibility StatementKind.transaction_other = no_change
statement_reversibility StatementKind.create_table = created
statement_reversibility StatementKind.create_table_partition_of = created
statement_reversibility StatementKind.create_table_as = created
statement_reversibility StatementKind.select_into = created
statement_reversibility StatementKind.create_foreign_table = created
statement_reversibility StatementKind.create_view = created
statement_reversibility StatementKind.create_matview = created
statement_reversibility StatementKind.create_sequence = created
statement_reversibility StatementKind.create_enum_type = created
statement_reversibility StatementKind.create_composite_type = created
statement_reversibility StatementKind.create_range_type = created
statement_reversibility StatementKind.create_domain = created
statement_reversibility StatementKind.create_statistics = created
statement_reversibility StatementKind.create_aggregate = created
statement_reversibility StatementKind.create_function = created
statement_reversibility StatementKind.create_procedure = created
statement_reversibility StatementKind.create_trigger = created
statement_reversibility StatementKind.create_policy = created
statement_reversibility StatementKind.create_rule = created
statement_reversibility StatementKind.create_extension = created
statement_reversibility StatementKind.create_schema = created
statement_reversibility StatementKind.create_role = created
statement_reversibility StatementKind.create_index = created
statement_reversibility StatementKind.create_index_concurrently = created
statement_reversibility StatementKind.create_database = created
statement_reversibility StatementKind.create_tablespace = created
statement_reversibility StatementKind.drop_table =
    irrev
      "the table's rows, and its indexes, constraints, triggers, policies, ACLs and comments (plus every dependent object under CASCADE); recreating the shape does not restore the data"
      "dropped row data exists nowhere else"
statement_reversibility StatementKind.truncate =
    irrev
      "every row of the table (with CASCADE: every row of every table whose foreign keys reference it; with RESTART IDENTITY: the positions of owned sequences)"
      "truncated rows exist nowhere else"
statement_reversibility StatementKind.drop_index =
    rev "an index is derived data: recreating it restores it (rebuild cost)"
statement_reversibility StatementKind.drop_index_concurrently =
    rev "an index is derived data: recreating it restores it (rebuild cost)"
statement_reversibility StatementKind.drop_view =
    irrev
      "the view's definition as stored in the database (and dependent views under CASCADE); recoverable only from schema history"
      "the definition is destroyed with the object"
statement_reversibility StatementKind.drop_matview =
    irrev
      "the materialized view's definition and its materialized contents; the contents are recomputable only if the defining query is recorded elsewhere"
      "the definition is destroyed with the object"
statement_reversibility StatementKind.drop_sequence =
    irrev
      "the sequence's current position: recreating it restarts numbering and can re-issue already-used values"
      "the position is not recorded anywhere else"
statement_reversibility StatementKind.drop_type =
    irrev "the type definition; under CASCADE, dependent columns are dropped with their data"
      "the definition is destroyed with the object"
statement_reversibility StatementKind.drop_domain =
    irrev "the domain definition; under CASCADE, dependent columns are dropped with their data"
      "the definition is destroyed with the object"
statement_reversibility StatementKind.drop_function =
    irrev "the function's body as stored in the database; recoverable only from schema history"
      "the definition is destroyed with the object"
statement_reversibility StatementKind.drop_procedure =
    irrev "the procedure's body as stored in the database; recoverable only from schema history"
      "the definition is destroyed with the object"
statement_reversibility StatementKind.drop_aggregate =
    irrev "the aggregate's definition as stored in the database"
      "the definition is destroyed with the object"
statement_reversibility StatementKind.drop_trigger =
    irrev "the trigger's definition on the table; recoverable only from schema history"
      "the definition is destroyed with the object"
statement_reversibility StatementKind.drop_policy =
    irrev "the policy's predicate and role list; recoverable only from schema history"
      "the definition is destroyed with the object"
statement_reversibility StatementKind.drop_extension =
    irrev "every object the extension owns, including any data in extension-owned tables"
      "extension objects are dropped with it"
statement_reversibility StatementKind.drop_schema =
    irrev "under CASCADE: every contained object and its data"
      "contained objects are destroyed with the schema"
statement_reversibility StatementKind.drop_role =
    irrev "the role's memberships, settings and password"
      "role attributes are not recorded elsewhere"
statement_reversibility StatementKind.drop_database =
    irrev "the entire database" "everything in it is destroyed"
statement_reversibility StatementKind.drop_tablespace =
    rev "a tablespace must already be empty to be dropped; nothing is lost"
statement_reversibility StatementKind.alter_table =
    undecided "assessed per subcommand; no subcommand was parsed"
statement_reversibility StatementKind.alter_index = settings
statement_reversibility StatementKind.alter_view = settings
statement_reversibility StatementKind.alter_matview = settings
statement_reversibility StatementKind.alter_foreign_table =
    undecided "assessed per subcommand; no subcommand was parsed"
statement_reversibility StatementKind.alter_composite_type =
    undecided
      "the subcommand is not recorded: DROP ATTRIBUTE discards that attribute's value in every column of this composite type; ADD ATTRIBUTE is reversible"
statement_reversibility StatementKind.rename_table = rename
statement_reversibility StatementKind.rename_column = rename
statement_reversibility StatementKind.rename_index = rename
statement_reversibility StatementKind.rename_constraint = rename
statement_reversibility StatementKind.rename_view = rename
statement_reversibility StatementKind.rename_matview = rename
statement_reversibility StatementKind.rename_type = rename
statement_reversibility StatementKind.rename_other = rename
statement_reversibility StatementKind.alter_object_schema =
    rev "moving the object back restores the previous state"
statement_reversibility StatementKind.alter_owner = rev "ownership can be transferred back"
statement_reversibility StatementKind.reindex = maintenance
statement_reversibility StatementKind.reindex_concurrently = maintenance
statement_reversibility StatementKind.vacuum = maintenance
statement_reversibility StatementKind.vacuum_full = maintenance
statement_reversibility StatementKind.analyze = maintenance
statement_reversibility StatementKind.cluster = maintenance
statement_reversibility StatementKind.refresh_matview =
    rev
      "contents are derived from the defining query; the pre-refresh snapshot is discarded but was itself derived data"
statement_reversibility StatementKind.refresh_matview_concurrently =
    rev
      "contents are derived from the defining query; the pre-refresh snapshot is discarded but was itself derived data"
statement_reversibility StatementKind.alter_sequence =
    undecided
      "which ALTER SEQUENCE form is not recorded: RESTART discards the current position (already-used values can be re-issued); the other forms are reversible"
statement_reversibility StatementKind.alter_enum_add_value =
    irrev
      "nothing yet — but the added label can never be removed (Postgres has no ALTER TYPE ... DROP VALUE); it can only be renamed"
      "enum labels are permanent once committed"
statement_reversibility StatementKind.alter_enum_rename_value = rename
statement_reversibility StatementKind.alter_domain =
    undecided "which ALTER DOMAIN form is not recorded"
statement_reversibility StatementKind.alter_function = settings
statement_reversibility StatementKind.alter_policy = settings
statement_reversibility StatementKind.alter_statistics = settings
statement_reversibility StatementKind.alter_extension =
    undecided
      "which ALTER EXTENSION form is not recorded; UPDATE runs the extension's upgrade scripts, which have no downgrade path"
statement_reversibility StatementKind.grant = settings
statement_reversibility StatementKind.revoke = settings
statement_reversibility StatementKind.alter_default_privileges = settings
statement_reversibility StatementKind.alter_role = settings
statement_reversibility StatementKind.alter_database = settings
statement_reversibility StatementKind.alter_system = settings
statement_reversibility StatementKind.comment_on =
    rev "a comment can be set back; the previous comment text must come from history"
statement_reversibility StatementKind.set = no_change
statement_reversibility StatementKind.reset = no_change
statement_reversibility StatementKind.show = read_only
statement_reversibility StatementKind.lock_table = no_change
statement_reversibility StatementKind.insert =
    rev "inserted rows can be deleted, provided the migration can identify them"
statement_reversibility StatementKind.copy_from =
    rev "loaded rows can be deleted, provided the migration can identify them"
statement_reversibility StatementKind.update =
    irrev "the pre-update values of every matched row"
      "old row versions are dead after commit and vacuumed away"
statement_reversibility StatementKind.update_without_where =
    irrev "the pre-update values of every row in the table"
      "old row versions are dead after commit and vacuumed away"
statement_reversibility StatementKind.update_batched =
    irrev "the pre-update values of every matched row"
      "old row versions are dead after commit and vacuumed away"
statement_reversibility StatementKind.delete =
    irrev "every deleted row" "deleted rows exist nowhere else"
statement_reversibility StatementKind.delete_without_where =
    irrev "every row of the table" "deleted rows exist nowhere else"
statement_reversibility StatementKind.delete_batched =
    irrev "every deleted row" "deleted rows exist nowhere else"
statement_reversibility StatementKind.merge =
    irrev "the pre-merge values of updated rows and every deleted row"
      "old row versions are dead after commit"
statement_reversibility StatementKind.select = read_only
statement_reversibility StatementKind.copy_to = read_only
statement_reversibility StatementKind.call =
    undecided "the procedure body is opaque; what it changes is unknown"
statement_reversibility StatementKind.do_block =
    undecided "composed from the block's inner statements"
statement_reversibility StatementKind.other = undecided "statement form not modeled"
