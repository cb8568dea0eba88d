-- ===== src/Verdict/Reversibility/Actions.antt =====
-- verdict/reversibility.py: the table of the ALTER TABLE subcommands.
use blastoise.Ir.{AlterTableActionKind}
use blastoise.Verdict.Model.{ReversibilityAssessment}
use blastoise.Verdict.Reversibility.Shared.{constraint_add, irrev, rev, settings, undecided}

unfoldable pub action_reversibility : AlterTableActionKind → ReversibilityAssessment
action_reversibility AlterTableActionKind.add_column =
    rev "dropping the added column undoes it; no pre-existing data is touched"
action_reversibility AlterTableActionKind.add_column_not_null_no_default =
    rev "dropping the added column undoes it; no pre-existing data is touched"
action_reversibility AlterTableActionKind.add_column_default_nonvolatile =
    rev "dropping the added column undoes it; no pre-existing data is touched"
action_reversibility AlterTableActionKind.add_column_default_volatile =
    rev "dropping the added column undoes it; no pre-existing data is touched"
action_reversibility AlterTableActionKind.add_column_default_unknown_volatility =
    rev "dropping the added column undoes it; no pre-existing data is touched"
action_reversibility AlterTableActionKind.add_column_serial =
    rev "dropping the added column (and its sequence) undoes it; no pre-existing data is touched"
action_reversibility AlterTableActionKind.add_column_identity =
    rev "dropping the added column (and its sequence) undoes it; no pre-existing data is touched"
action_reversibility AlterTableActionKind.add_column_generated_stored =
    rev "dropping the added column undoes it; no pre-existing data is touched"
action_reversibility AlterTableActionKind.add_column_generated_virtual =
    rev "dropping the added column undoes it; no pre-existing data is touched"
action_reversibility AlterTableActionKind.drop_column =
    irrev
      "every value in the dropped column, plus its default, its constraints, and any index built on it"
      "column data exists nowhere else"
action_reversibility AlterTableActionKind.alter_column_type =
    undecided
      "whether the cast loses information (precision, timezone, truncation) is not derivable statically; a lossless change is reversible, a lossy one destroys the original values"
action_reversibility AlterTableActionKind.set_column_default = settings
action_reversibility AlterTableActionKind.drop_column_default = settings
action_reversibility AlterTableActionKind.set_not_null =
    rev "DROP NOT NULL restores the previous state exactly"
action_reversibility AlterTableActionKind.drop_not_null =
    rev
      "SET NOT NULL restores it (it may fail if NULLs were inserted meanwhile, but no data is lost)"
action_reversibility AlterTableActionKind.add_identity =
    rev "DROP IDENTITY undoes it; existing values are untouched"
action_reversibility AlterTableActionKind.set_identity = settings
action_reversibility AlterTableActionKind.drop_identity =
    irrev "the backing identity sequence and its current position"
      "the sequence is dropped with the identity"
action_reversibility AlterTableActionKind.set_expression =
    rev
      "generated values are derived; setting the previous expression back recomputes them (the expression must come from history)"
action_reversibility AlterTableActionKind.drop_expression =
    rev "the column keeps its values; re-adding the expression recomputes them"
action_reversibility AlterTableActionKind.set_statistics = settings
action_reversibility AlterTableActionKind.set_storage = settings
action_reversibility AlterTableActionKind.set_compression = settings
action_reversibility AlterTableActionKind.set_column_options = settings
action_reversibility AlterTableActionKind.reset_column_options = settings
action_reversibility AlterTableActionKind.add_primary_key = constraint_add
action_reversibility AlterTableActionKind.add_primary_key_using_index = constraint_add
action_reversibility AlterTableActionKind.add_unique = constraint_add
action_reversibility AlterTableActionKind.add_unique_using_index = constraint_add
action_reversibility AlterTableActionKind.add_foreign_key = constraint_add
action_reversibility AlterTableActionKind.add_foreign_key_not_valid = constraint_add
action_reversibility AlterTableActionKind.add_check = constraint_add
action_reversibility AlterTableActionKind.add_check_not_valid = constraint_add
action_reversibility AlterTableActionKind.add_not_null_constraint = constraint_add
action_reversibility AlterTableActionKind.add_not_null_constraint_not_valid = constraint_add
action_reversibility AlterTableActionKind.add_exclusion = constraint_add
action_reversibility AlterTableActionKind.add_constraint_other = constraint_add
action_reversibility AlterTableActionKind.validate_constraint =
    rev
      "validation is metadata; the NOT VALID marker cannot be restored directly, but nothing is lost"
action_reversibility AlterTableActionKind.drop_constraint =
    rev
      "re-adding the constraint restores it (definition from history; revalidation and index-rebuild cost, no data loss)"
action_reversibility AlterTableActionKind.alter_constraint = settings
action_reversibility AlterTableActionKind.set_storage_params = settings
action_reversibility AlterTableActionKind.reset_storage_params = settings
action_reversibility AlterTableActionKind.replace_storage_params = settings
action_reversibility AlterTableActionKind.set_logged =
    rev "SET UNLOGGED flips it back; contents are unchanged"
action_reversibility AlterTableActionKind.set_unlogged =
    rev
      "SET LOGGED flips it back; note that while unlogged the table's contents do not survive a crash and are not replicated"
action_reversibility AlterTableActionKind.set_tablespace =
    rev "moving the table back restores the previous placement"
action_reversibility AlterTableActionKind.set_access_method =
    rev "setting the previous access method rewrites back"
action_reversibility AlterTableActionKind.attach_partition =
    rev "DETACH PARTITION undoes it; rows stay in the partition"
action_reversibility AlterTableActionKind.detach_partition =
    rev "ATTACH PARTITION undoes it; rows stay in the table"
action_reversibility AlterTableActionKind.detach_partition_concurrently =
    rev "ATTACH PARTITION undoes it; rows stay in the table"
action_reversibility AlterTableActionKind.detach_partition_finalize =
    rev "ATTACH PARTITION undoes it; rows stay in the table"
action_reversibility AlterTableActionKind.enable_trigger =
    rev "DISABLE TRIGGER restores the previous state"
action_reversibility AlterTableActionKind.disable_trigger =
    rev
      "ENABLE TRIGGER restores the setting; side effects the trigger would have produced for writes made while disabled are never recovered"
action_reversibility AlterTableActionKind.enable_rule =
    rev "DISABLE RULE restores the previous state"
action_reversibility AlterTableActionKind.disable_rule = rev "ENABLE RULE restores the setting"
action_reversibility AlterTableActionKind.enable_row_security =
    rev "DISABLE ROW SECURITY restores the previous state"
action_reversibility AlterTableActionKind.disable_row_security =
    rev "ENABLE ROW SECURITY restores the previous state"
action_reversibility AlterTableActionKind.force_row_security =
    rev "NO FORCE ROW SECURITY restores the previous state"
action_reversibility AlterTableActionKind.no_force_row_security =
    rev "FORCE ROW SECURITY restores the previous state"
action_reversibility AlterTableActionKind.cluster_on = settings
action_reversibility AlterTableActionKind.drop_cluster = settings
action_reversibility AlterTableActionKind.change_owner = rev "ownership can be transferred back"
action_reversibility AlterTableActionKind.inherit = rev "NO INHERIT undoes it"
action_reversibility AlterTableActionKind.no_inherit = rev "INHERIT undoes it"
action_reversibility AlterTableActionKind.of_type = rev "NOT OF undoes it"
action_reversibility AlterTableActionKind.not_of = rev "OF <type> undoes it"
action_reversibility AlterTableActionKind.replica_identity = settings
action_reversibility AlterTableActionKind.other = undecided "subcommand form not modeled"
