-- ===== src/Verdict/Narrow/Actions.antt =====
-- verdict/narrow.py `narrow_action`: the narrowing of one subcommand.
use blastoise.Base.{ℕ, Option, some, none, Text}
use blastoise.Ir.{
  AlterTableAction, AlterTableActionKind, ParsedStatement, head, first_target, Volatility,
}
use blastoise.Live.{LiveSnapshot, RelationFacts}
use blastoise.Verdict.Probes.{probe_name}
use blastoise.Verdict.Narrow.Results.{NarrowResult, relation_facts_for}
use blastoise.Live.Resolve.{Decided}
use blastoise.Verdict.Narrow.Columns.{
  narrow_add_column_domain, narrow_add_column_unknown_volatility, narrow_alter_column_type,
  narrow_set_expression,
}
use blastoise.Verdict.Narrow.Constraints.{
  narrow_set_not_null, narrow_validate_constraint, narrow_drop_constraint,
  narrow_add_pk_using_index,
}

-- The facts of the statement's first target.
unfoldable pub target_facts : ParsedStatement → LiveSnapshot → Option RelationFacts
target_facts statement snapshot = elim (first_target (head statement).targets) [
  | none ↦ none
  | some target ↦ relation_facts_for snapshot (probe_name target)
]

module _ (evaluate : Text → Decided → Volatility) (action : AlterTableAction)
    (statement : ParsedStatement) (snapshot : LiveSnapshot) (pg_major : ℕ) where
  unfoldable pub narrow_kind : Option RelationFacts → AlterTableActionKind → Option NarrowResult
  narrow_kind facts AlterTableActionKind.add_column_default_nonvolatile =
      some (narrow_add_column_domain action snapshot)
  narrow_kind facts AlterTableActionKind.add_column_default_unknown_volatility =
      some (narrow_add_column_unknown_volatility evaluate action snapshot)
  narrow_kind facts AlterTableActionKind.alter_column_type =
      some (narrow_alter_column_type action statement snapshot pg_major)
  narrow_kind facts AlterTableActionKind.set_not_null = some (narrow_set_not_null action facts)
  narrow_kind facts AlterTableActionKind.add_not_null_constraint =
      some (narrow_set_not_null action facts)
  narrow_kind facts AlterTableActionKind.validate_constraint =
      some (narrow_validate_constraint action facts)
  narrow_kind facts AlterTableActionKind.drop_constraint =
      some (narrow_drop_constraint action facts)
  narrow_kind facts AlterTableActionKind.add_primary_key_using_index =
      some (narrow_add_pk_using_index facts)
  narrow_kind facts AlterTableActionKind.set_expression = some (narrow_set_expression action facts)
  narrow_kind facts _ = none

  unfoldable pub narrow_action : Option NarrowResult
  unfolding target_facts narrow_kind
  narrow_action = narrow_kind (target_facts statement snapshot) action.kind
