-- ===== src/Verdict/Narrow/Constraints.antt =====
-- verdict/narrow.py: the narrowings of the constraint subcommands.
use blastoise.Base.{
  Bool, false, ◌&&◌, ◌||◌, Option, some, none, List, Text, codes, first, any, all, contains, nat_eq,
  list_eq, option_eq, ◌==◌, if◌then◌else◌,
}
use blastoise.Ir.{AlterTableAction}
use blastoise.Catalog.{LockMode, row_share, access_exclusive}
use blastoise.Live.{value, RelationFacts, ColumnFacts, ConstraintFacts}
use blastoise.Verdict.Constants.{fk_validation}
use blastoise.Verdict.Model.{
  observed, unverified, no_narrative, already_not_null, constraint_proves, nothing_proves,
  already_validated, foreign_key_validation, scans_this_table, absent, foreign_key_drop,
  only_this_table, columns_not_null,
}
use blastoise.Verdict.Narrow.Checks.{check_expression_proves_not_null}
use blastoise.Verdict.Narrow.Results.{
  constant, proportional, keep_model, NarrowResult, narrowed, open_question, constraints_of,
}

-- A validated CHECK whose expression proves the column, or a validated NOT NULL row that names it.
unfoldable pub proves_not_null : Text → ConstraintFacts → Bool
proves_not_null column c =
    c.contype == codes "c"
      && (c.validated && elim c.check_expression [
        | none ↦ false
        | some e ↦ check_expression_proves_not_null e column
      ])
    || c.contype == codes "n" && (c.validated && contains column c.columns)

unfoldable pub columns_read : Option RelationFacts → Option (List ColumnFacts)
columns_read none = none
columns_read (some r) = value r.columns

unfoldable pub is_already_not_null : Text → Option RelationFacts → Bool
unfolding columns_read
is_already_not_null column facts = elim (columns_read facts) [
  | none ↦ false
  | some cs ↦ any (λ (c : ColumnFacts). c.name == column && c.not_null) cs
]

-- `_narrow_set_not_null`
unfoldable pub narrow_set_not_null : AlterTableAction → Option RelationFacts → NarrowResult
unfolding is_already_not_null
narrow_set_not_null action facts = elim action.column [
  | none ↦ open_question
  | some column ↦
      if is_already_not_null column facts
      then narrowed observed constant (already_not_null column)
      else elim (constraints_of facts) [
        | none ↦ open_question
        | some cs ↦ elim (first (proves_not_null column) cs) [
          | some c ↦ narrowed observed constant (constraint_proves c.name column)
          | none ↦ narrowed observed proportional (nothing_proves column)
        ]
      ]
]

-- `next((c for c in constraints if c.name == action.constraint_name), None)`
unfoldable pub named_constraint : AlterTableAction → List ConstraintFacts → Option ConstraintFacts
named_constraint action cs =
    first (λ (c : ConstraintFacts). some c.name == action.constraint_name) cs

-- The referenced table with the mode that is taken on it.
referenced : ConstraintFacts → LockMode → Option (Text × LockMode)
referenced c mode = elim c.referenced_table [ none ↦ none | some t ↦ some (t, mode) ]

unfoldable pub validate_result : ConstraintFacts → NarrowResult
unfolding referenced
validate_result c =
    if c.validated
    then narrowed observed constant (already_validated c.name)
    else if c.contype == codes "f"
    then record (narrowed observed proportional
        (foreign_key_validation c.name c.referenced_table)) {
          extra_relation = referenced c row_share;
          family_override = some fk_validation;
        }
    else narrowed observed proportional (scans_this_table c.name c.contype)

-- `_narrow_validate_constraint`
unfoldable pub narrow_validate_constraint : AlterTableAction → Option RelationFacts → NarrowResult
unfolding validate_result
narrow_validate_constraint action facts = elim (constraints_of facts) [
  | none ↦ open_question
  | some cs ↦ elim (named_constraint action cs) [
    | none ↦ open_question
    | some c ↦ validate_result c
  ]
]

unfoldable pub drop_result : ConstraintFacts → NarrowResult
unfolding referenced
drop_result c =
    if c.contype == codes "f"
    then record (narrowed observed constant (foreign_key_drop c.name c.referenced_table)) {
      extra_relation = referenced c access_exclusive;
    }
    else narrowed observed constant (only_this_table c.name c.contype)

-- `_narrow_drop_constraint`
unfoldable pub narrow_drop_constraint : AlterTableAction → Option RelationFacts → NarrowResult
unfolding drop_result
narrow_drop_constraint action facts = elim (constraints_of facts) [
  | none ↦ open_question
  | some cs ↦ elim (named_constraint action cs) [
    | none ↦ narrowed observed constant (absent action.constraint_name action.missing_ok)
    | some c ↦ drop_result c
  ]
]

-- `_narrow_add_pk_using_index`
unfoldable pub narrow_add_pk_using_index : Option RelationFacts → NarrowResult
unfolding columns_read
narrow_add_pk_using_index none = narrowed unverified keep_model no_narrative
narrow_add_pk_using_index (some r) = elim (value r.columns) [
  | none ↦ narrowed observed keep_model no_narrative
  | some cs ↦
      if all (λ (c : ColumnFacts). c.not_null) cs
      then narrowed observed constant columns_not_null
      else narrowed observed keep_model no_narrative
]
