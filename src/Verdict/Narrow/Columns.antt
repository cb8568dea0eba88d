-- ===== src/Verdict/Narrow/Columns.antt =====
-- verdict/narrow.py: the narrowings of ADD COLUMN, ALTER COLUMN TYPE and SET EXPRESSION.
use blastoise.Base.{
  ℕ, Bool, true, ◌&&◌, ◌||◌, not, Option, some, none, List, [], ◌∷◌, map, Text, codes, keep,
  contains, ltb, length, nat_eq, list_eq, ◌==◌, if◌then◌else◌,
}
use blastoise.Ir.{AlterTableAction, ParsedStatement, head, first_target, QualifiedName, Volatility}
use blastoise.Live.{
  known, missing, available, value, LiveSnapshot, RelationFacts, TypeFacts, IndexFacts, ColumnFacts,
}
use blastoise.Live.Resolve.{Decided, decide_default_volatility}
use blastoise.Live.TypeChange.{
  assess_type_change, type_change_reason, RewriteVerdict, no_rewrite, rewrite,
  no_rewrite_if_session_tz_utc, truthy, or_zero,
}
use blastoise.Verdict.Constants.{Family, index_build_btree, index_build_expression}
use blastoise.Verdict.Model.{
  observed, session_timezone_utc, not_a_domain, constrained_domain, unconstrained_domain,
  default_volatile, default_decided, no_table_rewrite, no_table_rewrite_but_rebuilds,
  conditional_rewrite, table_rewritten, virtual_generated, stored_generated,
}
use blastoise.Verdict.Probes.{probe_name}
use blastoise.Verdict.Narrow.Results.{
  constant, proportional, unresolved, NarrowResult, narrowed, open_question, relation_facts_for,
  type_facts_for, typechange_facts_for,
}

unfoldable pub domain_result : Text → TypeFacts → NarrowResult
domain_result column_type t = elim t.is_domain [
  | missing _ ↦ open_question
  | known d ↦
      if (elim d [ none ↦ true | some b ↦ b ])
      then (if available t.domain_constraint_count && available t.domain_not_null
          then (if ltb 0 (or_zero (value t.domain_constraint_count))
                || truthy (value t.domain_not_null)
              then narrowed observed proportional (
                  constrained_domain column_type (value t.domain_constraint_count)
                    (truthy (value t.domain_not_null)))
              else narrowed observed constant (unconstrained_domain column_type))
          else open_question)
      else narrowed observed constant (not_a_domain column_type)
]

-- `_narrow_add_column_domain`
unfoldable pub narrow_add_column_domain : AlterTableAction → LiveSnapshot → NarrowResult
unfolding domain_result
narrow_add_column_domain action snapshot = elim action.column_type [
  | none ↦ open_question
  | some column_type ↦ elim (type_facts_for snapshot column_type) [
    | none ↦ open_question
    | some t ↦ domain_result column_type t
  ]
]

unfoldable pub decided_default : Volatility → NarrowResult → NarrowResult
decided_default decided domain = elim domain.outcome [
  | unresolved ↦ open_question
  | _ ↦ record (narrowed observed domain.outcome (default_decided decided domain.narrative)) {
    conditions = domain.conditions;
  }
]

-- `_narrow_add_column_unknown_volatility`
unfoldable pub narrow_add_column_unknown_volatility :
    (evaluate : Text → Decided → Volatility) → AlterTableAction → LiveSnapshot → NarrowResult
unfolding decided_default
narrow_add_column_unknown_volatility evaluate action snapshot = elim action.default [
  | none ↦ open_question
  | some default ↦ elim (decide_default_volatility evaluate default snapshot) [
    | Volatility.unknown ↦ open_question
    | Volatility.volatile ↦ narrowed observed proportional default_volatile
    | decided ↦ decided_default decided (narrow_add_column_domain action snapshot)
  ]
]

-- `_rebuild_family`
rebuild_family : IndexFacts → Family
rebuild_family ix =
    if ix.has_expressions || not (ix.method == codes "btree")
    then index_build_expression
    else index_build_btree

abbrev pub is_rebuilt : IndexFacts → Bool
is_rebuilt ix =
    ix.partial
    || (ix.has_expressions || (not (ix.method == codes "btree") || not ix.default_opclasses))

unfoldable pub indexes_read : RelationFacts → Option (List IndexFacts)
indexes_read r = elim r.exists [
  | missing _ ↦ none
  | known none ↦ value r.indexes
  | known (some e) ↦ if e then value r.indexes else none
]

-- The indexes that depend on the column.
unfoldable pub dependent_indexes : List IndexFacts → Text → List IndexFacts
dependent_indexes indexes column =
    keep (λ (ix : IndexFacts). contains column ix.depends_on_columns) indexes

-- The indexes that a change of the column's type forces to be rebuilt.
unfoldable pub rebuilt_indexes : List IndexFacts → Text → List IndexFacts
unfolding dependent_indexes
rebuilt_indexes indexes column = keep is_rebuilt (dependent_indexes indexes column)

unfoldable pub rebuilds_result :
    (reason column : Text) (dependent : ℕ) → List IndexFacts → NarrowResult
unfolding rebuild_family
rebuilds_result reason column dependent [] =
    record (narrowed observed constant (no_table_rewrite reason dependent)) { relabel = true }
rebuilds_result reason column dependent (ix ∷ rest) =
    record (narrowed observed proportional
      (no_table_rewrite_but_rebuilds reason column (ix ∷ rest))) {
        relabel = true;
        rebuild_indexes = map (λ (i : IndexFacts). (i.name, rebuild_family i)) (ix ∷ rest);
      }

unfoldable pub or_empty : Option Text → Text
or_empty none = []
or_empty (some t) = t

-- `_narrow_no_rewrite_with_indexes`
unfoldable pub narrow_no_rewrite_with_indexes :
    AlterTableAction → Option RelationFacts → (reason : Text) → NarrowResult
unfolding indexes_read rebuilds_result or_empty
narrow_no_rewrite_with_indexes action none reason = open_question
narrow_no_rewrite_with_indexes action (some r) reason = elim (indexes_read r) [
  | none ↦ open_question
  | some indexes ↦
      rebuilds_result reason (or_empty action.column)
        (length (dependent_indexes indexes (or_empty action.column)))
        (rebuilt_indexes indexes (or_empty action.column))
]

unfoldable pub type_change_result :
    AlterTableAction
    → LiveSnapshot
    → QualifiedName
    → RewriteVerdict
    → (reason : Text) → NarrowResult
type_change_result action snapshot target verdict reason = elim verdict [
  | no_rewrite ↦
      narrow_no_rewrite_with_indexes action (relation_facts_for snapshot (probe_name target)) reason
  | no_rewrite_if_session_tz_utc ↦
      record (narrowed observed proportional (conditional_rewrite reason)) {
        conditions = session_timezone_utc ∷ [];
      }
  | rewrite ↦ narrowed observed proportional (table_rewritten reason)
  | RewriteVerdict.unknown ↦ open_question
]

-- `_narrow_alter_column_type`
unfoldable pub narrow_alter_column_type :
    AlterTableAction → ParsedStatement → LiveSnapshot → ℕ → NarrowResult
unfolding type_change_result
narrow_alter_column_type action statement snapshot pg_major =
    elim (first_target (head statement).targets) [
      | none ↦ open_question
      | some target ↦ elim action.column [
        | none ↦ open_question
        | some column ↦ elim action.column_type [
          | none ↦ open_question
          | some column_type ↦
              elim (typechange_facts_for snapshot (probe_name target) column column_type) [
                | none ↦ open_question
                | some facts ↦
                    type_change_result action snapshot target
                      (assess_type_change pg_major action.has_using_expression facts)
                      (type_change_reason pg_major action.has_using_expression facts)
              ]
        ]
      ]
    ]

unfoldable pub generated_result : Text → List ColumnFacts → NarrowResult
generated_result column [] = open_question
generated_result column (c ∷ cs) =
    let rest = generated_result column cs in
    if c.name == column
    then (if c.generated == codes "v"
        then narrowed observed constant (virtual_generated column)
        else if c.generated == codes "s"
        then narrowed observed proportional (stored_generated column)
        else rest)
    else rest

-- `_narrow_set_expression`
unfoldable pub narrow_set_expression : AlterTableAction → Option RelationFacts → NarrowResult
unfolding generated_result
narrow_set_expression action none = open_question
narrow_set_expression action (some r) = elim action.column [
  | none ↦ open_question
  | some column ↦ elim (value r.columns) [
    | none ↦ open_question
    | some cs ↦ generated_result column cs
  ]
]
