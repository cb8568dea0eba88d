-- ===== src/Verdict/Narrow/Laws.antt =====
-- What every narrowing of verdict/narrow.py promises.
use blastoise.Base.{
  ◌≢◌, ℕ, ◌≡◌, true, false, Option, some, none, List, [], ◌∷◌, Text, arith, ◌⊎◌, inl, inr,
  Option-cases, subst, refl, drop_prefix,
}
use blastoise.Ir.{
  AlterTableAction, AlterTableActionKind, ParsedStatement, head, first_target, QualifiedName,
  Volatility,
}
use blastoise.Live.{LiveSnapshot, RelationFacts, ColumnFacts, IndexFacts, value}
use blastoise.Live.TypeChange.{RewriteVerdict, no_rewrite, assess_type_change, type_change_reason}
use blastoise.Verdict.Model.{
  observed, unverified, no_table_rewrite, no_table_rewrite_but_rebuilds, says_no_table_rewrite,
  render, is_within,
}
use blastoise.Verdict.Probes.{probe_name}
use blastoise.Verdict.Narrow.Results.{
  constant, proportional, keep_model, unresolved, NarrowResult, relation_facts_for,
  typechange_facts_for,
}
use blastoise.Live.Resolve.{Decided}
use blastoise.Verdict.Narrow.Columns.{
  narrow_add_column_domain, narrow_add_column_unknown_volatility, narrow_alter_column_type,
  narrow_set_expression, narrow_no_rewrite_with_indexes, rebuilds_result, indexes_read,
  type_change_result, generated_result,
}
use blastoise.Verdict.Narrow.Constraints.{
  narrow_set_not_null, narrow_validate_constraint, narrow_drop_constraint,
  narrow_add_pk_using_index,
}
use blastoise.Verdict.Narrow.Actions.{target_facts, narrow_kind, narrow_action}
use blastoise.Verdict.Narrow.Grounds.{Grounds}
use blastoise.Verdict.Narrow.ActionGrounds.{narrow_kind-Grounds}

-- A resolved narrowing carries the method of observed facts, and an unresolved one carries nothing:
-- no condition, no further lock, no rebuild. An index is rebuilt only by a change of type that
-- leaves the table as it is, which is then not a catalog-only outcome. The narrative of a result
-- that is marked a relabel has the words that the engine searches for.
pub record IsSound (r : NarrowResult) : Type 0 where
  pub evidence : (r.outcome ≡ unresolved) ⊎ ((r.outcome ≡ keep_model) ⊎ (r.method ≡ observed))
  pub silent :
      (r.outcome ≢ unresolved)
      ⊎ ((r.method ≡ unverified)
          × (r.conditions ≡ [])
          × (r.extra_relation ≡ none)
          × (r.rebuild_indexes ≡ []))
  pub relabelled : (r.relabel ≡ false) ⊎ (says_no_table_rewrite r.narrative ≡ true)
  pub rebuilds : (r.rebuild_indexes ≡ []) ⊎ ((r.outcome ≡ proportional) × (r.relabel ≡ true))

says-plain :
    (reason : Text) (dependent : ℕ)
    → says_no_table_rewrite (no_table_rewrite reason dependent) ≡ true
unfolding says_no_table_rewrite render is_within drop_prefix
says-plain reason dependent = refl

says-rebuilds :
    (reason column : Text) (rebuilt : List IndexFacts)
    → says_no_table_rewrite (no_table_rewrite_but_rebuilds reason column rebuilt) ≡ true
unfolding says_no_table_rewrite render is_within drop_prefix
says-rebuilds reason column rebuilt = refl

module _ (a : AlterTableAction) (snapshot : LiveSnapshot) where
  add_column_domain-IsSound : IsSound (narrow_add_column_domain a snapshot)
  unfolding narrow_add_column_domain
  add_column_domain-IsSound = ground arith

  add_column_domain-relabel : (narrow_add_column_domain a snapshot).relabel ≡ false
  unfolding narrow_add_column_domain
  add_column_domain-relabel = ground arith

  unknown_volatility-IsSound :
      (evaluate : Text → Decided → Volatility)
      → IsSound (narrow_add_column_unknown_volatility evaluate a snapshot)
  unfolding narrow_add_column_unknown_volatility
  unknown_volatility-IsSound evaluate =
      ground (arith, add_column_domain-IsSound, add_column_domain-relabel)

  rebuilds_result-IsSound :
      (reason column : Text) (dependent : ℕ) (ixs : List IndexFacts)
      → IsSound (rebuilds_result reason column dependent ixs)
  unfolding rebuilds_result
  rebuilds_result-IsSound reason column dependent [] = ground (arith, says-plain reason dependent)
  rebuilds_result-IsSound reason column dependent (ix ∷ rest) =
      ground (arith, says-rebuilds reason column (ix ∷ rest))

  no_rewrite-IsSound :
      (facts : Option RelationFacts) (reason : Text)
      → IsSound (narrow_no_rewrite_with_indexes a facts reason)
  unfolding narrow_no_rewrite_with_indexes
  no_rewrite-IsSound none reason = ground arith
  no_rewrite-IsSound (some r) reason = elim (Option-cases (indexes_read r)) [
    | inl e ↦ rw (e, narrow_no_rewrite_with_indexes) (ground arith)
    | inr (ixs, e) ↦ rw (e, narrow_no_rewrite_with_indexes) (rebuilds_result-IsSound reason _ _ _)
  ]

  type_change-IsSound :
      (target : QualifiedName) (v : RewriteVerdict) (reason : Text)
      → IsSound (type_change_result a snapshot target v reason)
  unfolding type_change_result
  type_change-IsSound target no_rewrite reason =
      no_rewrite-IsSound (relation_facts_for snapshot (probe_name target)) reason
  type_change-IsSound target _ reason = ground arith

  alter_column_type-IsSound :
      (s : ParsedStatement) (pg : ℕ) → IsSound (narrow_alter_column_type a s snapshot pg)
  unfolding narrow_alter_column_type
  alter_column_type-IsSound s pg = elim (Option-cases (first_target (head s).targets)) [
    | inl e ↦ ground arith
    | inr (target, e) ↦ elim (Option-cases a.column) [
      | inl e' ↦ ground arith
      | inr (column, e') ↦ elim (Option-cases a.column_type) [
        | inl e'' ↦ ground arith
        | inr (new_type, e'') ↦
            elim (Option-cases
              (typechange_facts_for snapshot (probe_name target) column new_type)) [
                | inl n ↦ ground arith
                | inr (facts, n) ↦ ground (
                  arith,
                  type_change-IsSound target (assess_type_change pg a.has_using_expression facts)
                      (type_change_reason pg a.has_using_expression facts),
                )
              ]
      ]
    ]
  ]

module _ (a : AlterTableAction) (facts : Option RelationFacts) where
  set_not_null-IsSound : IsSound (narrow_set_not_null a facts)
  unfolding narrow_set_not_null
  set_not_null-IsSound = ground arith

  validate_constraint-IsSound : IsSound (narrow_validate_constraint a facts)
  unfolding narrow_validate_constraint
  validate_constraint-IsSound = ground arith

  drop_constraint-IsSound : IsSound (narrow_drop_constraint a facts)
  unfolding narrow_drop_constraint
  drop_constraint-IsSound = ground arith

  add_pk_using_index-IsSound : IsSound (narrow_add_pk_using_index facts)
  unfolding narrow_add_pk_using_index
  add_pk_using_index-IsSound = elim (Option-cases facts) [
    | inl e ↦ rw (e, narrow_add_pk_using_index) (ground arith)
    | inr (r, e) ↦ rw (e, narrow_add_pk_using_index) (ground arith)
  ]

  generated-IsSound : (column : Text) (cs : List ColumnFacts) → IsSound (generated_result column cs)
  unfolding generated_result
  generated-IsSound column [] = ground arith
  generated-IsSound column (c ∷ cs) = ground (arith, generated-IsSound column cs)

  set_expression-IsSound : IsSound (narrow_set_expression a facts)
  unfolding narrow_set_expression
  set_expression-IsSound = elim (Option-cases facts) [
    | inl e ↦ rw (e, narrow_set_expression) (ground arith)
    | inr (r, e) ↦ elim (Option-cases a.column) [
      | inl e' ↦ rw (e, narrow_set_expression) (ground arith)
      | inr (column, e') ↦ elim (Option-cases (value r.columns)) [
        | inl n ↦ rw (e, narrow_set_expression) (ground arith)
        | inr (cs, n) ↦ rw (e, narrow_set_expression) (ground (arith, generated-IsSound column cs))
      ]
    ]
  ]

module _ (evaluate : Text → Decided → Volatility) (a : AlterTableAction) (s : ParsedStatement)
    (snapshot : LiveSnapshot) (pg : ℕ) (facts : Option RelationFacts) where
  abbrev Narrows : AlterTableActionKind → Type 0
  Narrows k = (r : NarrowResult) → narrow_kind evaluate a s snapshot pg facts k ≡ some r → IsSound r

  of_result : (r r' : NarrowResult) → IsSound r → some r ≡ some r' → IsSound r'
  of_result r r' sound e = let same : r ≡ r' = cc in subst IsSound same sound

  narrow_kind-IsSound : (k : AlterTableActionKind) → Narrows k
  unfolding narrow_kind
  narrow_kind-IsSound AlterTableActionKind.add_column_default_nonvolatile r =
      of_result _ r (add_column_domain-IsSound a snapshot)
  narrow_kind-IsSound AlterTableActionKind.add_column_default_unknown_volatility r =
      of_result _ r (unknown_volatility-IsSound a snapshot evaluate)
  narrow_kind-IsSound AlterTableActionKind.alter_column_type r =
      of_result _ r (alter_column_type-IsSound a snapshot s pg)
  narrow_kind-IsSound AlterTableActionKind.set_not_null r =
      of_result _ r (set_not_null-IsSound a facts)
  narrow_kind-IsSound AlterTableActionKind.add_not_null_constraint r =
      of_result _ r (set_not_null-IsSound a facts)
  narrow_kind-IsSound AlterTableActionKind.validate_constraint r =
      of_result _ r (validate_constraint-IsSound a facts)
  narrow_kind-IsSound AlterTableActionKind.drop_constraint r =
      of_result _ r (drop_constraint-IsSound a facts)
  narrow_kind-IsSound AlterTableActionKind.add_primary_key_using_index r =
      of_result _ r (add_pk_using_index-IsSound a facts)
  narrow_kind-IsSound AlterTableActionKind.set_expression r =
      of_result _ r (set_expression-IsSound a facts)
  narrow_kind-IsSound _ r = λ e. cc

-- A narrowing is catalog-only only where the snapshot holds the facts that `Grounds` demands for the
-- kind of the action, on the first target of the statement: for SET NOT NULL a column that is NOT
-- NULL or a validated constraint that proves it, for VALIDATE a constraint of that name that is
-- validated, for a primary key by an index columns that are all NOT NULL, for a change of type one
-- without a rewrite and without an index to rebuild, for SET EXPRESSION a virtual column, for ADD
-- COLUMN a type without constraints of a domain and, where the volatility of the default was unknown,
-- facts that decide it as not volatile, and for DROP CONSTRAINT that the constraints were read. And
-- each narrowing is IsSound: an undecided one carries nothing, indexes are rebuilt only beside a
-- relabel, and the narrative of a relabel has the words that the engine searches for.
pub narrow_action-IsSound :
    (evaluate : Text → Decided → Volatility) (a : AlterTableAction) (s : ParsedStatement)
    (snapshot : LiveSnapshot) (pg : ℕ) (r : NarrowResult)
    → narrow_action evaluate a s snapshot pg ≡ some r
    → IsSound r
      × ((r.outcome ≢ constant) ⊎ Grounds evaluate a s snapshot pg (target_facts s snapshot) a.kind)
unfolding narrow_action
narrow_action-IsSound evaluate a s snapshot pg r e = (
  narrow_kind-IsSound evaluate a s snapshot pg (target_facts s snapshot) a.kind r e,
  narrow_kind-Grounds evaluate a s snapshot pg (target_facts s snapshot) a.kind r e,
)
