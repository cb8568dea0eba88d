-- ===== src/Verdict/Narrow/ColumnGrounds.antt =====
-- verdict/narrow.py: the grounds of a catalog-only outcome for the column subcommands.
use blastoise.Base.{
  ℕ, ◌≡◌, ◌≢◌, refl, true, ◌&&◌, inl, inr, Option, some, none, List, [], ◌∷◌, Any, Text, OptionHas,
  length, Option-cases, Bool-cases, codes, nat_eq, list_eq, option_eq, ◌==◌, arith,
}
use blastoise.Ir.{AlterTableAction, ParsedStatement, head, first_target, QualifiedName, Volatility}
use blastoise.Live.{LiveSnapshot, IndexFacts, RelationFacts, ColumnFacts, TypeFacts, value}
use blastoise.Live.Resolve.{Decided, decide_default_volatility}
use blastoise.Live.TypeChange.{RewriteVerdict, no_rewrite, assess_type_change, type_change_reason}
use blastoise.Verdict.Probes.{probe_name}
use blastoise.Verdict.Narrow.Results.{
  constant, relation_facts_for, type_facts_for, typechange_facts_for,
}
use blastoise.Verdict.Narrow.Columns.{
  rebuilt_indexes, dependent_indexes, narrow_add_column_domain,
  narrow_add_column_unknown_volatility, narrow_alter_column_type, narrow_set_expression,
  narrow_no_rewrite_with_indexes, type_change_result, generated_result, domain_result,
  rebuilds_result, decided_default, or_empty, indexes_read,
}
use blastoise.Verdict.Narrow.Constraints.{columns_read}
use blastoise.Verdict.Narrow.Grounds.{IsUnconstrained, NeedsNoRewrite}

generated-Any :
    (column : Text) (cs : List ColumnFacts)
    → (generated_result column cs).outcome ≡ constant
    → Any
        (λ (c : ColumnFacts). ((c.name == column) ≡ true) × ((c.generated == codes "v") ≡ true))
        cs
unfolding generated_result
generated-Any column [] h = absurd (ground arith)
generated-Any column (c ∷ cs) h = elim (Bool-cases (c.name == column && c.generated == codes "v")) [
  | inl t ↦ inl (ground arith)
  | inr f ↦ inr (generated-Any column cs (ground arith))
]

pub set_expression-Grounds :
    (a : AlterTableAction) (facts : Option RelationFacts)
    → (narrow_set_expression a facts).outcome ≡ constant
    → OptionHas
        (λ column.
          OptionHas
            (Any λ (c : ColumnFacts).
              ((c.name == column) ≡ true) × ((c.generated == codes "v") ≡ true))
            (columns_read facts))
        a.column
unfolding narrow_set_expression columns_read
set_expression-Grounds a none h = absurd (ground arith)
set_expression-Grounds a (some r) h = elim (Option-cases a.column) [
  | inl n ↦ absurd (ground arith)
  | inr (column, n) ↦ rw n (elim (Option-cases (value r.columns)) [
    | inl m ↦ absurd (ground arith)
    | inr (cs, m) ↦ rw m (generated-Any column cs (ground arith))
  ])
]

domain_result-IsUnconstrained :
    (new_type : Text) (t : TypeFacts)
    → (domain_result new_type t).outcome ≡ constant
    → IsUnconstrained t
unfolding domain_result
domain_result-IsUnconstrained new_type t h = ground arith

module _ (a : AlterTableAction) (snapshot : LiveSnapshot) where
  pub domain-Grounds :
      (narrow_add_column_domain a snapshot).outcome ≡ constant
      → OptionHas (λ t. OptionHas IsUnconstrained (type_facts_for snapshot t)) a.column_type
  unfolding narrow_add_column_domain
  domain-Grounds h = elim (Option-cases a.column_type) [
    | inl e ↦ absurd (ground arith)
    | inr (new_type, e) ↦ rw e (elim (Option-cases (type_facts_for snapshot new_type)) [
      | inl n ↦ absurd (ground arith)
      | inr (t, n) ↦ rw n (domain_result-IsUnconstrained new_type t (ground arith))
    ])
  ]

  pub unknown_volatility-Grounds :
      (evaluate : Text → Decided → Volatility)
      → (narrow_add_column_unknown_volatility evaluate a snapshot).outcome ≡ constant
      → OptionHas (λ t. OptionHas IsUnconstrained (type_facts_for snapshot t)) a.column_type
        × OptionHas
            (λ d.
              (decide_default_volatility evaluate d snapshot ≢ Volatility.unknown)
              × (decide_default_volatility evaluate d snapshot ≢ Volatility.volatile))
            a.default
  unfolding narrow_add_column_unknown_volatility decided_default
  unknown_volatility-Grounds evaluate h = elim (Option-cases a.default) [
    | inl e ↦ absurd (ground arith)
    | inr (d, e) ↦ (domain-Grounds (ground arith), rw e ((λ u. ground arith), (λ v. ground arith)))
  ]

  no_rewrite-Grounds :
      (column : Text) (facts : Option RelationFacts) (reason : Text)
      → a.column ≡ some column
      → (narrow_no_rewrite_with_indexes a facts reason).outcome ≡ constant
      → OptionHas
          (λ (r : RelationFacts).
            OptionHas (λ ixs. rebuilt_indexes ixs column ≡ []) (value r.indexes))
          facts
  unfolding narrow_no_rewrite_with_indexes rebuilds_result or_empty indexes_read
  no_rewrite-Grounds column none reason e h = absurd (ground arith)
  no_rewrite-Grounds column (some r) reason e h = elim (Option-cases (value r.indexes)) [
    | inl n ↦ absurd (ground arith)
    | inr (ixs, n) ↦
        rw n (no_rebuild reason column (length (dependent_indexes ixs column)) ixs (ground arith))
  ]
    where
      no_rebuild :
          (reason column : Text) (dependent : ℕ) (ixs : List IndexFacts)
          → (rebuilds_result reason column dependent (rebuilt_indexes ixs column)).outcome
            ≡ constant
          → rebuilt_indexes ixs column ≡ []
      no_rebuild reason column dependent ixs h = ground arith

  type_change-Grounds :
      (column : Text) (target : QualifiedName) (v : RewriteVerdict) (reason : Text)
      → a.column ≡ some column
      → (type_change_result a snapshot target v reason).outcome ≡ constant
      → (v ≡ no_rewrite)
        × OptionHas
            (λ (r : RelationFacts).
              OptionHas (λ ixs. rebuilt_indexes ixs column ≡ []) (value r.indexes))
            (relation_facts_for snapshot (probe_name target))
  unfolding type_change_result
  type_change-Grounds column target no_rewrite reason e h =
      (refl, no_rewrite-Grounds column (relation_facts_for snapshot (probe_name target)) reason e h)
  type_change-Grounds column target _ reason e h = absurd (ground arith)

  pub alter_type-Grounds :
      (s : ParsedStatement) (pg : ℕ)
      → (narrow_alter_column_type a s snapshot pg).outcome ≡ constant
      → NeedsNoRewrite a s snapshot pg
  unfolding narrow_alter_column_type
  alter_type-Grounds s pg h = elim (Option-cases (first_target (head s).targets)) [
    | inl e ↦ absurd (ground arith)
    | inr (target, e) ↦ rw e (elim (Option-cases a.column) [
      | inl e' ↦ absurd (ground arith)
      | inr (column, e') ↦ rw e' (elim (Option-cases a.column_type) [
        | inl n ↦ absurd (ground arith)
        | inr (new_type, n) ↦
            rw n
              (elim (Option-cases
                (typechange_facts_for snapshot (probe_name target) column new_type)) [
                  | inl m ↦ absurd (ground arith)
                  | inr (f, m) ↦ rw m (
                      type_change-Grounds column target
                        (assess_type_change pg a.has_using_expression f)
                        (type_change_reason pg a.has_using_expression f) e' (ground arith))
                ])
      ])
    ])
  ]
