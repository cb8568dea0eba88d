-- ===== src/Verdict/Narrow/Grounds.antt =====
-- The facts of a snapshot that verdict/narrow.py may rest a catalog-only outcome on.
use blastoise.Base.{
  ℕ, ◌≡◌, ◌≢◌, true, false, ◌⊎◌, Option, some, List, [], All, Any, Text, OptionHas, codes, contains,
  nat_eq, list_eq, option_eq, ◌==◌,
}
use blastoise.Ir.{
  AlterTableAction, AlterTableActionKind, ParsedStatement, head, first_target, Volatility,
}
use blastoise.Live.{
  LiveSnapshot, RelationFacts, ColumnFacts, ConstraintFacts, TypeFacts, TypeChangeFacts, value,
  available,
}
use blastoise.Live.Resolve.{Decided, decide_default_volatility}
use blastoise.Live.TypeChange.{no_rewrite, assess_type_change, truthy, or_zero}
use blastoise.Verdict.Probes.{probe_name}
use blastoise.Verdict.Narrow.Checks.{check_expression_proves_not_null}
use blastoise.Verdict.Narrow.Results.{
  relation_facts_for, type_facts_for, typechange_facts_for, constraints_of,
}
use blastoise.Verdict.Narrow.Columns.{rebuilt_indexes}
use blastoise.Verdict.Narrow.Constraints.{columns_read}

-- The relation has a column of the name that is NOT NULL.
abbrev pub HasNotNull : Text → Option (List ColumnFacts) → Type 0
HasNotNull column =
    OptionHas (Any λ (c : ColumnFacts). ((c.name == column) ≡ true) × (c.not_null ≡ true))

-- A validated CHECK whose expression proves the column not null, or a validated NOT NULL
-- constraint of the column.
abbrev pub ProvesNotNull : Text → ConstraintFacts → Type 0
ProvesNotNull column c =
    (c.validated ≡ true)
    × ((((c.contype == codes "c") ≡ true)
          × OptionHas (λ e. check_expression_proves_not_null e column ≡ true) c.check_expression)
        ⊎ (((c.contype == codes "n") ≡ true) × (contains column c.columns ≡ true)))

-- The type is not a domain, or a domain that is known to have no constraint and no NOT NULL.
abbrev pub IsUnconstrained : TypeFacts → Type 0
IsUnconstrained t =
    (value t.is_domain ≡ some false)
    ⊎ ((available t.domain_constraint_count ≡ true)
        × (or_zero (value t.domain_constraint_count) ≡ 0)
        × (available t.domain_not_null ≡ true)
        × (truthy (value t.domain_not_null) ≡ false))

-- The action changes the type of a column to one that needs no rewrite, and no index on the column
-- is to be rebuilt.
abbrev pub NeedsNoRewrite : AlterTableAction → ParsedStatement → LiveSnapshot → ℕ → Type 0
NeedsNoRewrite a s snapshot pg =
    OptionHas
      (λ target.
        OptionHas
          (λ column.
            OptionHas
              (λ new_type.
                OptionHas
                  (λ (f : TypeChangeFacts).
                    assess_type_change pg a.has_using_expression f ≡ no_rewrite)
                  (typechange_facts_for snapshot (probe_name target) column new_type))
              a.column_type
            × OptionHas
                (λ (r : RelationFacts).
                  OptionHas (λ ixs. rebuilt_indexes ixs column ≡ []) (value r.indexes))
                (relation_facts_for snapshot (probe_name target)))
          a.column)
      (first_target (head s).targets)

module _ (evaluate : Text → Decided → Volatility) (a : AlterTableAction) (s : ParsedStatement)
    (snapshot : LiveSnapshot) (pg : ℕ) where
  -- The type of the added column is one without constraints.
  abbrev pub AddsUnconstrained : Type 0
  AddsUnconstrained =
      OptionHas (λ t. OptionHas IsUnconstrained (type_facts_for snapshot t)) a.column_type

  -- What a catalog-only outcome rests on, by the kind of the action. The facts are those of the
  -- statement's first target.
  abbrev pub Grounds : Option RelationFacts → AlterTableActionKind → Type 0
  Grounds facts AlterTableActionKind.add_column_default_nonvolatile = AddsUnconstrained
  Grounds facts AlterTableActionKind.add_column_default_unknown_volatility =
      AddsUnconstrained
      × OptionHas
          (λ d.
            (decide_default_volatility evaluate d snapshot ≢ Volatility.unknown)
            × (decide_default_volatility evaluate d snapshot ≢ Volatility.volatile))
          a.default
  Grounds facts AlterTableActionKind.alter_column_type = NeedsNoRewrite a s snapshot pg
  Grounds facts AlterTableActionKind.set_not_null =
      OptionHas
        (λ column.
          HasNotNull column (columns_read facts)
          ⊎ OptionHas (Any (ProvesNotNull column)) (constraints_of facts))
        a.column
  Grounds facts AlterTableActionKind.add_not_null_constraint =
      OptionHas
        (λ column.
          HasNotNull column (columns_read facts)
          ⊎ OptionHas (Any (ProvesNotNull column)) (constraints_of facts))
        a.column
  Grounds facts AlterTableActionKind.validate_constraint =
      OptionHas
        (Any λ (c : ConstraintFacts).
          ((some c.name == a.constraint_name) ≡ true) × (c.validated ≡ true))
        (constraints_of facts)
  Grounds facts AlterTableActionKind.drop_constraint =
      OptionHas (λ (cs : List ConstraintFacts). Unit) (constraints_of facts)
  Grounds facts AlterTableActionKind.add_primary_key_using_index =
      OptionHas (All λ (c : ColumnFacts). c.not_null ≡ true) (columns_read facts)
  Grounds facts AlterTableActionKind.set_expression =
      OptionHas
        (λ column.
          OptionHas
            (Any λ (c : ColumnFacts).
              ((c.name == column) ≡ true) × ((c.generated == codes "v") ≡ true))
            (columns_read facts))
        a.column
  Grounds facts _ = ⊥
