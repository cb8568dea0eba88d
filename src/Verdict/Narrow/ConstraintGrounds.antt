-- ===== src/Verdict/Narrow/ConstraintGrounds.antt =====
-- verdict/narrow.py: the grounds of a catalog-only outcome for the constraint subcommands.
use blastoise.Base.{
  ◌≡◌, true, ◌&&◌, ◌⊎◌, inl, inr, Option, some, none, List, [], ◌∷◌, All, Any, any, all, Text,
  OptionHas, first, Option-cases, Bool-cases, nat_eq, list_eq, option_eq, ◌==◌, arith,
}
use blastoise.Ir.{AlterTableAction}
use blastoise.Live.{RelationFacts, ColumnFacts, ConstraintFacts, value}
use blastoise.Verdict.Narrow.Results.{constant, constraints_of}
use blastoise.Verdict.Narrow.Constraints.{
  proves_not_null, columns_read, named_constraint, narrow_set_not_null, narrow_validate_constraint,
  narrow_drop_constraint, narrow_add_pk_using_index, is_already_not_null, validate_result,
}
use blastoise.Verdict.Narrow.Grounds.{HasNotNull, ProvesNotNull}

proves-ProvesNotNull :
    (column : Text) (c : ConstraintFacts) → proves_not_null column c ≡ true → ProvesNotNull column c
unfolding proves_not_null
proves-ProvesNotNull column c h = elim (Option-cases c.check_expression) [
  | inl e ↦ ground arith
  | inr (x, e) ↦ ground arith
]

first-Proves :
    (column : Text) (cs : List ConstraintFacts) (c : ConstraintFacts)
    → first (proves_not_null column) cs ≡ some c
    → Any (ProvesNotNull column) cs
first-Proves column [] c h = cc
first-Proves column (x ∷ xs) c h = elim (Bool-cases (proves_not_null column x)) [
  | inl t ↦ inl (proves-ProvesNotNull column x t)
  | inr f ↦ inr (first-Proves column xs c (rw f at h))
]

any-NotNull :
    (column : Text) (cs : List ColumnFacts)
    → any (λ (c : ColumnFacts). c.name == column && c.not_null) cs ≡ true
    → HasNotNull column (some cs)
any-NotNull column [] h = cc
any-NotNull column (c ∷ cs) h = elim (Bool-cases (c.name == column && c.not_null)) [
  | inl t ↦ inl (ground arith)
  | inr f ↦ inr (any-NotNull column cs (rw f at h))
]

all-NotNull :
    (cs : List ColumnFacts)
    → all (λ (c : ColumnFacts). c.not_null) cs ≡ true
    → All (λ (c : ColumnFacts). c.not_null ≡ true) cs
all-NotNull [] h = tt
all-NotNull (c ∷ cs) h = (ground arith, all-NotNull cs (ground arith))

already-HasNotNull :
    (column : Text) (facts : Option RelationFacts)
    → is_already_not_null column facts ≡ true
    → HasNotNull column (columns_read facts)
unfolding is_already_not_null
already-HasNotNull column facts h = elim (Option-cases (columns_read facts)) [
  | inl e ↦ absurd (ground arith)
  | inr (cs, e) ↦ rw e (any-NotNull column cs (rw (e, is_already_not_null) at h))
]

named-Any :
    (a : AlterTableAction) (cs : List ConstraintFacts) (c : ConstraintFacts)
    → named_constraint a cs ≡ some c
    → c.validated ≡ true
    → Any
        (λ (x : ConstraintFacts).
          ((some x.name == a.constraint_name) ≡ true) × (x.validated ≡ true))
        cs
unfolding named_constraint
named-Any a [] c e h = absurd (ground arith)
named-Any a (x ∷ xs) c e h = elim (Bool-cases (some x.name == a.constraint_name)) [
  | inl t ↦ inl (t, ground arith)
  | inr f ↦ inr (named-Any a xs c (ground arith) h)
]

module _ (a : AlterTableAction) (facts : Option RelationFacts) where
  pub set_not_null-Grounds :
      (narrow_set_not_null a facts).outcome ≡ constant
      → OptionHas
          (λ column.
            HasNotNull column (columns_read facts)
            ⊎ OptionHas (Any (ProvesNotNull column)) (constraints_of facts))
          a.column
  unfolding narrow_set_not_null
  set_not_null-Grounds h = elim (Option-cases a.column) [
    | inl e ↦ absurd (ground arith)
    | inr (column, e) ↦ rw e (elim (Bool-cases (is_already_not_null column facts)) [
      | inl t ↦ inl (already-HasNotNull column facts t)
      | inr f ↦ elim (Option-cases (constraints_of facts)) [
        | inl n ↦ absurd (ground arith)
        | inr (cs, n) ↦ elim (Option-cases (first (proves_not_null column) cs)) [
          | inl nothing ↦ absurd (ground arith)
          | inr (c, found) ↦ inr (rw n (first-Proves column cs c found))
        ]
      ]
    ])
  ]

  pub validate-Grounds :
      (narrow_validate_constraint a facts).outcome ≡ constant
      → OptionHas
          (Any λ (c : ConstraintFacts).
            ((some c.name == a.constraint_name) ≡ true) × (c.validated ≡ true))
          (constraints_of facts)
  unfolding narrow_validate_constraint validate_result
  validate-Grounds h = elim (Option-cases (constraints_of facts)) [
    | inl e ↦ absurd (ground arith)
    | inr (cs, e) ↦ rw e (elim (Option-cases (named_constraint a cs)) [
      | inl n ↦ absurd (ground arith)
      | inr (c, n) ↦ named-Any a cs c n (ground arith)
    ])
  ]

  pub drop-Grounds :
      (narrow_drop_constraint a facts).outcome ≡ constant
      → OptionHas (λ (cs : List ConstraintFacts). Unit) (constraints_of facts)
  unfolding narrow_drop_constraint
  drop-Grounds h = elim (Option-cases (constraints_of facts)) [
    | inl e ↦ absurd (ground arith)
    | inr (cs, e) ↦ rw e tt
  ]

pub pk-Grounds :
    (facts : Option RelationFacts)
    → (narrow_add_pk_using_index facts).outcome ≡ constant
    → OptionHas (All λ (c : ColumnFacts). c.not_null ≡ true) (columns_read facts)
unfolding narrow_add_pk_using_index columns_read
pk-Grounds none h = absurd (ground arith)
pk-Grounds (some r) h = elim (Option-cases (value r.columns)) [
  | inl m ↦ absurd (ground arith)
  | inr (cs, m) ↦ rw m (all-NotNull cs (ground arith))
]
