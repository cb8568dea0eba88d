-- ===== src/Verdict/Narrow/ActionGrounds.antt =====
-- verdict/narrow.py `narrow_action`: a catalog-only outcome has its grounds in the snapshot.
use blastoise.Base.{◌≢◌, ℕ, ◌≡◌, Option, some, Text, arith, ◌⊎◌, inl, inr, refl, ap, ◌∙◌}
use blastoise.Ir.{AlterTableAction, AlterTableActionKind, ParsedStatement, Volatility}
use blastoise.Live.{LiveSnapshot, RelationFacts}
use blastoise.Verdict.Narrow.Results.{
  constant, proportional, keep_model, unresolved, NarrowOutcome, NarrowResult,
}
use blastoise.Live.Resolve.{Decided}
use blastoise.Verdict.Narrow.Actions.{narrow_kind}
use blastoise.Verdict.Narrow.Grounds.{Grounds}
use blastoise.Verdict.Narrow.ConstraintGrounds.{
  set_not_null-Grounds, validate-Grounds, drop-Grounds, pk-Grounds,
}
use blastoise.Verdict.Narrow.ColumnGrounds.{
  domain-Grounds, unknown_volatility-Grounds, alter_type-Grounds, set_expression-Grounds,
}

outcome_cases : (o : NarrowOutcome) → (o ≡ constant) ⊎ (o ≢ constant)
outcome_cases constant = inl refl
outcome_cases proportional = inr λ e. ground arith
outcome_cases keep_model = inr λ e. ground arith
outcome_cases unresolved = inr λ e. ground arith

abbrev Rests : NarrowResult → Type 0 → Type 0
Rests r P = (r.outcome ≢ constant) ⊎ P

module _ (evaluate : Text → Decided → Volatility) (a : AlterTableAction) (s : ParsedStatement)
    (snapshot : LiveSnapshot) (pg : ℕ) (facts : Option RelationFacts) where
  rests_of :
      (P : Type 0) (r r' : NarrowResult)
      → (r.outcome ≡ constant → P)
      → some r ≡ some r'
      → Rests r' P
  rests_of P r r' f e = elim (outcome_cases r'.outcome) [
    | inl free ↦
        let same : r ≡ r' = cc in inr (f (ap (λ (x : NarrowResult). x.outcome) same ∙ free))
    | inr costly ↦ inl costly
  ]

  pub narrow_kind-Grounds :
      (k : AlterTableActionKind) (r : NarrowResult)
      → narrow_kind evaluate a s snapshot pg facts k ≡ some r
      → Rests r (Grounds evaluate a s snapshot pg facts k)
  unfolding narrow_kind
  narrow_kind-Grounds AlterTableActionKind.add_column_default_nonvolatile r =
      rests_of _ _ r (domain-Grounds a snapshot)
  narrow_kind-Grounds AlterTableActionKind.add_column_default_unknown_volatility r =
      rests_of _ _ r (unknown_volatility-Grounds a snapshot evaluate)
  narrow_kind-Grounds AlterTableActionKind.alter_column_type r =
      rests_of _ _ r (alter_type-Grounds a snapshot s pg)
  narrow_kind-Grounds AlterTableActionKind.set_not_null r =
      rests_of _ _ r (set_not_null-Grounds a facts)
  narrow_kind-Grounds AlterTableActionKind.add_not_null_constraint r =
      rests_of _ _ r (set_not_null-Grounds a facts)
  narrow_kind-Grounds AlterTableActionKind.validate_constraint r =
      rests_of _ _ r (validate-Grounds a facts)
  narrow_kind-Grounds AlterTableActionKind.drop_constraint r = rests_of _ _ r (drop-Grounds a facts)
  narrow_kind-Grounds AlterTableActionKind.add_primary_key_using_index r =
      rests_of _ _ r (pk-Grounds facts)
  narrow_kind-Grounds AlterTableActionKind.set_expression r =
      rests_of _ _ r (set_expression-Grounds a facts)
  narrow_kind-Grounds _ r = λ e. cc
