-- ===== src/Verdict/Safety/Failures.antt =====
-- verdict/engine.py on a file without a snapshot: which statements are UNSAFE.
use blastoise.Base.{
  ℕ, suc, ◌+◌, ◌≡◌, ◌≢◌, ap, sym, ◌&&◌, true, contains, nat_eq, Option-cases, Bool-cases, arith, ok,
  Succeeds, OkHas-after, refl, subst, none, List, [], ◌∷◌, map, inl, inr, All, Any, Text, OkHas,
  OkHas-bind, OkHas-any,
}
use blastoise.Ir.{ParsedStatement, details, TransactionGroup, MigrationScript, Volatility}
use blastoise.Catalog.{LockCatalog, ResolvedLock, resolve}
use blastoise.Verdict.Model.{unsafe, RowAssessment, HeldLock, StatementAssessment}
use blastoise.Live.Resolve.{Decided}
use blastoise.Verdict.Engine.{
  Context, assess_statement, reversibility_of, Progress, assessed_rows, context_at,
  explicit_group_of, explicit_group_from, nth_statement, assess_from, assess_script,
  transaction_warnings,
}
use blastoise.Verdict.Safety.Offline.{Fails, Fails-map}
use blastoise.Verdict.Safety.Rows.{assess_row-offline}
use blastoise.Verdict.Safety.Statements.{statement_verdict-unsafe}

abbrev IsUnsafe : RowAssessment → Type 0
IsUnsafe row = row.verdict.classification ≡ unsafe

abbrev row_of : ResolvedLock × RowAssessment → RowAssessment
row_of p = p.1

-- A group with BEGIN holds the statement of the index.
abbrev pub InExplicit : List TransactionGroup → ℕ → Type 0
InExplicit groups index =
    Any (λ (g : TransactionGroup). (g.explicit && contains index g.statement_indices) ≡ true) groups

module _ (catalog : LockCatalog) (pg_version : ℕ) where
  -- The statement resolves, and one of its rows fails as written.
  abbrev pub HasFailure : (Explicit : Type 0) → ParsedStatement → Type 0
  HasFailure Explicit s = Succeeds (Any (Fails Explicit)) (resolve catalog pg_version s)

  -- The file has a statement of the index, and a row of it fails as written.
  abbrev pub FailsAt : List ParsedStatement → List TransactionGroup → ℕ → Type 0
  FailsAt ss groups index =
      Succeeds (HasFailure (InExplicit groups index)) (nth_statement catalog pg_version index ss)

  abbrev pub OnlyFailures :
      List ParsedStatement → List TransactionGroup → StatementAssessment → Type 0
  OnlyFailures ss groups s = s.verdict.classification ≡ unsafe → FailsAt ss groups s.statement_index

explicit-InExplicit :
    (i : ℕ) (groups : List TransactionGroup) (index : ℕ)
    → explicit_group_from i groups index ≢ none
    → InExplicit groups index
unfolding explicit_group_from
explicit-InExplicit i [] index h = absurd (h refl)
explicit-InExplicit i (g ∷ gs) index h =
    elim (Option-cases (explicit_group_from (i + 1) gs index)) [
      | inl e ↦ elim (Bool-cases (g.explicit && contains index g.statement_indices)) [
        | inl t ↦ inl t
        | inr f ↦ absurd (h (rw (e, f) refl))
      ]
      | inr (later, e) ↦ inr (explicit-InExplicit (i + 1) gs index λ n. ground arith)
    ]

module _ (catalog : LockCatalog) (pg_version : ℕ) (evaluate : Text → Decided → Volatility)
    (all : List ParsedStatement) (groups : List TransactionGroup) where
  failing_row :
      (ctx : Context) (Explicit : Type 0) (rs : List ResolvedLock)
      → ctx.snapshot ≡ none
      → (ctx.in_explicit_txn ≡ true → Explicit)
      → Any IsUnsafe (map row_of (assessed_rows catalog pg_version none evaluate ctx rs))
      → Any (Fails Explicit) rs
  failing_row ctx Explicit [] off ex h = h
  failing_row ctx Explicit (r ∷ rs) off ex (inl h) =
      inl (Fails-map ex r (assess_row-offline ctx r off h))
  failing_row ctx Explicit (r ∷ rs) off ex (inr h) = inr (failing_row ctx Explicit rs off ex h)

  in_explicit :
      (p : Progress) (index : ℕ)
      → (context_at catalog pg_version none evaluate p
          (explicit_group_of groups index)).in_explicit_txn
        ≡ true
      → InExplicit groups index
  unfolding context_at explicit_group_of
  in_explicit p index h = explicit-InExplicit 0 groups index λ n. ground arith

  offline_at :
      (p : Progress) (index : ℕ)
      → (context_at catalog pg_version none evaluate p (explicit_group_of groups index)).snapshot
        ≡ none
  unfolding context_at
  offline_at p index = refl

  statement-offline :
      (index : ℕ) (s : ParsedStatement) (held : List HeldLock) (p : Progress)
      (rs : List ResolvedLock)
      → nth_statement catalog pg_version index all ≡ ok s
      → resolve catalog pg_version s ≡ ok rs
      → OnlyFailures catalog pg_version all groups (
          assess_statement index s held (
            assessed_rows catalog pg_version none evaluate
              (context_at catalog pg_version none evaluate p (explicit_group_of groups index))
              rs))
  unfolding assess_statement
  statement-offline index s held p rs here resolves h =
      let ctx = context_at catalog pg_version none evaluate p (explicit_group_of groups index) in
      let pairs = assessed_rows catalog pg_version none evaluate ctx rs in
      let row =
        failing_row ctx (InExplicit groups index) rs (offline_at p index) (in_explicit p index) (
          statement_verdict-unsafe (details s) (reversibility_of s pairs) held (map row_of pairs)
            h) in
      subst (Succeeds (HasFailure catalog pg_version (InExplicit groups index))) (sym here)
        (subst (Succeeds (Any (Fails (InExplicit groups index)))) (sym resolves) row)

  -- The statements are those of the file from the index on.
  abbrev IsRest : ℕ → List ParsedStatement → Type 0
  IsRest index ss =
      (j : ℕ)
      → nth_statement catalog pg_version (index + j) all ≡ nth_statement catalog pg_version j ss

  IsRest-head :
      (index : ℕ) (s : ParsedStatement) (ss : List ParsedStatement)
      → IsRest index (s ∷ ss)
      → nth_statement catalog pg_version index all ≡ ok s
  unfolding nth_statement
  IsRest-head index s ss rest =
      let e : index ≡ index + 0 = omega arith in
      subst (λ i. nth_statement catalog pg_version i all ≡ ok s) (sym e) (rest 0)

  IsRest-tail :
      (index : ℕ) (s : ParsedStatement) (ss : List ParsedStatement)
      → IsRest index (s ∷ ss)
      → IsRest (index + 1) ss
  unfolding nth_statement
  IsRest-tail index s ss rest j =
      let e : index + suc j ≡ index + 1 + j = omega arith in
      subst (λ i. nth_statement catalog pg_version i all ≡ nth_statement catalog pg_version j ss) e
        (rest (suc j))

  assess_from-offline :
      (index : ℕ) (ss : List ParsedStatement) (p : Progress)
      → IsRest index ss
      → OkHas
          (λ out. All (OnlyFailures catalog pg_version all groups) out.0)
          (assess_from catalog pg_version none evaluate groups index ss p)
  unfolding assess_from
  assess_from-offline index [] p rest = tt
  assess_from-offline index (s ∷ ss) p rest =
      OkHas-after (λ out. All (OnlyFailures catalog pg_version all groups) out.0)
        (resolve catalog pg_version s) (λ resolved. _)
        λ resolved resolves.
          OkHas-bind (λ out. All (OnlyFailures catalog pg_version all groups) out.0)
            (λ out. All (OnlyFailures catalog pg_version all groups) out.0)
            (assess_from catalog pg_version none evaluate groups (index + 1) ss _) (λ out. _)
            (assess_from-offline (index + 1) ss _ (IsRest-tail index s ss rest))
            λ out h.
              (statement-offline index s _ p resolved (IsRest-head index s ss rest) resolves, h)

pub script-offline :
    (evaluate : Text → Decided → Volatility) (script : MigrationScript) (catalog : LockCatalog)
    (pg_version : ℕ)
    → OkHas
        (λ a.
          All
            (OnlyFailures catalog pg_version script.statements script.transaction_groups)
            a.statements)
        (assess_script evaluate script catalog pg_version none)
unfolding assess_script
script-offline evaluate script catalog pg_version =
    OkHas-bind
      (λ out.
        All (OnlyFailures catalog pg_version script.statements script.transaction_groups) out.0)
      (λ a.
        All (OnlyFailures catalog pg_version script.statements script.transaction_groups)
          a.statements)
      (assess_from catalog pg_version none evaluate script.transaction_groups 0 script.statements _)
      (λ assessed. _)
      (assess_from-offline catalog pg_version evaluate script.statements script.transaction_groups 0
        script.statements _
        λ j.
          let e : 0 + j ≡ j = omega arith in
          ap (λ i. nth_statement catalog pg_version i script.statements) e)
      λ assessed h.
        OkHas-bind (λ x. Unit) _
          (transaction_warnings catalog pg_version script assessed.1.all_exclusive) (λ warnings. _)
          (OkHas-any (transaction_warnings catalog pg_version script assessed.1.all_exclusive))
          λ warnings u. h

pub All-among :
    (P : StatementAssessment → Type 0) (s : StatementAssessment) (ss : List StatementAssessment)
    → Any (λ t. t ≡ s) ss
    → All P ss
    → P s
All-among P s [] m h = absurd m
All-among P s (t ∷ ts) (inl e) h = subst P e h.0
All-among P s (t ∷ ts) (inr m) h = All-among P s ts m h.1
