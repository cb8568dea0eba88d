-- ===== src/Verdict/Safety/Scripts.antt =====
-- What verdict/engine.py promises of a whole file.
use blastoise.Base.{
  ℕ, zero, suc, ◌+◌, ◌<◌, ◌≡◌, refl, ap, Option, none, List, [], ◌∷◌, map, length, arith, inl, inr,
  All, Any, Text, ok, Succeeds, Succeeds-bind, Bool-cases, ok-has,
}
use blastoise.Ir.{
  ParsedStatement, head, StatementKind, TransactionGroup, MigrationScript, Volatility,
}
use blastoise.Catalog.{LockCatalog, resolve}
use blastoise.Live.{LiveSnapshot}
use blastoise.Verdict.Model.{unsafe, StatementAssessment, ScriptAssessment}
use blastoise.Live.Resolve.{Decided}
use blastoise.Verdict.Engine.{
  assess_statement, Progress, advance, explicit_group_of, assess_from, assess_script, nth_statement,
  group_exclusive, group_warnings, transaction_warnings, add_exclusive,
}
use blastoise.Verdict.Safety.Failures.{FailsAt, OnlyFailures, All-among, script-offline}

-- Without a snapshot, a statement of an assessed file is UNSAFE only where it fails as written: the
-- file's statement of that index resolves to a row whose form is not available on the version, or
-- to one that is forbidden in a transaction block while a DO block is around it or an explicit
-- transaction of the file holds the statement.
pub assess_script-offline :
    (evaluate : Text → Decided → Volatility) (script : MigrationScript) (catalog : LockCatalog)
    (pg_version : ℕ) (a : ScriptAssessment) (s : StatementAssessment)
    → assess_script evaluate script catalog pg_version none ≡ ok a
    → Any (λ t. t ≡ s) a.statements
    → s.verdict.classification ≡ unsafe
    → FailsAt catalog pg_version script.statements script.transaction_groups s.statement_index
assess_script-offline evaluate script catalog pg_version a s e m =
    All-among (OnlyFailures catalog pg_version script.statements script.transaction_groups) s
      a.statements m
      (ok-has
        (λ b.
          All (OnlyFailures catalog pg_version script.statements script.transaction_groups)
            b.statements)
        (assess_script evaluate script catalog pg_version none) a e
        (script-offline evaluate script catalog pg_version))

-- Every statement has its rows in the catalog.
abbrev pub Resolves : LockCatalog → ℕ → ParsedStatement → Type 0
Resolves catalog pg_version s = Succeeds (λ x. Unit) (resolve catalog pg_version s)

-- A group names statements of the file.
abbrev pub InFile : List ParsedStatement → TransactionGroup → Type 0
InFile ss g = All (λ i. i < length ss) g.statement_indices

abbrev pub kinds_of : List StatementAssessment → List StatementKind
kinds_of assessed = map (λ (s : StatementAssessment). s.kind) assessed

abbrev pub kinds : List ParsedStatement → List StatementKind
kinds ss = map (λ s. (head s).kind) ss

module _ (catalog : LockCatalog) (pg_version : ℕ) where
  assess_from-total :
      (snapshot : Option LiveSnapshot) (evaluate : Text → Decided → Volatility)
      (groups : List TransactionGroup) (index : ℕ) (ss : List ParsedStatement) (p : Progress)
      → All (Resolves catalog pg_version) ss
      → Succeeds
          (λ out. kinds_of out.0 ≡ kinds ss)
          (assess_from catalog pg_version snapshot evaluate groups index ss p)
  unfolding assess_from assess_statement
  assess_from-total snapshot evaluate groups index [] p h = refl
  assess_from-total snapshot evaluate groups index (s ∷ ss) p h =
      Succeeds-bind (λ x. Unit) (λ out. kinds_of out.0 ≡ kinds (s ∷ ss))
        (resolve catalog pg_version s) (λ resolved. _) h.0
        λ resolved u.
          Succeeds-bind (λ out. kinds_of out.0 ≡ kinds ss) (λ out. kinds_of out.0 ≡ kinds (s ∷ ss))
            (assess_from catalog pg_version snapshot evaluate groups (index + 1) ss (
              advance catalog pg_version snapshot evaluate index s (explicit_group_of groups index)
                resolved p))
            (λ rest. _)
            (assess_from-total snapshot evaluate groups (index + 1) ss
              (advance catalog pg_version snapshot evaluate index s (explicit_group_of groups index)
                resolved p)
              h.1)
            λ rest e. ap (λ ks. (head s).kind ∷ ks) e

  nth_statement-total :
      (i : ℕ) (ss : List ParsedStatement)
      → i < length ss
      → All (Resolves catalog pg_version) ss
      → Succeeds (Resolves catalog pg_version) (nth_statement catalog pg_version i ss)
  unfolding nth_statement
  nth_statement-total i [] lt h = absurd (omega arith)
  nth_statement-total zero (s ∷ ss) lt h = h.0
  nth_statement-total (suc i) (s ∷ ss) lt h = nth_statement-total i ss (omega arith) h.1

  module _ (ss : List ParsedStatement) (resolves : All (Resolves catalog pg_version) ss) where
    group_exclusive-total :
        (is : List ℕ) (names : List Text)
        → All (λ i. i < length ss) is
        → Succeeds (λ x. Unit) (group_exclusive catalog pg_version ss is names)
    unfolding group_exclusive
    group_exclusive-total [] names h = tt
    group_exclusive-total (i ∷ is) names h =
        Succeeds-bind (Resolves catalog pg_version) (λ x. Unit)
          (nth_statement catalog pg_version i ss) (λ s. _) (nth_statement-total i ss h.0 resolves)
          λ s r.
            Succeeds-bind (λ x. Unit) (λ x. Unit) (resolve catalog pg_version s) (λ resolved. _) r
              λ resolved u. group_exclusive-total is (add_exclusive resolved names) h.1

    group_warnings-total :
        (i : ℕ) (gs : List TransactionGroup)
        → All (InFile ss) gs
        → Succeeds (λ x. Unit) (group_warnings catalog pg_version ss i gs)
    unfolding group_warnings
    group_warnings-total i [] h = tt
    group_warnings-total i (g ∷ gs) h = elim (Bool-cases g.explicit) [
      | inl t ↦ rw t (
          Succeeds-bind (λ x. Unit) (λ x. Unit)
            (group_exclusive catalog pg_version ss g.statement_indices []) (λ names. _)
            (group_exclusive-total g.statement_indices [] h.0)
            λ names u.
              Succeeds-bind (λ x. Unit) (λ x. Unit)
                (group_warnings catalog pg_version ss (i + 1) gs) (λ more. _)
                (group_warnings-total (i + 1) gs h.1) λ more v. tt)
      | inr f ↦ rw f (group_warnings-total (i + 1) gs h.1)
    ]

-- A file whose statements have their rows in the catalog, and whose groups name statements of the
-- file, is assessed: one assessment for each statement, in order.
pub assess_script-total :
    (evaluate : Text → Decided → Volatility) (script : MigrationScript) (catalog : LockCatalog)
    (pg_version : ℕ) (snapshot : Option LiveSnapshot)
    → All (Resolves catalog pg_version) script.statements
    → All (InFile script.statements) script.transaction_groups
    → Succeeds
        (λ a. kinds_of a.statements ≡ kinds script.statements)
        (assess_script evaluate script catalog pg_version snapshot)
unfolding assess_script transaction_warnings
assess_script-total evaluate script catalog pg_version snapshot resolves in_file =
    Succeeds-bind (λ out. kinds_of out.0 ≡ kinds script.statements)
      (λ a. kinds_of a.statements ≡ kinds script.statements)
      (assess_from catalog pg_version snapshot evaluate script.transaction_groups 0
        script.statements _)
      (λ assessed. _)
      (assess_from-total catalog pg_version snapshot evaluate script.transaction_groups 0
        script.statements _ resolves)
      λ assessed e.
        Succeeds-bind (λ x. Unit) (λ a. kinds_of a.statements ≡ kinds script.statements)
          (transaction_warnings catalog pg_version script assessed.1.all_exclusive) (λ warnings. _)
          (Succeeds-bind (λ x. Unit) (λ x. Unit)
            (group_warnings catalog pg_version script.statements 0 script.transaction_groups)
            (λ warnings. _)
            (group_warnings-total catalog pg_version script.statements resolves 0
              script.transaction_groups in_file)
            λ warnings u. tt)
          λ warnings u. e
