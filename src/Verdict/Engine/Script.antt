-- ===== src/Verdict/Engine/Script.antt =====
-- verdict/engine.py `assess_script` and `_transaction_warnings`: the statements of a file in order.
use blastoise.Base.{
  ℕ, zero, suc, ◌+◌, Bool, true, false, ◌&&◌, not, Option, some, none, List, [], ◌∷◌, ◌++◌, length,
  leb, nat_beq, Text, contains, Result, ok, raise, index_error, ◌>>=◌, sorted_set, text_lt, nat_eq,
  list_eq, if◌then◌else◌,
}
use blastoise.Ir.{
  label, Volatility, ParsedStatement, MigrationScript, TransactionGroup, has_explicit_transactions,
}
use blastoise.Catalog.{
  LockMode, row_exclusive, access_exclusive, level, is_table_lock, LockCatalog, RelationLock,
  ResolvedLock, resolve,
}
use blastoise.Live.{LiveSnapshot}
use blastoise.Verdict.Model.{
  HeldLock, RowAssessment, StatementAssessment, TransactionWarning, ScriptAssessment,
}
use blastoise.Live.Resolve.{Decided}
use blastoise.Verdict.Engine.FileStates.{FileState, fresh, observe}
use blastoise.Verdict.Engine.Locks.{Context}
use blastoise.Verdict.Engine.Rows.{assess_row}
use blastoise.Verdict.Engine.Statement.{assess_statement}

-- `explicit_group_of.get(index)`: a later group wins.
unfoldable pub explicit_group_from : ℕ → List TransactionGroup → ℕ → Option ℕ
explicit_group_from i [] index = none
explicit_group_from i (g ∷ gs) index = elim (explicit_group_from (i + 1) gs index) [
  | some later ↦ some later
  | none ↦ if g.explicit && contains index g.statement_indices then some i else none
]

unfoldable pub explicit_group_of : List TransactionGroup → ℕ → Option ℕ
unfolding explicit_group_from
explicit_group_of groups index = explicit_group_from 0 groups index

-- The locks that a statement leaves held in its transaction.
held_from : ℕ → List RelationLock → List HeldLock
held_from index [] = []
held_from index (r ∷ rs) =
    let rest = held_from index rs in
    if r.certain && (is_table_lock r.lock_mode && leb (level row_exclusive) (level r.lock_mode))
    then record {
      relation = elim r.name [ none ↦ none | some q ↦ some (label q) ];
      lock_mode = r.lock_mode;
      acquired_by_index = index;
    }
      ∷ rest
    else rest

unfoldable pub held_by : ℕ → List ResolvedLock → List HeldLock
unfolding held_from
held_by index [] = []
held_by index (r ∷ rs) = held_from index r.relations ++ held_by index rs

-- `setdefault` on the keys of a dictionary.
abbrev add_key : Text → List Text → List Text
add_key name names = if contains name names then names else names ++ (name ∷ [])

abbrev is_exclusive : LockMode → Bool
is_exclusive access_exclusive = true
is_exclusive _ = false

exclusive_names : List RelationLock → List Text → List Text
exclusive_names [] names = names
exclusive_names (r ∷ rs) names = exclusive_names rs (
    if r.certain && is_exclusive r.lock_mode
    then (elim r.name [ none ↦ names | some q ↦ add_key (label q) names ])
    else names)

-- The relations that rows which surely run lock in ACCESS EXCLUSIVE mode.
unfoldable pub add_exclusive : List ResolvedLock → List Text → List Text
unfolding exclusive_names
add_exclusive [] names = names
add_exclusive (r ∷ rs) names =
    add_exclusive rs (if r.conditional then names else exclusive_names r.relations names)

-- The variables of the loop over the statements.
pub record Progress : Type 0 where
  pub file_state : FileState
  pub group_locks : ℕ → List HeldLock
  pub all_exclusive : List Text

module _ (catalog : LockCatalog) (pg_version : ℕ) where
  module _ (snapshot : Option LiveSnapshot) (evaluate : Text → Decided → Volatility) where
    unfoldable pub context_at : Progress → Option ℕ → Context
    context_at p group = record {
      catalog = catalog;
      pg_version = pg_version;
      snapshot = snapshot;
      file_state = p.file_state;
      in_explicit_txn = elim group [ none ↦ false | some _ ↦ true ];
      evaluate = evaluate;
    }

    abbrev pub assessed_rows : Context → List ResolvedLock → List (ResolvedLock × RowAssessment)
    assessed_rows ctx [] = []
    assessed_rows ctx (r ∷ rs) = (r, assess_row ctx r) ∷ assessed_rows ctx rs

    abbrev pub held_before : Progress → Option ℕ → List HeldLock
    held_before p none = []
    held_before p (some g) = p.group_locks g

    -- The bookkeeping for later statements.
    unfoldable pub advance :
        ℕ → ParsedStatement → Option ℕ → List ResolvedLock → Progress → Progress
    advance index s group resolved p = record {
      file_state = observe s p.file_state;
      group_locks = elim group [
        | none ↦ p.group_locks
        | some g ↦ λ other.
            if nat_beq other g
            then p.group_locks g ++ held_by index resolved
            else p.group_locks other
      ];
      all_exclusive = add_exclusive resolved p.all_exclusive;
    }

    unfoldable pub assess_from :
        List TransactionGroup
        → ℕ
        → List ParsedStatement
        → Progress
        → Result (List StatementAssessment × Progress)
    assess_from groups index [] p = ok ([], p)
    assess_from groups index (s ∷ ss) p =
        let group = explicit_group_of groups index in
        resolve catalog pg_version s >>= λ resolved.
        assess_from groups (index + 1) ss (advance index s group resolved p) >>= λ rest. ok (
          assess_statement index s (held_before p group)
                (assessed_rows (context_at p group) resolved)
              ∷ rest.0,
          rest.1,
        )

  unfoldable pub nth_statement : ℕ → List ParsedStatement → Result ParsedStatement
  nth_statement i [] = raise index_error
  nth_statement zero (s ∷ ss) = ok s
  nth_statement (suc i) (s ∷ ss) = nth_statement i ss

  unfoldable pub group_exclusive : List ParsedStatement → List ℕ → List Text → Result (List Text)
  unfolding nth_statement
  group_exclusive statements [] names = ok names
  group_exclusive statements (i ∷ is) names = nth_statement i statements >>= λ s.
      resolve catalog pg_version s >>= λ resolved.
      group_exclusive statements is (add_exclusive resolved names)

  abbrev warning : List Text → Option ℕ → TransactionWarning
  warning names group = record {
    relations = sorted_set text_lt names;
    group_index = group;
    hypothetical = elim group [ none ↦ true | some _ ↦ false ];
  }

  unfoldable pub group_warnings :
      List ParsedStatement → ℕ → List TransactionGroup → Result (List TransactionWarning)
  unfolding group_exclusive
  group_warnings statements i [] = ok []
  group_warnings statements i (g ∷ gs) =
      let rest = group_warnings statements (i + 1) gs in
      if g.explicit
      then (group_exclusive statements g.statement_indices [] >>= λ names. rest >>= λ more.
          ok (if leb 2 (length names) then warning names (some i) ∷ more else more))
      else rest

  -- `_transaction_warnings`
  unfoldable pub transaction_warnings :
      MigrationScript → List Text → Result (List TransactionWarning)
  unfolding group_warnings
  transaction_warnings script all_exclusive =
      group_warnings script.statements 0 script.transaction_groups >>= λ warnings. ok (
        if not (has_explicit_transactions script) && leb 2 (length all_exclusive)
        then warnings ++ (warning all_exclusive none ∷ [])
        else warnings)

-- `assess_script`. `evaluate` stands for `resolve_expression_volatility`.
unfoldable pub assess_script :
    (Text → Decided → Volatility)
    → MigrationScript
    → LockCatalog
    → ℕ
    → Option LiveSnapshot
    → Result ScriptAssessment
assess_script evaluate script catalog pg_version snapshot =
    let start : Progress = record {
      file_state = fresh script.baseline_shaped;
      group_locks = λ g. [];
      all_exclusive = [];
    } in
    assess_from catalog pg_version snapshot evaluate script.transaction_groups 0 script.statements
      start
    >>= λ assessed.
        transaction_warnings catalog pg_version script assessed.1.all_exclusive >>= λ warnings.
        ok (record {
          statements = assessed.0;
          transaction_warnings = warnings;
          pg_version = pg_version;
          online = elim snapshot [ none ↦ false | some _ ↦ true ];
          baseline_shaped = script.baseline_shaped;
        })
