-- ===== src/Volatility/Live.antt =====
-- volatility.py `resolve_expression_volatility`: an expression that the deparser wrote, parsed again
-- and decided with the facts of a server.
use blastoise.Base.{
  Option, some, none, List, [], ◌∷◌, ◌++◌, Text, codes, Result, ok, raise, value_error,
  assertion_error, parse_error,
}
use blastoise.Ir.{Volatility}
use blastoise.Sql.{Pglast, RawStmt, accepted, refused, Node, Statement, select_stmt}
use blastoise.Volatility.Expressions.{expression_volatility}

-- `[target] = stmt.targetList`, and its value.
only_target : List (Option Node) → Result Node
only_target [] = raise value_error
only_target (target ∷ _ ∷ _) = raise value_error
only_target (none ∷ []) = raise assertion_error
only_target (some val ∷ []) = ok val

-- The one value that a SELECT computes.
selected : Option Statement → Result Node
unfolding only_target
selected (some (select_stmt into (some targets))) = only_target targets
selected _ = raise assertion_error

-- `[raw] = parse_sql(...)`.
only_statement : List RawStmt → Result Node
unfolding selected
only_statement [] = raise value_error
only_statement (raw ∷ []) = selected raw.stmt
only_statement (raw ∷ _ ∷ _) = raise value_error

unfoldable pub resolve_expression_volatility :
    Pglast → Text → (Text → Option Volatility) → Result Volatility
unfolding only_statement
resolve_expression_volatility pglast expression resolved =
    elim (pglast.parse_sql (codes "SELECT " ++ expression)) [
      | refused error ↦ raise parse_error
      | accepted raw ↦ elim (only_statement raw) [
        | ok val ↦ ok (expression_volatility (some resolved) val)
        | raise e ↦ raise e
      ]
    ]
