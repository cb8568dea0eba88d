-- ===== src/Classify/Conjuncts.antt =====
-- The conjuncts of a WHERE clause, and what classify.py looks for in them.
use blastoise.Base.{
  Bool, true, false, not, ◌&&◌, Option, some, none, List, [], ◌∷◌, ◌++◌, Text, ◌==◌, list_eq,
  nat_eq,
}
use blastoise.Sql.{Node, Nodes, end, node, a_expr, bool_expr, and_expr}
use blastoise.Classify.Windows.{
  column_of, operator_name, Bound, lower_bound, upper_bound, no_bound, bound_of, is_between,
}

-- The terms of a condition, taken apart at AND.
unfoldable mutual
  pub conjuncts : Node → List Node
  conjuncts (bool_expr and_expr args) = conjuncts_of args
  conjuncts n = n ∷ []

  pub conjuncts_of : Nodes → List Node
  conjuncts_of end = []
  conjuncts_of (node n ns) = conjuncts n ++ conjuncts_of ns

-- `col BETWEEN ...`.
abbrev pub between_term : Node → Bool
between_term (a_expr kind name lexpr rexpr) = is_between kind lexpr
between_term _ = false

abbrev is_column : Text → Option Text → Bool
is_column c none = false
is_column c (some column) = c == column

abbrev no_column : Option Text → Bool
no_column none = true
no_column (some column) = false

-- `col > x`, or `x < col` where `x` is no column.
abbrev pub low_side : Bound → Text → Node → Node → Bool
low_side lower_bound c lexpr rexpr = is_column c (column_of lexpr)
low_side upper_bound c lexpr rexpr = no_column (column_of lexpr) && is_column c (column_of rexpr)
low_side no_bound c lexpr rexpr = false

abbrev pub opposite : Bound → Bound
opposite lower_bound = upper_bound
opposite upper_bound = lower_bound
opposite no_bound = no_bound

-- The term bounds the column from below.
abbrev pub bounds_below : Text → Node → Bool
bounds_below c (a_expr kind name lexpr rexpr) =
    not (is_between kind lexpr) && low_side (bound_of (operator_name name)) c lexpr rexpr
bounds_below c _ = false

-- The term bounds the column from above.
abbrev pub bounds_above : Text → Node → Bool
bounds_above c (a_expr kind name lexpr rexpr) =
    not (is_between kind lexpr) && low_side (opposite (bound_of (operator_name name))) c lexpr rexpr
bounds_above c _ = false
