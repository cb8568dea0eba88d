-- ===== src/Volatility/Expressions.antt =====
-- volatility.py: the walks over an expression. The facts of a server are `resolved`, a dictionary
-- from the dotted name of a function.
use blastoise.Base.{
  Bool, true, false, Option, some, none, List, [], ◌∷◌, ◌++◌, Text, contains, text_lt, sorted_set,
  if◌then◌else◌, list_eq, nat_eq,
}
use blastoise.Ir.{Volatility, constant, immutable, stable, unknown}
use blastoise.Sql.{
  Name, strings, Node, Nodes, end, node, absent, tuple_node, a_const, column_ref, type_cast,
  sql_value_function, func_call, a_expr, bool_expr, coalesce_expr, min_max_expr, case_expr,
  case_when, null_test, boolean_test, row_expr, a_array_expr, range_var, select_node, other_node,
}
use blastoise.Volatility.Tables.{known_operators}
use blastoise.Volatility.Functions.{
  combine, function_name, function_key, static_function_volatility,
}

abbrev pub Resolved : Type 0
Resolved = Option (Text → Option Volatility)

abbrev pub is_const : Node → Bool
is_const (a_const isnull) = true
is_const _ = false

-- `_function_volatility`, without the arguments: a fact of the server counts only where the lists
-- do not know the function.
unfoldable pub function_base : Resolved → List Name → Volatility
function_base none funcname = static_function_volatility (function_name funcname)
function_base (some resolved) funcname =
    elim (static_function_volatility (function_name funcname)) [
      | unknown ↦ elim (function_key funcname) [
        | none ↦ unknown
        | some key ↦ elim (resolved key) [ none ↦ unknown | some fact ↦ fact ]
      ]
      | known ↦ known
    ]

-- An operator is known by its one, unqualified name.
unfoldable pub operator_base : List Name → Volatility
operator_base name = elim (strings name) [
  | [] ↦ unknown
  | op ∷ more ↦ elim more [
    | [] ↦ if contains op known_operators then immutable else unknown
    | _ ∷ _ ↦ unknown
  ]
]

unfoldable mutual
  pub expression_volatility : Resolved → Node → Volatility
  expression_volatility resolved absent = constant
  expression_volatility resolved (a_const isnull) = constant
  expression_volatility resolved (type_cast arg others) =
      if is_const arg
      then constant
      else combine (immutable ∷ expression_volatility resolved arg ∷ [])
  expression_volatility resolved sql_value_function = stable
  expression_volatility resolved (func_call funcname args others) =
      combine (function_base resolved funcname ∷ volatilities resolved args)
  expression_volatility resolved (a_expr kind name lexpr rexpr) = combine (
      operator_base name
      ∷ expression_volatility resolved lexpr
      ∷ expression_volatility resolved rexpr
      ∷ [])
  expression_volatility resolved (bool_expr boolop args) =
      combine (immutable ∷ volatilities resolved args)
  expression_volatility resolved (coalesce_expr args) =
      combine (immutable ∷ volatilities resolved args)
  expression_volatility resolved (min_max_expr args) =
      combine (immutable ∷ volatilities resolved args)
  expression_volatility resolved (case_expr arg defresult args) = combine (
      immutable
      ∷ expression_volatility resolved arg
      ∷ expression_volatility resolved defresult
      ∷ volatilities resolved args)
  expression_volatility resolved (case_when expr result) =
      combine (expression_volatility resolved expr ∷ expression_volatility resolved result ∷ [])
  expression_volatility resolved (null_test arg) =
      combine (immutable ∷ expression_volatility resolved arg ∷ [])
  expression_volatility resolved (boolean_test arg) =
      combine (immutable ∷ expression_volatility resolved arg ∷ [])
  expression_volatility resolved (row_expr args) = combine (immutable ∷ volatilities resolved args)
  expression_volatility resolved (a_array_expr elements) =
      combine (immutable ∷ volatilities resolved elements)
  expression_volatility resolved (column_ref fields) = immutable
  expression_volatility resolved (tuple_node items) = combine (volatilities resolved items)
  expression_volatility resolved (range_var relation) = unknown
  expression_volatility resolved (select_node limit_count others) = unknown
  expression_volatility resolved (other_node others) = unknown

  pub volatilities : Resolved → Nodes → List Volatility
  volatilities resolved end = []
  volatilities resolved (node n ns) = expression_volatility resolved n ∷ volatilities resolved ns

-- The key of a function that the lists do not know.
unfoldable pub unknown_key : List Name → List Text
unknown_key funcname = elim (static_function_volatility (function_name funcname)) [
  | unknown ↦ elim (function_key funcname) [ none ↦ [] | some key ↦ key ∷ [] ]
  | _ ↦ []
]

unfoldable mutual
  pub collect_unknown : Node → List Text
  collect_unknown absent = []
  collect_unknown (a_const isnull) = []
  collect_unknown sql_value_function = []
  collect_unknown (column_ref fields) = []
  collect_unknown (type_cast arg others) = if is_const arg then [] else collect_unknown arg
  collect_unknown (func_call funcname args others) = unknown_key funcname ++ collect_all args
  collect_unknown (a_expr kind name lexpr rexpr) = collect_unknown lexpr ++ collect_unknown rexpr
  collect_unknown (bool_expr boolop args) = collect_all args
  collect_unknown (coalesce_expr args) = collect_all args
  collect_unknown (min_max_expr args) = collect_all args
  collect_unknown (row_expr args) = collect_all args
  collect_unknown (case_expr arg defresult args) =
      collect_unknown arg ++ (collect_unknown defresult ++ collect_all args)
  collect_unknown (case_when expr result) = collect_unknown expr ++ collect_unknown result
  collect_unknown (null_test arg) = collect_unknown arg
  collect_unknown (boolean_test arg) = collect_unknown arg
  collect_unknown (a_array_expr elements) = collect_all elements
  collect_unknown (tuple_node items) = collect_all items
  collect_unknown (range_var relation) = []
  collect_unknown (select_node limit_count others) = []
  collect_unknown (other_node others) = []

  pub collect_all : Nodes → List Text
  collect_all end = []
  collect_all (node n ns) = collect_unknown n ++ collect_all ns

-- The names that a live lookup may decide, sorted, each once.
unfoldable pub unknown_function_keys : Node → List Text
unfolding collect_unknown
unknown_function_keys n = sorted_set text_lt (collect_unknown n)
