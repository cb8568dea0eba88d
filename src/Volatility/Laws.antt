-- ===== src/Volatility/Laws.antt =====
-- What volatility.py promises: no volatile call is missed, and the facts of a server count only
-- where the lists do not know.
use blastoise.Base.{
  ◌≤◌, ◌≡◌, refl, Bool, true, false, ◌||◌, some, none, List, [], ◌∷◌, ◌⊎◌, inl, inr, contains,
  max_by, max_by-ge, Bool-cases, All, Any, arith, list_eq, nat_eq,
}
use blastoise.Ir.{Volatility, constant}
use blastoise.Sql.{
  Name, Node, Nodes, end, node, absent, tuple_node, a_const, column_ref, type_cast,
  sql_value_function, func_call, a_expr, bool_expr, coalesce_expr, min_max_expr, case_expr,
  case_when, null_test, boolean_test, row_expr, a_array_expr, range_var, select_node, other_node,
}
use blastoise.Volatility.Tables.{volatile_functions}
use blastoise.Volatility.Functions.{rank, combine, function_name, static_function_volatility}
use blastoise.Volatility.Expressions.{
  Resolved, is_const, function_base, expression_volatility, volatilities,
}

-- A call of a function of the volatile list.
abbrev calls : List Name → Bool
calls funcname = elim (function_name funcname) [
  | none ↦ false
  | some name ↦ contains name volatile_functions
]

-- Some call at or below the node, outside the clauses of a call that no default can have (FILTER,
-- OVER, ORDER BY) and the modifiers of a type, calls a function of the volatile list.
unfoldable mutual
  pub calls_volatile : Node → Bool
  calls_volatile absent = false
  calls_volatile (a_const isnull) = false
  calls_volatile (type_cast arg others) = calls_volatile arg
  calls_volatile sql_value_function = false
  calls_volatile (func_call funcname args others) = calls funcname || any_volatile args
  calls_volatile (a_expr kind name lexpr rexpr) = calls_volatile lexpr || calls_volatile rexpr
  calls_volatile (bool_expr boolop args) = any_volatile args
  calls_volatile (coalesce_expr args) = any_volatile args
  calls_volatile (min_max_expr args) = any_volatile args
  calls_volatile (case_expr arg defresult args) =
      calls_volatile arg || (calls_volatile defresult || any_volatile args)
  calls_volatile (case_when expr result) = calls_volatile expr || calls_volatile result
  calls_volatile (null_test arg) = calls_volatile arg
  calls_volatile (boolean_test arg) = calls_volatile arg
  calls_volatile (row_expr args) = any_volatile args
  calls_volatile (a_array_expr elements) = any_volatile elements
  calls_volatile (column_ref fields) = false
  calls_volatile (tuple_node items) = any_volatile items
  calls_volatile (range_var relation) = false
  calls_volatile (select_node limit_count others) =
      calls_volatile limit_count || any_volatile others
  calls_volatile (other_node others) = any_volatile others

  pub any_volatile : Nodes → Bool
  any_volatile end = false
  any_volatile (node n ns) = calls_volatile n || any_volatile ns

-- UNKNOWN or VOLATILE: the column is not taken for one that needs no rewrite.
abbrev pub Doubtful : Volatility → Type 0
Doubtful v = 3 ≤ rank v

either : (a b : Bool) → (a || b) ≡ true → (a ≡ true) ⊎ (b ≡ true)
either true b h = inl refl
either false b h = inr h

Doubtful-among :
    (top : Volatility) (vs : List Volatility)
    → All (λ v. rank v ≤ rank top) vs
    → Any Doubtful vs
    → Doubtful top
Doubtful-among top [] h m = absurd m
Doubtful-among top (v ∷ vs) h (inl d) = omega (arith, h.0)
Doubtful-among top (v ∷ vs) h (inr m) = Doubtful-among top vs h.1 m

combine-Doubtful : (vs : List Volatility) → Any Doubtful vs → Doubtful (combine vs)
unfolding combine
combine-Doubtful vs m = Doubtful-among (max_by rank constant vs) vs (max_by-ge rank constant vs).1 m

function_base-Doubtful :
    (resolved : Resolved) (funcname : List Name)
    → calls funcname ≡ true
    → Doubtful (function_base resolved funcname)
unfolding function_base static_function_volatility
function_base-Doubtful none funcname h = ground arith
function_base-Doubtful (some resolved) funcname h = ground arith

calls_volatile-const : (n : Node) → is_const n ≡ true → calls_volatile n ≡ false
unfolding calls_volatile
calls_volatile-const (a_const isnull) h = refl
calls_volatile-const absent h = cc
calls_volatile-const (type_cast arg others) h = cc
calls_volatile-const sql_value_function h = cc
calls_volatile-const (func_call funcname args others) h = cc
calls_volatile-const (a_expr kind name lexpr rexpr) h = cc
calls_volatile-const (bool_expr boolop args) h = cc
calls_volatile-const (coalesce_expr args) h = cc
calls_volatile-const (min_max_expr args) h = cc
calls_volatile-const (case_expr arg defresult args) h = cc
calls_volatile-const (case_when expr result) h = cc
calls_volatile-const (null_test arg) h = cc
calls_volatile-const (boolean_test arg) h = cc
calls_volatile-const (row_expr args) h = cc
calls_volatile-const (a_array_expr elements) h = cc
calls_volatile-const (column_ref fields) h = cc
calls_volatile-const (tuple_node items) h = cc
calls_volatile-const (range_var relation) h = cc
calls_volatile-const (select_node limit_count others) h = cc
calls_volatile-const (other_node others) h = cc

mutual
  unfolding expression_volatility calls_volatile

  expression-Doubtful :
      (r : Resolved) (n : Node) → calls_volatile n ≡ true → Doubtful (expression_volatility r n)
  expression-Doubtful r absent h = cc
  expression-Doubtful r (a_const isnull) h = cc
  expression-Doubtful r (type_cast arg others) h = elim (Bool-cases (is_const arg)) [
    | inl t ↦ absurd (ground (arith, calls_volatile-const arg t))
    | inr f ↦ rw f (combine-Doubtful _ (inr (inl (expression-Doubtful r arg h))))
  ]
  expression-Doubtful r sql_value_function h = cc
  expression-Doubtful r (func_call funcname args others) h =
      combine-Doubtful _ (elim (either _ _ h) [
        | inl c ↦ inl (function_base-Doubtful r funcname c)
        | inr m ↦ inr (volatilities-Doubtful r args m)
      ])
  expression-Doubtful r (a_expr kind name lexpr rexpr) h = combine-Doubtful _ (elim (either _ _ h) [
    | inl c ↦ inr (inl (expression-Doubtful r lexpr c))
    | inr c ↦ inr (inr (inl (expression-Doubtful r rexpr c)))
  ])
  expression-Doubtful r (bool_expr boolop args) h =
      combine-Doubtful _ (inr (volatilities-Doubtful r args h))
  expression-Doubtful r (coalesce_expr args) h =
      combine-Doubtful _ (inr (volatilities-Doubtful r args h))
  expression-Doubtful r (min_max_expr args) h =
      combine-Doubtful _ (inr (volatilities-Doubtful r args h))
  expression-Doubtful r (case_expr arg defresult args) h = combine-Doubtful _ (
      inr (elim (either (calls_volatile arg) _ h) [
        | inl c ↦ inl (expression-Doubtful r arg c)
        | inr m ↦ inr (elim (either (calls_volatile defresult) _ m) [
          | inl c ↦ inl (expression-Doubtful r defresult c)
          | inr k ↦ inr (volatilities-Doubtful r args k)
        ])
      ]))
  expression-Doubtful r (case_when expr result) h = combine-Doubtful _ (elim (either _ _ h) [
    | inl c ↦ inl (expression-Doubtful r expr c)
    | inr c ↦ inr (inl (expression-Doubtful r result c))
  ])
  expression-Doubtful r (null_test arg) h =
      combine-Doubtful _ (inr (inl (expression-Doubtful r arg h)))
  expression-Doubtful r (boolean_test arg) h =
      combine-Doubtful _ (inr (inl (expression-Doubtful r arg h)))
  expression-Doubtful r (row_expr args) h =
      combine-Doubtful _ (inr (volatilities-Doubtful r args h))
  expression-Doubtful r (a_array_expr elements) h =
      combine-Doubtful _ (inr (volatilities-Doubtful r elements h))
  expression-Doubtful r (column_ref fields) h = cc
  expression-Doubtful r (tuple_node items) h = combine-Doubtful _ (volatilities-Doubtful r items h)
  expression-Doubtful r (range_var relation) h = cc
  expression-Doubtful r (select_node limit_count others) h = omega arith
  expression-Doubtful r (other_node others) h = omega arith

  volatilities-Doubtful :
      (r : Resolved) (ns : Nodes) → any_volatile ns ≡ true → Any Doubtful (volatilities r ns)
  volatilities-Doubtful r end h = cc
  volatilities-Doubtful r (node n ns) h = elim (either _ _ h) [
    | inl c ↦ inl (expression-Doubtful r n c)
    | inr m ↦ inr (volatilities-Doubtful r ns m)
  ]

-- Whatever facts a server gives, an expression in which a function of the volatile list is called
-- is UNKNOWN or VOLATILE.
pub expression_volatility-volatile :
    (resolved : Resolved) (n : Node)
    → calls_volatile n ≡ true
    → Doubtful (expression_volatility resolved n)
expression_volatility-volatile resolved n h = expression-Doubtful resolved n h
