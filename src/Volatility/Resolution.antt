-- ===== src/Volatility/Resolution.antt =====
-- What the facts of a server can change in the volatility of an expression.
use blastoise.Base.{
  ◌≡◌, refl, Option, some, none, List, [], ◌∷◌, ◌++◌, Text, inl, inr, Bool-cases, text_lt-total,
  All, arith, text_lt, place, sorted_set, sym, subst,
}
use blastoise.Ir.{Volatility}
use blastoise.Sql.{
  Name, Node, Nodes, end, node, absent, tuple_node, a_const, column_ref, type_cast,
  sql_value_function, func_call, a_expr, bool_expr, coalesce_expr, min_max_expr, case_expr,
  case_when, null_test, boolean_test, row_expr, a_array_expr, range_var, select_node, other_node,
}
use blastoise.Volatility.Expressions.{
  is_const, function_base, expression_volatility, volatilities, unknown_key, collect_unknown,
  collect_all, unknown_function_keys,
}

module _ (P : Text → Type 0) where
  All-place : (x : Text) (ys : List Text) → All P (place text_lt x ys) → P x × All P ys
  unfolding place
  All-place x [] h = h
  All-place x (y ∷ ys) h = elim (Bool-cases (text_lt x y)) [
    | inl before ↦ let all : All P (x ∷ y ∷ ys) = rw before at h in (all.0, all.1)
    | inr not_before ↦ elim (Bool-cases (text_lt y x)) [
      | inl after ↦
          let all : All P (y ∷ place text_lt x ys) = rw (not_before, after) at h in
          let rest = All-place x ys all.1 in (rest.0, (all.0, rest.1))
      | inr not_after ↦
          let all : All P (y ∷ ys) = rw (not_before, not_after) at h in
          (subst P (sym (text_lt-total x y not_before not_after)) all.0, (all.0, all.1))
    ]
  ]

  All-sorted_set : (xs : List Text) → All P (sorted_set text_lt xs) → All P xs
  unfolding sorted_set
  All-sorted_set [] h = tt
  All-sorted_set (x ∷ xs) h =
      let both = All-place x (sorted_set text_lt xs) h in (both.0, All-sorted_set xs both.1)

  All-prefix : (xs ys : List Text) → All P (xs ++ ys) → All P xs
  All-prefix [] ys h = tt
  All-prefix (x ∷ xs) ys h = (h.0, All-prefix xs ys h.1)

  All-suffix : (xs ys : List Text) → All P (xs ++ ys) → All P ys
  All-suffix [] ys h = h
  All-suffix (x ∷ xs) ys h = All-suffix xs ys h.1

module _ (resolved : Text → Option Volatility) where
  abbrev Silent : Text → Type 0
  Silent key = resolved key ≡ none

  function_base-Silent :
      (funcname : List Name)
      → All Silent (unknown_key funcname)
      → function_base (some resolved) funcname ≡ function_base none funcname
  unfolding function_base unknown_key
  function_base-Silent funcname h = ground arith

  mutual
    unfolding expression_volatility collect_unknown

    expression-Silent :
        (n : Node)
        → All Silent (collect_unknown n)
        → expression_volatility (some resolved) n ≡ expression_volatility none n
    expression-Silent absent h = refl
    expression-Silent (a_const isnull) h = refl
    expression-Silent (type_cast arg others) h = elim (Bool-cases (is_const arg)) [
      | inl t ↦ rw t
      | inr f ↦ rw (f, expression-Silent arg (rw f at h))
    ]
    expression-Silent sql_value_function h = refl
    expression-Silent (func_call funcname args others) h = rw (
      function_base-Silent funcname (All-prefix Silent _ (collect_all args) h),
      volatilities-Silent args (All-suffix Silent (unknown_key funcname) _ h),
    )
    expression-Silent (a_expr kind name lexpr rexpr) h = rw (
      expression-Silent lexpr (All-prefix Silent _ (collect_unknown rexpr) h),
      expression-Silent rexpr (All-suffix Silent (collect_unknown lexpr) _ h),
    )
    expression-Silent (bool_expr boolop args) h = rw (volatilities-Silent args h)
    expression-Silent (coalesce_expr args) h = rw (volatilities-Silent args h)
    expression-Silent (min_max_expr args) h = rw (volatilities-Silent args h)
    expression-Silent (case_expr arg defresult args) h =
        let later = All-suffix Silent (collect_unknown arg) _ h in
        rw (
          expression-Silent arg
              (All-prefix Silent _ (collect_unknown defresult ++ collect_all args) h),
          expression-Silent defresult (All-prefix Silent _ (collect_all args) later),
          volatilities-Silent args (All-suffix Silent (collect_unknown defresult) _ later),
        )
    expression-Silent (case_when expr result) h = rw (
      expression-Silent expr (All-prefix Silent _ (collect_unknown result) h),
      expression-Silent result (All-suffix Silent (collect_unknown expr) _ h),
    )
    expression-Silent (null_test arg) h = rw (expression-Silent arg h)
    expression-Silent (boolean_test arg) h = rw (expression-Silent arg h)
    expression-Silent (row_expr args) h = rw (volatilities-Silent args h)
    expression-Silent (a_array_expr elements) h = rw (volatilities-Silent elements h)
    expression-Silent (column_ref fields) h = refl
    expression-Silent (tuple_node items) h = rw (volatilities-Silent items h)
    expression-Silent (range_var relation) h = refl
    expression-Silent (select_node limit_count others) h = refl
    expression-Silent (other_node others) h = refl

    volatilities-Silent :
        (ns : Nodes)
        → All Silent (collect_all ns)
        → volatilities (some resolved) ns ≡ volatilities none ns
    volatilities-Silent end h = refl
    volatilities-Silent (node n ns) h = rw (
      expression-Silent n (All-prefix Silent _ (collect_all ns) h),
      volatilities-Silent ns (All-suffix Silent (collect_unknown n) _ h),
    )

-- Facts that name none of the collected functions leave the static answer as it is: what is
-- statically known is never overridden, and the collected keys are all that a server can decide.
pub expression_volatility-silent :
    (resolved : Text → Option Volatility) (n : Node)
    → All (λ key. resolved key ≡ none) (unknown_function_keys n)
    → expression_volatility (some resolved) n ≡ expression_volatility none n
unfolding unknown_function_keys
expression_volatility-silent resolved n h =
    expression-Silent resolved n (All-sorted_set (λ key. resolved key ≡ none) (collect_unknown n) h)
