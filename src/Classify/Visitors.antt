-- ===== src/Classify/Visitors.antt =====
-- classify.py: the visitors, which look at every node of a tree.
use blastoise.Base.{
  Bool, true, false, ◌||◌, Option, some, none, List, [], ◌∷◌, Text, codes, contains, ◌==◌, list_eq,
  nat_eq, option_eq,
}
use blastoise.Sql.{
  Name, string, not_string, last_name, Node, Nodes, end, node, absent, tuple_node, a_const,
  column_ref, type_cast, sql_value_function, func_call, a_expr, bool_expr, coalesce_expr,
  min_max_expr, case_expr, case_when, null_test, boolean_test, row_expr, a_array_expr, range_var,
  select_node, other_node, DmlStmt,
}
use blastoise.Classify.Names.{nonempty_strings, lower}

-- Some node of the tree passes the test.
module _ (test : Node → Bool) where
  unfoldable mutual
    pub visit : Node → Bool
    visit absent = test absent
    visit (tuple_node items) = test (tuple_node items) || visit_all items
    visit (a_const isnull) = test (a_const isnull)
    visit (column_ref fields) = test (column_ref fields)
    visit (type_cast arg others) = test (type_cast arg others) || (visit arg || visit_all others)
    visit sql_value_function = test sql_value_function
    visit (func_call funcname args others) =
        test (func_call funcname args others) || (visit_all args || visit_all others)
    visit (a_expr kind name lexpr rexpr) =
        test (a_expr kind name lexpr rexpr) || (visit lexpr || visit rexpr)
    visit (bool_expr boolop args) = test (bool_expr boolop args) || visit_all args
    visit (coalesce_expr args) = test (coalesce_expr args) || visit_all args
    visit (min_max_expr args) = test (min_max_expr args) || visit_all args
    visit (case_expr arg defresult args) =
        test (case_expr arg defresult args) || (visit arg || (visit defresult || visit_all args))
    visit (case_when expr result) = test (case_when expr result) || (visit expr || visit result)
    visit (null_test arg) = test (null_test arg) || visit arg
    visit (boolean_test arg) = test (boolean_test arg) || visit arg
    visit (row_expr args) = test (row_expr args) || visit_all args
    visit (a_array_expr elements) = test (a_array_expr elements) || visit_all elements
    visit (range_var relation) = test (range_var relation)
    visit (select_node limit_count others) =
        test (select_node limit_count others) || (visit limit_count || visit_all others)
    visit (other_node others) = test (other_node others) || visit_all others

    pub visit_all : Nodes → Bool
    visit_all end = false
    visit_all (node n ns) = visit n || visit_all ns

-- `_BatchSignalFinder.visit_SelectStmt`: a query with a limit.
unfoldable pub is_limited : Node → Bool
is_limited (select_node absent others) = false
is_limited (select_node _ others) = true
is_limited _ = false

-- `sval` of the last text among the fields.
unfoldable pub last_sval : Option Text → List Name → Option Text
last_sval best [] = best
last_sval best (string sval ∷ items) = last_sval sval items
last_sval best (not_string ∷ items) = last_sval best items

-- `_BatchSignalFinder.visit_ColumnRef`: a reference to `ctid`.
unfoldable pub is_ctid : Node → Bool
is_ctid (column_ref fields) = last_sval none fields == some (codes "ctid")
is_ctid _ = false

-- The finder on an UPDATE or DELETE: a relation name is no signal.
unfoldable pub finds : (Node → Bool) → DmlStmt → Bool
unfolding visit
finds test d = visit test d.where_clause || visit_all test d.others

-- `_CATALOG_RELATIONS`.
unfoldable pub catalog_relations : List Text
catalog_relations =
    codes "pg_class"
    ∷ codes "pg_attribute"
    ∷ codes "pg_constraint"
    ∷ codes "pg_type"
    ∷ codes "pg_enum"
    ∷ codes "pg_index"
    ∷ codes "pg_indexes"
    ∷ codes "pg_tables"
    ∷ codes "pg_views"
    ∷ codes "pg_matviews"
    ∷ codes "pg_sequences"
    ∷ codes "pg_namespace"
    ∷ codes "pg_proc"
    ∷ codes "pg_trigger"
    ∷ codes "pg_policies"
    ∷ codes "pg_extension"
    ∷ codes "pg_roles"
    ∷ codes "pg_attrdef"
    ∷ codes "pg_am"
    ∷ codes "pg_database"
    ∷ codes "pg_settings"
    ∷ codes "pg_publication"
    ∷ codes "pg_subscription"
    ∷ []

-- `_EXISTENCE_PROBE_FUNCTIONS`.
unfoldable pub existence_probe_functions : List Text
existence_probe_functions =
    codes "to_regclass"
    ∷ codes "to_regtype"
    ∷ codes "to_regproc"
    ∷ codes "to_regprocedure"
    ∷ codes "to_regnamespace"
    ∷ codes "to_regrole"
    ∷ codes "to_regoper"
    ∷ codes "to_regoperator"
    ∷ []

abbrev unqualified_catalog : Option Text → Bool
unqualified_catalog none = false
unqualified_catalog (some relname) = contains relname catalog_relations

-- `_CatalogProbeFinder.visit_RangeVar` and `visit_FuncCall`.
unfoldable pub is_probe : Node → Bool
is_probe (range_var r) = elim r.schemaname [
  | none ↦ unqualified_catalog r.relname
  | some schema ↦ schema == codes "information_schema" || schema == codes "pg_catalog"
]
is_probe (func_call funcname args others) = elim (last_name (nonempty_strings funcname)) [
  | none ↦ false
  | some name ↦ contains (lower name) existence_probe_functions
]
is_probe _ = false
