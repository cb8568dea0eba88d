-- ===== src/Classify/Windows.antt =====
-- classify.py: the shape of an UPDATE or DELETE.
use blastoise.Base.{
  Bool, true, false, ◌||◌, Option, some, none, List, [], ◌∷◌, any, Text, codes, contains,
  if◌then◌else◌, list_eq, nat_eq,
}
use blastoise.Ir.{StatementKind, SourceSpan, ParsedStatement, parsed, dml_details}
use blastoise.Sql.{
  Name, Node, Nodes, end, node, absent, column_ref, bool_expr, a_expr, ExprKind, aexpr_between,
  aexpr_other, and_expr, DmlStmt, last_name,
}
use blastoise.Classify.Names.{nonempty_strings, targets}
use blastoise.Classify.Visitors.{finds, is_limited, is_ctid}

-- `_column_of`.
unfoldable pub column_of : Node → Option Text
column_of (column_ref fields) = last_name (nonempty_strings fields)
column_of _ = none

-- The variables of `_has_key_window`.
pub record Window : Type 0 where
  pub low : List Text
  pub high : List Text
  pub between : Bool

-- The one name of an operator: `names[0] if len(names) == 1 else None`.
unfoldable pub operator_name : List Name → Option Text
operator_name name = elim (nonempty_strings name) [
  | [] ↦ none
  | op ∷ more ↦ elim more [ [] ↦ some op | _ ∷ _ ↦ none ]
]

-- Whether an operator stands in `_LOWER_BOUND_OPS` or `_UPPER_BOUND_OPS`.
pub data Bound : Type 0 where
  lower_bound upper_bound no_bound : Bound

unfoldable pub bound_of : Option Text → Bound
bound_of none = no_bound
bound_of (some op) =
    if contains op (codes ">" ∷ codes ">=" ∷ [])
    then lower_bound
    else if contains op (codes "<" ∷ codes "<=" ∷ [])
    then upper_bound
    else no_bound

-- `x < col` means `col > x`.
abbrev pub flipped : Bound → Bound
flipped lower_bound = upper_bound
flipped upper_bound = lower_bound
flipped no_bound = no_bound

-- The column that an operator bounds, and from which side.
unfoldable pub bounded : Bound → Node → Node → Option (Bound × Text)
bounded no_bound lexpr rexpr = none
bounded b lexpr rexpr = elim (column_of lexpr) [
  | some column ↦ some (b, column)
  | none ↦ elim (column_of rexpr) [ some column ↦ some (flipped b, column) | none ↦ none ]
]

unfoldable pub add_bound : Option (Bound × Text) → Window → Window
add_bound none w = w
add_bound (some (lower_bound, column)) w = record w { low = column ∷ w.low }
add_bound (some (upper_bound, column)) w = record w { high = column ∷ w.high }
add_bound (some (no_bound, column)) w = w

-- `expr.kind is AEXPR_BETWEEN and _column_of(expr.lexpr)`.
unfoldable pub is_between : ExprKind → Node → Bool
is_between aexpr_between lexpr = elim (column_of lexpr) [ none ↦ false | some column ↦ true ]
is_between aexpr_other lexpr = false

-- `collect`.
unfoldable mutual
  pub collect : Node → Window → Window
  collect (bool_expr and_expr args) w = collect_args args w
  collect (a_expr kind name lexpr rexpr) w =
      if is_between kind lexpr
      then record w { between = true }
      else add_bound (bounded (bound_of (operator_name name)) lexpr rexpr) w
  collect _ w = w

  pub collect_args : Nodes → Window → Window
  collect_args end w = w
  collect_args (node n ns) w = collect_args ns (collect n w)

abbrev pub no_window : Window
no_window = record { low = []; high = []; between = false }

unfoldable pub has_key_window : Node → Bool
unfolding collect
has_key_window where_clause =
    let w = collect where_clause no_window in w.between || any (λ c. contains c w.high) w.low

abbrev pub present : Node → Bool
present absent = false
present _ = true

abbrev pub signal_if : Bool → Text → List Text → List Text
signal_if b signal more = if b then signal ∷ more else more

unfoldable pub batch_signals : DmlStmt → List Text
batch_signals d =
    if present d.where_clause
    then signal_if (finds is_limited d) (codes "limit") (
        signal_if (finds is_ctid d) (codes "ctid")
          (signal_if (has_key_window d.where_clause) (codes "key_window") []))
    else []

unfoldable pub dml_kind : Bool → Bool → List Text → StatementKind
dml_kind is_update false signals =
    if is_update then StatementKind.update_without_where else StatementKind.delete_without_where
dml_kind is_update true [] = if is_update then StatementKind.update else StatementKind.delete
dml_kind is_update true (s ∷ ss) =
    if is_update then StatementKind.update_batched else StatementKind.delete_batched

unfoldable pub classify_dml : Bool → DmlStmt → Text → SourceSpan → ParsedStatement
unfolding dml_kind
classify_dml is_update d sql span =
    let has_where = present d.where_clause in
    let signals = batch_signals d in
    parsed
      (record {
        kind = dml_kind is_update has_where signals;
        sql = sql;
        span = span;
        node_tag = if is_update then codes "UpdateStmt" else codes "DeleteStmt";
        targets = targets (d.relation ∷ []);
        alter_actions = [];
        only = false;
      })
      (dml_details (record { has_where = has_where; batch_signals = signals }))
