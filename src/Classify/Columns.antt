-- ===== src/Classify/Columns.antt =====
-- classify.py: ADD COLUMN.
use blastoise.Base.{
  Bool, true, false, ◌&&◌, Option, some, none, List, [], ◌∷◌, ◌++◌, Text, String, codes,
  if◌then◌else◌, ◌==◌, list_eq, nat_eq, option_eq,
}
use blastoise.Ir.{AlterTableAction, AlterTableActionKind, QualifiedName, DefaultInfo, Volatility}
use blastoise.Sql.{
  Node, absent, Pglast, Constraint, ConstrType, constr_notnull, constr_default, constr_identity,
  constr_generated, constr_check, constr_primary, constr_unique, constr_foreign, ColumnDef, Def,
  column_def, TypeName,
}
use blastoise.Classify.Names.{qname, is_serial_type, is_null_constant, default_info}

-- An action with its kind and nothing else.
abbrev pub bare : AlterTableActionKind → AlterTableAction
bare kind = record {
  kind = kind;
  column = none;
  constraint_name = none;
  column_type = none;
  default = none;
  not_null = false;
  not_valid = false;
  has_using_expression = false;
  using_index = none;
  inline_constraints = [];
  partition = none;
  referenced_table = none;
  cascade = false;
  missing_ok = false;
  detail = none;
}

-- The variables of the loop over the constraints of the column.
pub record Scan : Type 0 where
  pub not_null : Bool
  pub default_expr : Node
  pub has_default : Bool
  pub identity : Bool
  pub generated_stored : Bool
  pub generated_virtual : Bool
  pub inline : List Text
  pub referenced_table : Option QualifiedName

abbrev pub start_scan : Scan
start_scan = record {
  not_null = false;
  default_expr = absent;
  has_default = false;
  identity = false;
  generated_stored = false;
  generated_virtual = false;
  inline = [];
  referenced_table = none;
}

abbrev append_label : String → Scan → Scan
append_label label s = record s { inline = s.inline ++ codes label ∷ [] }

-- The branches on `contype`; the labels are those of `_INLINE_CONSTRAINT_LABELS`.
unfoldable pub scan_constraint : Option ConstrType → Constraint → Scan → Scan
scan_constraint (some constr_notnull) con s = record s { not_null = true }
scan_constraint (some constr_default) con s = record s {
  has_default = true;
  default_expr = con.raw_expr;
}
scan_constraint (some constr_identity) con s = record s { identity = true }
scan_constraint (some constr_generated) con s =
    if con.generated_kind == some (codes "v")
    then record s { generated_virtual = true }
    else record s { generated_stored = true }
scan_constraint (some constr_primary) con s = append_label "primary_key" s
scan_constraint (some constr_unique) con s = append_label "unique" s
scan_constraint (some constr_foreign) con s = append_label "references" (elim s.referenced_table [
  | none ↦ record s { referenced_table = qname con.pktable }
  | some table ↦ s
])
scan_constraint (some constr_check) con s = append_label "check" s
scan_constraint _ con s = s

unfoldable pub scan : List (Option Constraint) → Scan → Scan
unfolding scan_constraint
scan [] s = s
scan (none ∷ cons) s = scan cons s
scan (some con ∷ cons) s = scan cons (scan_constraint con.contype con s)

-- The kind of a column with a default. DEFAULT NULL gives no value to fill in.
unfoldable pub default_kind : Bool → Node → Volatility → AlterTableActionKind
default_kind not_null expr volatility =
    if not_null && is_null_constant expr
    then AlterTableActionKind.add_column_not_null_no_default
    else elim volatility [
      | Volatility.volatile ↦ AlterTableActionKind.add_column_default_volatile
      | Volatility.unknown ↦ AlterTableActionKind.add_column_default_unknown_volatility
      | _ ↦ AlterTableActionKind.add_column_default_nonvolatile
    ]

-- The chain of branches that picks the kind, with the default where that branch looks at it.
unfoldable pub column_kind :
    Pglast → Option TypeName → Scan → AlterTableActionKind × Option DefaultInfo
unfolding default_kind default_info
column_kind pglast type_name s =
    if s.generated_stored
    then (AlterTableActionKind.add_column_generated_stored, none)
    else if s.generated_virtual
    then (AlterTableActionKind.add_column_generated_virtual, none)
    else if s.identity
    then (AlterTableActionKind.add_column_identity, none)
    else if is_serial_type type_name
    then (AlterTableActionKind.add_column_serial, none)
    else if s.has_default
    then (let default = default_info pglast s.default_expr in
        (default_kind s.not_null s.default_expr default.volatility, some default))
    else if s.not_null
    then (AlterTableActionKind.add_column_not_null_no_default, none)
    else (AlterTableActionKind.add_column, none)

-- `_deparse` of a type.
unfoldable pub deparse_type : Pglast → Option TypeName → Option Text
deparse_type pglast none = none
deparse_type pglast (some t) = pglast.deparse t.as_node

unfoldable pub add_column : Pglast → ColumnDef → Bool → AlterTableAction
unfolding scan column_kind deparse_type
add_column pglast d missing_ok =
    let s = scan d.constraints start_scan in
    let (kind, default) = column_kind pglast d.type_name s in
    record (bare kind) {
      column = d.colname;
      column_type = deparse_type pglast d.type_name;
      default = default;
      not_null = s.not_null;
      inline_constraints = s.inline;
      referenced_table = s.referenced_table;
      missing_ok = missing_ok;
    }

unfoldable pub add_column_action : Pglast → Def → Bool → AlterTableAction
unfolding add_column
add_column_action pglast (column_def d) missing_ok = add_column pglast d missing_ok
add_column_action pglast _ missing_ok = record (bare AlterTableActionKind.other) {
  detail = some (codes "AT_AddColumn");
}
