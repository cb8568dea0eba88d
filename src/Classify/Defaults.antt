-- ===== src/Classify/Defaults.antt =====
-- classify.py and volatility.py: what the kind of an ADD COLUMN says of its default.
use blastoise.Base.{◌≡◌, ◌<◌, Bool, true, false, ◌&&◌, none, Bool-cases, inl, inr, arith}
use blastoise.Ir.{AlterTableActionKind, Volatility, constant, immutable, stable, unknown, volatile}
use blastoise.Sql.{Pglast, ColumnDef, Node}
use blastoise.Volatility.{rank}
use blastoise.Volatility.Laws.{calls_volatile, expression_volatility-volatile}
use blastoise.Classify.Names.{default_info, is_null_constant}
use blastoise.Classify.Columns.{Scan, scan, start_scan, default_kind, column_kind, add_column}

abbrev NonVolatile : AlterTableActionKind → Type 0
NonVolatile kind = kind ≡ AlterTableActionKind.add_column_default_nonvolatile

rank-nonvolatile :
    (not_null : Bool) (expr : Node) (v : Volatility)
    → NonVolatile (default_kind not_null expr v)
    → (rank v < 3) × ((not_null && is_null_constant expr) ≡ false)
unfolding default_kind
rank-nonvolatile not_null expr constant h = (omega arith, ground arith)
rank-nonvolatile not_null expr immutable h = (omega arith, ground arith)
rank-nonvolatile not_null expr stable h = (omega arith, ground arith)
rank-nonvolatile not_null expr unknown h = absurd (ground arith)
rank-nonvolatile not_null expr volatile h = absurd (ground arith)

-- The only branch that gives the kind is the one that looks at the default.
column_kind-nonvolatile :
    (pglast : Pglast) (d : ColumnDef) (s : Scan)
    → NonVolatile (column_kind pglast d.type_name s).0
    → (s.has_default ≡ true)
      × NonVolatile
          (default_kind s.not_null s.default_expr (default_info pglast s.default_expr).volatility)
unfolding column_kind
column_kind-nonvolatile pglast d s h = ground arith

pub add_column-nonvolatile :
    (pglast : Pglast) (d : ColumnDef) (missing_ok : Bool)
    → NonVolatile (add_column pglast d missing_ok).kind
    → ((scan d.constraints start_scan).has_default ≡ true)
      × (calls_volatile (scan d.constraints start_scan).default_expr ≡ false)
      × (((scan d.constraints start_scan).not_null
            && is_null_constant (scan d.constraints start_scan).default_expr)
          ≡ false)
unfolding add_column default_info
add_column-nonvolatile pglast d missing_ok h =
    let s = scan d.constraints start_scan in
    let branch = column_kind-nonvolatile pglast d s h in
    let found = rank-nonvolatile s.not_null s.default_expr _ branch.1 in
    (
      branch.0,
      elim (Bool-cases (calls_volatile s.default_expr)) [
        | inl t ↦
            absurd (omega (arith, found.0, expression_volatility-volatile none s.default_expr t))
        | inr f ↦ f
      ],
      found.1,
    )
