-- ===== src/Sql/Trees.antt =====
-- Names, relations and expressions of a parse tree. A field that only a visitor reaches, which
-- walks every node below, is in `others`.
use blastoise.Base.{Bool, Option, List, Text}

-- An item of a list of names: `ast.String` with its `sval`, or another node, such as `*`.
pub data Name : Type 0 where
  string : (sval : Option Text) → Name
  not_string : Name

-- `ast.RangeVar`.
pub record RangeVar : Type 0 where
  pub relname : Option Text
  pub schemaname : Option Text
  pub inh : Bool
  pub relpersistence : Option Text

-- `enums.A_Expr_Kind` and `enums.BoolExprType`: the members that the code names.
pub data ExprKind : Type 0 where
  aexpr_between aexpr_other : ExprKind

pub data BoolExprType : Type 0 where
  and_expr or_expr not_expr : BoolExprType

-- `absent` is Python's `None`, and `tuple_node` a tuple of nodes.
mutual
  pub data Node : Type 0 where
    absent : Node
    tuple_node : Nodes → Node
    a_const : (isnull : Bool) → Node
    column_ref : (fields : List Name) → Node
    type_cast : (arg : Node) (others : Nodes) → Node
    sql_value_function : Node
    func_call : (funcname : List Name) (args others : Nodes) → Node
    a_expr : (kind : ExprKind) (name : List Name) (lexpr rexpr : Node) → Node
    bool_expr : (boolop : BoolExprType) (args : Nodes) → Node
    coalesce_expr : (args : Nodes) → Node
    min_max_expr : (args : Nodes) → Node
    case_expr : (arg defresult : Node) (args : Nodes) → Node
    case_when : (expr result : Node) → Node
    null_test : (arg : Node) → Node
    boolean_test : (arg : Node) → Node
    row_expr : (args : Nodes) → Node
    a_array_expr : (elements : Nodes) → Node
    range_var : RangeVar → Node
    select_node : (limit_count : Node) (others : Nodes) → Node
    other_node : (others : Nodes) → Node

  pub data Nodes : Type 0 where
    end : Nodes
    node : Node → Nodes → Nodes
