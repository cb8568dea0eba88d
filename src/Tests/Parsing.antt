-- ===== src/Tests/Parsing.antt =====
-- Runs of the theorems on the parser, the classifier and volatilities.
use blastoise.Base.{
  ℕ, ◌≡◌, refl, ◌<◌, Bool, true, false, ◌&&◌, Option, some, none, List, [], ◌∷◌, Text, codes,
  length, ltb, ltb→lt, any, All, inl, ◌⊎◌, subst, ◌↔◌, String, lower_char, if◌then◌else◌, ◌==◌,
  list_eq, nat_eq, arith, Bool-cases, inr,
}
use blastoise.Ir.{
  StatementKind, AlterTableActionKind, ParsedStatement, parsed, SourceSpan, transaction_details,
  Volatility,
}
use blastoise.Sql.{
  Pglast, accepted, RawStmt, Statement, Json, json_object, json_text, member, no_members, RangeVar,
  string, Node, absent, end, node, a_expr, aexpr_other, bool_expr, and_expr, column_ref, a_const,
  func_call, other_node, ColumnDef, constr_default, strings, last_name,
}
use blastoise.Volatility.{
  expression_volatility, unknown_function_keys, function_name, volatile_functions,
}
use blastoise.Volatility.Laws.{calls_volatile, expression_volatility-volatile, Doubtful}
use blastoise.Volatility.Resolution.{expression_volatility-silent}
use blastoise.Classify.{
  collect_plpgsql_queries, get, expression_entry, default_info, is_null_constant, is_serial_type,
  has_key_window, add_column, scan, start_scan,
}
use blastoise.Classify.Termination.{Shrinks}
use blastoise.Classify.Conjuncts.{between_term, bounds_below, bounds_above, conjuncts}
use blastoise.Classify.WindowLaws.{has_key_window_lem}
use blastoise.Classify.Defaults.{add_column-nonvolatile}
use blastoise.Parser.{parse_migration, script_of, find_char, group_transactions}
use blastoise.Parser.Grouping.{members, session_runs, group_transactions-session}
use blastoise.Parser.GroupShape.{IsGroup}
use blastoise.Parser.Boundaries.{group_transactions-IsGroup}
use blastoise.Parser.Completeness.{statements_of, parse_migration-accepted}
use blastoise.Tests.Samples.{head_of, cluster_users}

-- A parser that knows one query, and finds a DO block and a CLUSTER in any other text. The body of
-- a block that is long enough holds the query.
abbrev raw_of : Statement → RawStmt
raw_of stmt = record {
  stmt = some stmt;
  tree = other_node end;
  stmt_location = none;
  stmt_len = none;
}

abbrev users_var : RangeVar
users_var = record {
  relname = some (codes "users");
  schemaname = none;
  inh = true;
  relpersistence = none;
}

abbrev query : Text
query = codes "SELECT 1"

abbrev body : Json
body = json_object (
    member (codes "PLpgSQL_expr")
      (json_object (member (codes "query") (json_text query) no_members)) no_members)

abbrev raws : List RawStmt
raws = raw_of (Statement.do_stmt []) ∷ raw_of (Statement.cluster_stmt (some users_var)) ∷ []

abbrev pglast : Pglast
pglast = record {
  parse_sql = λ text.
      if text == query
      then accepted (raw_of (Statement.select_stmt none none) ∷ [])
      else accepted raws;
  parse_plpgsql = λ text. if ltb 8 (length text) then some body else none;
  deparse = λ n. none;
}

collected : (collect_plpgsql_queries pglast body).0 ≡ (query, false) ∷ []
unfolding collect_plpgsql_queries get expression_entry
collected = refl

some_injective : {a b : Json} → some a ≡ some b → a ≡ b
some_injective h = cc

shorter_than : (n : ℕ) → 8 < n → All (λ e. length e.0 < n) (collect_plpgsql_queries pglast body).0
shorter_than n h = rw collected (h, tt)

shrinks : Shrinks pglast
shrinks = record {
  shorter = λ sql blocks h. elim (Bool-cases (ltb 8 (length sql))) [
    | inl t ↦
        subst
          (λ (b : Json). All (λ e. length e.0 < length sql) (collect_plpgsql_queries pglast b).0)
          (some_injective (rw t at h)) (shorter_than (length sql) (ltb→lt 8 (length sql) t))
    | inr f ↦ absurd (ground arith)
  ];
}

abbrev span : SourceSpan
span = record { start = 0; end = 25; line = 1 }

abbrev source : Text
source = codes "DO 'BEGIN PERFORM 1; END'; CLUSTER users"

no_nul : find_char 0 source ≡ none
unfolding find_char
no_nul = refl

parse_migration-accepted_example :
    (ss : List ParsedStatement) × (parse_migration pglast source ≡ script_of ss)
    × (length ss ≡ length (statements_of raws))
parse_migration-accepted_example = parse_migration-accepted pglast shrinks source raws no_nul refl

abbrev control : StatementKind → Bool → ParsedStatement
control kind chain =
    parsed (head_of kind [] [])
      (transaction_details (record { savepoint_name = none; chain = chain }))

-- BEGIN, CLUSTER, COMMIT AND CHAIN, CLUSTER.
abbrev chained_file : List ParsedStatement
chained_file =
    control StatementKind.begin false
    ∷ cluster_users
    ∷ control StatementKind.commit true
    ∷ cluster_users
    ∷ []

group_transactions-session_example :
    members (group_transactions chained_file).0 ≡ session_runs 0 chained_file none
group_transactions-session_example = group_transactions-session chained_file

group_transactions-IsGroup_example : All (IsGroup 4) (group_transactions chained_file).0
group_transactions-IsGroup_example = group_transactions-IsGroup chained_file

-- `id >= 10 AND 20 > id`.
abbrev id_column : Node
id_column = column_ref (string (some (codes "id")) ∷ [])

abbrev comparison : String → Node → Node → Node
comparison op lexpr rexpr = a_expr aexpr_other (string (some (codes op)) ∷ []) lexpr rexpr

abbrev window : Node
window = bool_expr and_expr (
    node (comparison ">=" id_column (a_const false))
      (node (comparison ">" (a_const false) id_column) end))

has_key_window_example : (has_key_window window ≡ true) ↔ (
    (any between_term (conjuncts window) ≡ true)
    ⊎ ((c : Text) × (any (bounds_below c) (conjuncts window) ≡ true)
        × (any (bounds_above c) (conjuncts window) ≡ true)))
has_key_window_example = has_key_window_lem window

-- A column with the default `7`.
abbrev seven : ColumnDef
seven = record {
  colname = some (codes "n");
  type_name = none;
  constraints =
      some (record {
        contype = some constr_default;
        conname = none;
        raw_expr = a_const false;
        generated_kind = none;
        skip_validation = false;
        indexname = none;
        pktable = none;
        keys = [];
      })
      ∷ [];
  raw_default = absent;
}

seven-nonvolatile :
    (add_column pglast seven false).kind ≡ AlterTableActionKind.add_column_default_nonvolatile
unfolding add_column default_info expression_volatility is_serial_type
seven-nonvolatile = refl

add_column-nonvolatile_example :
    ((scan seven.constraints start_scan).has_default ≡ true)
    × (calls_volatile (scan seven.constraints start_scan).default_expr ≡ false)
    × (((scan seven.constraints start_scan).not_null
          && is_null_constant (scan seven.constraints start_scan).default_expr)
        ≡ false)
add_column-nonvolatile_example = add_column-nonvolatile pglast seven false seven-nonvolatile

-- `random() + 1`, and `slug('a')` with a function that no list knows.
abbrev call : String → Node
call name = func_call (string (some (codes name)) ∷ []) (node (a_const false) end) end

random_called : calls_volatile (comparison "+" (call "random") (a_const false)) ≡ true
unfolding calls_volatile function_name volatile_functions strings last_name lower_char
random_called = refl

expression_volatility-volatile_example :
    Doubtful (expression_volatility none (comparison "+" (call "random") (a_const false)))
expression_volatility-volatile_example =
    expression_volatility-volatile none (comparison "+" (call "random") (a_const false))
      random_called

All-silent : (keys : List Text) → All (λ (key : Text). ◌≡◌ {A = Option Volatility} none none) keys
All-silent [] = tt
All-silent (key ∷ keys) = (refl, All-silent keys)

expression_volatility-silent_example :
    expression_volatility (some (λ key. none)) (call "slug")
    ≡ expression_volatility none (call "slug")
expression_volatility-silent_example =
    expression_volatility-silent (λ key. none) (call "slug")
      (All-silent (unknown_function_keys (call "slug")))
