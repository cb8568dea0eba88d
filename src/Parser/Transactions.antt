-- ===== src/Parser/Transactions.antt =====
-- parser.py `_group_transactions`: the statements between BEGIN and COMMIT or ROLLBACK. Warnings
-- are values; their texts are for the reader.
use blastoise.Base.{
  ℕ, suc, Bool, true, false, not, Option, some, none, List, [], ◌∷◌, ◌++◌, if◌then◌else◌,
}
use blastoise.Ir.{
  StatementKind, TransactionGroup, ParsedStatement, head, details, Details, transaction_details,
}

-- The warnings, each with the line that it names.
pub data Warning : Type 0 where
  begin_inside : (line : ℕ) → Warning
  without_begin : (line : ℕ) → Warning
  never_closed : (line : ℕ) → Warning

-- The variables of the loop. `opened_by` keeps the line of the statement with its index.
pub record Grouping : Type 0 where
  pub groups : List TransactionGroup
  pub warnings : List Warning
  pub current : List ℕ
  pub opened_by : Option ℕ
  pub opened_line : ℕ
  pub in_explicit : Bool

abbrev pub is_empty : List ℕ → Bool
is_empty [] = true
is_empty (x ∷ xs) = false

abbrev pub or_test : Bool → Bool → Bool
or_test a b = if a then true else b

-- `flush`.
unfoldable pub flush : Option ℕ → Bool → Grouping → Grouping
flush closed_by rolled_back g = record {
  groups =
      if or_test g.in_explicit (not (is_empty g.current))
      then g.groups
        ++ record {
          explicit = g.in_explicit;
          statement_indices = g.current;
          opened_by = g.opened_by;
          closed_by = closed_by;
          rolled_back = rolled_back;
        }
          ∷ []
      else g.groups;
  warnings = g.warnings;
  current = [];
  opened_by = none;
  opened_line = 0;
  in_explicit = false;
}

-- How a statement moves the boundary of a transaction.
pub data Boundary : Type 0 where
  begins commits rolls_back no_boundary : Boundary

unfoldable pub boundary : StatementKind → Boundary
boundary StatementKind.begin = begins
boundary StatementKind.commit = commits
boundary StatementKind.rollback = rolls_back
boundary _ = no_boundary

-- `isinstance(statement.details, TransactionDetails) and statement.details.chain`.
unfoldable pub chained : Details → Bool
chained (transaction_details d) = d.chain
chained _ = false

unfoldable pub open_block : ℕ → ℕ → Grouping → Grouping
open_block index line g = record g {
  in_explicit = true;
  opened_by = some index;
  opened_line = line;
}

unfoldable pub warn : Warning → Grouping → Grouping
warn w g = record g { warnings = g.warnings ++ w ∷ [] }

-- COMMIT or ROLLBACK.
unfoldable pub close_block : ℕ → ℕ → Bool → Bool → Grouping → Grouping
close_block index line rolled_back chain g =
    if g.in_explicit
    then (let closed = flush (some index) rolled_back g in
        if chain then open_block index line closed else closed)
    else warn (without_begin line) g

-- The branches of the loop's body.
unfoldable pub move : Boundary → ℕ → ℕ → Bool → Grouping → Grouping
move begins index line chain g =
    if g.in_explicit then warn (begin_inside line) g else open_block index line (flush none false g)
move commits index line chain g = close_block index line false chain g
move rolls_back index line chain g = close_block index line true chain g
move no_boundary index line chain g = record g { current = g.current ++ index ∷ [] }

-- One round of the loop.
unfoldable pub group_step : ℕ → ParsedStatement → Grouping → Grouping
group_step index s g =
    move (boundary (head s).kind) index (head s).span.line (chained (details s)) g

unfoldable pub group_from : ℕ → List ParsedStatement → Grouping → Grouping
group_from index [] g = g
group_from index (s ∷ ss) g = group_from (suc index) ss (group_step index s g)

abbrev pub no_groups : Grouping
no_groups = record {
  groups = [];
  warnings = [];
  current = [];
  opened_by = none;
  opened_line = 0;
  in_explicit = false;
}

-- The last flush, after the warning about a block that stays open.
unfoldable pub finish : Grouping → List TransactionGroup × List Warning
finish g =
    let warned = if g.in_explicit then warn (never_closed g.opened_line) g else g in
    ((flush none false warned).groups, warned.warnings)

unfoldable pub group_transactions : List ParsedStatement → List TransactionGroup × List Warning
group_transactions statements = finish (group_from 0 statements no_groups)
