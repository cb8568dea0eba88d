-- ===== src/Verdict/Collect.antt =====
-- verdict/probes.py `snapshot_probes`: what a snapshot for a script must ask the server for.
use blastoise.Base.{
  Bool, true, false, ◌&&◌, ◌||◌, Option, some, none, List, [], ◌∷◌, ◌++◌, map, Text, list_eq,
  nat_eq, ◌==◌, sorted_set, text_lt, codes, drop_prefix, if◌then◌else◌,
}
use blastoise.Ir.{
  AlterTableActionKind, action_kind_value, QualifiedName, AlterTableAction, ParsedStatement, parsed,
  head, Details, details, create_table_details, do_block_details, StatementList, nil, cons,
  first_target, MigrationScript,
}
use blastoise.Verdict.Probes.{probe_name}

-- A statement and the statements inside it, in order.
unfoldable mutual
  pub walk : ParsedStatement → List ParsedStatement
  walk (parsed h d) = parsed h d ∷ walk_details d

  pub walk_details : Details → List ParsedStatement
  walk_details (do_block_details block inner) = walk_all inner
  walk_details _ = []

  pub walk_all : StatementList → List ParsedStatement
  walk_all nil = []
  walk_all (cons s rest) = walk s ++ walk_all rest

-- `SnapshotProbes`
pub record SnapshotProbes : Type 0 where
  pub relations : List Text
  pub functions : List Text
  pub types : List Text
  pub type_changes : List (Text × Text × Text)

abbrev pub probe_of : Option QualifiedName → List Text
probe_of none = []
probe_of (some q) = probe_name q ∷ []

abbrev pub details_relations : Details → List Text
details_relations (create_table_details d) =
    map probe_name d.referenced_tables ++ probe_of d.partition_of
details_relations _ = []

abbrev pub action_relations : List AlterTableAction → List Text
action_relations [] = []
action_relations (a ∷ rest) =
    probe_of a.referenced_table ++ (probe_of a.partition ++ action_relations rest)

abbrev pub statement_relations : ParsedStatement → List Text
statement_relations s =
    map probe_name (head s).targets
    ++ (details_relations (details s) ++ action_relations (head s).alter_actions)

action_functions : List AlterTableAction → List Text
action_functions [] = []
action_functions (a ∷ actions) =
    let rest = action_functions actions in
    elim a.default [ none ↦ rest | some d ↦ d.unknown_functions ++ rest ]

-- `_ADD_COLUMN_KINDS`
adds_column : AlterTableActionKind → Bool
adds_column kind = elim (drop_prefix (codes "add_column") (codes (action_kind_value kind))) [
  | none ↦ false
  | some rest ↦ true
]

action_types : List AlterTableAction → List Text
unfolding adds_column
action_types [] = []
action_types (a ∷ actions) =
    let rest = action_types actions in
    elim a.column_type [ none ↦ rest | some t ↦ if adds_column a.kind then t ∷ rest else rest ]

is_type_change : AlterTableActionKind → Bool
is_type_change AlterTableActionKind.alter_column_type = true
is_type_change _ = false

action_changes : QualifiedName → List AlterTableAction → List (Text × Text × Text)
unfolding is_type_change
action_changes target [] = []
action_changes target (a ∷ actions) =
    let rest = action_changes target actions in
    elim a.column [
      | none ↦ rest
      | some column ↦ elim a.column_type [
        | none ↦ rest
        | some t ↦ if is_type_change a.kind then (probe_name target, column, t) ∷ rest else rest
      ]
    ]

statement_changes : ParsedStatement → List (Text × Text × Text)
unfolding action_changes
statement_changes s = elim (first_target (head s).targets) [
  | none ↦ []
  | some target ↦ action_changes target (head s).alter_actions
]

abbrev pub gathered {ℓ} : {A : Type ℓ} → (ParsedStatement → List A) → List ParsedStatement → List A
gathered f [] = []
gathered f (s ∷ ss) = f s ++ gathered f ss

abbrev pub walked : List ParsedStatement → List ParsedStatement
walked [] = []
walked (s ∷ ss) = walk s ++ walked ss

triple_lt : Text × Text × Text → Text × Text × Text → Bool
triple_lt (a, b, c) (d, e, f) = text_lt a d || (a == d && (text_lt b e || (b == e && text_lt c f)))

unfoldable pub snapshot_probes : MigrationScript → SnapshotProbes
unfolding action_functions action_types statement_changes triple_lt
snapshot_probes script =
    let statements = walked script.statements in
    record {
      relations = sorted_set text_lt (gathered statement_relations statements);
      functions =
          sorted_set text_lt (gathered (λ s. action_functions (head s).alter_actions) statements);
      types = sorted_set text_lt (gathered (λ s. action_types (head s).alter_actions) statements);
      type_changes = sorted_set triple_lt (gathered statement_changes statements);
    }
