-- ===== src/Parser/Needs.antt =====
-- parser.py `_baseline_shaped`: the relations that a statement of each kind needs.
use blastoise.Base.{
  ◌≡◌, refl, Bool, true, false, ◌||◌, some, none, List, [], ◌∷◌, map, Text, if◌then◌else◌, list_eq,
  nat_eq,
}
use blastoise.Ir.{
  StatementKind, ParsedStatement, head, details, Details, QualifiedName, create_table_details,
}
use blastoise.Parser.Baseline.{
  Use, creates, references, drops, neither, use_of, name_of, may_be_missing,
}

abbrev pub parent_of : Details → List Text
parent_of (create_table_details d) = elim d.partition_of [ none ↦ [] | some q ↦ q.name ∷ [] ]
parent_of _ = []

-- Statements that alter or index a relation, among them the renames of a table and of a column, but
-- not of a constraint.
abbrev alters : StatementKind → Bool
alters StatementKind.alter_table = true
alters StatementKind.alter_index = true
alters StatementKind.alter_view = true
alters StatementKind.alter_matview = true
alters StatementKind.alter_foreign_table = true
alters StatementKind.alter_sequence = true
alters StatementKind.rename_table = true
alters StatementKind.rename_column = true
alters StatementKind.create_trigger = true
alters StatementKind.create_policy = true
alters StatementKind.create_index = true
alters StatementKind.create_index_concurrently = true
alters _ = false

-- Those that fill, change or empty one.
abbrev fills : StatementKind → Bool
fills StatementKind.insert = true
fills StatementKind.update = true
fills StatementKind.update_without_where = true
fills StatementKind.update_batched = true
fills StatementKind.delete = true
fills StatementKind.delete_without_where = true
fills StatementKind.delete_batched = true
fills StatementKind.merge = true
fills StatementKind.truncate = true
fills StatementKind.copy_from = true
fills StatementKind.refresh_matview = true
fills StatementKind.refresh_matview_concurrently = true
fills _ = false

-- Those that read, lock or maintain one.
abbrev maintains : StatementKind → Bool
maintains StatementKind.copy_to = true
maintains StatementKind.cluster = true
maintains StatementKind.vacuum = true
maintains StatementKind.vacuum_full = true
maintains StatementKind.analyze = true
maintains StatementKind.lock_table = true
maintains _ = false

abbrev removes : StatementKind → Bool
removes StatementKind.drop_table = true
removes StatementKind.drop_view = true
removes StatementKind.drop_matview = true
removes StatementKind.drop_sequence = true
removes StatementKind.drop_index = true
removes StatementKind.drop_index_concurrently = true
removes _ = false

abbrev brings_in : StatementKind → Bool
brings_in StatementKind.create_table = true
brings_in StatementKind.create_table_partition_of = true
brings_in StatementKind.create_table_as = true
brings_in StatementKind.select_into = true
brings_in StatementKind.create_view = true
brings_in StatementKind.create_matview = true
brings_in StatementKind.create_sequence = true
brings_in StatementKind.create_foreign_table = true
brings_in _ = false

-- The names that have to be there: those that a statement alters, fills, maintains or drops without
-- IF EXISTS, and the parent of a partition, which it may create itself.
abbrev pub needs_of : StatementKind → List QualifiedName → Details → List Text
needs_of k targets d =
    if alters k || (fills k || maintains k)
    then map name_of targets
    else if removes k
    then (if may_be_missing d then [] else map name_of targets)
    else if brings_in k
    then parent_of d
    else []

abbrev pub needs : ParsedStatement → List Text
needs s = needs_of (head s).kind (head s).targets (details s)

-- The same, by how `_baseline_shaped` uses the kind.
abbrev pub needs_by : Use → List QualifiedName → Details → List Text
needs_by creates targets d = parent_of d
needs_by references targets d = map name_of targets
needs_by drops targets d = if may_be_missing d then [] else map name_of targets
needs_by neither targets d = []

pub needs_of_lem :
    (k : StatementKind) (targets : List QualifiedName) (d : Details)
    → needs_of k targets d ≡ needs_by (use_of k) targets d
unfolding use_of
needs_of_lem StatementKind.create_table targets d = refl
needs_of_lem _ targets d = refl
