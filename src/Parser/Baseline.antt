-- ===== src/Parser/Baseline.antt =====
-- parser.py `_baseline_shaped`: a squash file, which creates what it uses.
use blastoise.Base.{
  ℕ, Bool, true, false, Option, some, none, List, [], ◌∷◌, ◌++◌, map, length, ltb, all, contains,
  Text, if◌then◌else◌, list_eq, nat_eq,
}
use blastoise.Ir.{
  StatementKind, ParsedStatement, head, details, Details, QualifiedName, create_table_details,
  index_details, rename_details, drop_details,
}

-- `BASELINE_MIN_STATEMENTS`.
abbrev pub baseline_min_statements : ℕ
baseline_min_statements = 50

-- Whether a kind stands in `_CREATES_RELATION`, `_REFERENCES_RELATION` or `_DROPS_RELATION`.
pub data Use : Type 0 where
  creates references drops neither : Use

unfoldable pub use_of : StatementKind → Use
use_of StatementKind.create_table = creates
use_of StatementKind.create_table_partition_of = creates
use_of StatementKind.create_table_as = creates
use_of StatementKind.select_into = creates
use_of StatementKind.create_view = creates
use_of StatementKind.create_matview = creates
use_of StatementKind.create_sequence = creates
use_of StatementKind.create_foreign_table = creates
use_of StatementKind.alter_table = references
use_of StatementKind.alter_index = references
use_of StatementKind.alter_view = references
use_of StatementKind.alter_matview = references
use_of StatementKind.alter_foreign_table = references
use_of StatementKind.alter_sequence = references
use_of StatementKind.create_index = references
use_of StatementKind.create_index_concurrently = references
use_of StatementKind.create_trigger = references
use_of StatementKind.create_policy = references
use_of StatementKind.truncate = references
use_of StatementKind.insert = references
use_of StatementKind.update = references
use_of StatementKind.update_without_where = references
use_of StatementKind.update_batched = references
use_of StatementKind.delete = references
use_of StatementKind.delete_without_where = references
use_of StatementKind.delete_batched = references
use_of StatementKind.merge = references
use_of StatementKind.copy_from = references
use_of StatementKind.copy_to = references
use_of StatementKind.cluster = references
use_of StatementKind.vacuum = references
use_of StatementKind.vacuum_full = references
use_of StatementKind.analyze = references
use_of StatementKind.refresh_matview = references
use_of StatementKind.refresh_matview_concurrently = references
use_of StatementKind.lock_table = references
use_of StatementKind.rename_table = references
use_of StatementKind.rename_column = references
use_of StatementKind.drop_table = drops
use_of StatementKind.drop_view = drops
use_of StatementKind.drop_matview = drops
use_of StatementKind.drop_sequence = drops
use_of StatementKind.drop_index = drops
use_of StatementKind.drop_index_concurrently = drops
use_of _ = neither

abbrev pub name_of : QualifiedName → Text
name_of q = q.name

abbrev pub all_created : List Text → List QualifiedName → Bool
all_created created targets = all (λ q. contains (name_of q) created) targets

-- The parent of a partition has to be there.
unfoldable pub parent_created : List Text → Details → Bool
parent_created created (create_table_details d) = elim d.partition_of [
  | none ↦ true
  | some parent ↦ contains (name_of parent) created
]
parent_created created _ = true

-- `created.add(name)`, where the name is there and not empty.
unfoldable pub add_name : Option Text → List Text → List Text
add_name none created = created
add_name (some []) created = created
add_name (some (c ∷ cs)) created = (c ∷ cs) ∷ created

unfoldable pub add_reference : Details → List Text → List Text
add_reference (index_details d) created = add_name d.index_name created
add_reference (rename_details d) created = add_name d.new_name created
add_reference _ created = created

-- DROP ... IF EXISTS.
unfoldable pub may_be_missing : Details → Bool
may_be_missing (drop_details d) = d.missing_ok
may_be_missing _ = false

-- One statement: does the loop go on, and with which names?
unfoldable pub baseline_step : Use → List QualifiedName → Details → List Text → Bool × List Text
baseline_step creates targets d created =
    let more = map name_of targets ++ created in (parent_created more d, more)
baseline_step references targets d created = (all_created created targets, add_reference d created)
baseline_step drops targets d created =
    (if may_be_missing d then true else all_created created targets, created)
baseline_step neither targets d created = (true, created)

unfoldable pub baseline_from : List Text → List ParsedStatement → Bool
baseline_from created [] = true
baseline_from created (s ∷ ss) =
    let step = baseline_step (use_of (head s).kind) (head s).targets (details s) created in
    let rest = baseline_from step.1 ss in if step.0 then rest else false

unfoldable pub baseline_shaped : List ParsedStatement → Bool
baseline_shaped statements =
    if ltb (length statements) baseline_min_statements then false else baseline_from [] statements
