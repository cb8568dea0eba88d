-- ===== src/Loader/Tables.antt =====
-- catalog/loader.py `parse_catalog`: the rows of the statement kinds and of the action kinds.
use blastoise.Base.{
  Bool, true, false, not, Option, some, none, List, [], ◌∷◌, all, Text, Result, ok, raise,
  value_error, ◌>>=◌, traverse, if◌then◌else◌, list_eq, nat_eq,
}
use blastoise.Ir.{StatementKind, AlterTableActionKind, Kind, statement, action}
use blastoise.Catalog.{
  Resolution, direct, VersionRange, CatalogEntry, check_coverage, CoverageError,
}
use blastoise.Loader.Documents.{Yaml, pairs, as_mapping, as_sequence, require}
use blastoise.Loader.Spellings.{
  resolutions, statement_kinds, action_kinds, same_statement, same_action, statement_kind_of,
  action_kind_of,
}
use blastoise.Loader.Scalars.{enum}
use blastoise.Loader.Matrix.{MatrixRows}
use blastoise.Loader.Rows.{parse_entry}

-- `d.get(k)` in a dictionary from kinds.
unfoldable pub find_kind {ℓ κ} :
    {K : Type ℓ} {A : Type κ} → (K → K → Bool) → K → List (K × A) → Option A
find_kind same k [] = none
find_kind same k ((l, a) ∷ rest) = if same l k then some a else find_kind same k rest

abbrev pub is_some {ℓ} : {A : Type ℓ} → Option A → Bool
is_some none = false
is_some (some a) = true

abbrev pub kind_of {ℓ} : {K : Type ℓ} → Option K → Result K
kind_of none = raise value_error
kind_of (some k) = ok k

-- A list that is not empty.
unfoldable pub as_rows : Yaml → Result (List Yaml)
as_rows y = as_sequence y >>= λ ys. elim ys [ [] ↦ raise value_error | z ∷ zs ↦ ok (z ∷ zs) ]

abbrev pub passes : Option CoverageError → Bool
passes none = true
passes (some e) = false

-- The rows of one kind, with `_check_coverage`.
unfoldable pub parse_rows : MatrixRows → VersionRange → Kind → Yaml → Result (List CatalogEntry)
unfolding as_rows
parse_rows matrix domain kind raw = as_rows raw >>= λ ys.
    traverse (parse_entry matrix domain kind) ys >>= λ entries.
    require (passes (check_coverage entries domain)) >>= λ _. ok entries

abbrev pub Resolutions : Type 0
Resolutions = List (StatementKind × Resolution)

abbrev pub StatementRows : Type 0
StatementRows = List (StatementKind × List CatalogEntry)

abbrev pub ActionRows : Type 0
ActionRows = List (AlterTableActionKind × List CatalogEntry)

-- A way of resolving that is not the default.
abbrev pub not_direct : Resolution → Bool
not_direct direct = false
not_direct _ = true

unfoldable pub parse_resolution : Text × Yaml → Result (StatementKind × Resolution)
parse_resolution (key, value) = kind_of (statement_kind_of key) >>= λ kind.
    enum resolutions value >>= λ mode. require (not_direct mode) >>= λ _. ok (kind, mode)

-- Whether the kind resolves that way.
unfoldable pub resolves_by : StatementKind → Resolution → Resolutions → Bool
unfolding find_kind
resolves_by kind Resolution.direct rs = false
resolves_by kind Resolution.per_action rs = elim (find_kind same_statement kind rs) [
  | some Resolution.per_action ↦ true
  | _ ↦ false
]
resolves_by kind Resolution.inner_statements rs = elim (find_kind same_statement kind rs) [
  | some Resolution.inner_statements ↦ true
  | _ ↦ false
]

-- `statement_resolution`.
unfoldable pub parse_resolutions : Yaml → Result Resolutions
unfolding parse_resolution resolves_by
parse_resolutions raw = as_mapping raw >>= λ m. traverse parse_resolution (pairs m) >>= λ rs.
    require (resolves_by StatementKind.alter_table Resolution.per_action rs) >>= λ _.
    require (resolves_by StatementKind.do_block Resolution.inner_statements rs) >>= λ _. ok rs

module _ (matrix : MatrixRows) (domain : VersionRange) where
  unfoldable pub parse_statement :
      Resolutions → Text × Yaml → Result (StatementKind × List CatalogEntry)
  unfolding parse_rows
  parse_statement rs (key, rows) = kind_of (statement_kind_of key) >>= λ kind.
      require (not (is_some (find_kind same_statement kind rs))) >>= λ _.
      parse_rows matrix domain (statement kind) rows >>= λ entries. ok (kind, entries)

  -- `statements`: a kind without rows must resolve in another way.
  unfoldable pub parse_statements : Resolutions → Yaml → Result StatementRows
  unfolding parse_statement
  parse_statements rs raw = as_mapping raw >>= λ m.
      traverse (parse_statement rs) (pairs m) >>= λ table.
      require (
        all
          (λ k.
            if is_some (find_kind same_statement k table)
            then true
            else is_some (find_kind same_statement k rs))
          statement_kinds)
      >>= λ _. ok table

  unfoldable pub parse_action : Text × Yaml → Result (AlterTableActionKind × List CatalogEntry)
  unfolding parse_rows
  parse_action (key, rows) = kind_of (action_kind_of key) >>= λ kind.
      parse_rows matrix domain (action kind) rows >>= λ entries. ok (kind, entries)

  -- `alter_table_actions`.
  unfoldable pub parse_actions : Yaml → Result ActionRows
  unfolding parse_action
  parse_actions raw = as_mapping raw >>= λ m. traverse parse_action (pairs m) >>= λ table.
      require (all (λ k. is_some (find_kind same_action k table)) action_kinds) >>= λ _. ok table

abbrev pub or_no_rows : Option (List CatalogEntry) → List CatalogEntry
or_no_rows none = []
or_no_rows (some rows) = rows
