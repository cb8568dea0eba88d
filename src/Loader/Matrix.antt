-- ===== src/Loader/Matrix.antt =====
-- catalog/loader.py `_parse_conflict_matrix`.
use blastoise.Base.{
  Bool, true, false, Option, some, none, List, [], ◌∷◌, all, Text, Result, ok, raise, key_error,
  ◌>>=◌, traverse, contains, if◌then◌else◌, ◌==◌,
}
use blastoise.Catalog.{LockMode, mode_eq, is_table_lock, table_lock_modes}
use blastoise.Loader.Documents.{Yaml, string, pairs, as_mapping, as_sequence, require}
use blastoise.Loader.Spellings.{lock_modes}
use blastoise.Loader.Scalars.{enum}

abbrev pub MatrixRows : Type 0
MatrixRows = List (LockMode × List LockMode)

-- `matrix[mode]`, where there is a row.
unfoldable pub row_of : MatrixRows → LockMode → Option (List LockMode)
row_of [] mode = none
row_of ((m, conflicts) ∷ rows) mode = if m == mode then some conflicts else row_of rows mode

unfoldable pub parse_matrix_row : Text × Yaml → Result (LockMode × List LockMode)
parse_matrix_row (key, value) = enum lock_modes (string key) >>= λ mode.
    require (is_table_lock mode) >>= λ _.
    as_sequence value >>= λ ys. traverse (enum lock_modes) ys >>= λ conflicts. ok (mode, conflicts)

abbrev pub has_row : MatrixRows → LockMode → Bool
has_row rows mode = elim (row_of rows mode) [ none ↦ false | some _ ↦ true ]

-- One mode against those that it conflicts with. `matrix[other]` raises a `KeyError` for NONE and
-- UNKNOWN, which have no row.
unfoldable pub check_mode : MatrixRows → LockMode → List LockMode → Result (Unit {0})
check_mode rows mode [] = ok tt
check_mode rows mode (other ∷ others) = elim (row_of rows other) [
  | none ↦ raise key_error
  | some conflicts ↦ require (contains mode conflicts) >>= λ _. check_mode rows mode others
]

unfoldable pub check_symmetric : MatrixRows → MatrixRows → Result (Unit {0})
unfolding check_mode
check_symmetric rows [] = ok tt
check_symmetric rows ((mode, conflicts) ∷ rest) =
    check_mode rows mode conflicts >>= λ _. check_symmetric rows rest

unfoldable pub parse_conflict_matrix : Yaml → Result MatrixRows
unfolding parse_matrix_row check_symmetric
parse_conflict_matrix raw = as_mapping raw >>= λ m. traverse parse_matrix_row (pairs m) >>= λ rows.
    require (all (has_row rows) table_lock_modes) >>= λ _.
    check_symmetric rows rows >>= λ _. ok rows

abbrev or_none : Option (List LockMode) → List LockMode
or_none none = []
or_none (some conflicts) = conflicts

-- `matrix.get(mode, frozenset())`.
abbrev pub conflicts_in : MatrixRows → LockMode → List LockMode
conflicts_in rows mode = or_none (row_of rows mode)
