-- ===== src/Catalog/Lookup.antt =====
-- catalog/model.py: the methods of `LockCatalog`.
use blastoise.Base.{
  ℕ, ◌&&◌, not, some, none, List, [], Result, ok, raise, lookup_error, key_error, value_error,
  ◌>>=◌, keep, first, if◌then◌else◌,
}
use blastoise.Ir.{StatementKind, Kind, statement, action, Attrs}
use blastoise.Catalog.Modes.{
  LockMode, none_mode, unknown_mode, table_lock_modes, Resolution, direct,
}
use blastoise.Catalog.Entries.{covers, CatalogEntry, is_default_row, when_matches, LockCatalog}

module _ (catalog : LockCatalog) where
  unfoldable pub resolution_of : StatementKind → Resolution
  resolution_of kind = elim (catalog.statement_resolution kind) [ none ↦ direct | some r ↦ r ]

  unfoldable pub conflicts_with : LockMode → List LockMode
  conflicts_with none_mode = []
  conflicts_with unknown_mode = table_lock_modes
  conflicts_with mode = catalog.conflict_matrix mode

  unfoldable pub rows_for : Kind → Result (List CatalogEntry)
  rows_for (statement kind) = elim (resolution_of kind) [
    | direct ↦ ok (catalog.statements kind)
    | _ ↦ raise key_error
  ]
  rows_for (action kind) = ok (catalog.alter_table_actions kind)

  unfoldable pub entries_for : Kind → ℕ → Result (List CatalogEntry)
  entries_for kind pg_version =
      if covers catalog.version_domain pg_version
      then (rows_for kind >>= λ rows. ok (keep (λ e. covers e.pg_versions pg_version) rows))
      else raise value_error

-- The two loops of `entry_for`: the first matching variant, else the first default row.
unfoldable pub pick : List CatalogEntry → Attrs → Result CatalogEntry
pick candidates attrs =
    elim (first (λ e. not (is_default_row e) && when_matches e.when attrs) candidates) [
      | some e ↦ ok e
      | none ↦ elim (first is_default_row candidates) [ some e ↦ ok e | none ↦ raise lookup_error ]
    ]

unfoldable pub entry_for : LockCatalog → Kind → ℕ → Attrs → Result CatalogEntry
entry_for catalog kind pg_version attrs =
    entries_for catalog kind pg_version >>= λ candidates. pick candidates attrs
