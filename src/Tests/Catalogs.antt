-- ===== src/Tests/Catalogs.antt =====
-- A whole catalog document, accepted by catalog/loader.py `parse_catalog`.
use blastoise.Base.{
  Bool-cases, inl, inr, Bool, true, not, ◌≡◌, refl, List, [], ◌∷◌, keep, All, codes, ok, traverse,
  Succeeds, list_eq, nat_eq, strip, is_space, lstrip, drop_prefix, max_by,
}
use blastoise.Ir.{
  StatementKind, AlterTableActionKind, Kind, statement, action, statement_kind_value,
  action_kind_value,
}
use blastoise.Catalog.{
  covers, CatalogEntry, LockCatalog, entry_for, check_coverage, check_versions, check_variants,
  Resolution, resolution_of, rows_for,
}
use blastoise.Catalog.Laws.{IsPicked}
use blastoise.Loader.{
  Yaml, integer, sequence, mapping, no_more, Mapping, empty, pair, parse_catalog, statement_kinds,
  action_kinds, same_statement, Resolutions, find_kind, is_some, parse_entry, parse_rows,
  parse_statement, parse_statements, parse_action, parse_actions, pairs, StatementRows, ActionRows,
  catalog_of, parse_tables, catalog_keys, check_schema, parse_domain, parse_resolutions,
  parse_breakpoints, check_breakpoints, statement_kind_of, resolutions, as_rows, required_fields,
  parse_versions, get, enum, member_named, calibrations, bool_or, lock_modes, duration_models,
  opt_str, transaction_blocks, parse_affected, parse_when, parse_source, unknown_check,
  available_check, blocks_check, context_check, default_scope, entry_conflicts, primary_check,
  primary_mode, row_checks, scope_check, unknown_allowed, row_of, optional_fields, parse_fields,
  parse_scope, bool, has_citation, source_texts,
}
use blastoise.Loader.Members.{
  statement_kind_of-statement_kind_value, action_kind_of-action_kind_value,
}
use blastoise.Loader.Totality.{parse_catalog-total}
use blastoise.Tests.Documents.{
  word, row, rows, matrix, accepted_matrix, matrix_accepted, versions, accepted_row,
}

abbrev row_of_kind : Kind → CatalogEntry
row_of_kind k = record accepted_row { kind = k }

any_row : (k : Kind) → parse_entry accepted_matrix versions k row ≡ ok (row_of_kind k)
unfolding parse_entry required_fields parse_versions get enum member_named calibrations bool_or
    lock_modes duration_models opt_str transaction_blocks parse_affected parse_when parse_source
    unknown_check available_check blocks_check context_check default_scope entry_conflicts
    primary_check primary_mode row_checks scope_check unknown_allowed row_of optional_fields
    parse_fields parse_scope bool has_citation source_texts strip is_space lstrip drop_prefix max_by
any_row k = refl

any_rows : (k : Kind) → parse_rows accepted_matrix versions k rows ≡ ok (row_of_kind k ∷ [])
unfolding parse_rows as_rows check_coverage check_versions check_variants
any_rows k = rw (any_row k) refl

abbrev resolutions_read : Resolutions
resolutions_read =
    (StatementKind.alter_table, Resolution.per_action)
    ∷ (StatementKind.do_block, Resolution.inner_statements)
    ∷ []

abbrev is_direct : StatementKind → Bool
is_direct k = not (is_some (find_kind same_statement k resolutions_read))

abbrev direct_kinds : List StatementKind
direct_kinds = keep is_direct statement_kinds

abbrev statement_table : List StatementKind → Mapping
statement_table [] = empty
statement_table (k ∷ ks) = pair (codes (statement_kind_value k)) rows (statement_table ks)

abbrev statements_read : List StatementKind → StatementRows
statements_read [] = []
statements_read (k ∷ ks) = (k, row_of_kind (statement k) ∷ []) ∷ statements_read ks

statements_parsed :
    (ks : List StatementKind)
    → All (λ k. is_direct k ≡ true) ks
    → traverse
        (parse_statement accepted_matrix versions resolutions_read)
        (pairs (statement_table ks))
      ≡ ok (statements_read ks)
unfolding parse_statement
statements_parsed [] h = refl
statements_parsed (k ∷ ks) h =
    rw
      (
        statement_kind_of-statement_kind_value k,
        h.0,
        any_rows (statement k),
        statements_parsed ks h.1,
      )
      refl

keep-kept : (p : StatementKind → Bool) (xs : List StatementKind) → All (λ x. p x ≡ true) (keep p xs)
keep-kept p [] = tt
keep-kept p (x ∷ xs) = elim (Bool-cases (p x)) [
  | inl t ↦ rw t (t, keep-kept p xs)
  | inr f ↦ rw f (keep-kept p xs)
]

direct_found : All (λ k. is_direct k ≡ true) direct_kinds
direct_found = keep-kept is_direct statement_kinds

statements_accepted :
    parse_statements accepted_matrix versions resolutions_read
      (mapping (statement_table direct_kinds))
    ≡ ok (statements_read direct_kinds)
unfolding parse_statements statement_kinds find_kind
statements_accepted = rw (statements_parsed direct_kinds direct_found) refl

abbrev action_table : List AlterTableActionKind → Mapping
action_table [] = empty
action_table (k ∷ ks) = pair (codes (action_kind_value k)) rows (action_table ks)

abbrev actions_read : List AlterTableActionKind → ActionRows
actions_read [] = []
actions_read (k ∷ ks) = (k, row_of_kind (action k) ∷ []) ∷ actions_read ks

actions_parsed :
    (ks : List AlterTableActionKind)
    → traverse (parse_action accepted_matrix versions) (pairs (action_table ks))
      ≡ ok (actions_read ks)
unfolding parse_action
actions_parsed [] = refl
actions_parsed (k ∷ ks) =
    rw (action_kind_of-action_kind_value k, any_rows (action k), actions_parsed ks) refl

actions_accepted :
    parse_actions accepted_matrix versions (mapping (action_table action_kinds))
    ≡ ok (actions_read action_kinds)
unfolding parse_actions action_kinds find_kind
actions_accepted = rw (actions_parsed action_kinds) refl

abbrev resolution_table : Yaml
resolution_table = mapping (
    pair (codes "alter_table") (word (codes "per_action"))
      (pair (codes "do_block") (word (codes "inner_statements")) empty))

resolutions_accepted : parse_resolutions resolution_table ≡ ok resolutions_read
unfolding parse_resolutions statement_kind_of statement_kinds enum member_named resolutions
    find_kind
resolutions_accepted = refl

abbrev fields : Mapping
fields = pair (codes "schema_version") (integer 1) (
    pair (codes "version_domain")
      (mapping (pair (codes "min") (integer 12) (pair (codes "max") (integer 17) empty)))
      (pair (codes "conflict_matrix") matrix (
        pair (codes "version_breakpoints") (sequence no_more) (
          pair (codes "statement_resolution") resolution_table (
            pair (codes "statements") (mapping (statement_table direct_kinds))
              (pair (codes "alter_table_actions") (mapping (action_table action_kinds)) empty))))))

abbrev catalog_read : LockCatalog
catalog_read =
    catalog_of versions accepted_matrix resolutions_read (statements_read direct_kinds)
      (actions_read action_kinds) []

tables_accepted : parse_tables versions accepted_matrix resolutions_read fields ≡ ok catalog_read
unfolding parse_tables get parse_breakpoints check_breakpoints
tables_accepted = rw (statements_accepted, actions_accepted) refl

catalog_accepted : parse_catalog (mapping fields) ≡ ok catalog_read
unfolding parse_catalog get catalog_keys check_schema parse_domain
catalog_accepted = rw (matrix_accepted, resolutions_accepted, tables_accepted) refl

abbrev truncate_rows : List CatalogEntry
truncate_rows = row_of_kind (statement StatementKind.truncate) ∷ []

truncate_read : rows_for catalog_read (statement StatementKind.truncate) ≡ ok truncate_rows
unfolding rows_for resolution_of catalog_of find_kind statement_kinds
truncate_read = refl

truncate_covered : covers catalog_read.version_domain 14 ≡ true
unfolding catalog_of
truncate_covered = refl

parse_catalog-total_example :
    Succeeds
      (IsPicked (keep (λ (e : CatalogEntry). covers e.pg_versions 14) truncate_rows) [])
      (entry_for catalog_read (statement StatementKind.truncate) 14 [])
parse_catalog-total_example =
    parse_catalog-total (mapping fields) catalog_read (statement StatementKind.truncate)
      truncate_rows 14 [] catalog_accepted truncate_read truncate_covered
