-- ===== src/Tests/Documents.antt =====
-- A small catalog document, and what catalog/loader.py makes of it.
use blastoise.Base.{
  Any, true, false, ◌≡◌, refl, none, List, [], ◌∷◌, Text, codes, ok, list_eq, nat_eq, inl, inr,
  strip, is_space, lstrip, drop_prefix, max_by,
}
use blastoise.Ir.{StatementKind, statement}
use blastoise.Catalog.{
  access_share, row_share, row_exclusive, share_update_exclusive, share, share_row_exclusive,
  exclusive, access_exclusive, VersionRange, CatalogEntry, constant, uncalibrated, allowed,
  no_scope, target, check_coverage, check_versions, check_variants, VersionBreakpoint,
}
use blastoise.Loader.{
  Yaml, boolean, integer, string, sequence, mapping, Sequence, no_more, element, empty, pair,
  MatrixRows, check_mode, required_fields, parse_versions, get, enum, member_named, calibrations,
  bool_or, lock_modes, duration_models, opt_str, transaction_blocks, parse_affected, parse_when,
  parse_source, unknown_check, available_check, blocks_check, context_check, default_scope,
  entry_conflicts, primary_check, primary_mode, row_checks, scope_check, unknown_allowed, row_of,
  optional_fields, parse_fields, parse_scope, bool, has_citation, source_texts,
  parse_conflict_matrix, parse_entry, parse_rows, as_rows, StatementRows, find_kind, rows_in,
  check_breakpoints,
}
use blastoise.Loader.Symmetry.{IsSymmetric, IsComplete, parse_conflict_matrix-IsSymmetric}
use blastoise.Loader.Rules.{IsConsistent, parse_entry-IsConsistent}

abbrev pub word : Text → Yaml
word t = string t

-- A row for PG 12 to 17: ACCESS EXCLUSIVE.
abbrev pub row : Yaml
row = mapping (
    pair (codes "pg_versions") (sequence (element (integer 12) (element (integer 17) no_more))) (
      pair (codes "calibration") (word (codes "UNCALIBRATED")) (
        pair (codes "lock_mode") (word (codes "SHARE UPDATE EXCLUSIVE")) (
          pair (codes "blocks_reads") (boolean false) (
            pair (codes "blocks_writes") (boolean false) (
              pair (codes "requires_table_rewrite") (boolean false) (
                pair (codes "duration_model") (word (codes "CONSTANT"))
                  (pair (codes "source") (word (codes "doc:locks")) empty))))))))

abbrev pub rows : Yaml
rows = sequence (element row no_more)

abbrev words : List Text → Sequence
words [] = no_more
words (t ∷ ts) = element (word t) (words ts)

abbrev from_access : List Text
from_access = codes "ACCESS EXCLUSIVE" ∷ []

abbrev from_exclusive : List Text
from_exclusive = codes "EXCLUSIVE" ∷ from_access

abbrev from_share_row : List Text
from_share_row = codes "SHARE ROW EXCLUSIVE" ∷ from_exclusive

abbrev from_share : List Text
from_share = codes "SHARE" ∷ from_share_row

abbrev from_update : List Text
from_update = codes "SHARE UPDATE EXCLUSIVE" ∷ from_share

abbrev from_row_exclusive : List Text
from_row_exclusive = codes "ROW EXCLUSIVE" ∷ from_update

abbrev from_row_share : List Text
from_row_share = codes "ROW SHARE" ∷ from_row_exclusive

abbrev pub matrix : Yaml
matrix = mapping (
    pair (codes "ACCESS SHARE") (sequence (words (from_access))) (
      pair (codes "ROW SHARE") (sequence (words (from_exclusive))) (
        pair (codes "ROW EXCLUSIVE") (sequence (words (from_share))) (
          pair (codes "SHARE UPDATE EXCLUSIVE") (sequence (words (from_update))) (
            pair (codes "SHARE")
              (sequence
                (words (codes "ROW EXCLUSIVE" ∷ codes "SHARE UPDATE EXCLUSIVE" ∷ from_share_row)))
              (pair (codes "SHARE ROW EXCLUSIVE") (sequence (words (from_row_exclusive))) (
                pair (codes "EXCLUSIVE") (sequence (words from_row_share)) (
                  pair (codes "ACCESS EXCLUSIVE")
                    (sequence (words (codes "ACCESS SHARE" ∷ from_row_share))) empty))))))))

abbrev pub accepted_matrix : MatrixRows
accepted_matrix =
    (access_share, access_exclusive ∷ [])
    ∷ (row_share, exclusive ∷ access_exclusive ∷ [])
    ∷ (row_exclusive, share ∷ share_row_exclusive ∷ exclusive ∷ access_exclusive ∷ [])
    ∷ (
      share_update_exclusive,
      share_update_exclusive ∷ share ∷ share_row_exclusive ∷ exclusive ∷ access_exclusive ∷ [],
    )
    ∷ (
      share,
      row_exclusive ∷ share_update_exclusive ∷ share_row_exclusive ∷ exclusive ∷ access_exclusive
          ∷ [],
    )
    ∷ (
      share_row_exclusive,
      row_exclusive ∷ share_update_exclusive ∷ share ∷ share_row_exclusive ∷ exclusive
          ∷ access_exclusive ∷ [],
    )
    ∷ (
      exclusive,
      row_share ∷ row_exclusive ∷ share_update_exclusive ∷ share ∷ share_row_exclusive ∷ exclusive
          ∷ access_exclusive ∷ [],
    )
    ∷ (
      access_exclusive,
      access_share ∷ row_share ∷ row_exclusive ∷ share_update_exclusive ∷ share
          ∷ share_row_exclusive ∷ exclusive ∷ access_exclusive ∷ [],
    )
    ∷ []

pub matrix_accepted : parse_conflict_matrix matrix ≡ ok accepted_matrix
unfolding parse_conflict_matrix enum member_named lock_modes check_mode row_of
matrix_accepted = refl

parse_conflict_matrix-IsSymmetric_example : IsSymmetric accepted_matrix × IsComplete accepted_matrix
parse_conflict_matrix-IsSymmetric_example =
    parse_conflict_matrix-IsSymmetric matrix accepted_matrix matrix_accepted

abbrev pub versions : VersionRange
versions = record { lowest = 12; highest = 17 }

abbrev pub accepted_row : CatalogEntry
accepted_row = record {
  kind = statement StatementKind.analyze;
  pg_versions = versions;
  calibration = uncalibrated;
  available = true;
  lock_mode = share_update_exclusive;
  conflicts_with =
      share_update_exclusive ∷ share ∷ share_row_exclusive ∷ exclusive ∷ access_exclusive ∷ [];
  blocks_reads = false;
  blocks_writes = false;
  write_block_scope = no_scope;
  row_locks = none;
  requires_table_rewrite = false;
  duration_model = constant;
  requires_live_context = false;
  live_context = none;
  transaction_block = allowed;
  failure_mode = none;
  affected_relations =
      record {
        role = target;
        lock_mode = share_update_exclusive;
        optional = false;
        statically_resolvable = true;
      }
      ∷ [];
  when = [];
  notes = none;
}

row_accepted :
    parse_entry accepted_matrix versions (statement StatementKind.analyze) row ≡ ok accepted_row
unfolding parse_entry required_fields parse_versions get enum member_named calibrations bool_or
    lock_modes duration_models opt_str transaction_blocks parse_affected parse_when parse_source
    unknown_check available_check blocks_check context_check default_scope entry_conflicts
    primary_check primary_mode row_checks scope_check unknown_allowed row_of optional_fields
    parse_fields parse_scope bool has_citation source_texts strip is_space lstrip drop_prefix max_by
row_accepted = refl

parse_entry-IsConsistent_example :
    IsConsistent accepted_matrix versions (statement StatementKind.analyze) accepted_row
parse_entry-IsConsistent_example =
    parse_entry-IsConsistent accepted_matrix versions (statement StatementKind.analyze) row
      accepted_row row_accepted

rows_accepted :
    parse_rows accepted_matrix versions (statement StatementKind.analyze) rows
    ≡ ok (accepted_row ∷ [])
unfolding parse_rows as_rows check_coverage check_versions check_variants
rows_accepted = rw row_accepted refl

-- The row for PG 17 alone.
abbrev late_row : CatalogEntry
late_row = record accepted_row { pg_versions = record { lowest = 17; highest = 17 } }

abbrev early_row : CatalogEntry
early_row = record accepted_row { pg_versions = record { lowest = 12; highest = 16 } }

abbrev changed : VersionBreakpoint
changed = record { kind = statement StatementKind.analyze; version = 17 }

abbrev separated : StatementRows
separated = (StatementKind.analyze, early_row ∷ late_row ∷ []) ∷ []

rows_separated : check_breakpoints (changed ∷ []) separated [] ≡ true
unfolding check_breakpoints find_kind
rows_separated = refl

listed_late : Any (λ f. f ≡ late_row) (rows_in separated [] (statement StatementKind.analyze))
unfolding find_kind
listed_late = inr (inl refl)
