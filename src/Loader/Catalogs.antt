-- ===== src/Loader/Catalogs.antt =====
-- catalog/loader.py `parse_catalog`, with the version breakpoints.
use blastoise.Base.{
  ℕ, Bool, true, false, ◌&&◌, not, Option, some, none, List, [], ◌∷◌, all, leb, ltb, Text, codes,
  Result, ok, raise, value_error, ◌>>=◌, traverse, ◌==◌, list_eq, nat_eq, drop_prefix,
}
use blastoise.Ir.{Kind, statement, action}
use blastoise.Catalog.{VersionRange, CatalogEntry, VersionBreakpoint, LockCatalog}
use blastoise.Loader.Documents.{
  Yaml, boolean, integer, string, Mapping, keys, get, as_mapping, as_sequence, require, within,
}
use blastoise.Loader.Spellings.{same_statement, same_action, statement_kind_of, action_kind_of}
use blastoise.Loader.Matrix.{MatrixRows, parse_conflict_matrix, conflicts_in}
use blastoise.Loader.Tables.{
  find_kind, kind_of, Resolutions, StatementRows, ActionRows, parse_resolutions, parse_statements,
  parse_actions, or_no_rows,
}

-- `isinstance(v, int)`: a Boolean is an integer.
abbrev pub as_int : Yaml → Result ℕ
as_int (integer n) = ok n
as_int (boolean true) = ok 1
as_int (boolean false) = ok 0
as_int _ = raise value_error

abbrev pub exactly : List Text → Mapping → Bool
exactly expected m = within (keys m) expected && within expected (keys m)

-- The names of the two tables, with the kinds of each.
abbrev named_kind : Text → Option Kind
named_kind name = elim (drop_prefix (codes "statement/") name) [
  | some rest ↦ elim (statement_kind_of rest) [ none ↦ none | some k ↦ some (statement k) ]
  | none ↦ elim (drop_prefix (codes "alter_table_action/") name) [
    | some rest ↦ elim (action_kind_of rest) [ none ↦ none | some k ↦ some (action k) ]
    | none ↦ none
  ]
]

-- `_kind_from_ref`.
unfoldable pub kind_from_ref : Yaml → Result Kind
kind_from_ref (string t) = kind_of (named_kind t)
kind_from_ref _ = raise value_error

abbrev breakpoint_keys : List Text
breakpoint_keys = codes "kind" ∷ codes "version" ∷ codes "what_changed" ∷ codes "source" ∷ []

unfoldable pub parse_breakpoint : VersionRange → Yaml → Result VersionBreakpoint
unfolding kind_from_ref
parse_breakpoint domain y = as_mapping y >>= λ m. require (exactly breakpoint_keys m) >>= λ _.
    kind_from_ref (get (codes "kind") m) >>= λ kind. as_int (get (codes "version") m) >>= λ version.
    require (ltb domain.lowest version && leb version domain.highest) >>= λ _.
    ok (record { kind = kind; version = version })

-- `_parse_breakpoints`.
unfoldable pub parse_breakpoints : VersionRange → Yaml → Result (List VersionBreakpoint)
unfolding parse_breakpoint
parse_breakpoints domain raw = as_sequence raw >>= λ ys. traverse (parse_breakpoint domain) ys

abbrev pub rows_in : StatementRows → ActionRows → Kind → List CatalogEntry
rows_in statements actions (statement k) = or_no_rows (find_kind same_statement k statements)
rows_in statements actions (action k) = or_no_rows (find_kind same_action k actions)

-- A row for versions on both sides of a breakpoint.
abbrev pub spans : ℕ → CatalogEntry → Bool
spans version e = ltb e.pg_versions.lowest version && leb version e.pg_versions.highest

-- `_check_breakpoints`: whether it raises nothing.
unfoldable pub check_breakpoints : List VersionBreakpoint → StatementRows → ActionRows → Bool
check_breakpoints breakpoints statements actions =
    all
      (λ (bp : VersionBreakpoint).
        all (λ e. not (spans bp.version e)) (rows_in statements actions bp.kind))
      breakpoints

-- `schema_version != SCHEMA_VERSION`, which the integer 1 and `true` equal. A float is not an integer here.
unfoldable pub check_schema : Yaml → Result (Unit {0})
check_schema y = as_int y >>= λ n. require (n == 1)

-- `version_domain`.
unfoldable pub parse_domain : Yaml → Result VersionRange
parse_domain y = as_mapping y >>= λ m. require (exactly (codes "min" ∷ codes "max" ∷ []) m) >>= λ _.
    as_int (get (codes "min") m) >>= λ lo. as_int (get (codes "max") m) >>= λ hi.
    require (leb lo hi) >>= λ _. ok (record { lowest = lo; highest = hi })

unfoldable pub catalog_keys : List Text
catalog_keys =
    codes "schema_version"
    ∷ codes "version_domain"
    ∷ codes "conflict_matrix"
    ∷ codes "version_breakpoints"
    ∷ codes "statement_resolution"
    ∷ codes "statements"
    ∷ codes "alter_table_actions"
    ∷ []

unfoldable pub catalog_of :
    VersionRange
    → MatrixRows
    → Resolutions
    → StatementRows
    → ActionRows
    → List VersionBreakpoint
    → LockCatalog
catalog_of domain matrix rs statements actions breakpoints = record {
  version_domain = domain;
  conflict_matrix = conflicts_in matrix;
  breakpoints = breakpoints;
  statement_resolution = λ k. find_kind same_statement k rs;
  statements = λ k. or_no_rows (find_kind same_statement k statements);
  alter_table_actions = λ k. or_no_rows (find_kind same_action k actions);
}

-- The tables and the breakpoints, after the domain, the matrix and the resolutions.
unfoldable pub parse_tables : VersionRange → MatrixRows → Resolutions → Mapping → Result LockCatalog
unfolding catalog_of
parse_tables domain matrix rs m =
    parse_statements matrix domain rs (get (codes "statements") m) >>= λ statements.
    parse_actions matrix domain (get (codes "alter_table_actions") m) >>= λ actions.
    parse_breakpoints domain (get (codes "version_breakpoints") m) >>= λ breakpoints.
    require (check_breakpoints breakpoints statements actions) >>= λ _.
    ok (catalog_of domain matrix rs statements actions breakpoints)

-- `parse_catalog`.
unfoldable pub parse_catalog : Yaml → Result LockCatalog
unfolding check_schema parse_domain parse_tables
parse_catalog document = as_mapping document >>= λ m. require (exactly catalog_keys m) >>= λ _.
    check_schema (get (codes "schema_version") m) >>= λ _.
    parse_domain (get (codes "version_domain") m) >>= λ domain.
    parse_conflict_matrix (get (codes "conflict_matrix") m) >>= λ matrix.
    parse_resolutions (get (codes "statement_resolution") m) >>= λ rs.
    parse_tables domain matrix rs m
