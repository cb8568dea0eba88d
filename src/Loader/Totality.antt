-- ===== src/Loader/Totality.antt =====
-- That a catalog which catalog/loader.py `parse_catalog` accepts answers every lookup.
use blastoise.Base.{
  ok-has, OkHas-after, ℕ, true, ◌≡◌, refl, none, some, List, keep, arith, codes, Result, ok, raise,
  key_error, OkHas, OkHas-bind, Succeeds, Option, subst, list_eq, nat_eq,
}
use blastoise.Ir.{StatementKind, AlterTableActionKind, Kind, statement, action, Attrs}
use blastoise.Catalog.{
  Resolution, direct, VersionRange, covers, CatalogEntry, check_coverage, LockCatalog, rows_for,
  resolution_of, entry_for, VersionBreakpoint,
}
use blastoise.Catalog.Laws.{IsPicked, entry_for-total}
use blastoise.Loader.Documents.{Yaml, Mapping, get, as_mapping}
use blastoise.Loader.Spellings.{same_statement, same_action}
use blastoise.Loader.Matrix.{MatrixRows, parse_conflict_matrix}
use blastoise.Loader.Tables.{
  find_kind, is_some, Resolutions, StatementRows, ActionRows, not_direct, parse_resolutions,
  parse_statements, parse_actions, or_no_rows,
}
use blastoise.Loader.Catalogs.{
  exactly, catalog_keys, check_schema, parse_domain, parse_breakpoints, check_breakpoints,
  catalog_of, parse_tables, parse_catalog,
}
use blastoise.Loader.Checks.{require-then}
use blastoise.Loader.Injective.{same_statement-injective, same_action-injective, find_kind-All}
use blastoise.Loader.TableLaws.{
  StatementChecked, ActionChecked, StatementsHave, ActionsHave, parse_statements-has,
  parse_actions-has, Indirect, parse_resolutions-has,
}

-- The rows that a lookup reads have passed the check of their versions.
abbrev AllCovered : LockCatalog → Type 0
AllCovered catalog =
    (kind : Kind) (entries : List CatalogEntry)
    → rows_for catalog kind ≡ ok entries
    → check_coverage entries catalog.version_domain ≡ none

found_rows :
    (domain : VersionRange) (o : Option (List CatalogEntry)) (entries : List CatalogEntry)
    → is_some o ≡ true
    → or_no_rows o ≡ entries
    → ((rows : List CatalogEntry) → o ≡ some rows → check_coverage rows domain ≡ none)
    → check_coverage entries domain ≡ none
found_rows domain none entries t e h = absurd (ground arith)
found_rows domain (some rows) entries t e h =
    subst (λ es. check_coverage es domain ≡ none) e (h rows refl)

ok-same : {A : Type 0} (x y : A) → ok x ≡ ok y → x ≡ y
ok-same x y h = cc

direct_rows :
    (o : Option Resolution) (rows entries : List CatalogEntry)
    → ((r : Resolution) → o ≡ some r → not_direct r ≡ true)
    → elim (elim o as (λ x. Resolution) [ none ↦ direct | some r ↦ r ])
        as (λ x. Result (List CatalogEntry)) [
          | direct ↦ ok rows
          | Resolution.per_action ↦ raise key_error
          | Resolution.inner_statements ↦ raise key_error
        ]
      ≡ ok entries
    → (o ≡ none) × (rows ≡ entries)
direct_rows none rows entries h e = (refl, ok-same rows entries e)
direct_rows (some direct) rows entries h e = absurd (ground (arith, h direct refl))
direct_rows (some Resolution.per_action) rows entries h e = absurd (ground arith)
direct_rows (some Resolution.inner_statements) rows entries h e = absurd (ground arith)

module _ (domain : VersionRange) (matrix : MatrixRows) (rs : Resolutions)
    (statements : StatementRows) (actions : ActionRows) (breakpoints : List VersionBreakpoint) where
  statement-covered :
      (k : StatementKind) (entries : List CatalogEntry)
      → Indirect rs
      → StatementsHave matrix domain rs statements
      → rows_for (catalog_of domain matrix rs statements actions breakpoints) (statement k)
        ≡ ok entries
      → check_coverage entries domain ≡ none
  unfolding catalog_of rows_for resolution_of
  statement-covered k entries indirect has e =
      let read =
        direct_rows (find_kind same_statement k rs)
          (or_no_rows (find_kind same_statement k statements)) entries
          (λ r found.
            find_kind-All same_statement same_statement-injective
              (λ (p : StatementKind × Resolution). not_direct p.1 ≡ true) k r rs found indirect)
          e in
      found_rows domain (find_kind same_statement k statements) entries (has.1 k read.0) read.1
        λ rows found.
          (find_kind-All same_statement same_statement-injective (StatementChecked matrix domain) k
            rows statements found has.0).1

  action-covered :
      (k : AlterTableActionKind) (entries : List CatalogEntry)
      → ActionsHave matrix domain actions
      → rows_for (catalog_of domain matrix rs statements actions breakpoints) (action k)
        ≡ ok entries
      → check_coverage entries domain ≡ none
  unfolding catalog_of rows_for
  action-covered k entries has e =
      found_rows domain (find_kind same_action k actions) entries (has.1 k) (ok-same _ _ e)
        λ rows found.
          (find_kind-All same_action same_action-injective (ActionChecked matrix domain) k rows
            actions found has.0).1

  catalog_of-AllCovered :
      Indirect rs
      → StatementsHave matrix domain rs statements
      → ActionsHave matrix domain actions
      → AllCovered (catalog_of domain matrix rs statements actions breakpoints)
  unfolding catalog_of
  catalog_of-AllCovered indirect s a (statement k) entries e =
      statement-covered k entries indirect s e
  catalog_of-AllCovered indirect s a (action k) entries e = action-covered k entries a e

parse_tables-AllCovered :
    (domain : VersionRange) (matrix : MatrixRows) (rs : Resolutions) (m : Mapping)
    → Indirect rs
    → OkHas AllCovered (parse_tables domain matrix rs m)
unfolding parse_tables
parse_tables-AllCovered domain matrix rs m indirect =
    OkHas-bind (StatementsHave matrix domain rs) AllCovered
      (parse_statements matrix domain rs (get (codes "statements") m)) _
      (parse_statements-has matrix domain rs (get (codes "statements") m))
      λ statements s.
        OkHas-bind (ActionsHave matrix domain) AllCovered
          (parse_actions matrix domain (get (codes "alter_table_actions") m)) _
          (parse_actions-has matrix domain (get (codes "alter_table_actions") m))
          λ actions a.
            OkHas-after AllCovered (parse_breakpoints domain (get (codes "version_breakpoints") m))
              _
              λ breakpoints _.
                require-then (check_breakpoints breakpoints statements actions) AllCovered
                  (ok (catalog_of domain matrix rs statements actions breakpoints))
                  λ _.
                    catalog_of-AllCovered domain matrix rs statements actions breakpoints indirect s
                      a

parse_catalog-AllCovered : (raw : Yaml) → OkHas AllCovered (parse_catalog raw)
unfolding parse_catalog
parse_catalog-AllCovered raw = OkHas-after AllCovered (as_mapping raw) _ λ m _.
    require-then (exactly catalog_keys m) AllCovered _ λ _.
      OkHas-after AllCovered (check_schema (get (codes "schema_version") m)) _ λ _ _.
        OkHas-after AllCovered (parse_domain (get (codes "version_domain") m)) _ λ domain _.
          OkHas-after AllCovered (parse_conflict_matrix (get (codes "conflict_matrix") m)) _
            λ matrix _.
              OkHas-bind Indirect AllCovered
                (parse_resolutions (get (codes "statement_resolution") m)) _
                (parse_resolutions-has (get (codes "statement_resolution") m))
                λ rs indirect. parse_tables-AllCovered domain matrix rs m indirect

-- In a catalog that is accepted, no lookup of a kind that has rows fails for a version of the domain:
-- it returns a variant whose attributes match, or the default row where no variant matches.
pub parse_catalog-total :
    (raw : Yaml) (catalog : LockCatalog) (kind : Kind) (entries : List CatalogEntry) (v : ℕ)
    (attrs : Attrs)
    → parse_catalog raw ≡ ok catalog
    → rows_for catalog kind ≡ ok entries
    → covers catalog.version_domain v ≡ true
    → Succeeds
        (IsPicked (keep (λ (e : CatalogEntry). covers e.pg_versions v) entries) attrs)
        (entry_for catalog kind v attrs)
parse_catalog-total raw catalog kind entries v attrs loaded rows c =
    entry_for-total catalog kind entries v attrs rows
      (ok-has AllCovered (parse_catalog raw) catalog loaded (parse_catalog-AllCovered raw) kind
        entries rows)
      c
