-- ===== src/Loader/Lookups.antt =====
-- What holds of the rows of one kind that catalog/loader.py accepts.
use blastoise.Base.{
  ok-has, OkHas-after, traverse-All, ℕ, true, ◌≡◌, refl, none, some, List, All, length, keep, arith,
  ok, traverse, OkHas, OkHas-bind, Succeeds, Option,
}
use blastoise.Ir.{Kind, Attrs}
use blastoise.Catalog.{
  VersionRange, covers, CatalogEntry, covering_defaults, check_coverage, CoverageError, pick,
}
use blastoise.Catalog.Laws.{IsPicked, check_coverage-one, rows-total}
use blastoise.Loader.Documents.{Yaml}
use blastoise.Loader.Matrix.{MatrixRows}
use blastoise.Loader.Rows.{parse_entry}
use blastoise.Loader.Tables.{as_rows, passes, parse_rows}
use blastoise.Loader.Rules.{IsConsistent, parse_entry-has}
use blastoise.Loader.Checks.{require-then}

module _ (matrix : MatrixRows) (domain : VersionRange) (kind : Kind) where
  -- Every row is consistent, and the rows pass the check of their versions.
  abbrev pub AreChecked : List CatalogEntry → Type 0
  AreChecked entries =
      All (IsConsistent matrix domain kind) entries × (check_coverage entries domain ≡ none)

  passes-none : (o : Option CoverageError) → passes o ≡ true → o ≡ none
  passes-none none h = refl
  passes-none (some e) h = absurd (ground arith)

  pub parse_rows-has : (raw : Yaml) → OkHas AreChecked (parse_rows matrix domain kind raw)
  unfolding parse_rows
  parse_rows-has raw = OkHas-after AreChecked (as_rows raw) _ λ ys _.
      OkHas-bind (All (IsConsistent matrix domain kind)) AreChecked
        (traverse (parse_entry matrix domain kind) ys) _
        (traverse-All (IsConsistent matrix domain kind) (parse_entry matrix domain kind) ys
          (parse_entry-has matrix domain kind))
        λ entries consistent.
          require-then (passes (check_coverage entries domain)) AreChecked (ok entries)
            λ h. (consistent, passes-none (check_coverage entries domain) h)

  -- The rows of a kind that is accepted answer every lookup for a version of the domain: exactly one
  -- default row covers the version, and the pick among the rows that cover it finds a variant that
  -- matches, or the default row where none does. Every row is consistent.
  pub parse_rows-total :
      (raw : Yaml) (entries : List CatalogEntry) (v : ℕ) (attrs : Attrs)
      → parse_rows matrix domain kind raw ≡ ok entries
      → covers domain v ≡ true
      → (length (covering_defaults entries v) ≡ 1)
        × (All (IsConsistent matrix domain kind) entries
            × Succeeds
                (IsPicked (keep (λ (e : CatalogEntry). covers e.pg_versions v) entries) attrs)
                (pick (keep (λ (e : CatalogEntry). covers e.pg_versions v) entries) attrs))
  parse_rows-total raw entries v attrs e c =
      let checked =
        ok-has AreChecked (parse_rows matrix domain kind raw) entries e (parse_rows-has raw) in
      (
        check_coverage-one entries domain v checked.1 c,
        (checked.0, rows-total entries domain v attrs checked.1 c),
      )
