-- ===== src/Catalog/Coverage.antt =====
-- catalog/loader.py `_check_coverage`: the check of the rows of one kind when a catalog is read.
use blastoise.Base.{
  ℕ, zero, suc, ◌+◌, ◌-◌, Bool, true, false, ◌&&◌, not, Option, some, none, List, [], ◌∷◌, keep,
  length, any, ltb, nat_eq, list_eq, ◌==◌, if◌then◌else◌,
}
use blastoise.Ir.{Value, value_eq}
use blastoise.Catalog.Entries.{
  VersionRange, covers, overlaps, Expected, equals, member_of, When, CatalogEntry, is_default_row,
}

-- What a `CatalogError` of the check says.
pub data CoverageError : Type 0 where
  no_default_row : (version : ℕ) → CoverageError
  default_rows_overlap : (version count : ℕ) → CoverageError
  variants_overlap : CoverageError

values_eq : List Value → List Value → Bool
values_eq [] [] = true
values_eq (v ∷ vs) (w ∷ ws) = value_eq v w && values_eq vs ws
values_eq _ _ = false

expected_eq : Expected → Expected → Bool
unfolding values_eq
expected_eq (equals v) (equals w) = value_eq v w
expected_eq (member_of vs) (member_of ws) = values_eq vs ws
expected_eq _ _ = false

-- `first.when == second.when`
when_eq : When → When → Bool
unfolding expected_eq
when_eq [] [] = true
when_eq ((k, e) ∷ rest) ((l, f) ∷ more) = k == l && (expected_eq e f && when_eq rest more)
when_eq _ _ = false

-- `range(lo, lo + count)`
abbrev pub versions_from : ℕ → ℕ → List ℕ
versions_from lo zero = []
versions_from lo (suc count) = lo ∷ versions_from (lo + 1) count

abbrev pub covering_defaults : List CatalogEntry → ℕ → List CatalogEntry
covering_defaults entries version =
    keep (λ (e : CatalogEntry). covers e.pg_versions version) (keep is_default_row entries)

unfoldable pub check_versions : List CatalogEntry → List ℕ → Option CoverageError
check_versions entries [] = none
check_versions entries (v ∷ vs) =
    let rest = check_versions entries vs in
    let count = length (covering_defaults entries v) in
    if not (ltb 0 count)
    then some (no_default_row v)
    else if ltb 1 count
    then some (default_rows_overlap v count)
    else rest

collides : CatalogEntry → CatalogEntry → Bool
unfolding when_eq
collides e f = when_eq e.when f.when && overlaps e.pg_versions f.pg_versions

unfoldable pub check_variants : List CatalogEntry → Option CoverageError
unfolding collides
check_variants [] = none
check_variants (e ∷ es) =
    let rest = check_variants es in if any (collides e) es then some variants_overlap else rest

unfoldable pub check_coverage : List CatalogEntry → VersionRange → Option CoverageError
check_coverage entries domain =
    elim (check_versions entries
      (versions_from domain.lowest (domain.highest + 1 - domain.lowest))) [
        | some e ↦ some e
        | none ↦ check_variants (keep (λ e. not (is_default_row e)) entries)
      ]
