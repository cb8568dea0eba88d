-- ===== src/Catalog/Laws.antt =====
-- What a lookup in the catalog of catalog/model.py returns.
use blastoise.Base.{
  ℕ, Bool, true, false, ◌&&◌, not, ◌≡◌, ◌≢◌, refl, some, none, List, [], ◌∷◌, ok, Succeeds, keep,
  first, any, ℕ, zero, suc, ◌+◌, ◌-◌, ◌≤◌, ◌<◌, length, subst, Any, arith, ◌⊎◌, inl, inr,
  Option-cases, Bool-cases,
}
use blastoise.Ir.{Kind, Attrs}
use blastoise.Catalog.Entries.{
  VersionRange, covers, CatalogEntry, is_default_row, when_matches, LockCatalog,
}
use blastoise.Catalog.Coverage.{versions_from, covering_defaults, check_versions, check_coverage}
use blastoise.Catalog.Lookup.{rows_for, entries_for, pick, entry_for}

abbrev pub matching_variant : Attrs → CatalogEntry → Bool
matching_variant attrs e = not (is_default_row e) && when_matches e.when attrs

-- A row that may be picked: a variant that matches, or a default row where none does.
abbrev pub IsPicked : List CatalogEntry → Attrs → CatalogEntry → Type 0
IsPicked candidates attrs e =
    Any (λ c. c ≡ e) candidates
    × ((matching_variant attrs e ≡ true)
        ⊎ ((is_default_row e ≡ true) × (any (matching_variant attrs) candidates ≡ false)))

first-among :
    (p : CatalogEntry → Bool) (xs : List CatalogEntry) (e : CatalogEntry)
    → first p xs ≡ some e
    → Any (λ c. c ≡ e) xs × (p e ≡ true)
first-among p [] e h = cc
first-among p (x ∷ xs) e h = elim (Bool-cases (p x)) [
  | inl t ↦ ground (arith, first-among p xs e)
  | inr f ↦ let rest = first-among p xs e (rw f at h) in (inr rest.0, rest.1)
]

first-none :
    (p : CatalogEntry → Bool) (xs : List CatalogEntry) → first p xs ≡ none → any p xs ≡ false
first-none p [] h = refl
first-none p (x ∷ xs) h = ground (arith, first-none p xs)

pick-IsPicked :
    (candidates : List CatalogEntry) (attrs : Attrs)
    → first is_default_row candidates ≢ none
    → Succeeds (IsPicked candidates attrs) (pick candidates attrs)
unfolding pick
pick-IsPicked candidates attrs h = elim (Option-cases (first (matching_variant attrs) candidates)) [
  | inl none_found ↦ elim (Option-cases (first is_default_row candidates)) [
    | inl no_default ↦ absurd (h no_default)
    | inr (e, found) ↦
        let is = first-among is_default_row candidates e found in
        rw (none_found, found, pick)
          (is.0, inr (is.1, first-none (matching_variant attrs) candidates none_found))
  ]
  | inr (e, found) ↦
      let is = first-among (matching_variant attrs) candidates e found in
      rw (found, pick) (is.0, inl is.1)
]

eq_or_less : (lo v : ℕ) → lo ≤ v → (lo ≡ v) ⊎ (lo < v)
eq_or_less lo v h = omega arith

check_versions-one :
    (entries : List CatalogEntry) (lo n v : ℕ)
    → check_versions entries (versions_from lo n) ≡ none
    → lo ≤ v
    → v < lo + n
    → length (covering_defaults entries v) ≡ 1
unfolding check_versions
check_versions-one entries lo zero v h le lt = absurd (omega arith)
check_versions-one entries lo (suc n) v h le lt = elim (eq_or_less lo v le) [
  | inl e ↦ subst (λ w. length (covering_defaults entries w) ≡ 1) e (ground arith)
  | inr less ↦ check_versions-one entries (lo + 1) n v (ground arith) (omega arith) (omega arith)
]

pub check_coverage-one :
    (entries : List CatalogEntry) (domain : VersionRange) (v : ℕ)
    → check_coverage entries domain ≡ none
    → covers domain v ≡ true
    → length (covering_defaults entries v) ≡ 1
unfolding check_coverage
check_coverage-one entries domain v h c =
    check_versions-one entries domain.lowest (domain.highest + 1 - domain.lowest) v (ground arith)
      (ground arith) (ground arith)

default-found :
    (entries : List CatalogEntry) (v : ℕ)
    → first is_default_row (keep (λ (e : CatalogEntry). covers e.pg_versions v) entries) ≡ none
    → covering_defaults entries v ≡ []
default-found [] v h = refl
default-found (e ∷ es) v h = ground (arith, default-found es v)

entries_for-rows :
    (catalog : LockCatalog) (kind : Kind) (entries : List CatalogEntry) (v : ℕ)
    → rows_for catalog kind ≡ ok entries
    → covers catalog.version_domain v ≡ true
    → entries_for catalog kind v ≡ ok (keep (λ (e : CatalogEntry). covers e.pg_versions v) entries)
unfolding entries_for
entries_for-rows catalog kind entries v rows c = rw (c, rows) refl

length-pos : (xs : List CatalogEntry) → length xs ≡ 1 → xs ≢ []
length-pos xs h = ground arith

pub rows-total :
    (entries : List CatalogEntry) (domain : VersionRange) (v : ℕ) (attrs : Attrs)
    → check_coverage entries domain ≡ none
    → covers domain v ≡ true
    → Succeeds
        (IsPicked (keep (λ (e : CatalogEntry). covers e.pg_versions v) entries) attrs)
        (pick (keep (λ (e : CatalogEntry). covers e.pg_versions v) entries) attrs)
rows-total entries domain v attrs checked c =
    pick-IsPicked (keep (λ (e : CatalogEntry). covers e.pg_versions v) entries) attrs (λ none_found.
      length-pos (covering_defaults entries v) (check_coverage-one entries domain v checked c)
        (default-found entries v none_found))

-- For rows that the check of the loader passes, and a version of the catalog, a lookup returns a row:
-- a variant whose attributes match, or the default row where no variant matches.
pub entry_for-total :
    (catalog : LockCatalog) (kind : Kind) (entries : List CatalogEntry) (v : ℕ) (attrs : Attrs)
    → rows_for catalog kind ≡ ok entries
    → check_coverage entries catalog.version_domain ≡ none
    → covers catalog.version_domain v ≡ true
    → Succeeds
        (IsPicked (keep (λ (e : CatalogEntry). covers e.pg_versions v) entries) attrs)
        (entry_for catalog kind v attrs)
unfolding entry_for
entry_for-total catalog kind entries v attrs rows checked c =
    rw (entries_for-rows catalog kind entries v rows c)
      (rows-total entries catalog.version_domain v attrs checked c)
