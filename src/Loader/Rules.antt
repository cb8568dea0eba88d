-- ===== src/Loader/Rules.antt =====
-- What holds of every row that catalog/loader.py `_parse_entry` accepts.
use blastoise.Base.{
  ok-has, OkHas-after, ◌≤◌, true, false, ◌≡◌, ◌≢◌, ◌↔◌, ◌⊎◌, refl, subst, List, arith, ok, contains,
  OkHas, OkHas-bind, codes, Text, leb, ◌&&◌, ◌++◌,
}
use blastoise.Ir.{Kind}
use blastoise.Catalog.{
  access_share, row_exclusive, none_mode, unknown_mode, mode_eq, is_table_lock, measured,
  uncalibrated, VersionRange, covers, CatalogEntry, no_scope, constant,
}
use blastoise.Loader.Documents.{
  Yaml, integer, sequence, element, no_more, Mapping, keys, get, as_mapping, within,
}
use blastoise.Loader.Scalars.{enum, bool, bool_or, opt_str, parse_source, parse_versions}
use blastoise.Loader.Spellings.{lock_modes, duration_models, calibrations, transaction_blocks}
use blastoise.Loader.Relations.{parse_affected, parse_when}
use blastoise.Loader.Matrix.{MatrixRows}
use blastoise.Loader.Consistency.{
  unknown_allowed, row_checks, unknown_check, available_check, blocks_check, scope_check,
  entry_conflicts,
}
use blastoise.Loader.Rows.{
  required_fields, optional_fields, not_measured, parse_scope, parse_fields, parse_entry,
}
use blastoise.Loader.Checks.{require-then}

-- A range that is not empty, within the versions of the catalog.
abbrev pub Within : VersionRange → VersionRange → Type 0
Within domain r =
    (r.lowest ≤ r.highest) × ((covers domain r.lowest ≡ true) × (covers domain r.highest ≡ true))

parse_versions-Within :
    (domain : VersionRange) (y : Yaml) → OkHas (Within domain) (parse_versions domain y)
unfolding parse_versions
parse_versions-Within domain (sequence (element (integer lo) (element (integer hi) no_more))) =
    require-then (leb lo hi) _ _ λ le.
      require-then (covers domain lo && covers domain hi) _ _
        λ c. (ground arith, (ground arith, ground arith))
parse_versions-Within domain _ = tt

module _ (matrix : MatrixRows) (domain : VersionRange) (kind : Kind) where
  -- What the fields of a row have before its checks.
  abbrev FieldsHave : CatalogEntry × List Text → Type 0
  FieldsHave row =
      Within domain row.0.pg_versions
      × ((row.0.conflicts_with ≡ entry_conflicts matrix row.0.lock_mode)
          × ((not_measured row.0.calibration ≡ true) × (row.0.kind ≡ kind)))

  parse_fields-has : (m : Mapping) → OkHas FieldsHave (parse_fields matrix domain kind m)
  unfolding parse_fields
  parse_fields-has m =
      OkHas-bind (Within domain) FieldsHave (parse_versions domain _) _
        (parse_versions-Within domain _)
        λ versions within_domain. OkHas-after FieldsHave (enum calibrations _) _ λ calibration _.
          require-then (not_measured calibration) FieldsHave _ λ calibrated.
            OkHas-after FieldsHave (bool_or _ _ _) _ λ available _.
              OkHas-after FieldsHave (enum lock_modes _) _ λ lock_mode _.
                OkHas-after FieldsHave (bool _) _ λ reads _.
                  OkHas-after FieldsHave (bool _) _ λ writes _.
                    OkHas-after FieldsHave (bool _) _ λ rewrite _.
                      OkHas-after FieldsHave (enum duration_models _) _ λ duration _.
                        OkHas-after FieldsHave (bool_or _ _ _) _ λ live _.
                          OkHas-after FieldsHave (opt_str _) _ λ live_context _.
                            OkHas-after FieldsHave (enum transaction_blocks _) _ λ txn _.
                              OkHas-after FieldsHave (opt_str _) _ λ failure_mode _.
                                OkHas-after FieldsHave (opt_str _) _ λ row_locks _.
                                  OkHas-after FieldsHave (opt_str _) _ λ notes _.
                                    OkHas-after FieldsHave (parse_affected _ _) _ λ affected _.
                                      OkHas-after FieldsHave (parse_when _ _) _ λ when _.
                                        OkHas-after FieldsHave (parse_source _) _ λ sources _.
                                          OkHas-after FieldsHave
                                            (parse_scope lock_mode
                                              (entry_conflicts matrix lock_mode) writes
                                              (get (codes "write_block_scope") m))
                                            _ λ scope _. (within_domain, (refl, (calibrated, refl)))

abbrev Unknown : CatalogEntry → Type 0
Unknown e = (e.calibration ≡ uncalibrated) × ((e.blocks_reads ≡ true) × (e.blocks_writes ≡ true))

abbrev Unavailable : CatalogEntry → Type 0
Unavailable e =
    (e.lock_mode ≡ none_mode) × ((e.duration_model ≡ constant) × (e.requires_table_rewrite ≡ false))

-- A row of the kind that the tables of the verdict engine can rely on.
pub record IsConsistent (matrix : MatrixRows) (domain : VersionRange) (kind : Kind)
    (e : CatalogEntry) : Type 0 where
  pub of_kind : e.kind ≡ kind
  pub versions : Within domain e.pg_versions
  pub not_live : e.calibration ≢ measured
  pub conflicts : e.conflicts_with ≡ entry_conflicts matrix e.lock_mode
  pub blocks :
      (is_table_lock e.lock_mode ≡ false)
      ⊎ ((e.blocks_reads ≡ contains access_share e.conflicts_with)
          × ((contains row_exclusive e.conflicts_with ≡ false) ⊎ (e.blocks_writes ≡ true)))
  pub nothing : (e.lock_mode ≢ none_mode) ⊎ ((e.blocks_reads ≡ false) × (e.blocks_writes ≡ false))
  pub unknown : (e.lock_mode ≢ unknown_mode) ⊎ ((unknown_allowed kind ≡ true) × Unknown e)
  pub scope : (e.write_block_scope ≡ no_scope) ↔ (e.blocks_writes ≡ false)
  pub unavailable : (e.available ≡ true) ⊎ Unavailable e

row_checks-Unknown :
    (e : CatalogEntry) (sources : List Text)
    → row_checks e sources ≡ true
    → (e.lock_mode ≢ unknown_mode) ⊎ ((unknown_allowed e.kind ≡ true) × Unknown e)
unfolding row_checks unknown_check
row_checks-Unknown e sources h = ground arith

row_checks-Unavailable :
    (e : CatalogEntry) (sources : List Text)
    → row_checks e sources ≡ true
    → (e.available ≡ true) ⊎ Unavailable e
unfolding row_checks available_check
row_checks-Unavailable e sources h = ground arith

row_checks-scope :
    (e : CatalogEntry) (sources : List Text)
    → row_checks e sources ≡ true
    → (e.write_block_scope ≡ no_scope) ↔ (e.blocks_writes ≡ false)
unfolding row_checks scope_check
row_checks-scope e sources h = ground arith

row_checks-blocks :
    (e : CatalogEntry) (sources : List Text) → row_checks e sources ≡ true → blocks_check e ≡ true
unfolding row_checks
row_checks-blocks e sources h = ground arith

blocks_check-table :
    (e : CatalogEntry)
    → blocks_check e ≡ true
    → (is_table_lock e.lock_mode ≡ false)
      ⊎ ((e.blocks_reads ≡ contains access_share e.conflicts_with)
          × ((contains row_exclusive e.conflicts_with ≡ false) ⊎ (e.blocks_writes ≡ true)))
unfolding blocks_check
blocks_check-table e h = ground arith

blocks_check-nothing :
    (e : CatalogEntry)
    → blocks_check e ≡ true
    → (e.lock_mode ≢ none_mode) ⊎ ((e.blocks_reads ≡ false) × (e.blocks_writes ≡ false))
unfolding blocks_check
blocks_check-nothing e h = ground arith

module _ (matrix : MatrixRows) (domain : VersionRange) (kind : Kind) where
  checked_row :
      (row : CatalogEntry × List Text)
      → FieldsHave matrix domain kind row
      → row_checks row.0 row.1 ≡ true
      → IsConsistent matrix domain kind row.0
  checked_row (e, sources) (within_domain, (conflicts, (calibrated, of_kind))) h = record {
    of_kind = of_kind;
    versions = within_domain;
    not_live = λ c. absurd (ground arith);
    conflicts = conflicts;
    blocks = blocks_check-table e (row_checks-blocks e sources h);
    nothing = blocks_check-nothing e (row_checks-blocks e sources h);
    unknown =
        subst (λ k. (e.lock_mode ≢ unknown_mode) ⊎ ((unknown_allowed k ≡ true) × Unknown e)) of_kind
          (row_checks-Unknown e sources h);
    scope = row_checks-scope e sources h;
    unavailable = row_checks-Unavailable e sources h;
  }

  pub parse_entry-has :
      (raw : Yaml) → OkHas (IsConsistent matrix domain kind) (parse_entry matrix domain kind raw)
  unfolding parse_entry
  parse_entry-has raw = OkHas-after (IsConsistent matrix domain kind) (as_mapping raw) _ λ m _.
      require-then (within (keys m) (required_fields ++ optional_fields)) _ _ λ _.
        require-then (within required_fields (keys m)) _ _ λ _.
          OkHas-bind (FieldsHave matrix domain kind) (IsConsistent matrix domain kind)
            (parse_fields matrix domain kind m) _ (parse_fields-has matrix domain kind m)
            λ row has.
              require-then (row_checks row.0 row.1) (IsConsistent matrix domain kind) (ok row.0)
                λ h. checked_row row has h

  -- Every row that is accepted is consistent: it is of the kind it stands under, its versions lie in
  -- the domain, it is not marked as measured, and what it conflicts with is read from the matrix by
  -- its lock mode. A table lock blocks reads exactly where it conflicts with ACCESS SHARE, and blocks
  -- writes where it conflicts with ROW EXCLUSIVE; no lock blocks nothing; an unknown lock blocks both
  -- and stands only where the list of exceptions allows it. The scope of blocked writes is given
  -- exactly where writes are blocked. A form that a version lacks takes no lock and rewrites nothing.
  pub parse_entry-IsConsistent :
      (raw : Yaml) (e : CatalogEntry)
      → parse_entry matrix domain kind raw ≡ ok e
      → IsConsistent matrix domain kind e
  parse_entry-IsConsistent raw e h =
      ok-has (IsConsistent matrix domain kind) (parse_entry matrix domain kind raw) e h
        (parse_entry-has raw)
