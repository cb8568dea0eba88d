-- ===== src/Catalog/Entries.antt =====
-- catalog/model.py: version ranges, the rows of the catalog and the catalog.
use blastoise.Base.{
  ℕ, Bool, true, false, ◌&&◌, Option, some, none, List, [], ◌∷◌, Text, leb, any, if◌then◌else◌,
}
use blastoise.Ir.{StatementKind, AlterTableActionKind, Kind, Value, Attrs, value_eq, attribute}
use blastoise.Catalog.Modes.{
  LockMode, DurationModel, Calibration, TransactionBlock, WriteBlockScope, Resolution,
}

-- An inclusive range of major versions: the fields `min` and `max`.
pub record VersionRange : Type 0 where
  pub lowest : ℕ
  pub highest : ℕ

abbrev pub covers : VersionRange → ℕ → Bool
covers r version = leb r.lowest version && leb version r.highest

abbrev pub overlaps : VersionRange → VersionRange → Bool
overlaps r other = leb r.lowest other.highest && leb other.lowest r.highest

-- The roles that the resolver names, and those that it cannot.
pub data Role : Type 0 where
  target additional_targets referenced_table referenced_tables partition parent : Role
  unresolvable : Text → Role

pub record AffectedRelation : Type 0 where
  pub role : Role
  pub lock_mode : LockMode
  pub optional : Bool
  pub statically_resolvable : Bool

pub record VersionBreakpoint : Type 0 where
  pub kind : Kind
  pub version : ℕ

-- What a `when` predicate expects of an attribute: a value, or one of a list.
pub data Expected : Type 0 where
  equals : Value → Expected
  member_of : List Value → Expected

abbrev pub When : Type 0
When = List (Text × Expected)

-- The citations of a row are not read by code.
pub record CatalogEntry : Type 0 where
  pub kind : Kind
  pub pg_versions : VersionRange
  pub calibration : Calibration
  pub available : Bool
  pub lock_mode : LockMode
  pub conflicts_with : List LockMode
  pub blocks_reads : Bool
  pub blocks_writes : Bool
  pub write_block_scope : WriteBlockScope
  pub row_locks : Option Text
  pub requires_table_rewrite : Bool
  pub duration_model : DurationModel
  pub requires_live_context : Bool
  pub live_context : Option Text
  pub transaction_block : TransactionBlock
  pub failure_mode : Option Text
  pub affected_relations : List AffectedRelation
  pub when : When
  pub notes : Option Text

abbrev pub is_default_row : CatalogEntry → Bool
is_default_row e = elim e.when [ [] ↦ true | _ ∷ _ ↦ false ]

expected_holds : Expected → Value → Bool
expected_holds (equals v) actual = value_eq actual v
expected_holds (member_of vs) actual = any (value_eq actual) vs

unfoldable pub when_matches : When → Attrs → Bool
unfolding expected_holds
when_matches [] attrs = true
when_matches ((key, expected) ∷ rest) attrs = elim (attribute key attrs) [
  | none ↦ false
  | some actual ↦ if expected_holds expected actual then when_matches rest attrs else false
]

-- The loader refuses a catalog whose matrix lacks a table lock mode or whose tables lack a kind,
-- so the dictionaries are functions. `statement_resolution.get` gives `None` for a direct kind.
pub record LockCatalog : Type 0 where
  pub version_domain : VersionRange
  pub conflict_matrix : LockMode → List LockMode
  pub breakpoints : List VersionBreakpoint
  pub statement_resolution : StatementKind → Option Resolution
  pub statements : StatementKind → List CatalogEntry
  pub alter_table_actions : AlterTableActionKind → List CatalogEntry
