-- ===== src/Ci/Summary.antt =====
-- ci/model.py `CiRun`: the totals of a run and its machine-readable account.
use blastoise.Base.{
  ℕ, ◌+◌, Bool, true, false, Option, some, none, List, [], ◌∷◌, map, length, keep, Text, codes,
  String, pos, ◌==◌, list_eq, nat_eq, if◌then◌else◌,
}
use blastoise.Verdict.Model.{Classification, safe, safe_irreversible, needs_timing, unsafe}
use blastoise.Ci.Detect.{DetectedFile}
use blastoise.Report.Model.{FileVerdict, proceed, requires_approval, block}
use blastoise.Live.Canonical.{
  Json, null, boolean, number, string, array, object, Items, no_items, item, Members, no_members,
  member,
}
use blastoise.Ci.{
  Framework, SourceKind, OutcomeStatus, assessed, unsupported, error, FileOutcome, run_verdict,
}

-- `str(tier)`.
abbrev pub tier_value : Classification → String
tier_value safe = "safe"
tier_value safe_irreversible = "safe_irreversible"
tier_value needs_timing = "needs_timing"
tier_value unsafe = "unsafe"
tier_value Classification.unknown = "unknown"

-- `TIER_ORDER`, worst first.
abbrev pub tier_order : List Classification
tier_order = unsafe ∷ Classification.unknown ∷ needs_timing ∷ safe_irreversible ∷ safe ∷ []

abbrev pub Counts : Type 0
Counts = List (Text × ℕ)

-- `counts.get(key, 0)`.
unfoldable pub get_count : Text → Counts → ℕ
get_count key [] = 0
get_count key ((k, n) ∷ rest) = if k == key then n else get_count key rest

-- `counts[key] = n`.
unfoldable pub set_count : Text → ℕ → Counts → Counts
set_count key n [] = (key, n) ∷ []
set_count key n ((k, m) ∷ rest) = if k == key then (k, n) ∷ rest else (k, m) ∷ set_count key n rest

-- `FileOutcome.of`, with the defaults of the fields that a call may set.
unfoldable pub of_detected : DetectedFile → OutcomeStatus → FileOutcome
of_detected detected status = record {
  path = detected.path;
  framework = detected.framework;
  source_kind = detected.source_kind;
  status = status;
  verdict = none;
  counts = [];
  report_dir = none;
  detail = none;
}

-- `FileOutcome.count`.
unfoldable pub count : FileOutcome → Classification → ℕ
unfolding get_count
count o tier = get_count (codes (tier_value tier)) o.counts

abbrev pub is_assessed : FileOutcome → Bool
is_assessed o = elim o.status [ assessed ↦ true | _ ↦ false ]

abbrev pub is_unsupported : FileOutcome → Bool
is_unsupported o = elim o.status [ unsupported ↦ true | _ ↦ false ]

abbrev pub is_error : FileOutcome → Bool
is_error o = elim o.status [ error ↦ true | _ ↦ false ]

pub record CiRun : Type 0 where
  pub outcomes : List FileOutcome
  pub online : Bool
  pub tool_version : Text
  pub changed_files : ℕ
  pub database_label : Option Text
  pub degraded_reason : Option Text
  pub notes : List Text
  pub report_root : Option Text
  pub artifact_name : Option Text

module _ (run : CiRun) where
  unfoldable pub assessed_files : List FileOutcome
  assessed_files = keep is_assessed run.outcomes

  unfoldable pub unsupported_files : List FileOutcome
  unsupported_files = keep is_unsupported run.outcomes

  unfoldable pub error_files : List FileOutcome
  error_files = keep is_error run.outcomes

-- The two loops of `totals`.
unfoldable pub add_counts : Counts → Counts → Counts
unfolding get_count set_count
add_counts totals [] = totals
add_counts totals ((tier, n) ∷ rest) =
    add_counts (set_count tier (get_count tier totals + n) totals) rest

unfoldable pub add_outcomes : Counts → List FileOutcome → Counts
unfolding add_counts
add_outcomes totals [] = totals
add_outcomes totals (o ∷ os) = add_outcomes (add_counts totals o.counts) os

unfoldable pub totals : CiRun → Counts
unfolding add_outcomes assessed_files
totals run = add_outcomes (map (λ t. (codes (tier_value t), 0)) tier_order) (assessed_files run)

abbrev verdict_value : FileVerdict → String
verdict_value proceed = "proceed"
verdict_value requires_approval = "requires_approval"
verdict_value block = "block"

abbrev status_value : OutcomeStatus → String
status_value assessed = "assessed"
status_value unsupported = "unsupported"
status_value error = "error"

abbrev framework_value : Framework → String
framework_value Framework.prisma = "prisma"
framework_value Framework.rails = "rails"
framework_value Framework.django = "django"
framework_value Framework.alembic = "alembic"
framework_value Framework.flyway = "flyway"
framework_value Framework.golang_migrate = "golang_migrate"
framework_value Framework.generic = "generic"
framework_value Framework.configured = "configured"

abbrev source_kind_value : SourceKind → String
source_kind_value SourceKind.sql = "sql"
source_kind_value SourceKind.dsl = "dsl"

abbrev literal : String → Json
literal s = string (codes s)

abbrev optional : Option Text → Json
optional none = null
optional (some t) = string t

abbrev natural : ℕ → Json
natural n = number (pos n)

abbrev object_of : List (String × Json) → Members
object_of [] = no_members
object_of ((k, j) ∷ rest) = member (codes k) j (object_of rest)

abbrev array_of : List Json → Items
array_of [] = no_items
array_of (j ∷ js) = item j (array_of js)

abbrev counts_json : Counts → Members
counts_json [] = no_members
counts_json ((k, n) ∷ rest) = member k (natural n) (counts_json rest)

unfoldable pub file_json : FileOutcome → Json
file_json o = object (
    object_of (
      ("path", string o.path)
      ∷ ("framework", literal (framework_value o.framework))
      ∷ ("source_kind", literal (source_kind_value o.source_kind))
      ∷ ("status", literal (status_value o.status))
      ∷ ("verdict", elim o.verdict [ none ↦ null | some v ↦ literal (verdict_value v) ])
      ∷ ("classification_counts", object (counts_json o.counts))
      ∷ ("report_dir", optional o.report_dir)
      ∷ ("detail", optional o.detail)
      ∷ []))

-- `CiRun.summary`.
unfoldable pub summary : CiRun → Json
unfolding file_json totals
summary run = object (
    object_of (
      ("verdict", literal (verdict_value (run_verdict run.outcomes)))
      ∷ ("online", boolean run.online)
      ∷ ("tool_version", string run.tool_version)
      ∷ ("changed_files", natural run.changed_files)
      ∷ ("migrations_detected", natural (length run.outcomes))
      ∷ ("assessed", natural (length (assessed_files run)))
      ∷ ("unsupported", natural (length (unsupported_files run)))
      ∷ ("errors", natural (length (error_files run)))
      ∷ ("classification_counts", object (counts_json (totals run)))
      ∷ ("database_label", optional run.database_label)
      ∷ ("degraded_reason", optional run.degraded_reason)
      ∷ ("report_root", optional run.report_root)
      ∷ ("files", array (array_of (map file_json run.outcomes)))
      ∷ ("notes", array (array_of (map string run.notes)))
      ∷ []))
