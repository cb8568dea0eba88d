-- ===== src/Verdict/Model/Assessments.antt =====
-- verdict/model.py: the records of an assessment. Rationales, bases and notes are prose for the
-- reader that no code reads, and are left out. The reason of a refusal to estimate and the
-- conditions of a verdict are kept, a constructor for each text of the source.
use blastoise.Base.{ℕ, Bool, Option, List, String, Text}
use blastoise.Ir.{StatementKind, Kind}
use blastoise.Catalog.{LockMode, Role}
use blastoise.Verdict.Constants.{Family}
use blastoise.Verdict.Model.Evidence.{Method}
use blastoise.Verdict.Model.Narratives.{Narrative}
use blastoise.Verdict.Model.Tiers.{Classification, DurationBand, Reversibility}

-- Why there is no estimate. The first six stand in duration.py, the others in engine.py.
pub data Reason : Type 0 where
  existence_unknown does_not_exist no_row_estimate : Reason
  never_analyzed statistics_unusable : Reason
  no_relation_to_size bulk_loaded no_snapshot no_throughput_constant : Reason
  not_captured no_index_to_size size_unavailable no_rebuild_relation : Reason
  form_does_not_exist form_not_modelled uncalibrated_stub errors_before_locks : Reason
  only_reads query_volume source_rows matched_rows live_context_missing : Reason

-- What must hold, or must be recorded, for a verdict outside `SAFE`.
pub data Condition : Type 0 where
  time_a_copy : (faster slower : Classification) → Condition
  low_traffic_window : (blocked : Bool) → Condition
  prompt_acquisition : Condition
  prompt_acquisition_of : List Text → Condition
  defining_query_volume source_query_volume : Condition
  bounded_matches : DurationBand → Condition
  consider_batching : Condition
  acceptable_off_peak : Condition
  guarded if_guard_passes_unsafe : Condition
  session_timezone_utc : Condition
  no_undo : Option String → Condition
  transaction_keeps_locks : Condition

pub record Verdict : Type 0 where
  pub classification : Classification
  pub method : Method
  pub conditions : List Condition
  pub band : Option DurationBand
  pub refusal : Bool
  pub refused_from : Option Classification
  pub refused_alternatives : List Classification

pub record RelationLockAssessment : Type 0 where
  pub relation : Option Text
  pub role : Role
  pub lock_mode : LockMode
  pub blocks_reads : Bool
  pub blocks_writes : Bool
  pub conflicting_modes : List LockMode
  pub certain : Bool
  pub method : Method

pub data Confidence : Type 0 where
  high medium low : Confidence

pub record DurationEstimate : Type 0 where
  pub point_ms : ℕ
  pub low_ms : ℕ
  pub high_ms : ℕ
  pub confidence : Confidence
  pub method : Method
  pub constant_key : Option Family

-- `DurationEstimate | CannotEstimate`
pub data Duration : Type 0 where
  estimate : DurationEstimate → Duration
  cannot_estimate : Reason → Method → Duration

pub record Tristate : Type 0 where
  pub value : Option Bool
  pub method : Method

pub record ContentionAssessment : Type 0 where
  pub relation : Text
  pub conflicting_lock_held : Tristate
  pub held_conflicting_modes : List Text
  pub waiting_pids : List ℕ
  pub active_conflict : Bool

pub record ReversibilityAssessment : Type 0 where
  pub reversibility : Reversibility
  pub method : Method
  pub basis : String
  pub what_is_lost : Option String

pub record RowAssessment : Type 0 where
  pub kind : Kind
  pub lock_mode : LockMode
  pub relations : List RelationLockAssessment
  pub duration : Duration
  pub contention : List ContentionAssessment
  pub verdict : Verdict
  pub narrowings : List Narrative

pub record HeldLock : Type 0 where
  pub relation : Option Text
  pub lock_mode : LockMode
  pub acquired_by_index : ℕ

pub record StatementAssessment : Type 0 where
  pub statement_index : ℕ
  pub kind : StatementKind
  pub statement_lock_mode : LockMode
  pub rows : List RowAssessment
  pub reversibility : ReversibilityAssessment
  pub verdict : Verdict
  pub held_locks_before : List HeldLock

pub record TransactionWarning : Type 0 where
  pub relations : List Text
  pub group_index : Option ℕ
  pub hypothetical : Bool

pub record ScriptAssessment : Type 0 where
  pub statements : List StatementAssessment
  pub transaction_warnings : List TransactionWarning
  pub pg_version : ℕ
  pub online : Bool
  pub baseline_shaped : Bool
