-- ===== src/Live/Facts.antt =====
-- live/model.py: the snapshot of a live database.
use blastoise.Base.{ℕ, ℤ, Bool, true, false, Option, none, List, Text}

-- `Fact[T]`. `known none` is a null that was read; `missing` is a fact that was not gathered, with its
-- reason. The constructors `of` and `unavailable` of the class are the only ways in which the code
-- makes one.
pub data Fact {ℓ} (A : Type ℓ) : Type ℓ where
  known : Option A → Fact A
  missing : (reason : Text) → Fact A

module _ {ℓ} {A : Type ℓ} where
  abbrev pub available : Fact A → Bool
  available (known v) = true
  available (missing r) = false

  -- The field `value`, which is `None` for a fact that was not gathered.
  abbrev pub value : Fact A → Option A
  value (known v) = v
  value (missing r) = none

-- A time stamp, with what `datetime.fromisoformat` makes of its text: an instant, or nothing, where
-- the text does not parse.
pub data Stamp : Type 0 where
  instant : (text : Text) (microseconds : ℕ) → Stamp
  unparsable : (text : Text) → Stamp

pub record ConnectionTarget : Type 0 where
  pub host : Option Text
  pub port : Option Text
  pub dbname : Option Text
  pub user : Option Text

pub record CaptureLimits : Type 0 where
  pub connect_timeout_s : ℕ
  pub statement_timeout_ms : ℕ
  pub lock_timeout_ms : ℕ
  pub long_transaction_threshold_ms : ℕ
  pub max_listed_transactions : ℕ

pub record RoleFacts : Type 0 where
  pub role : Text
  pub transaction_read_only : Bool
  pub superuser : Bool
  pub can_read_all_stats : Bool
  pub warnings : List Text

pub record ServerFacts : Type 0 where
  pub server_version_num : Fact ℕ
  pub server_version : Fact Text
  pub pg_major : Fact ℕ
  pub in_recovery : Fact Bool
  pub server_now : Fact Stamp
  pub lock_timeout_ms : Fact ℕ
  pub statement_timeout_ms : Fact ℕ
  pub timezone : Fact Text

pub record IndexFacts : Type 0 where
  pub name : Text
  pub valid : Bool
  pub size_bytes : Fact ℕ
  pub method : Text
  pub partial : Bool
  pub has_expressions : Bool
  pub default_opclasses : Bool
  pub depends_on_columns : List Text

pub record ColumnFacts : Type 0 where
  pub name : Text
  pub attnum : ℕ
  pub data_type : Text
  pub type_oid : ℕ
  pub typmod : ℤ
  pub not_null : Bool
  pub has_default : Bool
  pub default_expression : Option Text
  pub identity : Text
  pub generated : Text
  pub is_domain : Bool
  pub domain_base_type : Option Text
  pub domain_not_null : Bool
  pub domain_constraint_count : ℕ

pub record ConstraintFacts : Type 0 where
  pub name : Text
  pub contype : Text
  pub validated : Bool
  pub columns : List Text
  pub definition : Text
  pub check_expression : Option Text
  pub referenced_table : Option Text

pub record FunctionFacts : Type 0 where
  pub requested : Text
  pub exists : Fact Bool
  pub overloads : Fact ℕ
  pub volatility : Fact Text
  pub prokind : Fact Text

pub record TypeFacts : Type 0 where
  pub requested : Text
  pub exists : Fact Bool
  pub formatted : Fact Text
  pub typtype : Fact Text
  pub is_domain : Fact Bool
  pub domain_base_type : Fact Text
  pub domain_not_null : Fact Bool
  pub domain_constraint_count : Fact ℕ

pub record TypeChangeFacts : Type 0 where
  pub relation : Text
  pub column : Text
  pub new_type_requested : Text
  pub current_type : Fact Text
  pub current_typmod : Fact ℤ
  pub current_base_type : Fact Text
  pub current_is_domain : Fact Bool
  pub current_domain_not_null : Fact Bool
  pub current_domain_constraint_count : Fact ℕ
  pub new_type : Fact Text
  pub new_base_type : Fact Text
  pub new_is_domain : Fact Bool
  pub new_domain_not_null : Fact Bool
  pub new_domain_constraint_count : Fact ℕ
  pub new_domain_has_typmod : Fact Bool
  pub same_type : Fact Bool
  pub bases_same : Fact Bool
  pub cast_method : Fact Text
  pub cast_context : Fact Text

pub record RelationFacts : Type 0 where
  pub requested : Text
  pub exists : Fact Bool
  pub schema : Fact Text
  pub name : Fact Text
  pub relkind : Fact Text
  pub is_partitioned : Fact Bool
  pub reltuples : Fact ℤ
  pub relpages : Fact ℕ
  pub relation_size_bytes : Fact ℕ
  pub total_relation_size_bytes : Fact ℕ
  pub last_analyze : Fact Stamp
  pub last_autoanalyze : Fact Stamp
  pub n_mod_since_analyze : Fact ℕ
  pub partition_count : Fact ℕ
  pub partitions_total_size_bytes : Fact ℕ
  pub index_count : Fact ℕ
  pub indexes : Fact (List IndexFacts)
  pub invalid_indexes : Fact (List Text)
  pub columns : Fact (List ColumnFacts)
  pub dropped_column_count : Fact ℕ
  pub constraints : Fact (List ConstraintFacts)

pub record LockWaiter : Type 0 where
  pub relation : Text
  pub blocked_pid : ℕ
  pub blocked_mode : Text
  pub waiting_for_ms : Fact ℕ
  pub blocking_pids : List ℕ
  pub blocking_modes : List Text
  pub blockers_all_idle : Fact Bool

pub record LongTransaction : Type 0 where
  pub pid : ℕ
  pub state : Text
  pub idle_in_transaction : Bool
  pub xact_age_ms : ℕ
  pub query_age_ms : Fact ℕ
  pub first_keyword : Fact Text
  pub waiting_on_lock : Bool

pub record ConcurrencyFacts : Type 0 where
  pub lock_waiters : Fact (List LockWaiter)
  pub long_transactions : Fact (List LongTransaction)
  pub current_connections : Fact ℕ
  pub max_connections : Fact ℕ

pub record ReplicaFacts : Type 0 where
  pub name : Text
  pub client_addr : Fact Text
  pub state : Fact Text
  pub sync_state : Fact Text
  pub replay_lag_bytes : Fact ℕ
  pub write_lag_ms : Fact ℕ
  pub flush_lag_ms : Fact ℕ
  pub replay_lag_ms : Fact ℕ

pub record ReplicationFacts : Type 0 where
  pub has_replicas : Fact Bool
  pub replicas : Fact (List ReplicaFacts)
  pub synchronous : Fact Bool
  pub synchronous_standby_names : Fact Text
  pub synchronous_commit : Fact Text

pub record CalibrationFacts : Type 0 where
  pub compute_ms : Fact ℕ
  pub repeats : ℕ
  pub compute_rows : ℕ

pub record LiveSnapshot : Type 0 where
  pub snapshot_format : ℕ
  pub captured_at : Text
  pub target : ConnectionTarget
  pub limits : CaptureLimits
  pub role : RoleFacts
  pub server : ServerFacts
  pub relations : List RelationFacts
  pub functions : List FunctionFacts
  pub types : List TypeFacts
  pub type_changes : List TypeChangeFacts
  pub concurrency : ConcurrencyFacts
  pub replication : ReplicationFacts
  pub calibration : CalibrationFacts
