-- ===== src/Tests/Samples.antt =====
-- Sample statements, catalog rows and snapshots.
use blastoise.Ci.{OutcomeStatus, Framework, SourceKind, FileOutcome}
use blastoise.Report.Model.{FileVerdict}
use blastoise.Base.{ℕ, pos, Bool, true, false, Option, some, none, List, [], ◌∷◌, Text, codes}
use blastoise.Ir.{
  StatementKind, AlterTableActionKind, Kind, statement, QualifiedName, Head, Details, no_details,
  rename_details, AlterTableAction, ParsedStatement, parsed, MigrationScript, Volatility,
}
use blastoise.Catalog.{
  LockMode, access_exclusive, table_lock_modes, DurationModel, proportional_to_rows, calibrated,
  TransactionBlock, WriteBlockScope, target, CatalogEntry, LockCatalog, RelationLock, ResolvedLock,
}
use blastoise.Live.Calibrate.{unavailable_calibration}
use blastoise.Live.{known, missing, RelationFacts, LockWaiter, ServerFacts, LiveSnapshot, instant}
use blastoise.Verdict.Engine.{Context, FileState}
use blastoise.Live.Resolve.{Decided}

abbrev pub users : QualifiedName
users = record { name = codes "users"; schema = none }

abbrev pub people : QualifiedName
people = record { name = codes "people"; schema = none }

abbrev pub head_of : StatementKind → List QualifiedName → List AlterTableAction → Head
head_of kind targets actions = record {
  kind = kind;
  sql = [];
  span = record { start = 0; end = 0; line = 1 };
  node_tag = [];
  targets = targets;
  alter_actions = actions;
  only = false;
}

abbrev pub action_of : AlterTableActionKind → AlterTableAction
action_of kind = record {
  kind = kind;
  column = some (codes "email");
  constraint_name = none;
  column_type = none;
  default = none;
  not_null = false;
  not_valid = false;
  has_using_expression = false;
  using_index = none;
  inline_constraints = [];
  partition = none;
  referenced_table = none;
  cascade = false;
  missing_ok = false;
  detail = none;
}

abbrev pub create_users : ParsedStatement
create_users = parsed (head_of StatementKind.create_table (users ∷ []) []) no_details

abbrev pub rename_head : Head
rename_head = head_of StatementKind.rename_table (users ∷ []) []

abbrev pub rename_to_people : Details
rename_to_people = rename_details (record {
  old_name = some (codes "users");
  new_name = some (codes "people");
  object_type = codes "table";
})

abbrev pub cluster_users : ParsedStatement
cluster_users = parsed (head_of StatementKind.cluster (users ∷ []) []) no_details

abbrev pub set_not_null_users : ParsedStatement
set_not_null_users =
    parsed
      (head_of StatementKind.alter_table (users ∷ [])
        (action_of AlterTableActionKind.set_not_null ∷ []))
      no_details

-- A row for all versions.
abbrev pub row : Kind → LockMode → DurationModel → CatalogEntry
row kind mode model = record {
  kind = kind;
  pg_versions = record { lowest = 12; highest = 17 };
  calibration = calibrated;
  available = true;
  lock_mode = mode;
  conflicts_with = table_lock_modes;
  blocks_reads = true;
  blocks_writes = true;
  write_block_scope = WriteBlockScope.table_scope;
  row_locks = none;
  requires_table_rewrite = false;
  duration_model = model;
  requires_live_context = false;
  live_context = none;
  transaction_block = TransactionBlock.allowed;
  failure_mode = none;
  affected_relations =
      record { role = target; lock_mode = mode; optional = false; statically_resolvable = true }
      ∷ [];
  when = [];
  notes = none;
}

abbrev pub cluster_row : CatalogEntry
cluster_row = row (statement StatementKind.cluster) access_exclusive proportional_to_rows

-- `CLUSTER` as a form that the version lacks.
abbrev pub missing_row : CatalogEntry
missing_row = record cluster_row { available = false }

abbrev conflicts : LockMode → List LockMode
conflicts access_exclusive = table_lock_modes
conflicts _ = access_exclusive ∷ []

abbrev pub catalog_of : (StatementKind → List CatalogEntry) → LockCatalog
catalog_of rows = record {
  version_domain = record { lowest = 12; highest = 17 };
  conflict_matrix = conflicts;
  breakpoints = [];
  statement_resolution = λ kind. none;
  statements = rows;
  alter_table_actions = λ kind. [];
}

abbrev pub catalog : LockCatalog
catalog = catalog_of λ kind. cluster_row ∷ []

abbrev pub old_catalog : LockCatalog
old_catalog = catalog_of λ kind. missing_row ∷ []

abbrev not_read : Text
not_read = codes "permission denied"

abbrev pub users_facts : ℕ → RelationFacts
users_facts n = record {
  requested = codes "users";
  exists = known (some true);
  schema = known (some (codes "public"));
  name = known (some (codes "users"));
  relkind = known (some (codes "r"));
  is_partitioned = known (some false);
  relpages = missing not_read;
  total_relation_size_bytes = missing not_read;
  partition_count = known (some 0);
  partitions_total_size_bytes = known (some 0);
  index_count = known (some 0);
  dropped_column_count = known (some 0);
  reltuples = known (some (pos n));
  relation_size_bytes = known (some 8192);
  last_analyze = known (some (instant (codes "1970-01-01T00:00:00+00:00") 0));
  last_autoanalyze = known none;
  n_mod_since_analyze = known (some 0);
  indexes = known (some []);
  invalid_indexes = known (some []);
  columns = known (some []);
  constraints = known (some []);
}

abbrev pub server : ServerFacts
server = record {
  server_version_num = known (some 160_004);
  server_version = missing not_read;
  pg_major = known (some 16);
  in_recovery = known (some false);
  lock_timeout_ms = known (some 0);
  statement_timeout_ms = known (some 0);
  timezone = missing not_read;
  server_now = known (some (instant (codes "1970-01-01T00:00:00+00:00") 0));
}

-- A backend that works waits for the lock on the table.
abbrev pub waiter : LockWaiter
waiter = record {
  relation = codes "public.users";
  blocked_pid = 42;
  blocked_mode = codes "AccessExclusiveLock";
  waiting_for_ms = missing not_read;
  blocking_pids = 7 ∷ [];
  blocking_modes = codes "RowExclusiveLock" ∷ [];
  blockers_all_idle = known (some false);
}

abbrev pub snapshot_with : ℕ → List LockWaiter → LiveSnapshot
snapshot_with n waiters = record {
  snapshot_format = 5;
  captured_at = codes "1970-01-01T00:00:00+00:00";
  target = record { host = none; port = none; dbname = some (codes "app"); user = none };
  limits = record {
    connect_timeout_s = 10;
    statement_timeout_ms = 5000;
    lock_timeout_ms = 1000;
    long_transaction_threshold_ms = 60_000;
    max_listed_transactions = 20;
  };
  role = record {
    role = codes "reader";
    transaction_read_only = true;
    superuser = false;
    can_read_all_stats = false;
    warnings = [];
  };
  server = server;
  relations = users_facts n ∷ [];
  functions = [];
  types = [];
  type_changes = [];
  concurrency = record {
    lock_waiters = known (some waiters);
    long_transactions = known (some []);
    current_connections = known (some 3);
    max_connections = known (some 100);
  };
  replication = record {
    has_replicas = known (some false);
    replicas = missing not_read;
    synchronous = known (some false);
    synchronous_standby_names = known (some []);
    synchronous_commit = known (some (codes "on"));
  };
  calibration = unavailable_calibration (codes "not gathered");
}

abbrev pub evaluate : Text → Decided → Volatility
evaluate expression known_functions = Volatility.volatile

abbrev pub context : Option LiveSnapshot → FileState → Context
context snapshot file_state = record {
  catalog = catalog;
  pg_version = 16;
  snapshot = snapshot;
  file_state = file_state;
  in_explicit_txn = false;
  evaluate = evaluate;
}

abbrev pub users_lock : RelationLock
users_lock = record {
  role = target;
  name = some users;
  lock_mode = access_exclusive;
  blocks_reads = true;
  blocks_writes = true;
  certain = true;
}

abbrev pub resolved_of : CatalogEntry → Bool → ResolvedLock
resolved_of entry conditional = record {
  entry = entry;
  relations = users_lock ∷ [];
  of_statement = cluster_users;
  of_action = none;
  in_do_block = false;
  conditional = conditional;
}

abbrev pub script : MigrationScript
script = record {
  statements = cluster_users ∷ [];
  transaction_groups =
      record {
        explicit = true;
        statement_indices = 0 ∷ [];
        opened_by = none;
        closed_by = none;
        rolled_back = false;
      }
      ∷ [];
  baseline_shaped = false;
}

-- Two statements of a file are UNSAFE, one is SAFE.
abbrev pub outcome_of : OutcomeStatus → Option FileVerdict → FileOutcome
outcome_of status verdict = record {
  path = codes "db/V1__x.sql";
  framework = Framework.flyway;
  source_kind = SourceKind.sql;
  status = status;
  verdict = verdict;
  counts = (codes "unsafe", 2) ∷ (codes "safe", 1) ∷ [];
  report_dir = none;
  detail = none;
}
