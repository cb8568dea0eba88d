-- ===== src/Live/Canonical/Snapshot.antt =====
-- `dataclasses.asdict` of the activity of a server and of a snapshot of live/model.py.
use blastoise.Base.{[], ◌∷◌, Text, Result}
use blastoise.Live.Facts.{
  LockWaiter, LongTransaction, ConcurrencyFacts, ReplicaFacts, ReplicationFacts, CalibrationFacts,
  LiveSnapshot,
}
use blastoise.Live.Canonical.Values.{Value, flag, text}
use blastoise.Live.Canonical.Plain.{
  natural, fields, list_value, fact_value, connection_target_value, capture_limits_value,
  role_facts_value, server_facts_value, function_facts_value, type_facts_value,
  type_change_facts_value, relation_facts_value,
}
use blastoise.Live.Canonical.Order.{to_canonical_json}

unfoldable pub lock_waiter_value : LockWaiter → Value
lock_waiter_value r = fields (
    ("relation", text r.relation)
    ∷ ("blocked_pid", natural r.blocked_pid)
    ∷ ("blocked_mode", text r.blocked_mode)
    ∷ ("waiting_for_ms", fact_value natural r.waiting_for_ms)
    ∷ ("blocking_pids", list_value natural r.blocking_pids)
    ∷ ("blocking_modes", list_value text r.blocking_modes)
    ∷ ("blockers_all_idle", fact_value flag r.blockers_all_idle)
    ∷ [])

unfoldable pub long_transaction_value : LongTransaction → Value
long_transaction_value r = fields (
    ("pid", natural r.pid)
    ∷ ("state", text r.state)
    ∷ ("idle_in_transaction", flag r.idle_in_transaction)
    ∷ ("xact_age_ms", natural r.xact_age_ms)
    ∷ ("query_age_ms", fact_value natural r.query_age_ms)
    ∷ ("first_keyword", fact_value text r.first_keyword)
    ∷ ("waiting_on_lock", flag r.waiting_on_lock)
    ∷ [])

unfoldable pub concurrency_facts_value : ConcurrencyFacts → Value
unfolding lock_waiter_value long_transaction_value
concurrency_facts_value r = fields (
    ("lock_waiters", fact_value (list_value lock_waiter_value) r.lock_waiters)
    ∷ ("long_transactions", fact_value (list_value long_transaction_value) r.long_transactions)
    ∷ ("current_connections", fact_value natural r.current_connections)
    ∷ ("max_connections", fact_value natural r.max_connections)
    ∷ [])

unfoldable pub replica_facts_value : ReplicaFacts → Value
replica_facts_value r = fields (
    ("name", text r.name)
    ∷ ("client_addr", fact_value text r.client_addr)
    ∷ ("state", fact_value text r.state)
    ∷ ("sync_state", fact_value text r.sync_state)
    ∷ ("replay_lag_bytes", fact_value natural r.replay_lag_bytes)
    ∷ ("write_lag_ms", fact_value natural r.write_lag_ms)
    ∷ ("flush_lag_ms", fact_value natural r.flush_lag_ms)
    ∷ ("replay_lag_ms", fact_value natural r.replay_lag_ms)
    ∷ [])

unfoldable pub replication_facts_value : ReplicationFacts → Value
unfolding replica_facts_value
replication_facts_value r = fields (
    ("has_replicas", fact_value flag r.has_replicas)
    ∷ ("replicas", fact_value (list_value replica_facts_value) r.replicas)
    ∷ ("synchronous", fact_value flag r.synchronous)
    ∷ ("synchronous_standby_names", fact_value text r.synchronous_standby_names)
    ∷ ("synchronous_commit", fact_value text r.synchronous_commit)
    ∷ [])

unfoldable pub calibration_facts_value : CalibrationFacts → Value
calibration_facts_value r = fields (
    ("compute_ms", fact_value natural r.compute_ms)
    ∷ ("repeats", natural r.repeats)
    ∷ ("compute_rows", natural r.compute_rows)
    ∷ [])

unfoldable pub live_snapshot_value : LiveSnapshot → Value
unfolding calibration_facts_value capture_limits_value concurrency_facts_value
    connection_target_value function_facts_value relation_facts_value replication_facts_value
    role_facts_value server_facts_value type_change_facts_value type_facts_value
live_snapshot_value s = fields (
    ("snapshot_format", natural s.snapshot_format)
    ∷ ("captured_at", text s.captured_at)
    ∷ ("target", connection_target_value s.target)
    ∷ ("limits", capture_limits_value s.limits)
    ∷ ("role", role_facts_value s.role)
    ∷ ("server", server_facts_value s.server)
    ∷ ("relations", list_value relation_facts_value s.relations)
    ∷ ("functions", list_value function_facts_value s.functions)
    ∷ ("types", list_value type_facts_value s.types)
    ∷ ("type_changes", list_value type_change_facts_value s.type_changes)
    ∷ ("concurrency", concurrency_facts_value s.concurrency)
    ∷ ("replication", replication_facts_value s.replication)
    ∷ ("calibration", calibration_facts_value s.calibration)
    ∷ [])

-- `LiveSnapshot.to_canonical_json`.
unfoldable pub snapshot_json : LiveSnapshot → Result Text
unfolding to_canonical_json live_snapshot_value
snapshot_json s = to_canonical_json (live_snapshot_value s)
