-- ===== src/Live/Canonical/Complete.antt =====
-- Every snapshot has a canonical text.
use blastoise.Base.{ℕ, ℤ, Bool, true, false, Option, none, some, List, [], ◌∷◌, All, Text, String}
use blastoise.Live.Facts.{
  Fact, known, missing, Stamp, instant, unparsable, ConnectionTarget, CaptureLimits, RoleFacts,
  ServerFacts, IndexFacts, ColumnFacts, ConstraintFacts, FunctionFacts, TypeFacts, TypeChangeFacts,
  RelationFacts, LockWaiter, LongTransaction, ConcurrencyFacts, ReplicaFacts, ReplicationFacts,
  CalibrationFacts, LiveSnapshot,
}
use blastoise.Live.Canonical.Values.{Value, none_value, flag, integer, text}
use blastoise.Live.Canonical.Normalize.{normalize, normalize_entries, normalize_values}
use blastoise.Live.Canonical.Order.{to_canonical_json}
use blastoise.Live.Canonical.Accepted.{IsAccepted, both_steps, one_step}
use blastoise.Live.Canonical.Plain.{
  natural, fields, fields_entries, stamp_value, option_value, each_value, list_value, fact_value,
  connection_target_value, capture_limits_value, role_facts_value, server_facts_value,
  index_facts_value, column_facts_value, constraint_facts_value, function_facts_value,
  type_facts_value, type_change_facts_value, relation_facts_value,
}
use blastoise.Live.Canonical.Snapshot.{
  lock_waiter_value, long_transaction_value, concurrency_facts_value, replica_facts_value,
  replication_facts_value, calibration_facts_value, live_snapshot_value, snapshot_json,
}

record Serializes (v : Value) : Type 0 where
  accepted : IsAccepted (normalize v)

text-Serializes : (t : Text) → Serializes (text t)
unfolding normalize
text-Serializes t = record { accepted = tt }

flag-Serializes : (b : Bool) → Serializes (flag b)
unfolding normalize
flag-Serializes b = record { accepted = tt }

integer-Serializes : (n : ℤ) → Serializes (integer n)
unfolding normalize
integer-Serializes n = record { accepted = tt }

natural-Serializes : (n : ℕ) → Serializes (natural n)
unfolding normalize
natural-Serializes n = record { accepted = tt }

none_value-Serializes : Serializes none_value
unfolding normalize
none_value-Serializes = record { accepted = tt }

stamp_value-Serializes : (s : Stamp) → Serializes (stamp_value s)
stamp_value-Serializes (instant t n) = text-Serializes t
stamp_value-Serializes (unparsable t) = text-Serializes t

fields_entries-IsAccepted :
    (fs : List (String × Value))
    → All (λ f. Serializes f.1) fs
    → IsAccepted (normalize_entries (fields_entries fs))
unfolding normalize_entries
fields_entries-IsAccepted [] h = tt
fields_entries-IsAccepted ((k, v) ∷ fs) h =
    both_steps (normalize v) (normalize_entries (fields_entries fs)) _ h.0.accepted
      (fields_entries-IsAccepted fs h.1)

fields-Serializes :
    (fs : List (String × Value)) → All (λ f. Serializes f.1) fs → Serializes (fields fs)
unfolding normalize fields
fields-Serializes fs h = record {
  accepted = one_step (normalize_entries (fields_entries fs)) _ (fields_entries-IsAccepted fs h);
}

module _ {A : Type 0} (f : A → Value) (each : (a : A) → Serializes (f a)) where
  option_value-Serializes : (o : Option A) → Serializes (option_value f o)
  option_value-Serializes none = none_value-Serializes
  option_value-Serializes (some a) = each a

  each_value-IsAccepted : (xs : List A) → IsAccepted (normalize_values (each_value f xs))
  unfolding normalize_values
  each_value-IsAccepted [] = tt
  each_value-IsAccepted (a ∷ xs) =
      both_steps (normalize (f a)) (normalize_values (each_value f xs)) _ (each a).accepted
        (each_value-IsAccepted xs)

  list_value-Serializes : (xs : List A) → Serializes (list_value f xs)
  unfolding normalize
  list_value-Serializes xs = record {
    accepted = one_step (normalize_values (each_value f xs)) _ (each_value-IsAccepted xs);
  }

  fact_value-Serializes : (x : Fact A) → Serializes (fact_value f x)
  fact_value-Serializes (known v) =
      fields-Serializes _
        (flag-Serializes true, (option_value-Serializes v, (none_value-Serializes, tt)))
  fact_value-Serializes (missing reason) =
      fields-Serializes _
        (flag-Serializes false, (none_value-Serializes, (text-Serializes reason, tt)))

ruleset values = (
  text-Serializes, flag-Serializes, integer-Serializes, natural-Serializes, stamp_value-Serializes,
  option_value-Serializes, list_value-Serializes, fact_value-Serializes,
)

connection_target_value-Serializes : (r : ConnectionTarget) → Serializes (connection_target_value r)
unfolding connection_target_value
connection_target_value-Serializes r = fields-Serializes _ (search (values))

capture_limits_value-Serializes : (r : CaptureLimits) → Serializes (capture_limits_value r)
unfolding capture_limits_value
capture_limits_value-Serializes r = fields-Serializes _ (search (values))

role_facts_value-Serializes : (r : RoleFacts) → Serializes (role_facts_value r)
unfolding role_facts_value
role_facts_value-Serializes r = fields-Serializes _ (search (values))

server_facts_value-Serializes : (r : ServerFacts) → Serializes (server_facts_value r)
unfolding server_facts_value
server_facts_value-Serializes r = fields-Serializes _ (search (values))

index_facts_value-Serializes : (r : IndexFacts) → Serializes (index_facts_value r)
unfolding index_facts_value
index_facts_value-Serializes r = fields-Serializes _ (search (values))

column_facts_value-Serializes : (r : ColumnFacts) → Serializes (column_facts_value r)
unfolding column_facts_value
column_facts_value-Serializes r = fields-Serializes _ (search (values))

constraint_facts_value-Serializes : (r : ConstraintFacts) → Serializes (constraint_facts_value r)
unfolding constraint_facts_value
constraint_facts_value-Serializes r = fields-Serializes _ (search (values))

function_facts_value-Serializes : (r : FunctionFacts) → Serializes (function_facts_value r)
unfolding function_facts_value
function_facts_value-Serializes r = fields-Serializes _ (search (values))

type_facts_value-Serializes : (r : TypeFacts) → Serializes (type_facts_value r)
unfolding type_facts_value
type_facts_value-Serializes r = fields-Serializes _ (search (values))

type_change_facts_value-Serializes : (r : TypeChangeFacts) → Serializes (type_change_facts_value r)
unfolding type_change_facts_value
type_change_facts_value-Serializes r = fields-Serializes _ (search (values))

relation_facts_value-Serializes : (r : RelationFacts) → Serializes (relation_facts_value r)
unfolding relation_facts_value
relation_facts_value-Serializes r = fields-Serializes _ (
    search (
      values, column_facts_value-Serializes, constraint_facts_value-Serializes,
      index_facts_value-Serializes,
    ))

lock_waiter_value-Serializes : (r : LockWaiter) → Serializes (lock_waiter_value r)
unfolding lock_waiter_value
lock_waiter_value-Serializes r = fields-Serializes _ (search (values))

long_transaction_value-Serializes : (r : LongTransaction) → Serializes (long_transaction_value r)
unfolding long_transaction_value
long_transaction_value-Serializes r = fields-Serializes _ (search (values))

concurrency_facts_value-Serializes : (r : ConcurrencyFacts) → Serializes (concurrency_facts_value r)
unfolding concurrency_facts_value
concurrency_facts_value-Serializes r =
    fields-Serializes _
      (search (values, lock_waiter_value-Serializes, long_transaction_value-Serializes))

replica_facts_value-Serializes : (r : ReplicaFacts) → Serializes (replica_facts_value r)
unfolding replica_facts_value
replica_facts_value-Serializes r = fields-Serializes _ (search (values))

replication_facts_value-Serializes : (r : ReplicationFacts) → Serializes (replication_facts_value r)
unfolding replication_facts_value
replication_facts_value-Serializes r =
    fields-Serializes _ (search (values, replica_facts_value-Serializes))

calibration_facts_value-Serializes : (r : CalibrationFacts) → Serializes (calibration_facts_value r)
unfolding calibration_facts_value
calibration_facts_value-Serializes r = fields-Serializes _ (search (values))

live_snapshot_value-Serializes : (s : LiveSnapshot) → Serializes (live_snapshot_value s)
unfolding live_snapshot_value
live_snapshot_value-Serializes s = fields-Serializes _ (
    search (
      values, calibration_facts_value-Serializes, capture_limits_value-Serializes,
      concurrency_facts_value-Serializes, connection_target_value-Serializes,
      function_facts_value-Serializes, relation_facts_value-Serializes,
      replication_facts_value-Serializes, role_facts_value-Serializes,
      server_facts_value-Serializes, type_change_facts_value-Serializes,
      type_facts_value-Serializes,
    ))

-- The serialisation of a snapshot never raises: every snapshot has a canonical text.
pub snapshot_json-IsAccepted : (s : LiveSnapshot) → IsAccepted (snapshot_json s)
unfolding snapshot_json to_canonical_json
snapshot_json-IsAccepted s =
    one_step (normalize (live_snapshot_value s)) _ (live_snapshot_value-Serializes s).accepted
