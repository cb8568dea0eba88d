-- ===== src/Live/Canonical/Plain.antt =====
-- `dataclasses.asdict` of the facts of live/model.py: plain values.
use blastoise.Base.{ℕ, pos, Option, none, some, true, false, List, [], ◌∷◌, String, codes}
use blastoise.Live.Facts.{
  Fact, known, missing, Stamp, instant, unparsable, ConnectionTarget, CaptureLimits, RoleFacts,
  ServerFacts, IndexFacts, ColumnFacts, ConstraintFacts, FunctionFacts, TypeFacts, TypeChangeFacts,
  RelationFacts,
}
use blastoise.Live.Canonical.Values.{
  Value, none_value, flag, integer, text, dict, sequence, Entries, no_entries, entry, Values,
  no_values, value, text_key,
}

abbrev pub natural : ℕ → Value
natural n = integer (pos n)

abbrev pub fields_entries : List (String × Value) → Entries
fields_entries [] = no_entries
fields_entries ((k, v) ∷ rest) = entry (text_key (codes k)) v (fields_entries rest)

unfoldable pub fields : List (String × Value) → Value
fields fs = dict (fields_entries fs)

abbrev pub stamp_value : Stamp → Value
stamp_value (instant t n) = text t
stamp_value (unparsable t) = text t

module _ {A : Type 0} (f : A → Value) where
  abbrev pub option_value : Option A → Value
  option_value none = none_value
  option_value (some a) = f a

  abbrev pub each_value : List A → Values
  each_value [] = no_values
  each_value (a ∷ xs) = value (f a) (each_value xs)

  abbrev pub list_value : List A → Value
  list_value xs = sequence (each_value xs)

  -- A fact with the field `reason`, which only an absence has.
  abbrev pub fact_value : Fact A → Value
  fact_value (known v) =
      fields (("available", flag true) ∷ ("value", option_value v) ∷ ("reason", none_value) ∷ [])
  fact_value (missing reason) =
      fields (("available", flag false) ∷ ("value", none_value) ∷ ("reason", text reason) ∷ [])

unfoldable pub connection_target_value : ConnectionTarget → Value
connection_target_value r = fields (
    ("host", option_value text r.host)
    ∷ ("port", option_value text r.port)
    ∷ ("dbname", option_value text r.dbname)
    ∷ ("user", option_value text r.user)
    ∷ [])

unfoldable pub capture_limits_value : CaptureLimits → Value
capture_limits_value r = fields (
    ("connect_timeout_s", natural r.connect_timeout_s)
    ∷ ("statement_timeout_ms", natural r.statement_timeout_ms)
    ∷ ("lock_timeout_ms", natural r.lock_timeout_ms)
    ∷ ("long_transaction_threshold_ms", natural r.long_transaction_threshold_ms)
    ∷ ("max_listed_transactions", natural r.max_listed_transactions)
    ∷ [])

unfoldable pub role_facts_value : RoleFacts → Value
role_facts_value r = fields (
    ("role", text r.role)
    ∷ ("transaction_read_only", flag r.transaction_read_only)
    ∷ ("superuser", flag r.superuser)
    ∷ ("can_read_all_stats", flag r.can_read_all_stats)
    ∷ ("warnings", list_value text r.warnings)
    ∷ [])

unfoldable pub server_facts_value : ServerFacts → Value
server_facts_value r = fields (
    ("server_version_num", fact_value natural r.server_version_num)
    ∷ ("server_version", fact_value text r.server_version)
    ∷ ("pg_major", fact_value natural r.pg_major)
    ∷ ("in_recovery", fact_value flag r.in_recovery)
    ∷ ("server_now", fact_value stamp_value r.server_now)
    ∷ ("lock_timeout_ms", fact_value natural r.lock_timeout_ms)
    ∷ ("statement_timeout_ms", fact_value natural r.statement_timeout_ms)
    ∷ ("timezone", fact_value text r.timezone)
    ∷ [])

unfoldable pub index_facts_value : IndexFacts → Value
index_facts_value r = fields (
    ("name", text r.name)
    ∷ ("valid", flag r.valid)
    ∷ ("size_bytes", fact_value natural r.size_bytes)
    ∷ ("method", text r.method)
    ∷ ("partial", flag r.partial)
    ∷ ("has_expressions", flag r.has_expressions)
    ∷ ("default_opclasses", flag r.default_opclasses)
    ∷ ("depends_on_columns", list_value text r.depends_on_columns)
    ∷ [])

unfoldable pub column_facts_value : ColumnFacts → Value
column_facts_value r = fields (
    ("name", text r.name)
    ∷ ("attnum", natural r.attnum)
    ∷ ("data_type", text r.data_type)
    ∷ ("type_oid", natural r.type_oid)
    ∷ ("typmod", integer r.typmod)
    ∷ ("not_null", flag r.not_null)
    ∷ ("has_default", flag r.has_default)
    ∷ ("default_expression", option_value text r.default_expression)
    ∷ ("identity", text r.identity)
    ∷ ("generated", text r.generated)
    ∷ ("is_domain", flag r.is_domain)
    ∷ ("domain_base_type", option_value text r.domain_base_type)
    ∷ ("domain_not_null", flag r.domain_not_null)
    ∷ ("domain_constraint_count", natural r.domain_constraint_count)
    ∷ [])

unfoldable pub constraint_facts_value : ConstraintFacts → Value
constraint_facts_value r = fields (
    ("name", text r.name)
    ∷ ("contype", text r.contype)
    ∷ ("validated", flag r.validated)
    ∷ ("columns", list_value text r.columns)
    ∷ ("definition", text r.definition)
    ∷ ("check_expression", option_value text r.check_expression)
    ∷ ("referenced_table", option_value text r.referenced_table)
    ∷ [])

unfoldable pub function_facts_value : FunctionFacts → Value
function_facts_value r = fields (
    ("requested", text r.requested)
    ∷ ("exists", fact_value flag r.exists)
    ∷ ("overloads", fact_value natural r.overloads)
    ∷ ("volatility", fact_value text r.volatility)
    ∷ ("prokind", fact_value text r.prokind)
    ∷ [])

unfoldable pub type_facts_value : TypeFacts → Value
type_facts_value r = fields (
    ("requested", text r.requested)
    ∷ ("exists", fact_value flag r.exists)
    ∷ ("formatted", fact_value text r.formatted)
    ∷ ("typtype", fact_value text r.typtype)
    ∷ ("is_domain", fact_value flag r.is_domain)
    ∷ ("domain_base_type", fact_value text r.domain_base_type)
    ∷ ("domain_not_null", fact_value flag r.domain_not_null)
    ∷ ("domain_constraint_count", fact_value natural r.domain_constraint_count)
    ∷ [])

unfoldable pub type_change_facts_value : TypeChangeFacts → Value
type_change_facts_value r = fields (
    ("relation", text r.relation)
    ∷ ("column", text r.column)
    ∷ ("new_type_requested", text r.new_type_requested)
    ∷ ("current_type", fact_value text r.current_type)
    ∷ ("current_typmod", fact_value integer r.current_typmod)
    ∷ ("current_base_type", fact_value text r.current_base_type)
    ∷ ("current_is_domain", fact_value flag r.current_is_domain)
    ∷ ("current_domain_not_null", fact_value flag r.current_domain_not_null)
    ∷ ("current_domain_constraint_count", fact_value natural r.current_domain_constraint_count)
    ∷ ("new_type", fact_value text r.new_type)
    ∷ ("new_base_type", fact_value text r.new_base_type)
    ∷ ("new_is_domain", fact_value flag r.new_is_domain)
    ∷ ("new_domain_not_null", fact_value flag r.new_domain_not_null)
    ∷ ("new_domain_constraint_count", fact_value natural r.new_domain_constraint_count)
    ∷ ("new_domain_has_typmod", fact_value flag r.new_domain_has_typmod)
    ∷ ("same_type", fact_value flag r.same_type)
    ∷ ("bases_same", fact_value flag r.bases_same)
    ∷ ("cast_method", fact_value text r.cast_method)
    ∷ ("cast_context", fact_value text r.cast_context)
    ∷ [])

unfoldable pub relation_facts_value : RelationFacts → Value
unfolding column_facts_value constraint_facts_value index_facts_value
relation_facts_value r = fields (
    ("requested", text r.requested)
    ∷ ("exists", fact_value flag r.exists)
    ∷ ("schema", fact_value text r.schema)
    ∷ ("name", fact_value text r.name)
    ∷ ("relkind", fact_value text r.relkind)
    ∷ ("is_partitioned", fact_value flag r.is_partitioned)
    ∷ ("reltuples", fact_value integer r.reltuples)
    ∷ ("relpages", fact_value natural r.relpages)
    ∷ ("relation_size_bytes", fact_value natural r.relation_size_bytes)
    ∷ ("total_relation_size_bytes", fact_value natural r.total_relation_size_bytes)
    ∷ ("last_analyze", fact_value stamp_value r.last_analyze)
    ∷ ("last_autoanalyze", fact_value stamp_value r.last_autoanalyze)
    ∷ ("n_mod_since_analyze", fact_value natural r.n_mod_since_analyze)
    ∷ ("partition_count", fact_value natural r.partition_count)
    ∷ ("partitions_total_size_bytes", fact_value natural r.partitions_total_size_bytes)
    ∷ ("index_count", fact_value natural r.index_count)
    ∷ ("indexes", fact_value (list_value index_facts_value) r.indexes)
    ∷ ("invalid_indexes", fact_value (list_value text) r.invalid_indexes)
    ∷ ("columns", fact_value (list_value column_facts_value) r.columns)
    ∷ ("dropped_column_count", fact_value natural r.dropped_column_count)
    ∷ ("constraints", fact_value (list_value constraint_facts_value) r.constraints)
    ∷ [])
