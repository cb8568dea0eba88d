-- ===== src/Ir/Attributes.antt =====
-- catalog/resolve.py `ir_attrs`: the fields of a statement, its details and an action as a
-- dictionary that a catalog row's `when` predicate reads.
use blastoise.Base.{ℕ, Bool, true, false, String, Option, some, none, List, [], ◌∷◌, ◌++◌}
use blastoise.Base.{Text, codes, if◌then◌else◌, ◌==◌, nat_eq, list_eq}
use blastoise.Ir.Spelling.{statement_kind_value, action_kind_value}
use blastoise.Ir.Statements.{
  Details, no_details, create_table_details, create_table_as_details, index_details, drop_details,
  truncate_details, reindex_details, rename_details, set_details, lock_details, transaction_details,
  do_block_details, dml_details, insert_details, Head, ParsedStatement, parsed, AlterTableAction,
}

-- A Python value, as far as equality with a scalar of the catalog file reads it: a tuple or a
-- dataclass equals no such scalar.
pub data Value : Type 0 where
  null : Value
  flag : Bool → Value
  number : ℕ → Value
  text : Text → Value
  opaque : Value

abbrev or_null : Option Text → Value
or_null none = null
or_null (some t) = text t

abbrev pub Attrs : Type 0
Attrs = List (Text × Value)

abbrev attr : String → Value → Text × Value
attr key v = (codes key, v)

statement_attrs : Head → Attrs
statement_attrs h =
    attr "kind" (text (codes (statement_kind_value h.kind)))
    ∷ attr "sql" (text h.sql)
    ∷ attr "span" opaque
    ∷ attr "node_tag" (text h.node_tag)
    ∷ attr "targets" opaque
    ∷ attr "alter_actions" opaque
    ∷ attr "details" opaque
    ∷ attr "only" (flag h.only)
    ∷ []

details_attrs : Details → Attrs
details_attrs no_details = []
details_attrs (create_table_details d) =
    attr "persistence" (text d.persistence)
    ∷ attr "if_not_exists" (flag d.if_not_exists)
    ∷ attr "partition_of" (elim d.partition_of [ none ↦ null | some _ ↦ opaque ])
    ∷ attr "inherits" (flag d.inherits)
    ∷ attr "referenced_tables" opaque
    ∷ []
details_attrs (create_table_as_details no_data) = attr "no_data" (flag no_data) ∷ []
details_attrs (index_details d) =
    attr "index_name" (or_null d.index_name)
    ∷ attr "unique" (flag d.unique)
    ∷ attr "method" (text d.method)
    ∷ attr "partial" (flag d.partial)
    ∷ attr "has_expression" (flag d.has_expression)
    ∷ attr "if_not_exists" (flag d.if_not_exists)
    ∷ []
details_attrs (drop_details d) =
    attr "object_names" opaque
    ∷ attr "cascade" (flag d.cascade)
    ∷ attr "missing_ok" (flag d.missing_ok)
    ∷ []
details_attrs (truncate_details d) =
    attr "cascade" (flag d.cascade) ∷ attr "restart_identity" (flag d.restart_identity) ∷ []
details_attrs (reindex_details d) =
    attr "scope" (text d.scope) ∷ attr "object_name" (or_null d.object_name) ∷ []
details_attrs (rename_details d) =
    attr "old_name" (or_null d.old_name)
    ∷ attr "new_name" (or_null d.new_name)
    ∷ attr "object_type" (text d.object_type)
    ∷ []
details_attrs (set_details d) =
    attr "name" (or_null d.name) ∷ attr "is_local" (flag d.is_local) ∷ []
details_attrs (lock_details d) =
    attr "mode" (number d.mode)
    ∷ attr "mode_name" (text d.mode_name)
    ∷ attr "nowait" (flag d.nowait)
    ∷ []
details_attrs (transaction_details d) =
    attr "savepoint_name" (or_null d.savepoint_name) ∷ attr "chain" (flag d.chain) ∷ []
details_attrs (do_block_details d inner) =
    attr "language" (text d.language)
    ∷ attr "statements" opaque
    ∷ attr "dynamic_sql_count" (number d.dynamic_sql_count)
    ∷ attr "fully_parsed" (flag d.fully_parsed)
    ∷ attr "existence_guarded" (flag d.existence_guarded)
    ∷ []
details_attrs (dml_details d) =
    attr "has_where" (flag d.has_where) ∷ attr "batch_signals" opaque ∷ []
details_attrs (insert_details source) = attr "source" (text source) ∷ []

action_attrs : AlterTableAction → Attrs
action_attrs a =
    attr "kind" (text (codes (action_kind_value a.kind)))
    ∷ attr "column" (or_null a.column)
    ∷ attr "constraint_name" (or_null a.constraint_name)
    ∷ attr "column_type" (or_null a.column_type)
    ∷ attr "default" (elim a.default [ none ↦ null | some _ ↦ opaque ])
    ∷ attr "not_null" (flag a.not_null)
    ∷ attr "not_valid" (flag a.not_valid)
    ∷ attr "has_using_expression" (flag a.has_using_expression)
    ∷ attr "using_index" (or_null a.using_index)
    ∷ attr "inline_constraints" opaque
    ∷ attr "partition" (elim a.partition [ none ↦ null | some _ ↦ opaque ])
    ∷ attr "referenced_table" (elim a.referenced_table [ none ↦ null | some _ ↦ opaque ])
    ∷ attr "cascade" (flag a.cascade)
    ∷ attr "missing_ok" (flag a.missing_ok)
    ∷ attr "detail" (or_null a.detail)
    ∷ []

-- Later sources win, so they stand in front: `attribute` takes the first entry of a key.
unfoldable pub ir_attrs : ParsedStatement → Option AlterTableAction → Attrs
unfolding statement_attrs details_attrs action_attrs
ir_attrs (parsed h d) none = details_attrs d ++ statement_attrs h
ir_attrs (parsed h d) (some a) = action_attrs a ++ (details_attrs d ++ statement_attrs h)

-- `attrs.get(key, _MISSING)`.
unfoldable pub attribute : Text → Attrs → Option Value
attribute key [] = none
attribute key ((k, v) ∷ attrs) = if k == key then some v else attribute key attrs

-- Python's `==` on such values, where `True == 1`.
abbrev pub value_eq : Value → Value → Bool
value_eq null null = true
value_eq (flag a) (flag b) = if a then b else if b then false else true
value_eq (number a) (number b) = a == b
value_eq (flag a) (number b) = (if a then 1 else 0) == b
value_eq (number a) (flag b) = a == (if b then 1 else 0)
value_eq (text a) (text b) = a == b
value_eq _ _ = false
