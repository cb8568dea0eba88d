-- ===== src/Classify/Drops.antt =====
-- classify.py: DROP, and the names of objects that are no relations.
use blastoise.Base.{
  Bool, true, false, Option, some, none, List, [], ◌∷◌, ◌++◌, Text, codes, if◌then◌else◌,
}
use blastoise.Ir.{StatementKind, SourceSpan, ParsedStatement, parsed, QualifiedName, drop_details}
use blastoise.Sql.{
  strings, ObjectType, object_table, object_index, object_view, object_matview, object_type,
  object_sequence, object_domain, object_extension, object_trigger, object_function, object_routine,
  object_procedure, object_aggregate, object_schema, object_policy, ObjectReference,
  named_by_string, named_by_list, named_by_type, object_with_args, other_reference, DropStmt,
}
use blastoise.Classify.Names.{qname_from_strings}

-- `_DROP_KINDS`.
unfoldable pub drop_kind : ObjectType → Option StatementKind
drop_kind object_table = some StatementKind.drop_table
drop_kind object_view = some StatementKind.drop_view
drop_kind object_matview = some StatementKind.drop_matview
drop_kind object_sequence = some StatementKind.drop_sequence
drop_kind object_type = some StatementKind.drop_type
drop_kind object_domain = some StatementKind.drop_domain
drop_kind object_extension = some StatementKind.drop_extension
drop_kind object_trigger = some StatementKind.drop_trigger
drop_kind object_function = some StatementKind.drop_function
drop_kind object_routine = some StatementKind.drop_function
drop_kind object_procedure = some StatementKind.drop_procedure
drop_kind object_aggregate = some StatementKind.drop_aggregate
drop_kind object_schema = some StatementKind.drop_schema
drop_kind object_policy = some StatementKind.drop_policy
drop_kind _ = none

-- Membership in `_DROP_RELATION_KINDS`.
unfoldable pub drops_relation : StatementKind → Bool
drops_relation StatementKind.drop_table = true
drops_relation StatementKind.drop_index = true
drops_relation StatementKind.drop_index_concurrently = true
drops_relation StatementKind.drop_view = true
drops_relation StatementKind.drop_matview = true
drops_relation StatementKind.drop_sequence = true
drops_relation _ = false

-- `QualifiedName(name=entry.sval)` where it is there and not empty.
abbrev pub named_by : Option Text → Option QualifiedName
named_by none = none
named_by (some []) = none
named_by (some (c ∷ cs)) = some (record { name = c ∷ cs; schema = none })

-- `_object_qname`.
unfoldable pub object_qname : ObjectReference → Option QualifiedName
object_qname (named_by_type t) = qname_from_strings (strings t.names)
object_qname (named_by_list names) = qname_from_strings (strings names)
object_qname (named_by_string sval) = named_by sval
object_qname (object_with_args objname) = qname_from_strings (strings objname)
object_qname other_reference = none

dots : List Text → Text
dots [] = []
dots (t ∷ []) = t
dots (t ∷ u ∷ ts) = t ++ (codes "." ++ dots (u ∷ ts))

-- `".".join(parts) if parts else None`.
unfoldable pub dotted_name : List Text → Option Text
unfolding dots
dotted_name [] = none
dotted_name (t ∷ ts) = some (dots (t ∷ ts))

-- `_drop_object_entry`.
unfoldable pub drop_object_entry : ObjectReference → Option Text × Option QualifiedName
drop_object_entry (named_by_string sval) = (sval, named_by sval)
drop_object_entry (named_by_list names) =
    (dotted_name (strings names), qname_from_strings (strings names))
drop_object_entry (named_by_type t) =
    (dotted_name (strings t.names), qname_from_strings (strings t.names))
drop_object_entry (object_with_args objname) = (dotted_name (strings objname), none)
drop_object_entry other_reference = (none, none)

abbrev or_other : Option StatementKind → StatementKind
or_other none = StatementKind.other
or_other (some kind) = kind

unfoldable pub drop_statement_kind : Option ObjectType → Bool → StatementKind
drop_statement_kind (some object_index) concurrent =
    if concurrent then StatementKind.drop_index_concurrently else StatementKind.drop_index
drop_statement_kind (some remove_type) concurrent = or_other (drop_kind remove_type)
drop_statement_kind none concurrent = StatementKind.other

abbrev append_some {ℓ} : {A : Type ℓ} → Option A → List A → List A
append_some none xs = xs
append_some (some x) xs = x ∷ xs

unfoldable pub drop_names : List ObjectReference → List Text
drop_names [] = []
drop_names (e ∷ es) = append_some (drop_object_entry e).0 (drop_names es)

unfoldable pub drop_targets : StatementKind → List ObjectReference → List QualifiedName
drop_targets kind [] = []
drop_targets kind (e ∷ es) =
    let rest = drop_targets kind es in
    if drops_relation kind then append_some (drop_object_entry e).1 rest else rest

-- `_classify_drop`.
unfoldable pub classify_drop : DropStmt → Text → SourceSpan → ParsedStatement
unfolding drop_statement_kind drop_names drop_targets
classify_drop d sql span =
    let kind = drop_statement_kind d.remove_type d.concurrent in
    parsed
      (record {
        kind = kind;
        sql = sql;
        span = span;
        node_tag = codes "DropStmt";
        targets = drop_targets kind d.objects;
        alter_actions = [];
        only = false;
      })
      (drop_details (record {
        object_names = drop_names d.objects;
        cascade = d.cascade;
        missing_ok = d.missing_ok;
      }))
