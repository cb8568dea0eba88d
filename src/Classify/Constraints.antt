-- ===== src/Classify/Constraints.antt =====
-- classify.py: ADD CONSTRAINT and the subcommands about partitions.
use blastoise.Base.{
  Bool, true, false, Option, some, none, List, [], ◌∷◌, Text, codes, if◌then◌else◌,
}
use blastoise.Ir.{AlterTableAction, AlterTableActionKind, QualifiedName}
use blastoise.Sql.{
  strings, Constraint, ConstrType, constr_name, constr_notnull, constr_check, constr_primary,
  constr_unique, constr_exclusion, constr_foreign, Def, constraint, partition_cmd,
}
use blastoise.Classify.Names.{qname}
use blastoise.Classify.Columns.{bare}

-- `if using_index`: a name that is there and not empty.
abbrev pub is_named : Option Text → Bool
is_named none = false
is_named (some []) = false
is_named (some (c ∷ cs)) = true

unfoldable pub constraint_kind : Option ConstrType → Bool → Bool → AlterTableActionKind
constraint_kind (some constr_primary) using_index not_valid =
    if using_index
    then AlterTableActionKind.add_primary_key_using_index
    else AlterTableActionKind.add_primary_key
constraint_kind (some constr_unique) using_index not_valid =
    if using_index
    then AlterTableActionKind.add_unique_using_index
    else AlterTableActionKind.add_unique
constraint_kind (some constr_foreign) using_index not_valid =
    if not_valid
    then AlterTableActionKind.add_foreign_key_not_valid
    else AlterTableActionKind.add_foreign_key
constraint_kind (some constr_check) using_index not_valid =
    if not_valid then AlterTableActionKind.add_check_not_valid else AlterTableActionKind.add_check
constraint_kind (some constr_notnull) using_index not_valid =
    if not_valid
    then AlterTableActionKind.add_not_null_constraint_not_valid
    else AlterTableActionKind.add_not_null_constraint
constraint_kind (some constr_exclusion) using_index not_valid = AlterTableActionKind.add_exclusion
constraint_kind _ using_index not_valid = AlterTableActionKind.add_constraint_other

-- The table that a foreign key names.
unfoldable pub constraint_table : Option ConstrType → Constraint → Option QualifiedName
constraint_table (some constr_foreign) con = qname con.pktable
constraint_table _ con = none

abbrev first_text : List Text → Option Text
first_text [] = none
first_text (t ∷ ts) = some t

-- The column that a NOT NULL constraint names.
unfoldable pub constraint_column : Option ConstrType → Constraint → Option Text
constraint_column (some constr_notnull) con = first_text (strings con.keys)
constraint_column _ con = none

abbrev type_name_of : Option ConstrType → Text
type_name_of none = codes "unknown"
type_name_of (some contype) = constr_name contype

-- The name of the type, where the kind does not tell it.
unfoldable pub constraint_detail : AlterTableActionKind → Option ConstrType → Option Text
constraint_detail AlterTableActionKind.add_constraint_other contype = some (type_name_of contype)
constraint_detail _ contype = none

unfoldable pub add_constraint_action : Def → AlterTableAction
unfolding constraint_kind constraint_table constraint_column constraint_detail
add_constraint_action (constraint con) =
    let kind = constraint_kind con.contype (is_named con.indexname) con.skip_validation in
    record (bare kind) {
      column = constraint_column con.contype con;
      constraint_name = con.conname;
      not_valid = con.skip_validation;
      using_index = con.indexname;
      referenced_table = constraint_table con.contype con;
      detail = constraint_detail kind con.contype;
    }
add_constraint_action _ = record (bare AlterTableActionKind.other) {
  detail = some (codes "AT_AddConstraint");
}

-- `_partition_action` with a kind.
unfoldable pub partition_action : AlterTableActionKind → Def → AlterTableAction
partition_action kind (partition_cmd p) = record (bare kind) { partition = qname p.name }
partition_action kind _ = bare kind

-- `_partition_action` without one.
unfoldable pub detach_kind : Def → AlterTableActionKind
detach_kind (partition_cmd p) =
    if p.concurrent
    then AlterTableActionKind.detach_partition_concurrently
    else AlterTableActionKind.detach_partition
detach_kind _ = AlterTableActionKind.detach_partition
