-- ===== src/Classify/Tables.antt =====
-- classify.py: CREATE TABLE and its kin.
use blastoise.Base.{
  Bool, true, false, ◌&&◌, not, Option, some, none, List, [], ◌∷◌, ◌++◌, any, Text, codes,
  if◌then◌else◌, ◌==◌, list_eq, nat_eq, option_beq,
}
use blastoise.Ir.{
  StatementKind, SourceSpan, ParsedStatement, parsed, QualifiedName, create_table_details,
}
use blastoise.Sql.{
  RangeVar, Constraint, ConstrType, constr_foreign, TableElement, table_column, table_constraint,
  other_element, CreateStmt, of_class,
}
use blastoise.Classify.Names.{qname, targets}

-- The letter of the relation's persistence; an empty one counts as `p`.
unfoldable pub persistence : Option RangeVar → Text
persistence none = codes "permanent"
persistence (some r) = elim r.relpersistence [
  | none ↦ codes "permanent"
  | some letter ↦
      if letter == codes "u"
      then codes "unlogged"
      else if letter == codes "t"
      then codes "temporary"
      else codes "permanent"
]

abbrev same_name : QualifiedName → QualifiedName → Bool
same_name p q = p.name == q.name && option_beq p.schema q.schema

-- `if pk is not None and pk not in referenced: referenced.append(pk)`.
abbrev add_table : Option QualifiedName → List QualifiedName → List QualifiedName
add_table none referenced = referenced
add_table (some pk) referenced =
    if any (same_name pk) referenced then referenced else referenced ++ pk ∷ []

abbrev foreign_table : Option ConstrType → Constraint → Option QualifiedName
foreign_table (some constr_foreign) con = qname con.pktable
foreign_table _ con = none

unfoldable pub add_references : List Constraint → List QualifiedName → List QualifiedName
add_references [] referenced = referenced
add_references (con ∷ cons) referenced =
    add_references cons (add_table (foreign_table con.contype con) referenced)

-- The loop over the elements of the table.
unfoldable pub referenced_tables : List TableElement → List QualifiedName → List QualifiedName
unfolding add_references
referenced_tables [] referenced = referenced
referenced_tables (table_column d ∷ es) referenced =
    referenced_tables es (add_references (of_class d.constraints) referenced)
referenced_tables (table_constraint con ∷ es) referenced =
    referenced_tables es (add_references (con ∷ []) referenced)
referenced_tables (other_element ∷ es) referenced = referenced_tables es referenced

-- The first parent that is a relation.
unfoldable pub parent_table : List (Option RangeVar) → Option QualifiedName
parent_table [] = none
parent_table (none ∷ rs) = parent_table rs
parent_table (some r ∷ rs) = qname (some r)

abbrev is_nonempty {ℓ} : {A : Type ℓ} → List A → Bool
is_nonempty [] = false
is_nonempty (x ∷ xs) = true

unfoldable pub classify_create : CreateStmt → Text → SourceSpan → ParsedStatement
unfolding persistence referenced_tables parent_table
classify_create c sql span =
    parsed
      (record {
        kind =
            if c.has_partbound
            then StatementKind.create_table_partition_of
            else StatementKind.create_table;
        sql = sql;
        span = span;
        node_tag = codes "CreateStmt";
        targets = targets (c.relation ∷ []);
        alter_actions = [];
        only = false;
      })
      (create_table_details (record {
        persistence = persistence c.relation;
        if_not_exists = c.if_not_exists;
        partition_of = if c.has_partbound then parent_table c.inh_relations else none;
        inherits = not c.has_partbound && is_nonempty c.inh_relations;
        referenced_tables = referenced_tables c.table_elts [];
      }))

unfoldable pub classify_foreign_table : Option CreateStmt → Text → SourceSpan → ParsedStatement
classify_foreign_table base sql span =
    parsed
      (record {
        kind = StatementKind.create_foreign_table;
        sql = sql;
        span = span;
        node_tag = codes "CreateForeignTableStmt";
        targets = elim base [ none ↦ [] | some c ↦ targets (c.relation ∷ []) ];
        alter_actions = [];
        only = false;
      })
      (create_table_details (record {
        persistence = codes "permanent";
        if_not_exists = elim base [ none ↦ false | some c ↦ c.if_not_exists ];
        partition_of = none;
        inherits = false;
        referenced_tables = [];
      }))
