-- ===== src/Ir/Statements.antt =====
-- The records of ir.py. A field that holds text for a reader alone, `sql` and `node_tag` of a
-- statement, is kept; source spans are the three numbers of `SourceSpan`.
use blastoise.Base.{ℕ, Bool, Option, some, none, List, [], ◌∷◌, ◌++◌, Text, codes, any}
use blastoise.Ir.Kinds.{StatementKind, AlterTableActionKind, Volatility}

pub record SourceSpan : Type 0 where
  pub start : ℕ
  pub end : ℕ
  pub line : ℕ

pub record QualifiedName : Type 0 where
  pub name : Text
  pub schema : Option Text

-- `QualifiedName.__str__`. An empty schema is falsy, as `None` is.
unfoldable pub label : QualifiedName → Text
label q = elim q.schema [
  | none ↦ q.name
  | some s ↦ elim s [ [] ↦ q.name | c ∷ cs ↦ (c ∷ cs) ++ (codes "." ++ q.name) ]
]

pub record DefaultInfo : Type 0 where
  pub volatility : Volatility
  pub expression : Option Text
  pub unknown_functions : List Text

pub record AlterTableAction : Type 0 where
  pub kind : AlterTableActionKind
  pub column : Option Text
  pub constraint_name : Option Text
  pub column_type : Option Text
  pub default : Option DefaultInfo
  pub not_null : Bool
  pub not_valid : Bool
  pub has_using_expression : Bool
  pub using_index : Option Text
  pub inline_constraints : List Text
  pub partition : Option QualifiedName
  pub referenced_table : Option QualifiedName
  pub cascade : Bool
  pub missing_ok : Bool
  pub detail : Option Text

pub record CreateTableDetails : Type 0 where
  pub persistence : Text
  pub if_not_exists : Bool
  pub partition_of : Option QualifiedName
  pub inherits : Bool
  pub referenced_tables : List QualifiedName

pub record IndexDetails : Type 0 where
  pub index_name : Option Text
  pub unique : Bool
  pub method : Text
  pub partial : Bool
  pub has_expression : Bool
  pub if_not_exists : Bool

pub record DropDetails : Type 0 where
  pub object_names : List Text
  pub cascade : Bool
  pub missing_ok : Bool

pub record DmlDetails : Type 0 where
  pub has_where : Bool
  pub batch_signals : List Text

pub record TruncateDetails : Type 0 where
  pub cascade : Bool
  pub restart_identity : Bool

pub record ReindexDetails : Type 0 where
  pub scope : Text
  pub object_name : Option Text

pub record RenameDetails : Type 0 where
  pub old_name : Option Text
  pub new_name : Option Text
  pub object_type : Text

pub record SetDetails : Type 0 where
  pub name : Option Text
  pub is_local : Bool

pub record LockDetails : Type 0 where
  pub mode : ℕ
  pub mode_name : Text
  pub nowait : Bool

pub record TransactionDetails : Type 0 where
  pub savepoint_name : Option Text
  pub chain : Bool

-- The scalar fields of a `ParsedStatement`.
pub record Head : Type 0 where
  pub kind : StatementKind
  pub sql : Text
  pub span : SourceSpan
  pub node_tag : Text
  pub targets : List QualifiedName
  pub alter_actions : List AlterTableAction
  pub only : Bool

-- The scalar fields of a `DoBlockDetails`.
pub record DoHead : Type 0 where
  pub language : Text
  pub dynamic_sql_count : ℕ
  pub fully_parsed : Bool
  pub existence_guarded : Bool

-- `ParsedStatement` and `StatementDetails`. A DO block holds statements, so the types are mutual.
mutual
  pub data ParsedStatement : Type 0 where
    parsed : Head → Details → ParsedStatement

  pub data Details : Type 0 where
    no_details : Details
    create_table_details : CreateTableDetails → Details
    create_table_as_details : (no_data : Bool) → Details
    index_details : IndexDetails → Details
    drop_details : DropDetails → Details
    truncate_details : TruncateDetails → Details
    reindex_details : ReindexDetails → Details
    rename_details : RenameDetails → Details
    set_details : SetDetails → Details
    lock_details : LockDetails → Details
    transaction_details : TransactionDetails → Details
    do_block_details : DoHead → StatementList → Details
    dml_details : DmlDetails → Details
    insert_details : (source : Text) → Details

  pub data StatementList : Type 0 where
    nil : StatementList
    cons : ParsedStatement → StatementList → StatementList

abbrev pub head : ParsedStatement → Head
head (parsed h d) = h

abbrev pub details : ParsedStatement → Details
details (parsed h d) = d

-- `statement.targets[0] if statement.targets else None`.
abbrev pub first_target : List QualifiedName → Option QualifiedName
first_target [] = none
first_target (q ∷ qs) = some q

pub record TransactionGroup : Type 0 where
  pub explicit : Bool
  pub statement_indices : List ℕ
  pub opened_by : Option ℕ
  pub closed_by : Option ℕ
  pub rolled_back : Bool

pub record MigrationScript : Type 0 where
  pub statements : List ParsedStatement
  pub transaction_groups : List TransactionGroup
  pub baseline_shaped : Bool

unfoldable pub has_explicit_transactions : MigrationScript → Bool
has_explicit_transactions s = any (λ g. g.explicit) s.transaction_groups
