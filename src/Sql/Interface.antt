-- ===== src/Sql/Interface.antt =====
-- The calls of pglast as an interface: `parse_sql`, `parse_plpgsql` and the deparser.
use blastoise.Base.{ℕ, Option, List, Text}
use blastoise.Sql.Trees.{Node}
use blastoise.Sql.Statements.{Statement}

-- A value of a document in JSON, with the members of an object in order.
mutual
  pub data Json : Type 0 where
    scalar : Json
    json_number : ℕ → Json
    json_text : Text → Json
    json_array : JsonItems → Json
    json_object : Members → Json

  pub data JsonItems : Type 0 where
    no_items : JsonItems
    item : Json → JsonItems → JsonItems

  pub data Members : Type 0 where
    no_members : Members
    member : (key : Text) (value : Json) → Members → Members

-- `ast.RawStmt`. `tree` is `stmt` as a visitor walks it.
pub record RawStmt : Type 0 where
  pub stmt : Option Statement
  pub tree : Node
  pub stmt_location : Option ℕ
  pub stmt_len : Option ℕ

-- The arguments of a `ParseError`, where they are there and have the expected type. The offset may
-- lie outside the source; one below zero is `none`, which the code makes of it.
pub record ParseError : Type 0 where
  pub message : Option Text
  pub offset : Option ℕ

pub data Parsed : Type 0 where
  accepted : List RawStmt → Parsed
  refused : ParseError → Parsed

pub record Pglast : Type 0 where
  pub parse_sql : Text → Parsed
  -- `none` where it raises.
  pub parse_plpgsql : Text → Option Json
  -- `RawStream()(node)`; `none` where it raises.
  pub deparse : Node → Option Text
