-- ===== src/Classify/Blocks.antt =====
-- classify.py: DO blocks, which hold statements again, and with them `classify_statement`.
use blastoise.Base.{
  ℕ, zero, suc, Bool, true, false, Option, some, none, List, [], ◌∷◌, ◌++◌, Text, codes,
  if◌then◌else◌, ◌==◌, list_eq, nat_eq, strip, is_space,
}
use blastoise.Ir.{
  StatementKind, SourceSpan, ParsedStatement, StatementList, nil, cons, do_block_details,
}
use blastoise.Sql.{Pglast, accepted, refused, RawStmt, Statement, of_class, DefElem, string_arg}
use blastoise.Classify.Names.{named}
use blastoise.Classify.Plpgsql.{collect_plpgsql_queries}
use blastoise.Classify.Shapes.{built}
use blastoise.Classify.Statements.{classify_plain}

-- The last option that names a language.
unfoldable pub language_from : Text → List DefElem → Text
language_from language [] = language
language_from language (e ∷ es) =
    language_from
      (if named e.defname (codes "language")
        then elim e.arg [
          | string_arg sval ↦ elim sval [
            | none ↦ language
            | some t ↦ elim t [ [] ↦ language | c ∷ cs ↦ c ∷ cs ]
          ]
          | _ ↦ language
        ]
        else language)
      es

-- The variables of the loops of `_classify_do`.
pub record Body : Type 0 where
  pub statements : List ParsedStatement
  pub fully_parsed : Bool
  pub existence_guarded : Bool

abbrev pub to_statements : List ParsedStatement → StatementList
to_statements [] = nil
to_statements (s ∷ ss) = cons s (to_statements ss)

module _ (pglast : Pglast) (classify : Statement → Text → SourceSpan → Option ParsedStatement)
    (span : SourceSpan) where
  -- The statements of one query. A statement that is not classified is `none`.
  unfoldable pub classify_raws : List RawStmt → Text → Bool → Body → Option Body
  classify_raws [] query guarded b = some b
  classify_raws (raw ∷ raws) query guarded b = elim raw.stmt [
    | none ↦ classify_raws raws query guarded b
    | some stmt ↦ elim (classify stmt (strip is_space query) span) [
      | none ↦ none
      | some s ↦ classify_raws raws query guarded (record b {
        statements = b.statements ++ s ∷ [];
        existence_guarded = if guarded then true else b.existence_guarded;
      })
    ]
  ]

  unfoldable pub classify_entries : List (Text × Bool) → Body → Option Body
  unfolding classify_raws
  classify_entries [] b = some b
  classify_entries ((query, guarded) ∷ entries) b = elim (pglast.parse_sql query) [
    | refused error ↦ classify_entries entries (record b { fully_parsed = false })
    | accepted raws ↦ elim (classify_raws raws query guarded b) [
      | none ↦ none
      | some b' ↦ classify_entries entries b'
    ]
  ]

  -- The body of a block in PL/pgSQL, and the number of its dynamic statements.
  unfoldable pub classify_body : Text → Option (Body × ℕ)
  unfolding classify_entries
  classify_body sql = elim (pglast.parse_plpgsql sql) [
    | none ↦ some (record { statements = []; fully_parsed = false; existence_guarded = false }, 0)
    | some blocks ↦
        let (entries, dynamic) = collect_plpgsql_queries pglast blocks in
        elim (classify_entries entries
          (record { statements = []; fully_parsed = true; existence_guarded = false })) [
            | none ↦ none
            | some b ↦ some (b, dynamic)
          ]
  ]

abbrev do_statement : Text → Text → SourceSpan → Body × ℕ → ParsedStatement
do_statement language sql span (b, dynamic) = built StatementKind.do_block "DoStmt" sql span [] (
    do_block_details
      (record {
        language = language;
        dynamic_sql_count = dynamic;
        fully_parsed = b.fully_parsed;
        existence_guarded = b.existence_guarded;
      })
      (to_statements b.statements))

-- `_classify_do`.
unfoldable pub classify_do :
    Pglast
    → (Statement → Text → SourceSpan → Option ParsedStatement)
    → List DefElem
    → Text
    → SourceSpan
    → Option ParsedStatement
unfolding classify_body language_from
classify_do pglast classify args sql span =
    let language = language_from (codes "plpgsql") args in
    if language == codes "plpgsql"
    then (elim (classify_body pglast classify span sql) [
      | none ↦ none
      | some found ↦ some (do_statement language sql span found)
    ])
    else some (
        do_statement language sql span
          (record { statements = []; fully_parsed = false; existence_guarded = false }, 0))

-- `classify_statement`. The fuel bounds how deep DO blocks stand in one another: a query is shorter
-- than the block that holds it.
unfoldable pub classify_statement :
    Pglast → ℕ → Statement → Text → SourceSpan → Option ParsedStatement
unfolding classify_do
classify_statement pglast zero stmt sql span = none
classify_statement pglast (suc fuel) (Statement.do_stmt args) sql span =
    classify_do pglast (classify_statement pglast fuel) (of_class args) sql span
classify_statement pglast (suc fuel) stmt sql span = some (classify_plain pglast stmt sql span)
