-- ===== src/Parser/Files.antt =====
-- parser.py `parse_migration`.
use blastoise.Base.{
  ℕ, zero, suc, ◌+◌, ◌-◌, min, Option, some, none, List, [], ◌∷◌, length, ltb, Text, codes,
  if◌then◌else◌, strip, is_space,
}
use blastoise.Ir.{ParsedStatement, SourceSpan, MigrationScript}
use blastoise.Sql.{Pglast, accepted, refused, RawStmt, ParseError}
use blastoise.Classify.{classify_statement}
use blastoise.Parser.Transactions.{group_transactions, Warning}
use blastoise.Parser.Baseline.{baseline_shaped}
use blastoise.Parser.Locations.{take, drop, line_of, find_char, refine_offset}

-- `MigrationParseError`, without the path.
pub record MigrationParseError : Type 0 where
  pub message : Text
  pub location : Option ℕ
  pub line : Option ℕ

-- A script with its warnings, an exception, or, for the fuel of `classify_statement`, neither.
pub data Migration : Type 0 where
  script : MigrationScript → List Warning → Migration
  invalid : MigrationParseError → Migration
  out_of_fuel : Migration

abbrev or_zero : Option ℕ → ℕ
or_zero none = 0
or_zero (some n) = n

-- `raw.stmt_len or (len(source) - start)`.
abbrev length_or_rest : Text → ℕ → Option ℕ → ℕ
length_or_rest source start none = length source - start
length_or_rest source start (some zero) = length source - start
length_or_rest source start (some (suc n)) = suc n

unfoldable pub span_of : Text → RawStmt → SourceSpan
span_of source raw =
    let start = or_zero raw.stmt_location in
    record {
      start = start;
      end = min (start + length_or_rest source start raw.stmt_len) (length source);
      line = line_of source start;
    }

-- `source[start:end].strip()`.
unfoldable pub text_at : Text → SourceSpan → Text
text_at source span = strip is_space (take (span.end - span.start) (drop span.start source))

-- The loop over the statements.
unfoldable pub classify_all : Pglast → Text → List RawStmt → Option (List ParsedStatement)
unfolding span_of text_at
classify_all pglast source [] = some []
classify_all pglast source (raw ∷ raws) = elim raw.stmt [
  | none ↦ classify_all pglast source raws
  | some stmt ↦
      let span = span_of source raw in
      elim (classify_statement pglast (suc (length source)) stmt (text_at source span) span) [
        | none ↦ none
        | some s ↦ elim (classify_all pglast source raws) [ none ↦ none | some ss ↦ some (s ∷ ss) ]
      ]
]

abbrev message_of : Option Text → Text
message_of none = codes "syntax error"
message_of (some message) = message

-- An offset past the end of the source does not count.
abbrev inside : Text → Option ℕ → Option ℕ
inside source none = none
inside source (some offset) = if ltb offset (length source) then some offset else none

abbrev line_at : Text → Option ℕ → Option ℕ
line_at source none = none
line_at source (some offset) = some (line_of source offset)

unfoldable pub syntax_error : Text → ParseError → MigrationParseError
syntax_error source error =
    let message = message_of error.message in
    let offset = refine_offset source (inside source error.offset) message in
    record { message = message; location = offset; line = line_at source offset }

unfoldable pub script_of : List ParsedStatement → Migration
script_of statements =
    script
      (record {
        statements = statements;
        transaction_groups = (group_transactions statements).0;
        baseline_shaped = baseline_shaped statements;
      })
      (group_transactions statements).1

unfoldable pub parse_migration : Pglast → Text → Migration
unfolding classify_all syntax_error script_of
parse_migration pglast source = elim (find_char 0 source) [
  | some nul ↦ invalid (record {
    message = codes "source contains a NUL (0x00) byte";
    location = some nul;
    line = some (line_of source nul);
  })
  | none ↦ elim (pglast.parse_sql source) [
    | refused error ↦ invalid (syntax_error source error)
    | accepted raws ↦ elim (classify_all pglast source raws) [
      | none ↦ out_of_fuel
      | some statements ↦ script_of statements
    ]
  ]
]
