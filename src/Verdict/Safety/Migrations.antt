-- ===== src/Verdict/Safety/Migrations.antt =====
-- What parser.py and verdict/engine.py promise together.
use blastoise.Base.{ℕ, ◌≡◌, subst, Option, List, length, All, All-map, Text, Succeeds, either_case}
use blastoise.Ir.{MigrationScript, ParsedStatement, Volatility}
use blastoise.Sql.{Pglast, Parsed, accepted, refused, RawStmt, ParseError}
use blastoise.Parser.{
  Migration, script, invalid, out_of_fuel, Warning, script_of, parse_migration, classify_all,
  find_char, group_transactions,
}
use blastoise.Parser.GroupShape.{IsGroup}
use blastoise.Parser.Boundaries.{group_transactions-IsGroup}
use blastoise.Catalog.{LockCatalog}
use blastoise.Live.{LiveSnapshot}
use blastoise.Live.Resolve.{Decided}
use blastoise.Verdict.Engine.{assess_script}
use blastoise.Verdict.Safety.Scripts.{Resolves, InFile, kinds_of, kinds, assess_script-total}

-- The groups of a parsed script name its own statements.
abbrev GroupsInFile : Migration → Type 0
GroupsInFile (script m warnings) = All (InFile m.statements) m.transaction_groups
GroupsInFile (invalid error) = Unit
GroupsInFile out_of_fuel = Unit

script_of-groups : (ss : List ParsedStatement) → GroupsInFile (script_of ss)
unfolding script_of
script_of-groups ss =
    All-map (IsGroup (length ss)) (InFile ss) (λ g h. h.in_file) (group_transactions ss).0
      (group_transactions-IsGroup ss)

parsed_case :
    (P : Migration → Type 0) (o : Parsed) (f : ParseError → Migration)
    (k : List RawStmt → Migration)
    → ((e : ParseError) → P (f e))
    → ((raws : List RawStmt) → P (k raws))
    → P (elim o [ refused e ↦ f e | accepted raws ↦ k raws ])
parsed_case P (refused e) f k h g = h e
parsed_case P (accepted raws) f k h g = g raws

parse_migration-groups :
    (pglast : Pglast) (source : Text) → GroupsInFile (parse_migration pglast source)
unfolding parse_migration
parse_migration-groups pglast source =
    either_case GroupsInFile (find_char 0 source) _ _
      (parsed_case GroupsInFile (pglast.parse_sql source) _ _ (λ e. tt)
        λ raws. either_case GroupsInFile (classify_all pglast source raws) _ _ tt script_of-groups)
      λ nul. tt

-- A file that parses to a script, and whose statements have their rows in the catalog, is assessed:
-- one assessment for each statement, in order. The condition of the engine on transaction groups
-- is met by every script of the parser.
pub parse_migration-assessed :
    (pglast : Pglast) (source : Text) (m : MigrationScript) (warnings : List Warning)
    (evaluate : Text → Decided → Volatility) (catalog : LockCatalog) (pg_version : ℕ)
    (snapshot : Option LiveSnapshot)
    → parse_migration pglast source ≡ script m warnings
    → All (Resolves catalog pg_version) m.statements
    → Succeeds
        (λ a. kinds_of a.statements ≡ kinds m.statements)
        (assess_script evaluate m catalog pg_version snapshot)
parse_migration-assessed pglast source m warnings evaluate catalog pg_version snapshot e resolves =
    assess_script-total evaluate m catalog pg_version snapshot resolves
      (subst GroupsInFile e (parse_migration-groups pglast source))
