-- ===== src/Lib.antt =====
-- blastoise: a static risk assessment of PostgreSQL migrations. A parsed migration file, a catalog of
-- the locks that each form of statement takes, and an optional snapshot of the live database become
-- one verdict for each statement: SAFE, SAFE_IRREVERSIBLE, NEEDS_TIMING, UNSAFE or UNKNOWN.
--
-- The parts of the program, and the files that model them (paths are relative to the repository's
-- src/blastoise/):
--   Ir          ir.py: statements, subcommands, details, transaction groups, scripts.
--   Catalog     catalog/model.py, catalog/resolve.py and the coverage check of catalog/loader.py:
--               rows of the catalog, the lookup `entry_for`, and `resolve`, which gives the rows and
--               the locks of a statement.
--   Loader      catalog/loader.py: a decoded YAML document (Documents) becomes a `LockCatalog`. Matrix is
--               the conflict matrix, Rows and Consistency are a row and its checks, Tables the rows of all
--               kinds, Catalogs the breakpoints and `parse_catalog`.
--   Live        live/model.py: the facts of a snapshot. Live.Calibrate models live/calibrate.py, and
--               Live.TypeChange models live/typechange.py: whether a change of type rewrites the table;
--               Live.Resolve models live/resolve.py.
--               Live.Canonical is the canonical serialisation of live/model.py: Plain and Snapshot
--               are `dataclasses.asdict`, Normalize is `_normalize` on plain Values, and Escape,
--               Numbers, Print and Order are `json.dumps` with sorted keys, as `to_canonical_json`
--               calls it.
--   Sql         the parse tree of the third-party parser pglast, as far as classify.py and
--               volatility.py read it, and its calls as the interface `Pglast`.
--   Volatility  volatility.py: the volatility of a default expression.
--   Classify    classify.py: a statement of the parse tree becomes a statement of ir.py. Columns,
--               Constraints and Alter are the subcommands of ALTER TABLE; Windows is the shape of an
--               UPDATE or DELETE; Plpgsql and Blocks are DO blocks; Statements and Objects are the
--               chain of `classify_statement`.
--   Parser      parser.py: Files is `parse_migration`, Locations lines and error places,
--               Transactions the transaction groups, Baseline the detection of a squash file.
--   Verdict     verdict/: Model and Constants are model.py and constants.py; Duration is duration.py,
--               the estimates and their refusals; Probes and Collect are
--               probes.py, the spelling of a relation and the probes of a script; Narrow is
--               narrow.py, which decides a subcommand from live facts, with its texts in
--               Model/Narratives; Reversibility is reversibility.py; Engine is engine.py; Safety holds the theorems about the engine.
--   Report, Ci  report/model.py and ci/model.py: the verdict of a file and of a run. Ci/Summary is the
--               totals of a run and its machine-readable account. Ci/Detect models ci/detect.py: Rules the
--               layouts of frameworks, Globs the patterns of globs, Migrations the choice of the files.
--   Regex       what the code uses of Python's re, with the search for a match.
--   Base, Tests shared helpers, and runs of the theorems on concrete inputs.
--
-- How the parts interact: `parse_catalog` (Loader/Catalogs) makes the catalog of the lookups.
-- `parse_migration` (Parser/Files) classifies each statement that pglast finds and groups the
-- statements by transaction; its script is the input of the engine. `assess_script`
-- (Verdict/Engine/Script) goes through the statements in order with the state `Progress`: what the
-- file has created so far (`FileState`), the locks that each explicit transaction holds, and the
-- relations locked in ACCESS EXCLUSIVE mode. It resolves each statement in the catalog, assesses
-- each row by `assess_row` (Verdict/Engine/Rows), combines the rows by `assess_statement`
-- (Verdict/Engine/Statement), and advances the state. `assess_row` picks a `Branch`, a constructor
-- for each branch of `_assess_row`, and adjusts the verdict by the cap of a conditional narrowing, by
-- contention, by the ACCESS EXCLUSIVE floor, and by the cap of a guard.
--
-- Conventions. Strings that the code takes apart or compares are lists of code points (`Text`).
-- Numbers are natural numbers, except row estimates and type modifiers, which may be negative. Exceptions are values of
-- `Result`. Dictionaries that are only looked up are functions; `sorted(set(...))` is an insertion
-- into a sorted list; the dictionaries of the serialisation and of the counts of a file are lists of
-- keys with values. A text printed by `json.dumps` is written in front of the text that follows it.
-- Every loop is structural recursion, so that no bound or fuel is needed, but for the digits of a
-- number, where the number itself is enough fuel, since each round divides by ten; for the rounds of a
-- pattern, which the length of the text bounds, since each takes a character; and for
-- `classify_statement`, whose fuel bounds how deep DO blocks stand in one another: a query is shorter
-- than the block that holds it, so the length of the source is enough (Classify/Termination). The
-- nested statements of a DO block make statements, details and lists of statements mutual.
--
-- Not modelled: a glob whose class has no members, which is refused, while re reads it together
-- with the text of the next part that has a bracket; rationales, bases, notes and the inputs of an
-- estimate, which are prose that no code reads (the narratives, which code searches for "no table
-- rewrite", are modelled as texts, in which `repr` takes every character outside Latin-1 as
-- printable); digits other than ASCII in a type's modifiers, letters other than ASCII in
-- `str.lower`, the mixing of time stamps with and without a zone, and negative numbers and floats
-- in the catalog document. The engine takes `resolve_expression_volatility` as the argument
-- `evaluate`. pglast itself, introspection of a server, the decoding of YAML, rendering,
-- signatures, the CI runner, Rails extraction and the command line are outside this development.
pub mod Base
pub mod Catalog
pub mod Ci
pub mod Classify
pub mod Ir
pub mod Live
pub mod Loader
pub mod Parser
pub mod Regex
pub mod Report
pub mod Sql
pub mod Tests
pub mod Verdict
pub mod Volatility
