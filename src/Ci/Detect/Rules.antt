-- ===== src/Ci/Detect/Rules.antt =====
-- ci/detect.py `_RULES` and `framework_of`.
use blastoise.Base.{
  ℕ, true, false, Option, none, some, List, [], ◌∷◌, Text, String, codes, if◌then◌else◌,
}
use blastoise.Regex.{Regex, nothing, start, stop, one, both, either, many, unless, is_empty, search}
use blastoise.Ci.{Framework, SourceKind}
use blastoise.Ci.Detect.Files.{normalize_path}

-- One character, and one that is no slash.
abbrev pub literal : ℕ → Regex
literal c = one (record { negated = false; ranges = (c, c) ∷ [] })

abbrev pub no_slash : Regex
no_slash = one (record { negated = true; ranges = (b'/', b'/') ∷ [] })

abbrev pub word : Text → Regex
word [] = nothing
word (c ∷ cs) = both (literal c) (word cs)

abbrev pub some_of : Regex → Regex
some_of r = both r (many r)

abbrev optional : Regex → Regex
optional r = either r nothing

abbrev pub all_of : List Regex → Regex
all_of [] = nothing
all_of (r ∷ rs) = both r (all_of rs)

-- `(?:^|/)`, the pattern, and `$`.
abbrev below_any : List Regex → Regex
below_any rs = both (either start (literal b'/')) (both (all_of rs) stop)

abbrev text : String → Regex
text s = word (codes s)

abbrev no_init : Regex
no_init = unless (both (text "__init__.py") stop)

abbrev digit : Regex
digit = one (record { negated = false; ranges = (b'0', b'9') ∷ [] })

abbrev version : Regex
version = one (record { negated = false; ranges = (b'0', b'9') ∷ (b'.', b'.') ∷ (b'_', b'_') ∷ [] })

abbrev directory : Regex
directory = both (some_of no_slash) (literal b'/')

pub record Rule : Type 0 where
  pub framework : Framework
  pub source_kind : SourceKind
  pub pattern : Regex

abbrev rule : Framework → SourceKind → List Regex → Rule
rule f k rs = record { framework = f; source_kind = k; pattern = below_any rs }

abbrev pub rules : List Rule
rules =
    rule Framework.prisma SourceKind.sql
      (text "prisma/migrations/" ∷ some_of no_slash ∷ text "/migration.sql" ∷ [])
    ∷ rule Framework.rails SourceKind.dsl
        (text "db/" ∷ optional directory ∷ text "migrate/" ∷ some_of no_slash ∷ text ".rb" ∷ [])
    ∷ rule Framework.alembic SourceKind.dsl
        (text "versions/" ∷ no_init ∷ some_of no_slash ∷ text ".py" ∷ [])
    ∷ rule Framework.django SourceKind.dsl
        (text "migrations/" ∷ no_init ∷ some_of no_slash ∷ text ".py" ∷ [])
    ∷ rule Framework.flyway SourceKind.sql (
        either (literal b'V') (literal b'U')
        ∷ digit
        ∷ many version
        ∷ text "__"
        ∷ many no_slash
        ∷ text ".sql"
        ∷ [])
    ∷ rule Framework.flyway SourceKind.sql (text "R__" ∷ some_of no_slash ∷ text ".sql" ∷ [])
    ∷ rule Framework.golang_migrate SourceKind.sql
        (some_of no_slash ∷ text "." ∷ either (text "up") (text "down") ∷ text ".sql" ∷ [])
    ∷ rule Framework.generic SourceKind.sql (
        text "migration"
        ∷ optional (text "s")
        ∷ text "/"
        ∷ many directory
        ∷ some_of no_slash
        ∷ text ".sql"
        ∷ [])
    ∷ []

-- The loop of `framework_of`.
unfoldable pub first_rule : List Rule → Text → Option (Framework × SourceKind)
unfolding search
first_rule [] t = none
first_rule (r ∷ rs) t =
    let later = first_rule rs t in
    if search r.pattern t then some (r.framework, r.source_kind) else later

unfoldable pub framework_of : Text → Option (Framework × SourceKind)
unfolding first_rule normalize_path
framework_of path =
    let normalized = normalize_path path in
    if is_empty normalized then none else first_rule rules normalized
