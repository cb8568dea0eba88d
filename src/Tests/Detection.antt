-- ===== src/Tests/Detection.antt =====
-- Runs of the detection of migrations on concrete paths.
use blastoise.Base.{
  ◌↔◌, Succeeds, raise, Any, All, IsAscending, ◌≡◌, refl, true, false, some, none, List, [], ◌∷◌,
  Text, codes, ok, Result, ◌>>=◌, Bool,
}
use blastoise.Ci.Detect.Covering.{Covers}
use blastoise.Ci.Detect.Matching.{glob_to_regex-Covers}
use blastoise.Ci.Detect.Reporting.{Reported}
use blastoise.Ci.Detect.Selection.{Holds, Counted, detect_migrations-Counted}
use blastoise.Regex.{Regex, is_match, ends, search}
use blastoise.Ci.{Framework, SourceKind}
use blastoise.Ci.Detect.{
  earlier, compile_globs, normalize_path, framework_of, first_rule, glob_to_regex,
  detect_migrations,
}

abbrev glob_matches : Text → Text → Result Bool
glob_matches glob path = glob_to_regex glob >>= λ r. ok (is_match r path)

rails_path :
    framework_of (codes "./services/db/migrate/1_a.rb") ≡ some (Framework.rails, SourceKind.dsl)
unfolding framework_of search first_rule
rails_path = refl

init_path : framework_of (codes "app/migrations/__init__.py") ≡ none
unfolding framework_of
init_path = refl

flyway_path : framework_of (codes "x/V1.2__a.sql") ≡ some (Framework.flyway, SourceKind.sql)
unfolding framework_of
flyway_path = refl

prisma_path :
    framework_of (codes "prisma/migrations/2024/migration.sql")
    ≡ some (Framework.prisma, SourceKind.sql)
unfolding framework_of
prisma_path = refl

views_path : framework_of (codes "Views__old.sql") ≡ none
unfolding framework_of
views_path = refl

no_segment : glob_matches (codes "migrations/**/*.sql") (codes "migrations/0001.sql") ≡ ok true
unfolding glob_to_regex is_match ends
no_segment = refl

one_star : glob_matches (codes "migrations/*.sql") (codes "migrations/2024/0001.sql") ≡ ok false
unfolding glob_to_regex is_match ends
one_star = refl

a_class : glob_matches (codes "db/[!a-c]?.sql") (codes "db/dx.sql") ≡ ok true
unfolding glob_to_regex is_match ends
a_class = refl

paths_of_run :
    detect_migrations
      (codes "sql/b.sql" ∷ codes "./sql/a.rb" ∷ codes "sql/b.sql" ∷ [])
      (codes "sql/**" ∷ [])
      []
    ≡ ok (
        record {
          path = codes "sql/a.rb";
          framework = Framework.configured;
          source_kind = SourceKind.dsl;
        }
        ∷ record {
          path = codes "sql/b.sql";
          framework = Framework.configured;
          source_kind = SourceKind.sql;
        }
        ∷ [])
unfolding detect_migrations
paths_of_run = refl

abbrev sql_glob : Text
sql_glob = codes "sql/**/?.sql"

glob_to_regex-Covers_example :
    Succeeds
      (λ r. (path : Text) → (is_match r path ≡ true) ↔ Covers 0 (normalize_path sql_glob) path)
      (glob_to_regex sql_glob)
unfolding normalize_path
glob_to_regex-Covers_example = glob_to_regex-Covers sql_glob refl

none_compiled : compile_globs [] ≡ ok []
unfolding compile_globs
none_compiled = refl

abbrev compiled : Result (List Regex) → List Regex
compiled (ok rs) = rs
compiled (raise e) = []

abbrev given_paths : List Text
given_paths = codes "sql/b.sql" ∷ codes "./sql/a.rb" ∷ codes "sql/b.sql" ∷ []

abbrev included : List Regex
included = compiled (compile_globs (sql_glob ∷ []))

included-compiled : compile_globs (sql_glob ∷ []) ≡ ok included
unfolding compile_globs
included-compiled = refl

detect_migrations-Counted_example :
    Succeeds
      (λ ds.
        ((p : Text)
          → Holds p ds ↔ (Any (λ raw. normalize_path raw ≡ p) given_paths × Counted included [] p))
        × IsAscending earlier ds
        × All (Reported included []) ds)
      (detect_migrations given_paths (sql_glob ∷ []) [])
detect_migrations-Counted_example =
    detect_migrations-Counted given_paths (sql_glob ∷ []) [] included [] included-compiled
      none_compiled

dots_behind_slash : normalize_path (codes "/./a.sql") ≡ codes "./a.sql"
unfolding normalize_path
dots_behind_slash = refl
