-- ===== src/Ci/Detect/Migrations.antt =====
-- ci/detect.py `detect_migrations`.
use blastoise.Base.{
  Bool, ◌||◌, Option, none, some, List, [], ◌∷◌, Text, codes, map, nat_beq, any, after_last,
  lower_char, sorted_set, text_lt, nat_eq, list_eq, ◌==◌, Result, ok, ◌>>=◌, if◌then◌else◌,
}
use blastoise.Regex.{Regex, is_empty}
use blastoise.Ci.{Framework, SourceKind}
use blastoise.Ci.Detect.Files.{DetectedFile, normalize_path}
use blastoise.Ci.Detect.Rules.{framework_of}
use blastoise.Ci.Detect.Globs.{compile_globs, matches_any}

-- `_EXTENSION_KIND`, of the extensions without their dot.
abbrev pub extension_kinds : List (Text × SourceKind)
extension_kinds =
    (codes "sql", SourceKind.sql)
    ∷ (codes "rb", SourceKind.dsl)
    ∷ (codes "py", SourceKind.dsl)
    ∷ (codes "ex", SourceKind.dsl)
    ∷ (codes "exs", SourceKind.dsl)
    ∷ (codes "ts", SourceKind.dsl)
    ∷ (codes "js", SourceKind.dsl)
    ∷ (codes "go", SourceKind.dsl)
    ∷ []

unfoldable pub kind_of_extension : List (Text × SourceKind) → Text → SourceKind
kind_of_extension [] t = SourceKind.sql
kind_of_extension ((e, k) ∷ rest) t = if e == t then k else kind_of_extension rest t

unfoldable pub configured_kind : Text → Framework × SourceKind
unfolding kind_of_extension after_last lower_char
configured_kind path =
    let name = after_last b'/' path in
    (
      Framework.configured,
      if any (λ c. nat_beq c b'.') name
          then kind_of_extension extension_kinds (map lower_char (after_last b'.' path))
          else SourceKind.sql,
    )

abbrev pub or_configured : Text → Option (Framework × SourceKind) → Framework × SourceKind
or_configured path none = configured_kind path
or_configured path (some m) = m

module _ (include exclude : List Regex) where
  -- The framework and the kind of a path that counts: the body of the loop without its last lines.
  unfoldable pub wanted : Text → Option (Framework × SourceKind)
  unfolding framework_of configured_kind matches_any
  wanted path =
      let matched = framework_of path in
      if is_empty include
      then matched
      else if matches_any path include
      then some (or_configured path matched)
      else none

  unfoldable pub detect_one : List DetectedFile → Text → List DetectedFile
  unfolding wanted
  detect_one seen path =
      if is_empty path || any (λ d. d.path == path) seen then seen else elim (wanted path) [
        | none ↦ seen
        | some m ↦
            if matches_any path exclude
            then seen
            else record { path = path; framework = m.0; source_kind = m.1 } ∷ seen
      ]

  unfoldable pub detect_from : List DetectedFile → List Text → List DetectedFile
  unfolding detect_one normalize_path
  detect_from seen [] = seen
  detect_from seen (raw ∷ raws) = detect_from (detect_one seen (normalize_path raw)) raws

-- The order of `sorted(seen)`.
abbrev pub earlier : DetectedFile → DetectedFile → Bool
earlier d e = text_lt d.path e.path

unfoldable pub detect_migrations : List Text → List Text → List Text → Result (List DetectedFile)
unfolding compile_globs detect_from sorted_set text_lt
detect_migrations paths include exclude = compile_globs include >>= λ is.
    compile_globs exclude >>= λ es. ok (sorted_set earlier (detect_from is es [] paths))
