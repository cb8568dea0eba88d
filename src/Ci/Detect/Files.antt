-- ===== src/Ci/Detect/Files.antt =====
-- ci/detect.py: detected files, their names for a reader, and the form of a path.
use blastoise.Base.{
  ℕ, Bool, true, false, ◌&&◌, Option, none, some, [], ◌∷◌, Text, String, nat_beq, is_space, lstrip,
  strip, map, if◌then◌else◌,
}
use blastoise.Ci.{Framework, SourceKind}

-- `framework in EXTRACTABLE`.
abbrev pub is_extractable : Framework → Bool
is_extractable Framework.rails = true
is_extractable f = false

-- `FRAMEWORK_NAMES`
abbrev pub framework_name : Framework → String
framework_name Framework.prisma = "Prisma"
framework_name Framework.rails = "Rails"
framework_name Framework.django = "Django"
framework_name Framework.alembic = "Alembic"
framework_name Framework.flyway = "Flyway"
framework_name Framework.golang_migrate = "golang-migrate"
framework_name Framework.generic = "plain SQL migrations directory"
framework_name Framework.configured = "configured path"

-- `DSL_ADAPTER_HINT`
abbrev pub adapter_hint : Framework → Option String
adapter_hint Framework.rails =
    some
      "Blastoise renders this by running the migration against a throwaway database and recording the SQL ActiveRecord emits; enable it with 'rails.extract: true' in .blastoise.yml"
adapter_hint Framework.django =
    some
      "django-admin sqlmigrate <app> <name> prints the exact SQL, and needs the project's settings and an importable app registry"
adapter_hint Framework.alembic =
    some
      "alembic upgrade <rev> --sql prints the SQL offline, and needs the project's alembic.ini and env.py"
adapter_hint f = none

pub record DetectedFile : Type 0 where
  pub path : Text
  pub framework : Framework
  pub source_kind : SourceKind

unfoldable pub assessable : DetectedFile → Bool
assessable d = elim d.source_kind [ SourceKind.sql ↦ true | _ ↦ false ]

unfoldable pub extractable : DetectedFile → Bool
extractable d = elim d.source_kind [ SourceKind.dsl ↦ is_extractable d.framework | _ ↦ false ]

-- The loop of `normalize_path`.
unfoldable pub drop_dots : Text → Text
drop_dots [] = []
drop_dots (c ∷ []) = c ∷ []
drop_dots (c ∷ d ∷ cs) =
    let rest = drop_dots cs in if nat_beq c b'.' && nat_beq d b'/' then rest else c ∷ d ∷ cs

abbrev flip_slash : ℕ → ℕ
flip_slash c = if nat_beq c b'\\' then b'/' else c

unfoldable pub normalize_path : Text → Text
unfolding drop_dots lstrip strip is_space
normalize_path path =
    lstrip (λ c. nat_beq c b'/') (drop_dots (map flip_slash (strip is_space path)))
