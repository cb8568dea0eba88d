-- ===== src/Ci.antt =====
-- ci/model.py: the outcome of a file in a run, and the verdict of the run.
pub mod Detect
pub mod Summary
pub mod Totals
use blastoise.Base.{
  ℕ, ◌≡◌, Option, some, none, List, [], ◌∷◌, All, Any, Text, arith, ◌⊎◌, ◌↔◌, ltb, if◌then◌else◌,
}
use blastoise.Report.Model.{FileVerdict, proceed, requires_approval, block}

-- `_VERDICT_RANK`
abbrev verdict_rank : FileVerdict → ℕ
verdict_rank proceed = 0
verdict_rank requires_approval = 1
verdict_rank block = 2

pub data OutcomeStatus : Type 0 where
  assessed unsupported error : OutcomeStatus

-- ci/detect.py `Framework` and `SourceKind`.
pub data Framework : Type 0 where
  prisma rails django alembic flyway golang_migrate generic configured : Framework

pub data SourceKind : Type 0 where
  sql dsl : SourceKind

-- The field `payload`, a document for the renderers, is left out. `counts` is a dictionary.
pub record FileOutcome : Type 0 where
  pub path : Text
  pub framework : Framework
  pub source_kind : SourceKind
  pub status : OutcomeStatus
  pub verdict : Option FileVerdict
  pub counts : List (Text × ℕ)
  pub report_dir : Option Text
  pub detail : Option Text

unfoldable pub effective_verdict : FileOutcome → FileVerdict
effective_verdict o = elim o.status [
  | assessed ↦ elim o.verdict [ none ↦ requires_approval | some v ↦ v ]
  | _ ↦ requires_approval
]

-- The loop of `run_verdict`.
unfoldable pub raise_verdict : FileVerdict → List FileOutcome → FileVerdict
raise_verdict verdict [] = verdict
raise_verdict verdict (o ∷ os) =
    let candidate = effective_verdict o in
    raise_verdict
      (if ltb (verdict_rank verdict) (verdict_rank candidate) then candidate else verdict) os

unfoldable pub run_verdict : List FileOutcome → FileVerdict
run_verdict outcomes = raise_verdict proceed outcomes

-- The file was assessed, and got this verdict.
abbrev pub Got : FileVerdict → FileOutcome → Type 0
Got v o = (o.status ≡ assessed) × (o.verdict ≡ some v)

effective-block : (o : FileOutcome) → (effective_verdict o ≡ block) ↔ Got block o
unfolding effective_verdict
effective-block o = ground arith

effective-proceed : (o : FileOutcome) → (effective_verdict o ≡ proceed) ↔ Got proceed o
unfolding effective_verdict
effective-proceed o = ground arith

abbrev higher : FileVerdict → FileVerdict → FileVerdict
higher v w = if ltb (verdict_rank v) (verdict_rank w) then w else v

raise-block :
    (v : FileVerdict) (os : List FileOutcome)
    → (raise_verdict v os ≡ block) ↔ ((v ≡ block) ⊎ Any (Got block) os)
unfolding raise_verdict
raise-block v [] = ground arith
raise-block v (o ∷ os) =
    ground (arith, raise-block (higher v (effective_verdict o)) os, effective-block o)

raise-proceed :
    (v : FileVerdict) (os : List FileOutcome)
    → (raise_verdict v os ≡ proceed) ↔ ((v ≡ proceed) × All (Got proceed) os)
unfolding raise_verdict
raise-proceed v [] = ground arith
raise-proceed v (o ∷ os) =
    ground (arith, raise-proceed (higher v (effective_verdict o)) os, effective-proceed o)

-- A run is blocked exactly where some file was assessed and blocked, and proceeds exactly where
-- every file was assessed and proceeds: a file that nobody could assess does neither.
pub run_verdict_lem :
    (os : List FileOutcome)
    → ((run_verdict os ≡ block) ↔ Any (Got block) os)
      × ((run_verdict os ≡ proceed) ↔ All (Got proceed) os)
unfolding run_verdict
run_verdict_lem os = ground (arith, raise-block proceed os, raise-proceed proceed os)
