-- ===== src/Verdict/Reversibility/Shared.antt =====
-- verdict/reversibility.py: the entries that the two tables share, and how one is made.
use blastoise.Base.{String, some, none}
use blastoise.Verdict.Model.{
  proven, unverified, reversible, irreversible, Reversibility, ReversibilityAssessment,
}

-- `_rev`, `_irrev` and `_unknown`.
abbrev pub rev : String → ReversibilityAssessment
rev basis = record {
  reversibility = reversible;
  method = proven;
  basis = basis;
  what_is_lost = none;
}

abbrev pub irrev : String → String → ReversibilityAssessment
irrev what_is_lost basis = record {
  reversibility = irreversible;
  method = proven;
  basis = basis;
  what_is_lost = some what_is_lost;
}

abbrev pub undecided : String → ReversibilityAssessment
undecided basis = record {
  reversibility = Reversibility.unknown;
  method = unverified;
  basis = basis;
  what_is_lost = none;
}

abbrev pub no_change : ReversibilityAssessment
no_change = rev "no persistent schema or data change of its own"

abbrev pub created : ReversibilityAssessment
created = rev "a created object is fully undone by dropping it"

abbrev pub settings : ReversibilityAssessment
settings =
    rev
      "an inverse statement restores the setting; the prior value must come from schema history, not the database"

abbrev pub rename : ReversibilityAssessment
rename = rev "renaming back restores the previous state exactly"

abbrev pub maintenance : ReversibilityAssessment
maintenance = rev "maintenance only: the logical contents are unchanged"

abbrev pub read_only : ReversibilityAssessment
read_only = rev "read-only"

abbrev pub constraint_add : ReversibilityAssessment
constraint_add =
    rev
      "dropping the constraint undoes it (PRIMARY KEY/UNIQUE drop their backing index with it — rebuild cost, no data loss)"
