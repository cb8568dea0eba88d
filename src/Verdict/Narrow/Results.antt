-- ===== src/Verdict/Narrow/Results.antt =====
-- verdict/narrow.py: what a narrowing returns, and the lookups in the snapshot.
use blastoise.Base.{
  Bool, false, ◌&&◌, Option, some, none, List, [], Text, first, nat_eq, list_eq, ◌==◌,
  if◌then◌else◌,
}
use blastoise.Catalog.{LockMode}
use blastoise.Live.{
  Fact, known, missing, LiveSnapshot, RelationFacts, TypeFacts, TypeChangeFacts, ConstraintFacts,
}
use blastoise.Verdict.Constants.{Family}
use blastoise.Verdict.Model.{Method, unverified, Condition, Narrative, no_narrative}

pub data NarrowOutcome : Type 0 where
  constant proportional keep_model unresolved : NarrowOutcome

-- `NarrowResult`. The reason of an unresolved narrowing and the notes are prose, and left out.
pub record NarrowResult : Type 0 where
  pub method : Method
  pub outcome : NarrowOutcome
  pub narrative : Narrative
  pub conditions : List Condition
  pub extra_relation : Option (Text × LockMode)
  pub family_override : Option Family
  pub relabel : Bool
  pub rebuild_indexes : List (Text × Family)

-- A result with the defaults of the class.
abbrev pub narrowed : Method → NarrowOutcome → Narrative → NarrowResult
narrowed method outcome narrative = record {
  method = method;
  outcome = outcome;
  narrative = narrative;
  conditions = [];
  extra_relation = none;
  family_override = none;
  relabel = false;
  rebuild_indexes = [];
}

abbrev pub open_question : NarrowResult
open_question = narrowed unverified unresolved no_narrative

unfoldable pub relation_facts_for : LiveSnapshot → Text → Option RelationFacts
relation_facts_for snapshot requested =
    first (λ (r : RelationFacts). r.requested == requested) snapshot.relations

unfoldable pub type_facts_for : LiveSnapshot → Text → Option TypeFacts
type_facts_for snapshot requested =
    first (λ (t : TypeFacts). t.requested == requested) snapshot.types

unfoldable pub typechange_facts_for : LiveSnapshot → Text → Text → Text → Option TypeChangeFacts
typechange_facts_for snapshot relation column new_type =
    first
      (λ (t : TypeChangeFacts).
        t.relation == relation && (t.column == column && t.new_type_requested == new_type))
      snapshot.type_changes

constraints_read : Fact (List ConstraintFacts) → Option (List ConstraintFacts)
constraints_read (known (some cs)) = some cs
constraints_read _ = none

-- `_constraints_of`, without the reason of a refusal.
unfoldable pub constraints_of : Option RelationFacts → Option (List ConstraintFacts)
unfolding constraints_read
constraints_of none = none
constraints_of (some r) = elim r.exists [
  | missing _ ↦ none
  | known none ↦ constraints_read r.constraints
  | known (some e) ↦ if e then constraints_read r.constraints else none
]
