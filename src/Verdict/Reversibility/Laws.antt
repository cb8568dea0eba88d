-- ===== src/Verdict/Reversibility/Laws.antt =====
-- What the two tables of verdict/reversibility.py promise, entry by entry, and their combination.
use blastoise.Base.{
  ◌≤◌, ◌≡◌, refl, Bool, true, false, inl, inr, subst, sym, [], Option, some, none, String, List,
  ◌∷◌, All, Any, max_by-mem, max_by-ge,
}
use blastoise.Ir.{StatementKind, AlterTableActionKind}
use blastoise.Verdict.Model.{
  Method, proven, unverified, Reversibility, reversible, irreversible, ReversibilityAssessment,
}
use blastoise.Verdict.Reversibility.Statements.{statement_reversibility}
use blastoise.Verdict.Reversibility.Actions.{action_reversibility}
use blastoise.Verdict.Reversibility.Combine.{part_rank, combine}

-- There is a text, and it is not empty.
abbrev is_stated : Option String → Bool
is_stated none = false
is_stated (some String.[]) = false
is_stated (some (String.◌∷◌ c s)) = true

abbrev Honest : Reversibility → Method → Option String → Type 0
Honest reversible m lost = (m ≡ proven) × (lost ≡ none)
Honest irreversible m lost = (m ≡ proven) × (is_stated lost ≡ true)
Honest Reversibility.unknown m lost = (m ≡ unverified) × (lost ≡ none)

-- A loss is stated exactly where the entry is irreversible, and exactly an undecided entry is
-- without proof.
abbrev pub IsHonest : ReversibilityAssessment → Type 0
IsHonest a = Honest a.reversibility a.method a.what_is_lost

statement_reversibility-IsHonest : (k : StatementKind) → IsHonest (statement_reversibility k)
unfolding statement_reversibility
statement_reversibility-IsHonest StatementKind.begin = (refl, refl)
statement_reversibility-IsHonest _ = (refl, refl)

action_reversibility-IsHonest : (k : AlterTableActionKind) → IsHonest (action_reversibility k)
unfolding action_reversibility
action_reversibility-IsHonest AlterTableActionKind.add_column = (refl, refl)
action_reversibility-IsHonest _ = (refl, refl)

-- Every entry of both tables is honest.
pub tables-IsHonest :
    ((k : StatementKind) → IsHonest (statement_reversibility k))
    × ((k : AlterTableActionKind) → IsHonest (action_reversibility k))
tables-IsHonest = (statement_reversibility-IsHonest, action_reversibility-IsHonest)

IsHonest-member :
    (a : ReversibilityAssessment) (parts : List ReversibilityAssessment)
    → Any (λ p. a ≡ p) parts
    → All IsHonest parts
    → IsHonest a
IsHonest-member a [] m h = absurd m
IsHonest-member a (p ∷ parts) (inl e) h = subst IsHonest (sym e) h.0
IsHonest-member a (p ∷ parts) (inr m) h = IsHonest-member a parts m h.1

-- A composite is one of its parts, none is more irreversible, and it is honest if they are.
pub combine_lem :
    (first : ReversibilityAssessment) (rest : List ReversibilityAssessment)
    → All IsHonest (first ∷ rest)
    → Any (λ p. combine first rest ≡ p) (first ∷ rest)
      × All (λ p. part_rank p ≤ part_rank (combine first rest)) (first ∷ rest)
      × IsHonest (combine first rest)
unfolding combine
combine_lem first rest h =
    let m = max_by-mem part_rank first rest _ refl in
    (m, max_by-ge part_rank first rest, IsHonest-member _ (first ∷ rest) m h)
