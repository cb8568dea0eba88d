-- ===== src/Parser/SelfContained.antt =====
-- What `_baseline_shaped` promises: a file that it accepts creates, before each statement, every
-- relation that the statement needs.
use blastoise.Base.{
  ◌≡◌, refl, ap, subst, sym, ◌∙◌, true, Option, some, none, List, [], ◌∷◌, ◌++◌, map, length,
  contains, Any, All, Text, list_eq, nat_eq, list_beq_iff, ◌≤◌, arith, inl, inr, Bool-cases,
}
use mathlib.Core.List.{append_assoc, append-nil}
use blastoise.Ir.{
  ParsedStatement, head, details, Details, QualifiedName, create_table_details, index_details,
  rename_details,
}
use blastoise.Parser.Baseline.{
  Use, creates, references, drops, neither, use_of, name_of, all_created, parent_created, add_name,
  add_reference, may_be_missing, baseline_step, baseline_from, baseline_shaped,
}
use blastoise.Parser.Needs.{parent_of, needs_by, needs, needs_of_lem}

-- The names that a statement brings in.
abbrev makes_by : Use → List QualifiedName → Details → List Text
makes_by creates targets d = map name_of targets
makes_by references targets d = add_reference d []
makes_by drops targets d = []
makes_by neither targets d = []

abbrev pub makes : ParsedStatement → List Text
makes s = makes_by (use_of (head s).kind) (head s).targets (details s)

-- What a file has made, the latest first.
abbrev pub made : List ParsedStatement → List Text
made [] = []
made (s ∷ ss) = made ss ++ makes s

abbrev own_by : Use → List QualifiedName → List Text
own_by creates targets = map name_of targets
own_by _ targets = []

abbrev pub own : ParsedStatement → List Text
own s = own_by (use_of (head s).kind) (head s).targets

abbrev pub Among : List Text → Text → Type 0
Among names t = Any (λ m. t ≡ m) names

contains-Among : (t : Text) (names : List Text) → contains t names ≡ true → Among names t
contains-Among t [] h = cc
contains-Among t (m ∷ names) h = elim (Bool-cases (list_eq.same t m)) [
  | inl e ↦ inl ((list_beq_iff t m).0 e)
  | inr f ↦ inr (contains-Among t names (rw f at h))
]

all_created-Among :
    (created : List Text) (qs : List QualifiedName)
    → all_created created qs ≡ true
    → All (Among created) (map name_of qs)
all_created-Among created [] h = tt
all_created-Among created (q ∷ qs) h =
    (contains-Among q.name created (ground arith), all_created-Among created qs (ground arith))

parent_sound :
    (created : List Text) (d : Details)
    → parent_created created d ≡ true
    → All (Among created) (parent_of d)
unfolding parent_created
parent_sound created (create_table_details d) h = go d.partition_of h
  where
    go :
        (o : Option QualifiedName)
        → elim o [ none ↦ true | some parent ↦ contains (name_of parent) created ] ≡ true
        → All (Among created) (elim o [ none ↦ [] | some q ↦ q.name ∷ [] ])
    go none k = tt
    go (some q) k = (contains-Among q.name created k, tt)
parent_sound created _ h = tt

step_sound :
    (u : Use) (targets : List QualifiedName) (d : Details) (created : List Text)
    → (baseline_step u targets d created).0 ≡ true
    → All (Among (own_by u targets ++ created)) (needs_by u targets d)
unfolding baseline_step
step_sound creates targets d created h = parent_sound (map name_of targets ++ created) d h
step_sound references targets d created h = all_created-Among created targets h
step_sound drops targets d created h = elim (Bool-cases (may_be_missing d)) [
  | inl t ↦ rw t tt
  | inr f ↦ rw f (all_created-Among created targets (rw f at h))
]
step_sound neither targets d created h = tt

add_name-append :
    (o : Option Text) (created : List Text) → add_name o created ≡ add_name o [] ++ created
unfolding add_name
add_name-append none created = refl
add_name-append (some []) created = refl
add_name-append (some (c ∷ cs)) created = refl

add_reference-append :
    (d : Details) (created : List Text) → add_reference d created ≡ add_reference d [] ++ created
unfolding add_reference
add_reference-append (index_details d) created = add_name-append d.index_name created
add_reference-append (rename_details d) created = add_name-append d.new_name created
add_reference-append _ created = refl

step_made :
    (u : Use) (targets : List QualifiedName) (d : Details) (created : List Text)
    → (baseline_step u targets d created).1 ≡ makes_by u targets d ++ created
unfolding baseline_step
step_made creates targets d created = refl
step_made references targets d created = add_reference-append d created
step_made drops targets d created = refl
step_made neither targets d created = refl

baseline_from_sound :
    (created : List Text) (before : List ParsedStatement) (s : ParsedStatement)
    (later : List ParsedStatement)
    → baseline_from created (before ++ s ∷ later) ≡ true
    → All
        (Among (own s ++ (made before ++ created)))
        (needs_by (use_of (head s).kind) (head s).targets (details s))
unfolding baseline_from
baseline_from_sound created [] s later h =
    step_sound (use_of (head s).kind) (head s).targets (details s) created (ground arith)
baseline_from_sound created (p ∷ ps) s later h =
    let next = baseline_step (use_of (head p).kind) (head p).targets (details p) created in
    let grown = step_made (use_of (head p).kind) (head p).targets (details p) created in
    subst
      (λ (names : List Text).
        All (Among (own s ++ names)) (needs_by (use_of (head s).kind) (head s).targets (details s)))
      (ap (λ (names : List Text). made ps ++ names) grown ∙ sym (append_assoc (made ps) _ created))
      (baseline_from_sound next.1 ps s later (ground arith))

pub baseline_shaped_sound :
    (before : List ParsedStatement) (s : ParsedStatement) (later : List ParsedStatement)
    → baseline_shaped (before ++ s ∷ later) ≡ true
    → (50 ≤ length (before ++ s ∷ later)) × All (Among (own s ++ made before)) (needs s)
unfolding baseline_shaped
baseline_shaped_sound before s later h = (
  ground arith,
  subst (All (Among (own s ++ made before)))
      (sym (needs_of_lem (head s).kind (head s).targets (details s)))
      (subst
        (λ (names : List Text).
          All (Among (own s ++ names))
            (needs_by (use_of (head s).kind) (head s).targets (details s)))
        (append-nil (made before)) (baseline_from_sound [] before s later (ground arith))),
)
