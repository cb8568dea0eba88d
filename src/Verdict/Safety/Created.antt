-- ===== src/Verdict/Safety/Created.antt =====
-- What `_FileState` of verdict/engine.py knows: a relation counts as the file's own only where a
-- statement of the file brought it about.
use blastoise.Base.{
  ◌≡◌, ◌≢◌, refl, ◌∙◌, Bool, true, false, Option, some, none, List, [], ◌∷◌, arith, ◌⊎◌, inl, inr,
  Text, nat_eq, list_eq, ◌==◌, Option-cases, Any, ◌↔◌, list_beq_iff,
}
use blastoise.Ir.{
  StatementKind, QualifiedName, ParsedStatement, parsed, Head, Details, do_block_details,
  StatementList, nil, cons, first_target,
}
use blastoise.Verdict.Engine.{
  Tag, clean, loaded, FileState, state_of, tagged, removed, removed_all, renamed_to, tag_target,
  rename_target, load_target, observe_kind, observe_details, observe_all, observe, fresh,
}
use blastoise.Verdict.Safety.BaselineFlag.{observe-baseline}

abbrev TargetName : Option QualifiedName → Text → Type 0
TargetName none n = ⊥
TargetName (some q) n = n ≡ q.name

abbrev IsText : Option Text → Text → Type 0
IsText none n = ⊥
IsText (some t) n = n ≡ t

-- The name is that of a relation which a statement of this kind creates, or renames to.
KindCreates : StatementKind → Head → Details → Text → Type 0
KindCreates StatementKind.create_table h d n = TargetName (first_target h.targets) n
KindCreates StatementKind.create_table_partition_of h d n = TargetName (first_target h.targets) n
KindCreates StatementKind.create_table_as h d n = TargetName (first_target h.targets) n
KindCreates StatementKind.select_into h d n = TargetName (first_target h.targets) n
KindCreates StatementKind.create_matview h d n = TargetName (first_target h.targets) n
KindCreates StatementKind.rename_table h d n = IsText (renamed_to d) n
KindCreates _ h d n = ⊥

mutual
  unfolding KindCreates

  pub Creates : ParsedStatement → Text → Type 0
  Creates (parsed h d) n = KindCreates h.kind h d n ⊎ DetailsCreate d n

  DetailsCreate : Details → Text → Type 0
  DetailsCreate (do_block_details block inner) n = ListCreates inner n
  DetailsCreate _ n = ⊥

  ListCreates : StatementList → Text → Type 0
  ListCreates nil n = ⊥
  ListCreates (cons s rest) n = Creates s n ⊎ ListCreates rest n

-- The file state holds the name.
abbrev Holds : FileState → Text → Type 0
Holds st n = st.created n ≢ none

pub text_beq_iff : (s t : Text) → ((s == t) ≡ true) ↔ (s ≡ t)
text_beq_iff s t = list_beq_iff s t

tagged-cases :
    (name : Text) (tag : Tag) (st : FileState) (n : Text)
    → Holds (tagged name tag st) n
    → Holds st n ⊎ (n ≡ name)
unfolding tagged
tagged-cases name tag st n h = ground (arith, text_beq_iff n name)

removed-cases : (name : Text) (st : FileState) (n : Text) → Holds (removed name st) n → Holds st n
unfolding removed
removed-cases name st n h = ground (arith)

removed_all-cases :
    (qs : List QualifiedName) (st : FileState) (n : Text) → Holds (removed_all qs st) n → Holds st n
unfolding removed_all
removed_all-cases [] st n h = h
removed_all-cases (q ∷ qs) st n h =
    removed-cases q.name st n (removed_all-cases qs (removed q.name st) n h)

tag_target-cases :
    (tag : Tag) (o : Option QualifiedName) (st : FileState) (n : Text)
    → Holds (tag_target tag o st) n
    → Holds st n ⊎ TargetName o n
unfolding tag_target
tag_target-cases tag none st n h = inl h
tag_target-cases tag (some q) st n h = tagged-cases q.name tag st n h

rename_target-cases :
    (o : Option QualifiedName) (new : Option Text) (st : FileState) (n : Text)
    → Holds (rename_target o new st) n
    → Holds st n ⊎ IsText new n
unfolding rename_target
rename_target-cases none new st n h = inl h
rename_target-cases (some q) none st n h = inl h
rename_target-cases (some q) (some new) st n h = elim (Option-cases (st.created q.name)) [
  | inl e ↦ inl (rw (e, rename_target) at h)
  | inr (tag, e) ↦ elim (tagged-cases new tag (removed q.name st) n (rw (e, rename_target) at h)) [
    | inl k ↦ inl (removed-cases q.name st n k)
    | inr k ↦ inr k
  ]
]

load_target-cases :
    (o : Option QualifiedName) (d : Details) (otherwise st : FileState) (n : Text)
    → (Holds otherwise n → Holds st n ⊎ DetailsCreate d n)
    → Holds (load_target o d otherwise st) n
    → Holds st n ⊎ DetailsCreate d n
unfolding load_target tagged
load_target-cases none d otherwise st n k h = k h
load_target-cases (some q) d otherwise st n k h = ground (arith, k, text_beq_iff n q.name)

abbrev Explains : StatementKind → Type 0
Explains k =
    (h : Head) (d : Details) (otherwise st : FileState) (n : Text)
    → (Holds otherwise n → Holds st n ⊎ DetailsCreate d n)
    → Holds (observe_kind k h d otherwise st) n
    → Holds st n ⊎ (KindCreates k h d n ⊎ DetailsCreate d n)

abbrev target_made : {P Q S : Type 0} → (P ⊎ Q) → P ⊎ (Q ⊎ S)
target_made (inl p) = inl p
target_made (inr q) = inr (inl q)

abbrev details_made : {P Q S : Type 0} → (P ⊎ S) → P ⊎ (Q ⊎ S)
details_made (inl p) = inl p
details_made (inr s) = inr (inr s)

observe_kind-cases : (k : StatementKind) → Explains k
unfolding observe_kind KindCreates
observe_kind-cases StatementKind.create_table h d o st n k e =
    target_made (tag_target-cases clean (first_target h.targets) st n e)
observe_kind-cases StatementKind.create_table_partition_of h d o st n k e =
    target_made (tag_target-cases clean (first_target h.targets) st n e)
observe_kind-cases StatementKind.create_table_as h d o st n k e =
    target_made (tag_target-cases loaded (first_target h.targets) st n e)
observe_kind-cases StatementKind.select_into h d o st n k e =
    target_made (tag_target-cases loaded (first_target h.targets) st n e)
observe_kind-cases StatementKind.create_matview h d o st n k e =
    target_made (tag_target-cases loaded (first_target h.targets) st n e)
observe_kind-cases StatementKind.drop_table h d o st n k e =
    inl (removed_all-cases h.targets st n e)
observe_kind-cases StatementKind.rename_table h d o st n k e =
    target_made (rename_target-cases (first_target h.targets) (renamed_to d) st n e)
observe_kind-cases StatementKind.insert h d o st n k e =
    details_made (load_target-cases (first_target h.targets) d o st n k e)
observe_kind-cases StatementKind.copy_from h d o st n k e =
    details_made (load_target-cases (first_target h.targets) d o st n k e)
observe_kind-cases StatementKind.merge h d o st n k e =
    details_made (load_target-cases (first_target h.targets) d o st n k e)
observe_kind-cases _ h d o st n k e = details_made (k e)

mutual
  unfolding observe Creates

  observe-cases :
      (s : ParsedStatement) (st : FileState) (n : Text)
      → Holds (observe s st) n
      → Holds st n ⊎ Creates s n
  observe-cases (parsed h d) st n e =
      observe_kind-cases h.kind h d (observe_details d st) st n (details-cases d st n) e

  details-cases :
      (d : Details) (st : FileState) (n : Text)
      → Holds (observe_details d st) n
      → Holds st n ⊎ DetailsCreate d n
  details-cases (do_block_details block inner) st n e = all-cases inner st n e
  details-cases _ st n e = inl e

  all-cases :
      (ss : StatementList) (st : FileState) (n : Text)
      → Holds (observe_all ss st) n
      → Holds st n ⊎ ListCreates ss n
  all-cases nil st n e = inl e
  all-cases (cons s rest) st n e = elim (all-cases rest (observe s st) n e) [
    | inl k ↦ elim (observe-cases s st n k) [ inl j ↦ inl j | inr c ↦ inr (inl c) ]
    | inr c ↦ inr (inr c)
  ]

abbrev pub observe_file : List ParsedStatement → FileState → FileState
observe_file [] st = st
observe_file (s ∷ ss) st = observe_file ss (observe s st)

observe_file-cases :
    (ss : List ParsedStatement) (st : FileState) (n : Text)
    → Holds (observe_file ss st) n
    → Holds st n ⊎ Any (λ s. Creates s n) ss
observe_file-cases [] st n e = inl e
observe_file-cases (s ∷ ss) st n e = elim (observe_file-cases ss (observe s st) n e) [
  | inl k ↦ elim (observe-cases s st n k) [ inl j ↦ inl j | inr c ↦ inr (inl c) ]
  | inr c ↦ inr (inr c)
]

observe_file-baseline :
    (ss : List ParsedStatement) (st : FileState) → (observe_file ss st).baseline ≡ st.baseline
observe_file-baseline [] st = refl
observe_file-baseline (s ∷ ss) st = observe_file-baseline ss (observe s st) ∙ observe-baseline s st

fresh-empty : (n : Text) → (fresh false).created n ≡ none
unfolding fresh
fresh-empty n = refl

fresh-baseline : (b : Bool) → (fresh b).baseline ≡ b
unfolding fresh
fresh-baseline b = refl

-- In a file that is not baseline-shaped, a relation counts as created by the file only where some
-- statement of the file creates a relation of its name, or renames one to it, whatever the schema.
pub observe_file-created :
    (ss : List ParsedStatement) (q : QualifiedName)
    → state_of (observe_file ss (fresh false)) (some q) ≢ none
    → Any (λ s. Creates s q.name) ss
unfolding state_of
observe_file-created ss q h =
    elim (observe_file-cases ss (fresh false) q.name
      (λ e. h (rw (observe_file-baseline ss (fresh false) ∙ fresh-baseline false) e))) [
        | inl held ↦ absurd (held (fresh-empty q.name))
        | inr made ↦ made
      ]
