-- ===== src/Verdict/Safety/Observed.antt =====
-- What `_FileState.observe` of verdict/engine.py records of each kind of statement.
use blastoise.Base.{
  ◌≡◌, ◌≢◌, All, false, some, none, List, [], ◌∷◌, arith, ◌⊎◌, Text, nat_eq, list_eq,
}
use blastoise.Ir.{StatementKind, QualifiedName, parsed, Head, Details, first_target}
use blastoise.Verdict.Engine.{
  Tag, clean, loaded, FileState, state_of, tagged, removed, removed_all, renamed_to, tag_target,
  is_bounded, rename_target, load_target, observe_kind, observe,
}
use blastoise.Verdict.Safety.Created.{text_beq_iff}

module _ (h : Head) (d : Details) (st : FileState) (q : QualifiedName) where
  observe-create :
      (h.kind ≡ StatementKind.create_table) ⊎ (h.kind ≡ StatementKind.create_table_partition_of)
      → first_target h.targets ≡ some q
      → state_of (observe (parsed h d) st) (some q) ≡ some clean
  unfolding observe observe_kind tag_target tagged state_of
  observe-create k e = ground (arith, text_beq_iff q.name q.name)

  -- Rows that come from a query mark a relation of the file as loaded.
  pub observe-load :
      (h.kind ≡ StatementKind.insert)
        ⊎ (h.kind ≡ StatementKind.copy_from)
        ⊎ (h.kind ≡ StatementKind.merge)
      → first_target h.targets ≡ some q
      → st.created q.name ≢ none
      → st.baseline ≡ false
      → is_bounded d ≡ false
      → state_of (observe (parsed h d) st) (some q) ≡ some loaded
  unfolding observe observe_kind load_target tagged state_of
  observe-load k e made base unbounded = ground (arith, text_beq_iff q.name q.name)

  -- A renamed relation keeps its tag under the new name and leaves the old one.
  pub observe-rename :
      (new : Text) (tag : Tag)
      → h.kind ≡ StatementKind.rename_table
      → first_target h.targets ≡ some q
      → renamed_to d ≡ some new
      → st.created q.name ≡ some tag
      → ((observe (parsed h d) st).created new ≡ some tag)
        × (new ≢ q.name → (observe (parsed h d) st).created q.name ≡ none)
  unfolding observe observe_kind rename_target tagged removed
  observe-rename new tag k e r made = ground (
    arith,
    text_beq_iff q.name q.name,
    text_beq_iff q.name new,
    text_beq_iff new new,
    text_beq_iff new q.name,
  )

removed_all-none :
    (qs : List QualifiedName) (st : FileState) (n : Text)
    → st.created n ≡ none
    → (removed_all qs st).created n ≡ none
unfolding removed_all removed
removed_all-none [] st n e = e
removed_all-none (q ∷ qs) st n e = removed_all-none qs (removed q.name st) n (ground (arith, e))

removed_all-gone :
    (qs : List QualifiedName) (st : FileState)
    → All (λ (q : QualifiedName). (removed_all qs st).created q.name ≡ none) qs
unfolding removed_all removed
removed_all-gone [] st = tt
removed_all-gone (q ∷ qs) st = (
  removed_all-none qs (removed q.name st) q.name (ground (arith, text_beq_iff q.name q.name)),
  removed_all-gone qs (removed q.name st),
)

abbrev pub Gone : FileState → QualifiedName → Type 0
Gone st q = st.created q.name ≡ none

-- A dropped relation is no longer the file's own, under any of the names that the DROP lists.
pub observe-drop :
    (h : Head) (d : Details) (st : FileState)
    → h.kind ≡ StatementKind.drop_table
    → All (Gone (observe (parsed h d) st)) h.targets
unfolding observe observe_kind
observe-drop h d st k = rw k (removed_all-gone h.targets st)
