-- ===== src/Verdict/Safety/BaselineFlag.antt =====
-- The baseline flag of `_FileState` in verdict/engine.py under the statements of a file.
use blastoise.Base.{◌≡◌, refl, ◌∙◌, List, [], ◌∷◌, arith, nat_eq, list_eq}
use blastoise.Ir.{
  StatementKind, QualifiedName, ParsedStatement, parsed, Head, Details, do_block_details,
  StatementList, nil, cons,
}
use blastoise.Verdict.Engine.{
  FileState, tagged, removed, removed_all, tag_target, rename_target, load_target, observe_kind,
  observe_details, observe_all, observe,
}

-- A statement does not change whether the file is baseline-shaped.
removed_all-baseline :
    (qs : List QualifiedName) (st : FileState) → (removed_all qs st).baseline ≡ st.baseline
unfolding removed_all removed
removed_all-baseline [] st = refl
removed_all-baseline (q ∷ qs) st = removed_all-baseline qs (removed q.name st)

observe_kind-baseline :
    (k : StatementKind) (h : Head) (d : Details) (o st : FileState)
    → o.baseline ≡ st.baseline
    → (observe_kind k h d o st).baseline ≡ st.baseline
unfolding observe_kind tag_target rename_target load_target tagged removed
observe_kind-baseline StatementKind.create_table h d o st e = ground arith
observe_kind-baseline StatementKind.create_table_partition_of h d o st e = ground arith
observe_kind-baseline StatementKind.create_table_as h d o st e = ground arith
observe_kind-baseline StatementKind.select_into h d o st e = ground arith
observe_kind-baseline StatementKind.create_matview h d o st e = ground arith
observe_kind-baseline StatementKind.drop_table h d o st e = removed_all-baseline h.targets st
observe_kind-baseline StatementKind.rename_table h d o st e = ground arith
observe_kind-baseline StatementKind.insert h d o st e = ground arith
observe_kind-baseline StatementKind.copy_from h d o st e = ground arith
observe_kind-baseline StatementKind.merge h d o st e = ground arith
observe_kind-baseline _ h d o st e = e

mutual
  unfolding observe

  pub observe-baseline :
      (s : ParsedStatement) (st : FileState) → (observe s st).baseline ≡ st.baseline
  observe-baseline (parsed h d) st =
      observe_kind-baseline h.kind h d (observe_details d st) st (details-baseline d st)

  details-baseline : (d : Details) (st : FileState) → (observe_details d st).baseline ≡ st.baseline
  details-baseline (do_block_details block inner) st = all-baseline inner st
  details-baseline _ st = refl

  all-baseline : (ss : StatementList) (st : FileState) → (observe_all ss st).baseline ≡ st.baseline
  all-baseline nil st = refl
  all-baseline (cons s rest) st = all-baseline rest (observe s st) ∙ observe-baseline s st
