-- ===== src/Verdict/Safety/Relabels.antt =====
-- How verdict/engine.py recognises a pure relabel: by the words of the narrative, where
-- verdict/narrow.py has a flag for it.
use blastoise.Base.{
  ◌≡◌, refl, ◌∙◌, ap, true, some, List, [], ◌∷◌, any, arith, inl, inr, drop_prefix, max_by,
}
use blastoise.Verdict.Reversibility.{combine}
use blastoise.Ir.{AlterTableAction, ParsedStatement}
use blastoise.Catalog.{ResolvedLock}
use blastoise.Live.{LiveSnapshot}
use blastoise.Verdict.Model.{
  Narrative, says_no_table_rewrite, render, is_within, RelationLockAssessment, RowAssessment,
  reversible,
}
use blastoise.Verdict.Narrow.{NarrowResult, narrow_action}
use blastoise.Verdict.Narrow.Laws.{narrow_action-IsSound}
use blastoise.Verdict.Engine.{Context, told, apply_narrowing, narrow_relabel, reversibility_of}

told-says :
    (n : Narrative) → says_no_table_rewrite n ≡ true → any says_no_table_rewrite (told n) ≡ true
unfolding says_no_table_rewrite render is_within drop_prefix
told-says Narrative.no_narrative h = absurd (ground arith)
told-says n h = ground arith

relabel-recognised :
    (row : RowAssessment) (n : Narrative)
    → row.narrowings ≡ told n
    → says_no_table_rewrite n ≡ true
    → narrow_relabel row ≡ true
unfolding narrow_relabel
relabel-recognised row n e says = ap (any says_no_table_rewrite) e ∙ told-says n says

recognised-undone :
    (r : ResolvedLock) (row : RowAssessment) (a : AlterTableAction) (s : ParsedStatement)
    → r.of_action ≡ some a
    → narrow_relabel row ≡ true
    → (reversibility_of s ((r, row) ∷ [])).reversibility ≡ reversible
unfolding reversibility_of combine max_by
recognised-undone r row a s acts found = rw (acts, reversibility_of, found) refl

-- A narrowing that is marked a relabel is recognised as one: in the narrowings that the engine
-- makes of it, one has the words "no table rewrite", and a row with these narrowings makes the
-- subcommand reversible.
pub apply_narrowing-relabel :
    (ctx : Context) (r : ResolvedLock) (rs : List RelationLockAssessment) (a : AlterTableAction)
    (s : ParsedStatement) (snapshot : LiveSnapshot) (n : NarrowResult) (row : RowAssessment)
    → narrow_action ctx.evaluate a s snapshot ctx.pg_version ≡ some n
    → n.relabel ≡ true
    → r.of_action ≡ some a
    → row.narrowings ≡ (apply_narrowing ctx r rs n).narrowings
    → (narrow_relabel row ≡ true)
      × ((reversibility_of s ((r, row) ∷ [])).reversibility ≡ reversible)
unfolding apply_narrowing
apply_narrowing-relabel ctx r rs a s snapshot n row h relabel acts e =
    elim (narrow_action-IsSound ctx.evaluate a s snapshot ctx.pg_version n h).0.relabelled [
      | inl unset ↦ absurd (ground arith)
      | inr says ↦
          let found = relabel-recognised row n.narrative e says in
          (found, recognised-undone r row a s acts found)
    ]
