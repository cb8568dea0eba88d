-- ===== src/Verdict/Safety/Statements.antt =====
-- What verdict/engine.py promises of one statement: how its verdict follows from its rows.
use blastoise.Base.{
  ◌≤◌, ◌≡◌, ◌≢◌, false, ◌&&◌, List, [], ◌∷◌, arith, ◌⊎◌, inl, inr, Bool-cases, leb, ltb, All-map,
  if◌then◌else◌, All, Any, max_by,
}
use blastoise.Ir.{Details}
use blastoise.Catalog.{LockMode, level, is_table_lock}
use blastoise.Verdict.Model.{
  safe, worse_classification, unsafe, Verdict, RowAssessment, HeldLock, ReversibilityAssessment,
  irreversible, worse_classification,
}
use blastoise.Verdict.Engine.{
  worst_from, combined_rows, with_opacity, with_reversibility, with_held_locks, statement_verdict,
  is_opaque, highest_mode,
}
use blastoise.Verdict.Safety.Adjustments.{rank}

abbrev pub RankAtMost : Verdict → RowAssessment → Type 0
RankAtMost v row = rank row.verdict ≤ rank v

abbrev pub IsUnsafeRow : RowAssessment → Type 0
IsUnsafeRow row = row.verdict.classification ≡ unsafe

-- One step of the loop over the rows.
abbrev worse : Verdict → RowAssessment → Verdict
worse v r = if leb (rank r.verdict) (rank v) then v else r.verdict

worst_from-ge :
    (v : Verdict) (rows : List RowAssessment)
    → (rank v ≤ rank (worst_from v rows)) × All (RankAtMost (worst_from v rows)) rows
unfolding worst_from
worst_from-ge v [] = (omega arith, tt)
worst_from-ge v (r ∷ rs) =
    let rest = worst_from-ge (worse v r) rs in
    (ground (arith, rest.0), (ground (arith, rest.0), rest.1))

worst_from-unsafe :
    (v : Verdict) (rows : List RowAssessment)
    → (worst_from v rows).classification ≡ unsafe
    → (v.classification ≡ unsafe) ⊎ Any IsUnsafeRow rows
unfolding worst_from
worst_from-unsafe v [] h = inl h
worst_from-unsafe v (r ∷ rs) h = elim (worst_from-unsafe (worse v r) rs h) [
  | inl e ↦ elim (Bool-cases (leb (rank r.verdict) (rank v))) [
    | inl t ↦ inl (ground (arith, e))
    | inr f ↦ inr (inl (ground (arith, e)))
  ]
  | inr later ↦ inr (inr later)
]

combined_rows-ge : (rows : List RowAssessment) → All (RankAtMost (combined_rows rows)) rows
unfolding combined_rows
combined_rows-ge [] = tt
combined_rows-ge (r ∷ rs) = worst_from-ge r.verdict rs

combined_rows-unsafe :
    (rows : List RowAssessment)
    → (combined_rows rows).classification ≡ unsafe
    → Any IsUnsafeRow rows
unfolding combined_rows
combined_rows-unsafe [] h = absurd (ground arith)
combined_rows-unsafe (r ∷ rs) h = worst_from-unsafe r.verdict rs h

module _ (d : Details) (r : ReversibilityAssessment) (held : List HeldLock)
    (rows : List RowAssessment) where
  -- The steps after the loop lower no tier and bring in no UNSAFE.
  statement_verdict-combined :
      (rank (combined_rows rows) ≤ rank (statement_verdict d r held rows))
      × ((statement_verdict d r held rows).classification ≡ unsafe
          → (combined_rows rows).classification ≡ unsafe)
  unfolding statement_verdict with_opacity with_reversibility with_held_locks worse_classification
  statement_verdict-combined = ground arith

  -- The verdict of a statement is at least as bad as the verdict of each of its rows.
  pub statement_verdict-ge : All (RankAtMost (statement_verdict d r held rows)) rows
  statement_verdict-ge =
      All-map (RankAtMost (combined_rows rows)) (RankAtMost (statement_verdict d r held rows))
        (λ row h. omega (arith, statement_verdict-combined.0)) rows (combined_rows-ge rows)

  -- A statement is UNSAFE only for a row that is.
  pub statement_verdict-unsafe :
      (statement_verdict d r held rows).classification ≡ unsafe → Any IsUnsafeRow rows
  statement_verdict-unsafe h = combined_rows-unsafe rows (statement_verdict-combined.1 h)

  -- A statement is SAFE only if it is not known to be irreversible, it has a row, and it is no DO
  -- block with SQL that is built at run time or a body that was not parsed.
  pub statement_verdict-safe :
      (statement_verdict d r held rows).classification ≡ safe
      → (r.reversibility ≢ irreversible) × (is_opaque d ≡ false) × (rows ≢ [])
  unfolding statement_verdict with_opacity with_reversibility with_held_locks worse_classification
      combined_rows max_by
  statement_verdict-safe h = ground arith

-- The lock mode of a row, where it is a table lock, is at most the mode.
abbrev pub ModeAtMost : LockMode → RowAssessment → Type 0
ModeAtMost mode row = (is_table_lock row.lock_mode ≡ false) ⊎ (level row.lock_mode ≤ level mode)

-- The mode of a statement is at least every table lock of its rows.
pub highest_mode-ge :
    (mode : LockMode) (rows : List RowAssessment)
    → (level mode ≤ level (highest_mode mode rows)) × All (ModeAtMost (highest_mode mode rows)) rows
unfolding highest_mode
highest_mode-ge mode [] = (omega arith, tt)
highest_mode-ge mode (r ∷ rs) =
    let next =
      if is_table_lock r.lock_mode && ltb (level mode) (level r.lock_mode)
      then r.lock_mode
      else mode in
    let rest = highest_mode-ge next rs in (ground (arith, rest.0), (ground (arith, rest.0), rest.1))
