-- ===== src/Verdict/Safety/Rows.antt =====
-- What verdict/engine.py promises of one assessed row.
use blastoise.Base.{
  ◌≡◌, Bool, true, false, ◌&&◌, ◌||◌, none, List, arith, ◌⊎◌, inl, inr, any, Any, [], ◌∷◌, refl,
  keep,
}
use blastoise.Catalog.{ResolvedLock, access_exclusive}
use blastoise.Verdict.Model.{
  Classification, safe, needs_timing, unsafe, in_safe_tiers, Verdict, RelationLockAssessment,
}
use blastoise.Verdict.Engine.{
  Context, has_live_exclusive, live_exclusive, is_live_exclusive, state_of_label, file_local,
  is_forbidden, branch, decide, Decision, is_unmodelled, is_stub, is_observed, contention_for,
  row_verdict, assess_row, relation_assessments, escalate_for_contention, cap_for_conditions,
  cap_for_guard, floor_for_access_exclusive,
}
use blastoise.Verdict.Safety.Adjustments.{
  floor_for_access_exclusive_lem, escalate_for_contention_lem, cap_for_guard_lem,
  active_conflict_seen,
}
use blastoise.Verdict.Safety.Offline.{Fails, branch-failure, decide-offline, contention-offline}

-- The adjustments bring in UNSAFE only for an active conflict that was seen.
module _ (ctx : Context) (conditional : Bool) (d : Decision) where
  abbrev capped : Verdict
  capped = cap_for_conditions d.conditions_extra d.verdict

  abbrev escalated : Verdict
  escalated = escalate_for_contention capped (contention_for ctx d.relations)

  capped-unsafe : capped.classification ≡ unsafe → d.verdict.classification ≡ unsafe
  unfolding cap_for_conditions
  capped-unsafe h = ground arith

  row_verdict-unsafe :
      (row_verdict ctx conditional d).classification ≡ unsafe
      → (d.verdict.classification ≡ unsafe)
        ⊎ (active_conflict_seen (contention_for ctx d.relations) ≡ true)
  unfolding row_verdict
  row_verdict-unsafe h = ground (
    arith,
    capped-unsafe,
    escalate_for_contention_lem capped (contention_for ctx d.relations),
    floor_for_access_exclusive_lem ctx escalated d.relations,
    cap_for_guard_lem (floor_for_access_exclusive ctx escalated d.relations),
  )

  row_verdict-guarded :
      conditional ≡ true
      → ((row_verdict ctx conditional d).classification ≡ Classification.unknown)
        ⊎ ((row_verdict ctx conditional d).classification ≡ needs_timing)
  unfolding row_verdict
  row_verdict-guarded h =
      ground (arith, cap_for_guard_lem (floor_for_access_exclusive ctx escalated d.relations))

  row_verdict-exclusive :
      has_live_exclusive ctx d.relations ≡ true
      → in_safe_tiers (row_verdict ctx conditional d).classification ≡ false
  unfolding row_verdict
  row_verdict-exclusive h = ground (
    arith,
    floor_for_access_exclusive_lem ctx escalated d.relations,
    cap_for_guard_lem (floor_for_access_exclusive ctx escalated d.relations),
  )

  row_verdict-unknown :
      d.verdict.classification ≡ Classification.unknown
      → (row_verdict ctx conditional d).classification ≡ Classification.unknown
  unfolding row_verdict cap_for_conditions escalate_for_contention floor_for_access_exclusive
      cap_for_guard
  row_verdict-unknown h = ground arith

  row_verdict-observed :
      any is_observed (contention_for ctx d.relations) ≡ true
      → in_safe_tiers (row_verdict ctx conditional d).classification ≡ false
  unfolding row_verdict
  row_verdict-observed h = ground (
    arith,
    escalate_for_contention_lem capped (contention_for ctx d.relations),
    floor_for_access_exclusive_lem ctx escalated d.relations,
    cap_for_guard_lem (floor_for_access_exclusive ctx escalated d.relations),
  )

unmodelled_decision :
    (ctx : Context) (r : ResolvedLock) (rs : List RelationLockAssessment)
    → r.entry.available ≡ true
    → (is_unmodelled r.entry || is_stub r.entry) ≡ true
    → (decide (branch ctx r rs) ctx r rs).verdict.classification ≡ Classification.unknown
unfolding decide branch
unmodelled_decision ctx r rs here h = ground arith

-- A certain ACCESS EXCLUSIVE lock on a relation that the file state holds no entry for.
abbrev pub IsForeignExclusive : Context → RelationLockAssessment → Type 0
IsForeignExclusive ctx l =
    (l.lock_mode ≡ access_exclusive)
    × (l.certain ≡ true)
    × (state_of_label ctx.file_state l.relation ≡ none)

foreign-live :
    (ctx : Context) (l : RelationLockAssessment)
    → IsForeignExclusive ctx l
    → (ctx.file_state.baseline ≡ false) × (is_live_exclusive ctx l ≡ true)
unfolding is_live_exclusive state_of_label
foreign-live ctx l h = ground arith

is_filled : List RelationLockAssessment → Bool
is_filled [] = false
is_filled (l ∷ ls) = true

keep-filled :
    (ctx : Context) (ls : List RelationLockAssessment)
    → Any (IsForeignExclusive ctx) ls
    → (ctx.file_state.baseline ≡ false) × (is_filled (keep (is_live_exclusive ctx) ls) ≡ true)
unfolding is_filled
keep-filled ctx [] h = absurd h
keep-filled ctx (l ∷ ls) (inl h) = ((foreign-live ctx l h).0, rw ((foreign-live ctx l h).1) refl)
keep-filled ctx (l ∷ ls) (inr h) = ground (arith, keep-filled ctx ls h)

has_live_exclusive_lem :
    (ctx : Context) (ls : List RelationLockAssessment)
    → Any (IsForeignExclusive ctx) ls
    → has_live_exclusive ctx ls ≡ true
unfolding has_live_exclusive live_exclusive is_filled
has_live_exclusive_lem ctx ls h = ground (arith, keep-filled ctx ls h)

module _ (ctx : Context) (r : ResolvedLock) where
  abbrev locks : List RelationLockAssessment
  locks = relation_assessments ctx r

  abbrev decision : Decision
  decision = decide (branch ctx r locks) ctx r locks

  -- Offline, a row is UNSAFE only where its statement fails.
  pub assess_row-offline :
      ctx.snapshot ≡ none
      → (assess_row ctx r).verdict.classification ≡ unsafe
      → Fails (ctx.in_explicit_txn ≡ true) r
  unfolding assess_row
  assess_row-offline offline h = elim (row_verdict-unsafe ctx r.conditional decision h) [
    | inl e ↦ branch-failure ctx r locks (decide-offline ctx r offline (branch ctx r locks) locks e)
    | inr active ↦ ground (arith, contention-offline ctx decision.relations offline)
  ]

  -- A row among whose locks is a certain ACCESS EXCLUSIVE lock on a relation that the file state
  -- holds no entry for is in no safe tier. The state compares names without their schema, and in a
  -- file that reads as a squash it holds every relation.
  pub assess_row-exclusive :
      Any (IsForeignExclusive ctx) (assess_row ctx r).relations
      → in_safe_tiers (assess_row ctx r).verdict.classification ≡ false
  unfolding assess_row
  assess_row-exclusive h =
      row_verdict-exclusive ctx r.conditional decision
        (has_live_exclusive_lem ctx decision.relations h)

  -- A row of the catalog that is not modelled, or not calibrated, is UNKNOWN whatever is observed.
  pub assess_row-uncalibrated :
      r.entry.available ≡ true
      → (is_unmodelled r.entry || is_stub r.entry) ≡ true
      → (assess_row ctx r).verdict.classification ≡ Classification.unknown
  unfolding assess_row
  assess_row-uncalibrated here h =
      row_verdict-unknown ctx r.conditional decision (unmodelled_decision ctx r locks here h)

  -- A row under an existence guard is never UNSAFE and never in a safe tier.
  pub assess_row-guarded :
      r.conditional ≡ true
      → ((assess_row ctx r).verdict.classification ≡ Classification.unknown)
        ⊎ ((assess_row ctx r).verdict.classification ≡ needs_timing)
  unfolding assess_row
  assess_row-guarded h = row_verdict-guarded ctx r.conditional decision h

  -- A conflicting lock that was seen takes a row out of the safe tiers.
  pub assess_row-observed :
      any is_observed (assess_row ctx r).contention ≡ true
      → in_safe_tiers (assess_row ctx r).verdict.classification ≡ false
  unfolding assess_row
  assess_row-observed h = row_verdict-observed ctx r.conditional decision h

  -- A form that does not exist is UNSAFE, unless a guard may keep it from running.
  pub assess_row-unavailable :
      r.entry.available ≡ false
      → r.conditional ≡ false
      → (assess_row ctx r).verdict.classification ≡ unsafe
  unfolding assess_row branch decide row_verdict cap_for_conditions escalate_for_contention
      floor_for_access_exclusive
  assess_row-unavailable gone h = ground arith

  -- In a file that runs against an empty database a modelled row that may stand there is SAFE.
  pub assess_row-baseline :
      ctx.file_state.baseline ≡ true
      → ctx.snapshot ≡ none
      → r.entry.available ≡ true
      → (is_unmodelled r.entry || is_stub r.entry) ≡ false
      → (is_forbidden r.entry && (ctx.in_explicit_txn || r.in_do_block)) ≡ false
      → r.conditional ≡ false
      → (assess_row ctx r).verdict.classification ≡ safe
  unfolding assess_row branch decide file_local row_verdict cap_for_conditions
      escalate_for_contention floor_for_access_exclusive live_exclusive
  assess_row-baseline base offline here modelled allowed h =
      ground (arith, contention-offline ctx locks offline)
