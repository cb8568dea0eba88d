-- ===== src/Verdict/Engine/Contention.antt =====
-- verdict/engine.py `_contention_for`: who waits for a lock on the relation now.
use blastoise.Base.{
  ℕ, Bool, true, false, Option, some, none, List, [], ◌∷◌, ◌++◌, Text, codes, String, ltb, nat_eq,
  list_eq, ◌==◌, contains, keep, if◌then◌else◌, sorted_set, text_lt,
}
use blastoise.Catalog.{
  LockMode, access_share, row_share, row_exclusive, share_update_exclusive, share,
  share_row_exclusive, exclusive, access_exclusive, mode_eq, is_table_lock, conflicts_with,
}
use blastoise.Live.{Fact, known, LockWaiter}
use blastoise.Verdict.Model.{observed, unverified, ContentionAssessment, RelationLockAssessment}
use blastoise.Verdict.Engine.Locks.{Context, resolved_name}

-- `_PG_LOCK_MODES`
pg_lock_modes : List (String × LockMode)
pg_lock_modes =
    ("AccessShareLock", access_share)
    ∷ ("RowShareLock", row_share)
    ∷ ("RowExclusiveLock", row_exclusive)
    ∷ ("ShareUpdateExclusiveLock", share_update_exclusive)
    ∷ ("ShareLock", share)
    ∷ ("ShareRowExclusiveLock", share_row_exclusive)
    ∷ ("ExclusiveLock", exclusive)
    ∷ ("AccessExclusiveLock", access_exclusive)
    ∷ []

mode_named : List (String × LockMode) → Text → Option LockMode
mode_named [] name = none
mode_named ((key, mode) ∷ rest) name = if codes key == name then some mode else mode_named rest name

-- A mode that the catalog does not know counts as conflicting.
unfoldable pub mode_conflicts : List LockMode → Text → Bool
unfolding pg_lock_modes mode_named
mode_conflicts conflicts name = elim (mode_named pg_lock_modes name) [
  | none ↦ true
  | some mode ↦ contains mode conflicts
]

-- The variables of the loop over the waiters.
pub record Seen : Type 0 where
  pub held_modes : List Text
  pub pids : List ℕ
  pub active : Bool

abbrev pub is_known_idle : Fact Bool → Bool
is_known_idle (known (some b)) = b
is_known_idle _ = false

add_waiter : List LockMode → Text → Seen → LockWaiter → Seen
add_waiter conflicts name seen w =
    let found = keep (mode_conflicts conflicts) (w.blocking_modes ++ (w.blocked_mode ∷ [])) in
    if w.relation == name
    then (elim found [
      | [] ↦ seen
      | m ∷ ms ↦ record {
        held_modes = seen.held_modes ++ (m ∷ ms);
        pids = seen.pids ++ (w.blocked_pid ∷ []);
        active = if is_known_idle w.blockers_all_idle then seen.active else true;
      }
    ])
    else seen

unfoldable pub add_waiters : List LockMode → Text → Seen → List LockWaiter → Seen
unfolding add_waiter
add_waiters conflicts name seen [] = seen
add_waiters conflicts name seen (w ∷ ws) =
    add_waiters conflicts name (add_waiter conflicts name seen w) ws

not_observed : Text → ContentionAssessment
not_observed relation = record {
  relation = relation;
  conflicting_lock_held = record { value = none; method = unverified };
  held_conflicting_modes = [];
  waiting_pids = [];
  active_conflict = true;
}

-- Locks are only seen where someone waits, so without a waiter the answer stays open.
from_waiters : Text → Seen → ContentionAssessment
from_waiters relation seen = record {
  relation = relation;
  conflicting_lock_held = record {
    value = elim seen.held_modes [ [] ↦ none | _ ∷ _ ↦ some true ];
    method = observed;
  };
  held_conflicting_modes = sorted_set text_lt seen.held_modes;
  waiting_pids = sorted_set ltb seen.pids;
  active_conflict = seen.active;
}

contention_on : Context → Text → LockMode → ContentionAssessment
unfolding not_observed from_waiters
contention_on ctx relation mode = elim ctx.snapshot [
  | none ↦ not_observed relation
  | some snapshot ↦ elim snapshot.concurrency.lock_waiters [
    | known (some waiters) ↦ from_waiters relation (
        add_waiters (conflicts_with ctx.catalog mode) (resolved_name snapshot relation)
          (record { held_modes = []; pids = []; active = false }) waiters)
    | _ ↦ not_observed relation
  ]
]

unfoldable pub contention_for : Context → List RelationLockAssessment → List ContentionAssessment
unfolding contention_on
contention_for ctx [] = []
contention_for ctx (r ∷ rs) =
    let rest = contention_for ctx rs in
    elim r.relation [
      | none ↦ rest
      | some relation ↦
          if is_table_lock r.lock_mode then contention_on ctx relation r.lock_mode ∷ rest else rest
    ]
