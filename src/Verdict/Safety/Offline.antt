-- ===== src/Verdict/Safety/Offline.antt =====
-- Without a snapshot, verdict/engine.py calls a row UNSAFE only where the statement itself fails.
use blastoise.Base.{
  ◌≡◌, ◌≢◌, refl, sym, subst, Bool, true, false, Option, none, List, [], ◌∷◌, arith, ◌&&◌, ◌||◌,
  not, if◌then◌else◌, ◌⊎◌, inl, inr, Option-cases, any,
}
use blastoise.Ir.{StatementKind, Kind, statement, action}
use blastoise.Catalog.{ResolvedLock, DurationModel}
use blastoise.Verdict.Constants.{Family, duration_constants}
use blastoise.Verdict.Model.{
  Classification, unsafe, RelationLockAssessment, Method, Duration, DurationEstimate, estimate,
  cannot_estimate, proven,
}
use blastoise.Verdict.Duration.{empty_relation_estimate, constant_op_estimate, interval_high}
use blastoise.Verdict.Engine.{
  Context, Block, reads, writes, block_type, band_of, boundary_refusal, short_matters,
  rows_estimate, bytes_estimate, proportional_verdict, constant_verdict, generic_verdict,
  matched_dml_verdict, all_rows_dml_verdict, Branch, unavailable, not_modelled, stub, local,
  reading, loading, inserting, matching_dml, whole_table_dml, needing_context, plain,
  forbidden_here, branch, branch_of_kind, is_forbidden, is_unmodelled, is_stub, file_local, decide,
  is_observed, contention_for,
}
use blastoise.Verdict.Safety.Adjustments.{active_conflict_seen}

-- The two branches in which the statement fails.
abbrev pub is_failure : Branch → Bool
is_failure unavailable = true
is_failure forbidden_here = true
is_failure _ = false

-- The statement of the row fails as written: its form does not exist on the version, or it is
-- forbidden in a transaction block, and a DO block or an explicit transaction is around it.
abbrev pub Fails : (Explicit : Type 0) → ResolvedLock → Type 0
Fails Explicit r =
    (r.entry.available ≡ false)
    ⊎ ((is_forbidden r.entry ≡ true) × (Explicit ⊎ (r.in_do_block ≡ true)))

pub Fails-map : {P Q : Type 0} → (P → Q) → (r : ResolvedLock) → Fails P r → Fails Q r
Fails-map f r (inl gone) = inl gone
Fails-map f r (inr (not_allowed, inl p)) = inr (not_allowed, inl (f p))
Fails-map f r (inr (not_allowed, inr d)) = inr (not_allowed, inr d)

branch_of_kind-failure :
    (k : Kind) (m : DurationModel) (b : Branch)
    → is_failure (branch_of_kind k m b) ≡ true
    → is_failure b ≡ true
unfolding branch_of_kind
branch_of_kind-failure (statement StatementKind.insert) m b h = ground arith
branch_of_kind-failure (statement _) m b h = ground arith
branch_of_kind-failure (action _) m b h = h

needed-failure : (needs : Bool) → is_failure (if needs then needing_context else plain) ≡ false
needed-failure true = refl
needed-failure false = refl

-- Below the tests for a failure, no branch is one.
kind-failure :
    (k : Kind) (m : DurationModel) (needs : Bool)
    → ¬ (is_failure (branch_of_kind k m (if needs then needing_context else plain)) ≡ true)
kind-failure k m needs h =
    let e = branch_of_kind-failure k m (if needs then needing_context else plain) h in
    ground (arith, needed-failure needs)

tests-failure :
    (here unmodelled stubbed not_allowed inside here_only : Bool) (b : Branch)
    → ¬ (is_failure b ≡ true)
    → is_failure (
        if not here
        then unavailable
        else if unmodelled
        then not_modelled
        else if stubbed
        then stub
        else if not_allowed && inside
        then forbidden_here
        else if here_only
        then local
        else b)
      ≡ true
    → (here ≡ false) ⊎ ((not_allowed ≡ true) × (inside ≡ true))
tests-failure here unmodelled stubbed not_allowed inside here_only b milder h = ground arith

or_cases : (a b : Bool) → (a || b) ≡ true → (a ≡ true) ⊎ (b ≡ true)
or_cases true b h = inl refl
or_cases false b h = inr h

pub branch-failure :
    (ctx : Context) (r : ResolvedLock) (rs : List RelationLockAssessment)
    → is_failure (branch ctx r rs) ≡ true
    → Fails (ctx.in_explicit_txn ≡ true) r
unfolding branch
branch-failure ctx r rs h =
    elim (tests-failure r.entry.available (is_unmodelled r.entry) (is_stub r.entry)
      (is_forbidden r.entry) (ctx.in_explicit_txn || r.in_do_block) (file_local ctx r rs) _
      (kind-failure r.entry.kind r.entry.duration_model r.entry.requires_live_context) h) [
        | inl gone ↦ inl gone
        | inr (not_allowed, inside) ↦
            inr (not_allowed, or_cases ctx.in_explicit_txn r.in_do_block inside)
      ]

-- No estimate, or the one of an empty relation.
abbrev IsSmall : Duration → Type 0
IsSmall d = (e : DurationEstimate) → d ≡ estimate e → e ≡ empty_relation_estimate

module _ (ctx : Context) (r : ResolvedLock) (offline : ctx.snapshot ≡ none) where
  rows_estimate-IsSmall : (o : Option Family) → IsSmall (rows_estimate ctx r o)
  unfolding rows_estimate
  rows_estimate-IsSmall o e h = ground arith

  bytes_estimate-IsSmall : IsSmall (bytes_estimate ctx r)
  unfolding bytes_estimate
  bytes_estimate-IsSmall e h = ground arith

empty_band : (block : Block) → band_of empty_relation_estimate.high_ms block ≡ Classification.safe
unfolding band_of empty_relation_estimate constant_op_estimate duration_constants interval_high
empty_band reads = refl
empty_band writes = refl

empty_refusal :
    (block : Block) (short : Bool) → boundary_refusal empty_relation_estimate block short ≡ none
unfolding boundary_refusal empty_relation_estimate constant_op_estimate duration_constants
empty_refusal block short = refl

module _ (d : DurationEstimate) (small : IsSmall (estimate d)) where
  small_band : (block : Block) → band_of d.high_ms block ≡ Classification.safe
  small_band block =
      subst (λ e. band_of e.high_ms block ≡ Classification.safe) (sym (small d refl))
        (empty_band block)

  small_refusal : (block : Block) (short : Bool) → boundary_refusal d block short ≡ none
  small_refusal block short =
      subst (λ e. boundary_refusal e block short ≡ none) (sym (small d refl))
        (empty_refusal block short)

proportional_verdict-offline :
    (ctx : Context) (rs : List RelationLockAssessment) (d : Duration) (m : Method)
    → IsSmall d
    → (proportional_verdict ctx rs d m).classification ≢ unsafe
unfolding proportional_verdict
proportional_verdict-offline ctx rs (cannot_estimate reason method) m small = ground arith
proportional_verdict-offline ctx rs (estimate d) m small = elim (Option-cases (block_type rs)) [
  | inl e ↦ ground arith
  | inr (block, e) ↦
      ground
        (arith, small_refusal d small block (short_matters ctx block rs), small_band d small block)
]

all_rows-offline : (d : Duration) → IsSmall d → (all_rows_dml_verdict d).classification ≢ unsafe
unfolding all_rows_dml_verdict
all_rows-offline (cannot_estimate reason method) small = ground arith
all_rows-offline (estimate d) small =
    ground (arith, small_refusal d small writes true, small_band d small writes)

constant_verdict-unsafe :
    (rs : List RelationLockAssessment) (m : Method)
    → (constant_verdict rs m).classification ≢ unsafe
unfolding constant_verdict
constant_verdict-unsafe rs m = ground arith

matched-unsafe :
    (ctx : Context) (r : ResolvedLock) → (matched_dml_verdict ctx r).classification ≢ unsafe
unfolding matched_dml_verdict
matched-unsafe ctx r = ground arith

module _ (ctx : Context) (r : ResolvedLock) (offline : ctx.snapshot ≡ none) where
  generic_verdict-offline :
      (rs : List RelationLockAssessment) → (generic_verdict ctx r rs).1.classification ≢ unsafe
  unfolding generic_verdict
  generic_verdict-offline rs = ground (
    arith,
    constant_verdict-unsafe rs proven,
    proportional_verdict-offline ctx rs (rows_estimate ctx r none) proven
        (rows_estimate-IsSmall ctx r offline none),
    proportional_verdict-offline ctx rs (bytes_estimate ctx r) proven
        (bytes_estimate-IsSmall ctx r offline),
  )

  pub decide-offline :
      (b : Branch) (rs : List RelationLockAssessment)
      → (decide b ctx r rs).verdict.classification ≡ unsafe
      → is_failure b ≡ true
  unfolding decide
  decide-offline unavailable rs h = refl
  decide-offline forbidden_here rs h = refl
  decide-offline matching_dml rs h = absurd (matched-unsafe ctx r h)
  decide-offline whole_table_dml rs h =
      absurd
        (all_rows-offline (rows_estimate ctx r none) (rows_estimate-IsSmall ctx r offline none) h)
  decide-offline plain rs h = absurd (generic_verdict-offline rs h)
  decide-offline needing_context rs h = ground (arith)
  decide-offline not_modelled rs h = ground (arith)
  decide-offline stub rs h = ground (arith)
  decide-offline local rs h = ground (arith)
  decide-offline reading rs h = ground (arith)
  decide-offline loading rs h = ground (arith)
  decide-offline inserting rs h = ground (arith)

pub contention-offline :
    (ctx : Context) (rs : List RelationLockAssessment)
    → ctx.snapshot ≡ none
    → (any is_observed (contention_for ctx rs) ≡ false)
      × (active_conflict_seen (contention_for ctx rs) ≡ false)
unfolding contention_for
contention-offline ctx [] h = (refl, refl)
contention-offline ctx (r ∷ rs) h = ground (arith, contention-offline ctx rs h)
