-- ===== src/Verdict/Duration/Refusals.antt =====
-- When an estimate from rows is refused, and how it depends on the target's hardware.
use blastoise.Base.{
  ℕ, to_ℕ, ◌/◌, ◌≤◌, ◌<◌, ◌≡◌, refl, ◌⊎◌, false, Option, some, none, arith, Option-cases, inl, inr,
  subst,
}
use blastoise.Ir.{Kind, statement, action, StatementKind, AlterTableActionKind}
use blastoise.Live.{known, available, value, RelationFacts, ServerFacts, CalibrationFacts}
use blastoise.Live.Calibrate.{hardware_factor_tenths}
use blastoise.Verdict.Constants.{Family, duration_constants, rows_per_second, bytes_per_second}
use blastoise.Verdict.Model.{
  Method, unverified, Reason, existence_unknown, does_not_exist, no_row_estimate, never_analyzed,
  statistics_unusable, Duration, DurationEstimate, estimate, cannot_estimate,
}
use blastoise.Verdict.Duration.Families.{rows_family_by_kind, bytes_family_by_kind}
use blastoise.Verdict.Duration.Staleness.{Rows, rows, refused, usable_rows, mods_widen, staleness}
use blastoise.Verdict.Duration.Estimates.{
  interval_low, interval_high, scaled, simulated_estimate, with_rows, estimate_from_rows,
}

-- The row count of the statistics, not below 0.
abbrev pub row_count : RelationFacts → Option ℕ
row_count r = elim (value r.reltuples) [ none ↦ none | some n ↦ some (to_ℕ n) ]

-- More than ten times as many rows were modified as the statistics count.
abbrev pub Swamped : Option ℕ → Option ℕ → Type 0
Swamped (some n) (some m) = (0 < m) × (n < m / 10)
Swamped _ _ = ⊥

-- The fact that is missing or unusable, for each reason of duration.py.
abbrev pub Explains : Reason → RelationFacts → Type 0
Explains existence_unknown r = available r.exists ≡ false
Explains does_not_exist r = r.exists ≡ known (some false)
Explains no_row_estimate r = value r.reltuples ≡ none
Explains never_analyzed r =
    (row_count r ≡ some 0) × (r.last_analyze ≡ known none) × (r.last_autoanalyze ≡ known none)
Explains statistics_unusable r = Swamped (row_count r) (value r.n_mod_since_analyze)
Explains _ r = ⊥

usable_rows-refused :
    (r : RelationFacts) (reason : Reason) → usable_rows r ≡ refused reason → Explains reason r
unfolding usable_rows
usable_rows-refused r existence_unknown h = ground arith
usable_rows-refused r _ h = ground arith

usable_rows-rows : (r : RelationFacts) (n : ℕ) → usable_rows r ≡ rows n → row_count r ≡ some n
unfolding usable_rows
usable_rows-rows r n h = ground arith

staleness-none :
    (r : RelationFacts) (server : ServerFacts) (n : ℕ)
    → staleness r server n ≡ none
    → Swamped (some n) (value r.n_mod_since_analyze)
unfolding staleness mods_widen
staleness-none r server n h = ground arith

Rows-cases : (u : Rows) → ((reason : Reason) × (u ≡ refused reason)) ⊎ ((n : ℕ) × (u ≡ rows n))
Rows-cases (refused reason) = inl (reason, refl)
Rows-cases (rows n) = inr (n, refl)

module _ (r : RelationFacts) (server : ServerFacts) (f : ℕ → ℕ → DurationEstimate) (reason : Reason)
    (m : Method) (h : with_rows r server f ≡ cannot_estimate reason m) where
  refused_early :
      (reason' : Reason) → usable_rows r ≡ refused reason' → (reason' ≡ reason) × (m ≡ unverified)
  unfolding with_rows
  refused_early reason' e = ground arith

  refused_late :
      (n : ℕ)
      → usable_rows r ≡ rows n
      → (statistics_unusable ≡ reason) × (m ≡ unverified) × (staleness r server n ≡ none)
  unfolding with_rows
  refused_late n e = ground arith

  with_rows-refused : Explains reason r × (m ≡ unverified)
  with_rows-refused = elim (Rows-cases (usable_rows r)) [
    | inl (reason', e) ↦
        let (same, weak) = refused_early reason' e in
        (subst (λ x. Explains x r) same (usable_rows-refused r reason' e), weak)
    | inr (n, e) ↦
        let (same, weak, s) = refused_late n e in
        (
          subst (λ x. Explains x r) same
              (rw (usable_rows-rows r n e) (staleness-none r server n s)),
          weak,
        )
  ]

-- A refusal names a fact that is missing or unusable, and claims no evidence.
estimate_from_rows-refused :
    (r : RelationFacts) (server : ServerFacts) (f : Family) (c : Option CalibrationFacts)
    (reason : Reason) (m : Method)
    → estimate_from_rows r server f c ≡ cannot_estimate reason m
    → Explains reason r × (m ≡ unverified)
unfolding estimate_from_rows
estimate_from_rows-refused r server f c reason m h = with_rows-refused r server _ reason m h

Duration-cases :
    (d : Duration)
    → ((e : DurationEstimate) × (d ≡ estimate e))
      ⊎ ((reason : Reason) × (m : Method) × (d ≡ cannot_estimate reason m))
Duration-cases (estimate e) = inl (e, refl)
Duration-cases (cannot_estimate reason m) = inr (reason, m, refl)

-- Where no fact is missing or unusable there is an estimate.
pub estimate_from_rows-total :
    (r : RelationFacts) (server : ServerFacts) (f : Family) (c : Option CalibrationFacts)
    → ((reason : Reason) → ¬ Explains reason r)
    → (e : DurationEstimate) × (estimate_from_rows r server f c ≡ estimate e)
estimate_from_rows-total r server f c usable =
    elim (Duration-cases (estimate_from_rows r server f c)) [
      | inl found ↦ found
      | inr (reason, m, e) ↦
          absurd (usable reason (estimate_from_rows-refused r server f c reason m e).0)
    ]

-- The order of the two estimates, or the same refusal twice.
abbrev pub NoLonger : Duration → Duration → Type 0
NoLonger (estimate a) (estimate b) =
    (a.point_ms ≤ b.point_ms) × (a.low_ms ≤ b.low_ms) × (a.high_ms ≤ b.high_ms)
NoLonger (cannot_estimate a _) (cannot_estimate b _) = a ≡ b
NoLonger _ _ = ⊥

scaled_mono : (p h k : ℕ) → h ≤ k → scaled p h ≤ scaled p k
unfolding scaled
scaled_mono p h k le = grind arith

simulated_estimate_mono :
    (p q w : ℕ) (f : Family)
    → p ≤ q
    → NoLonger (estimate (simulated_estimate p w f)) (estimate (simulated_estimate q w f))
unfolding simulated_estimate interval_low interval_high
simulated_estimate_mono p q w f h = (omega arith, grind arith, grind arith)

with_rows-NoLonger :
    (r : RelationFacts) (server : ServerFacts) (f g : ℕ → ℕ → DurationEstimate)
    → ((n t : ℕ) → NoLonger (estimate (f n t)) (estimate (g n t)))
    → NoLonger (with_rows r server f) (with_rows r server g)
unfolding with_rows
with_rows-NoLonger r server f g h = elim (Rows-cases (usable_rows r)) [
  | inl (reason, e) ↦ rw (e, with_rows) refl
  | inr (n, e) ↦ elim (Option-cases (staleness r server n)) [
    | inl e' ↦ rw (e, e', with_rows) refl
    | inr (t, e') ↦ rw (e, e', with_rows) (h n t)
  ]
]

-- On slower hardware no estimate is shorter, and the same facts are refused.
pub estimate_from_rows-hardware :
    (r : RelationFacts) (server : ServerFacts) (f : Family) (c d : Option CalibrationFacts)
    → hardware_factor_tenths c ≤ hardware_factor_tenths d
    → NoLonger (estimate_from_rows r server f c) (estimate_from_rows r server f d)
unfolding estimate_from_rows
estimate_from_rows-hardware r server f c d h =
    with_rows-NoLonger r server _ _ (λ n t. simulated_estimate_mono _ _ _ f (scaled_mono _ _ _ h))

-- The unit check of the estimates from rows passes for the family of each kind.
pub rows_family-unit :
    (k : Kind) (f : Family)
    → rows_family_by_kind k ≡ some f
    → (duration_constants f).unit ≡ rows_per_second
unfolding rows_family_by_kind duration_constants
rows_family-unit (statement StatementKind.begin) f h = ground arith
rows_family-unit (statement _) f h = ground arith
rows_family-unit (action AlterTableActionKind.add_column) f h = ground arith
rows_family-unit (action _) f h = ground arith

bytes_family-unit :
    (k : Kind) (f : Family)
    → bytes_family_by_kind k ≡ some f
    → (duration_constants f).unit ≡ bytes_per_second
unfolding bytes_family_by_kind duration_constants
bytes_family-unit (statement StatementKind.reindex) f h = ground arith
bytes_family-unit (statement _) f h = ground arith
bytes_family-unit (action _) f h = ground arith
