-- ===== src/Verdict/Duration/Bounds.antt =====
-- The interval of an estimate.
use blastoise.Base.{
  Option-cases, inl, inr, refl, ℕ, ◌*◌, ◌/◌, ◌≤◌, ◌≡◌, Option, some, none, List, [], ◌∷◌, Text,
  arith,
}
use blastoise.Live.{RelationFacts, ServerFacts, CalibrationFacts}
use blastoise.Verdict.Constants.{
  DurationConstant, Family, base_widen_tenths, base_widen_tenths_bounds, duration_constants,
}
use blastoise.Verdict.Model.{
  Method, unverified, statistics_unusable, Duration, DurationEstimate, estimate, cannot_estimate,
}
use blastoise.Verdict.Duration.Staleness.{
  age_widen, mods_widen, staleness, usable_rows, Rows, rows, refused,
}
use blastoise.Verdict.Duration.Estimates.{
  interval_low, interval_high, simulated_estimate, with_rows, estimate_from_rows, Rebuilds,
  add_rebuild, add_rebuilds, estimate_index_rebuilds, estimate_from_bytes, constant_op_estimate,
}

-- An interval holds its point, and no estimate goes below the fixed overhead of 1 to 100 ms.
pub record IsInterval (e : DurationEstimate) : Type 0 where
  pub low_le : e.low_ms ≤ e.point_ms
  pub le_high : e.point_ms ≤ e.high_ms
  pub low_pos : 1 ≤ e.low_ms
  pub overhead : 100 ≤ e.high_ms

interval_low-le : (p w : ℕ) → 10 ≤ w → interval_low p w ≤ p
unfolding interval_low
interval_low-le p w h = grind arith

interval_high-ge : (p w : ℕ) → p ≤ interval_high p w
unfolding interval_high
interval_high-ge p w = omega arith

simulated_estimate-IsInterval :
    (p w : ℕ) (f : Family) → 10 ≤ w → IsInterval (simulated_estimate p w f)
unfolding simulated_estimate
simulated_estimate-IsInterval p w f h = omega (arith, interval_low-le p w h, interval_high-ge p w)

-- The widening factors never narrow an interval.
age_widen-ge : (r : RelationFacts) (server : ServerFacts) → 10 ≤ age_widen r server
unfolding age_widen
age_widen-ge r server = ground arith

mods_widen-ge : (r : RelationFacts) (n m : ℕ) → mods_widen r n ≡ some m → 10 ≤ m
unfolding mods_widen
mods_widen-ge r n m h = ground arith

widened-ge : (b t : ℕ) → 10 ≤ b → 10 ≤ t → 10 ≤ b * t / 10
widened-ge b t h k = grind arith

staleness-ge :
    (r : RelationFacts) (server : ServerFacts) (n t : ℕ) → staleness r server n ≡ some t → 10 ≤ t
unfolding staleness
staleness-ge r server n t h = elim (Option-cases (mods_widen r n)) [
  | inl e ↦ ground arith
  | inr (m, e) ↦ ground (
    arith,
    mods_widen-ge r n m e,
    age_widen-ge r server,
    widened-ge (age_widen r server) m (age_widen-ge r server) (mods_widen-ge r n m e),
  )
]

base_widen_tenths-ge : (c : DurationConstant) → 10 ≤ base_widen_tenths c
base_widen_tenths-ge c = omega (arith, base_widen_tenths_bounds c)

-- A property of the estimate, where there is one.
abbrev pub EstimateHas : (DurationEstimate → Type 0) → Duration → Type 0
EstimateHas P (estimate e) = P e
EstimateHas P (cannot_estimate _ _) = Unit

-- What holds of the estimate for each row count and widening, holds of the guarded estimate.
with_rows-has :
    (P : DurationEstimate → Type 0) (r : RelationFacts) (server : ServerFacts)
    (f : ℕ → ℕ → DurationEstimate)
    → ((n t : ℕ) → 10 ≤ t → P (f n t))
    → EstimateHas P (with_rows r server f)
unfolding with_rows
with_rows-has P r server f h = go (usable_rows r)
  where
    sized :
        (n : ℕ) (t : Option ℕ)
        → staleness r server n ≡ t
        → EstimateHas P (elim t [
          | none ↦ cannot_estimate statistics_unusable unverified
          | some t' ↦ estimate (f n t')
        ])
    sized n none e = tt
    sized n (some t) e = h n t (staleness-ge r server n t e)

    go :
        (u : Rows)
        → EstimateHas P (elim u [
          | refused reason ↦ cannot_estimate reason unverified
          | rows n ↦ elim (staleness r server n) [
            | none ↦ cannot_estimate statistics_unusable unverified
            | some t ↦ estimate (f n t)
          ]
        ])
    go (refused reason) = tt
    go (rows n) = sized n (staleness r server n) refl

-- Every estimate of duration.py is an interval about its point, above the fixed overhead.
pub estimate_from_rows-IsInterval :
    (r : RelationFacts) (server : ServerFacts) (f : Family) (c : Option CalibrationFacts)
    → EstimateHas IsInterval (estimate_from_rows r server f c)
unfolding estimate_from_rows
estimate_from_rows-IsInterval r server f c = with_rows-has IsInterval r server _ λ n t h.
    simulated_estimate-IsInterval _ _ f
      (widened-ge _ t (base_widen_tenths-ge (duration_constants f)) h)

add_rebuilds-base_mono :
    (n : ℕ) (rest : List (Text × Family)) (s : Rebuilds)
    → s.worst_base ≤ (add_rebuilds n s rest).worst_base
unfolding add_rebuilds add_rebuild
add_rebuilds-base_mono n [] s = omega arith
add_rebuilds-base_mono n ((name, f) ∷ rest) s =
    omega (arith, add_rebuilds-base_mono n rest (add_rebuild n s f))

add_rebuilds-base :
    (n : ℕ) (f : Family) (name : Text) (rest : List (Text × Family)) (s : Rebuilds)
    → 10 ≤ (add_rebuilds n s ((name, f) ∷ rest)).worst_base
unfolding add_rebuilds add_rebuild
add_rebuilds-base n f name rest s = omega (
  arith,
  add_rebuilds-base_mono n rest (add_rebuild n s f),
  base_widen_tenths-ge (duration_constants f),
)

-- An estimate of index rebuilds is an interval about its point, above the fixed overhead.
pub estimate_index_rebuilds-IsInterval :
    (r : RelationFacts) (server : ServerFacts) (b : Text × Family) (rest : List (Text × Family))
    (c : Option CalibrationFacts)
    → EstimateHas IsInterval (estimate_index_rebuilds r server b rest c)
unfolding estimate_index_rebuilds
estimate_index_rebuilds-IsInterval r server (name, f) rest c =
    with_rows-has IsInterval r server _ λ n t h.
      simulated_estimate-IsInterval _ _ _ (widened-ge _ t (add_rebuilds-base n f name rest _) h)

estimate_from_bytes-IsInterval :
    (n : ℕ) (f : Family) (c : Option CalibrationFacts) → IsInterval (estimate_from_bytes n f c)
unfolding estimate_from_bytes
estimate_from_bytes-IsInterval n f c =
    simulated_estimate-IsInterval _ _ f (base_widen_tenths-ge (duration_constants f))

constant_op_estimate-IsInterval : (m : Method) → IsInterval (constant_op_estimate m)
unfolding constant_op_estimate interval_low interval_high duration_constants
constant_op_estimate-IsInterval m = omega arith
