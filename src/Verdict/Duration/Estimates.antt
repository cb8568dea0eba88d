-- ===== src/Verdict/Duration/Estimates.antt =====
-- verdict/duration.py: the estimates. The list of inputs that an estimate carries for the reader is
-- left out. The test of a constant's unit, which raises on an error in the table, is left out too:
-- `rows_family-unit` and `bytes_family-unit` show that it passes for each kind.
use blastoise.Base.{
  ℕ, ◌+◌, ◌*◌, ◌/◌, max, Bool, true, Option, some, none, List, [], ◌∷◌, Text, ltb, leb,
  if◌then◌else◌,
}
use blastoise.Live.{RelationFacts, ServerFacts, CalibrationFacts}
use blastoise.Live.Calibrate.{hardware_factor_tenths}
use blastoise.Verdict.Constants.{
  Family, duration_constants, constant_op, base_widen_tenths, fixed_overhead_low_ms,
  fixed_overhead_point_ms, fixed_overhead_high_ms, widen_constant_op_tenths,
}
use blastoise.Verdict.Model.{
  Method, proven, simulated, unverified, Confidence, high, medium, low, DurationEstimate, Duration,
  estimate, cannot_estimate, statistics_unusable,
}
use blastoise.Verdict.Duration.Staleness.{rows, refused, usable_rows, staleness}

unfoldable pub confidence_of : ℕ → Confidence
confidence_of total_widen_tenths =
    if leb total_widen_tenths 20 then high else if leb total_widen_tenths 60 then medium else low

-- `_interval`
unfoldable pub interval_low : ℕ → ℕ → ℕ
interval_low point_ms widen_tenths = point_ms * 10 / widen_tenths

unfoldable pub interval_high : ℕ → ℕ → ℕ
interval_high point_ms widen_tenths = max (point_ms * widen_tenths / 10) point_ms

unfoldable pub scaled : ℕ → ℕ → ℕ
scaled prop_point_ms hardware_tenths = prop_point_ms * hardware_tenths / 10

-- `_with_overhead`, and the record that the three estimates build from it.
unfoldable pub simulated_estimate : ℕ → ℕ → Family → DurationEstimate
simulated_estimate prop_point total_tenths key = record {
  point_ms = prop_point + fixed_overhead_point_ms;
  low_ms = interval_low prop_point total_tenths + fixed_overhead_low_ms;
  high_ms = interval_high prop_point total_tenths + fixed_overhead_high_ms;
  confidence = confidence_of total_tenths;
  method = simulated;
  constant_key = some key;
}

-- The two refusals that every estimate from rows begins with.
unfoldable pub with_rows : RelationFacts → ServerFacts → (ℕ → ℕ → DurationEstimate) → Duration
with_rows relation server f = elim (usable_rows relation) [
  | refused reason ↦ cannot_estimate reason unverified
  | rows n ↦ elim (staleness relation server n) [
    | none ↦ cannot_estimate statistics_unusable unverified
    | some staleness_tenths ↦ estimate (f n staleness_tenths)
  ]
]

unfoldable pub estimate_from_rows :
    RelationFacts → ServerFacts → Family → Option CalibrationFacts → Duration
estimate_from_rows relation server family calibration =
    let constant = duration_constants family in
    with_rows relation server λ n staleness_tenths.
      simulated_estimate (scaled (n * 1000 / constant.value) (hardware_factor_tenths calibration))
        (base_widen_tenths constant * staleness_tenths / 10) family

-- The variables of the loop over the rebuilds. `slowest_part` starts at -1, here at `none`.
pub record Rebuilds : Type 0 where
  pub prop_point : ℕ
  pub worst_base : ℕ
  pub slowest_key : Family
  pub slowest_part : Option ℕ

unfoldable pub add_rebuild : ℕ → Rebuilds → Family → Rebuilds
add_rebuild n s family =
    let constant = duration_constants family in
    let part : ℕ = n * 1000 / constant.value in
    let slower : Bool = elim s.slowest_part [ none ↦ true | some p ↦ ltb p part ] in
    record {
      prop_point = s.prop_point + part;
      worst_base = max s.worst_base (base_widen_tenths constant);
      slowest_key = if slower then family else s.slowest_key;
      slowest_part = if slower then some part else s.slowest_part;
    }

unfoldable pub add_rebuilds : ℕ → Rebuilds → List (Text × Family) → Rebuilds
add_rebuilds n s [] = s
add_rebuilds n s ((name, family) ∷ rest) = add_rebuilds n (add_rebuild n s family) rest

-- The rebuilds are not empty: the engine asks for this estimate only then.
unfoldable pub estimate_index_rebuilds :
    RelationFacts
    → ServerFacts
    → Text × Family
    → List (Text × Family)
    → Option CalibrationFacts
    → Duration
estimate_index_rebuilds relation server (name, family) rest calibration =
    with_rows relation server λ n staleness_tenths.
      let start : Rebuilds = record {
        prop_point = 0;
        worst_base = 0;
        slowest_key = family;
        slowest_part = none;
      } in
      let s = add_rebuilds n start ((name, family) ∷ rest) in
      simulated_estimate (scaled s.prop_point (hardware_factor_tenths calibration))
        (s.worst_base * staleness_tenths / 10) s.slowest_key

unfoldable pub estimate_from_bytes : ℕ → Family → Option CalibrationFacts → DurationEstimate
estimate_from_bytes size_bytes family calibration =
    let constant = duration_constants family in
    simulated_estimate
      (scaled (size_bytes * 1000 / constant.value) (hardware_factor_tenths calibration))
      (base_widen_tenths constant) family

unfoldable pub constant_op_estimate : Method → DurationEstimate
constant_op_estimate method =
    let constant = duration_constants constant_op in
    record {
      point_ms = constant.value;
      low_ms = interval_low constant.value widen_constant_op_tenths;
      high_ms = interval_high constant.value widen_constant_op_tenths;
      confidence = medium;
      method = method;
      constant_key = some constant_op;
    }

unfoldable pub empty_relation_estimate : DurationEstimate
unfolding constant_op_estimate
empty_relation_estimate = constant_op_estimate proven
