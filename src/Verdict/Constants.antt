-- ===== src/Verdict/Constants.antt =====
-- verdict/constants.py: the throughput constants, the thresholds and the widening factors.
use blastoise.Base.{ℕ, ◌≤◌, min, max, leb, ltb, if◌then◌else◌, arith}
use blastoise.Catalog.{Calibration, calibrated, uncalibrated, measured}

pub data ConstantUnit : Type 0 where
  rows_per_second bytes_per_second fixed_milliseconds : ConstantUnit

-- The text fields `key` and `basis` and the list `per_profile` are not read by the model.
pub record DurationConstant : Type 0 where
  pub unit : ConstantUnit
  pub value : ℕ
  pub calibration : Calibration
  pub runs : ℕ
  pub spread_tenths : ℕ
  pub profiles : ℕ
  pub cross_profile_spread_tenths : ℕ

-- `_c` and `_m`: a guess, and a constant measured on one profile.
abbrev guessed : ConstantUnit → ℕ → DurationConstant
guessed unit value = record {
  unit = unit;
  value = value;
  calibration = uncalibrated;
  runs = 0;
  spread_tenths = 0;
  profiles = 1;
  cross_profile_spread_tenths = 0;
}

abbrev measured_once : ConstantUnit → ℕ → ℕ → ℕ → DurationConstant
measured_once unit value runs spread_tenths = record {
  unit = unit;
  value = value;
  calibration = measured;
  runs = runs;
  spread_tenths = spread_tenths;
  profiles = 1;
  cross_profile_spread_tenths = 0;
}

pub data Family : Type 0 where
  heap_rewrite add_column_rewrite validation_scan fk_validation : Family
  index_build_btree index_build_expression dml_update dml_delete : Family
  index_bytes constant_op : Family

-- The table `DURATION_CONSTANTS`.
unfoldable pub duration_constants : Family → DurationConstant
duration_constants heap_rewrite = measured_once rows_per_second 74_000 2 19
duration_constants add_column_rewrite = measured_once rows_per_second 55_000 2 15
duration_constants validation_scan = measured_once rows_per_second 790_000 2 22
duration_constants fk_validation = measured_once rows_per_second 1_000_000 2 39
duration_constants index_build_btree = measured_once rows_per_second 740_000 2 20
duration_constants index_build_expression = measured_once rows_per_second 170_000 2 15
duration_constants dml_update = measured_once rows_per_second 13_000 2 12
duration_constants dml_delete = measured_once rows_per_second 630_000 2 17
duration_constants index_bytes = measured_once bytes_per_second 7_800_000 2 13
duration_constants constant_op = guessed fixed_milliseconds 10

abbrev pub full_block_short_ms : ℕ
full_block_short_ms = 2_000

abbrev pub full_block_long_ms : ℕ
full_block_long_ms = 20_000

abbrev pub write_block_short_ms : ℕ
write_block_short_ms = 5_000

abbrev pub write_block_long_ms : ℕ
write_block_long_ms = 60_000

abbrev pub band_sub_second_max_ms : ℕ
band_sub_second_max_ms = 1_000

abbrev pub band_seconds_max_ms : ℕ
band_seconds_max_ms = 60_000

abbrev pub band_minutes_max_ms : ℕ
band_minutes_max_ms = 3_600_000

abbrev pub widen_constant_op_tenths : ℕ
widen_constant_op_tenths = 100

abbrev pub fixed_overhead_low_ms : ℕ
fixed_overhead_low_ms = 1

abbrev pub fixed_overhead_point_ms : ℕ
fixed_overhead_point_ms = 10

abbrev pub fixed_overhead_high_ms : ℕ
fixed_overhead_high_ms = 100

abbrev pub widen_uncalibrated_tenths : ℕ
widen_uncalibrated_tenths = 40

abbrev pub widen_measured_single_run_tenths : ℕ
widen_measured_single_run_tenths = 30

abbrev pub widen_measured_drift_floor_tenths : ℕ
widen_measured_drift_floor_tenths = 15

abbrev pub widen_measured_cap_tenths : ℕ
widen_measured_cap_tenths = 20

abbrev pub widen_calibrated_tenths : ℕ
widen_calibrated_tenths = 15

abbrev pub boundary_spread_floor_tenths : ℕ
boundary_spread_floor_tenths = 15

abbrev pub min_profiles_for_cross_spread : ℕ
min_profiles_for_cross_spread = 3

abbrev pub widen_age_fresh_tenths : ℕ
widen_age_fresh_tenths = 10

abbrev pub widen_age_week_tenths : ℕ
widen_age_week_tenths = 15

abbrev pub widen_age_month_tenths : ℕ
widen_age_month_tenths = 20

abbrev pub widen_age_old_tenths : ℕ
widen_age_old_tenths = 30

abbrev pub widen_age_unknown_tenths : ℕ
widen_age_unknown_tenths = 30

abbrev pub widen_mods_unknown_tenths : ℕ
widen_mods_unknown_tenths = 20

abbrev pub widen_mods_cap_tenths : ℕ
widen_mods_cap_tenths = 50

-- The widening that a constant earns from its provenance: 40 tenths for a guess, 15 for one that is
-- calibrated, 30 for one that was measured once, and else its spread between 15 and 20.
unfoldable pub base_widen_tenths : DurationConstant → ℕ
base_widen_tenths c = elim c.calibration [
  | uncalibrated ↦ widen_uncalibrated_tenths
  | calibrated ↦ widen_calibrated_tenths
  | measured ↦
      if ltb c.runs 2
      then widen_measured_single_run_tenths
      else min (max c.spread_tenths widen_measured_drift_floor_tenths) widen_measured_cap_tenths
]

-- The half-width of the strip about a threshold in which a verdict is refused.
unfoldable pub boundary_spread_tenths : DurationConstant → ℕ
boundary_spread_tenths c = elim c.calibration [
  | uncalibrated ↦ widen_uncalibrated_tenths
  | _ ↦
      max
        (if leb min_profiles_for_cross_spread c.profiles then c.cross_profile_spread_tenths else 0)
        boundary_spread_floor_tenths
]

-- No constant's interval is narrower than 1.5 times each way nor wider than 4 times.
pub base_widen_tenths_bounds :
    (c : DurationConstant) → (15 ≤ base_widen_tenths c) × (base_widen_tenths c ≤ 40)
unfolding base_widen_tenths
base_widen_tenths_bounds c = ground arith

pub boundary_spread_tenths-ge : (c : DurationConstant) → 15 ≤ boundary_spread_tenths c
unfolding boundary_spread_tenths
boundary_spread_tenths-ge c = ground arith
