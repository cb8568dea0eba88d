-- ===== src/Verdict/Model/Tiers.antt =====
-- verdict/model.py: the tiers of a statement and the bands of a lock hold.
use blastoise.Base.{ℕ, String, Bool, true, false, List, ltb, if◌then◌else◌, max_by}
use blastoise.Verdict.Constants.{band_sub_second_max_ms, band_seconds_max_ms, band_minutes_max_ms}

pub data Classification : Type 0 where
  safe safe_irreversible needs_timing unsafe unknown : Classification

-- `SAFE_TIERS`
abbrev pub in_safe_tiers : Classification → Bool
in_safe_tiers safe = true
in_safe_tiers safe_irreversible = true
in_safe_tiers _ = false

-- `_COMBINE_RANK`
abbrev pub combine_rank : Classification → ℕ
combine_rank safe = 0
combine_rank safe_irreversible = 1
combine_rank needs_timing = 2
combine_rank unknown = 3
combine_rank unsafe = 4

-- `worse_classification(first, *rest)`.
unfoldable pub worse_classification : Classification → List Classification → Classification
worse_classification first rest = max_by combine_rank first rest

-- `PRESSURE_LEVELS`, by `pressure_level`: the names for a reader.
abbrev pub pressure_level : Classification → String
pressure_level safe = "Calm Water"
pressure_level safe_irreversible = "One-Way Current"
pressure_level needs_timing = "Rain Check"
pressure_level unsafe = "Hydro Pump"
pressure_level unknown = "Fog"

pub data DurationBand : Type 0 where
  sub_second seconds minutes long : DurationBand

unfoldable pub duration_band : ℕ → DurationBand
duration_band high_ms =
    if ltb high_ms band_sub_second_max_ms
    then sub_second
    else if ltb high_ms band_seconds_max_ms
    then seconds
    else if ltb high_ms band_minutes_max_ms
    then minutes
    else long

pub data Reversibility : Type 0 where
  reversible irreversible unknown : Reversibility
