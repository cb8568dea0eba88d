-- ===== src/Live/Calibrate.antt =====
-- live/calibrate.py: how much slower the target is than the machine of the throughput constants.
use blastoise.Base.{ℕ, Text, ◌+◌, ◌*◌, ◌/◌, ◌≤◌, ◌≡◌, refl, min, max, Option, some, none, arith}
use blastoise.Live.Facts.{Fact, known, missing, CalibrationFacts}

abbrev reference_compute_ms : ℕ
reference_compute_ms = 215

abbrev probe_floor_ms : ℕ
probe_floor_ms = 2

abbrev factor_min_tenths : ℕ
factor_min_tenths = 3

abbrev factor_max_tenths : ℕ
factor_max_tenths = 80

clamp_factor : ℕ → ℕ
clamp_factor tenths = max factor_min_tenths (min factor_max_tenths tenths)

-- `round(10 * reading / 215)`. The quotient is never half-way between two integers, since 20 times
-- the reading is even and an odd multiple of 215 is not, so rounding is to the nearest.
nearest_tenths : ℕ → ℕ
nearest_tenths reading = (20 * reading + reference_compute_ms) / (2 * reference_compute_ms)

compute_factor : Fact ℕ → ℕ
unfolding clamp_factor nearest_tenths
compute_factor (known (some ms)) = clamp_factor (nearest_tenths (max probe_floor_ms ms))
compute_factor _ = 10

-- The number of `hardware_factor_tenths`; its note for the reader is left out.
unfoldable pub hardware_factor_tenths : Option CalibrationFacts → ℕ
unfolding compute_factor
hardware_factor_tenths none = 10
hardware_factor_tenths (some c) = compute_factor c.compute_ms

abbrev pub probe_repeats : ℕ
probe_repeats = 3

abbrev pub compute_probe_rows : ℕ
compute_probe_rows = 500_000

-- live/model.py `unavailable_calibration`.
abbrev pub unavailable_calibration : Text → CalibrationFacts
unavailable_calibration reason = record {
  compute_ms = missing reason;
  repeats = probe_repeats;
  compute_rows = compute_probe_rows;
}

-- The factor lies between 3 and 80 tenths, whatever the probe read.
hardware_factor_tenths_bounds :
    (c : Option CalibrationFacts) → (3 ≤ hardware_factor_tenths c) × (hardware_factor_tenths c ≤ 80)
unfolding hardware_factor_tenths
hardware_factor_tenths_bounds none = omega arith
hardware_factor_tenths_bounds (some c) = ground arith

abbrev pub reading : ℕ → Option CalibrationFacts
reading ms = some (record {
  compute_ms = known (some ms);
  repeats = probe_repeats;
  compute_rows = compute_probe_rows;
})

-- A slower probe never gives a smaller factor, and a probe that reads what the anchor read, or none
-- at all, leaves the estimates as they are.
pub hardware_factor_tenths_mono :
    (a b : ℕ)
    → a ≤ b
    → (hardware_factor_tenths (reading a) ≤ hardware_factor_tenths (reading b))
      × (hardware_factor_tenths (reading 215) ≡ hardware_factor_tenths none)
unfolding hardware_factor_tenths
hardware_factor_tenths_mono a b h = (omega arith, refl)
