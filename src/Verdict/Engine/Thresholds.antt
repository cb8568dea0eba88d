-- ===== src/Verdict/Engine/Thresholds.antt =====
-- verdict/engine.py: what a set of locks blocks, the thresholds of a block, and the refusal of a
-- verdict at a threshold that the hardware decides.
use blastoise.Base.{
  ℕ, ◌*◌, ◌/◌, ◌-◌, Bool, true, false, ◌&&◌, Option, some, none, List, [], ◌∷◌, any, first, ltb,
  leb, nat_beq, if◌then◌else◌,
}
use blastoise.Verdict.Constants.{
  full_block_short_ms, full_block_long_ms, write_block_short_ms, write_block_long_ms,
  fixed_overhead_point_ms, duration_constants, boundary_spread_tenths,
}
use blastoise.Verdict.Model.{
  Method, Classification, safe, needs_timing, unsafe, duration_band, Verdict, DurationEstimate,
  RelationLockAssessment, time_a_copy,
}

-- The strings "reads" and "writes".
pub data Block : Type 0 where
  reads writes : Block

abbrev certain_reads : RelationLockAssessment → Bool
certain_reads r = r.certain && r.blocks_reads

abbrev certain_writes : RelationLockAssessment → Bool
certain_writes r = r.certain && r.blocks_writes

-- `_block_type`
unfoldable pub block_type : List RelationLockAssessment → Option Block
block_type relations =
    if any certain_reads relations
    then some reads
    else if any certain_writes relations
    then some writes
    else none

-- `_thresholds`
abbrev pub short_threshold : Block → ℕ
short_threshold reads = full_block_short_ms
short_threshold writes = write_block_short_ms

abbrev pub long_threshold : Block → ℕ
long_threshold reads = full_block_long_ms
long_threshold writes = write_block_long_ms

-- `_band`
unfoldable pub band_of : ℕ → Block → Classification
band_of high_ms block =
    if ltb high_ms (short_threshold block)
    then safe
    else if ltb high_ms (long_threshold block)
    then needs_timing
    else unsafe

-- `_Boundary`
pub record Boundary : Type 0 where
  pub threshold_ms : ℕ
  pub spread_tenths : ℕ
  pub faster : Classification
  pub slower : Classification
  pub would_be : Classification

-- A threshold with the tiers on its two sides.
pub record Candidate : Type 0 where
  pub threshold : ℕ
  pub below : Classification
  pub above : Classification

abbrev pub candidates : Block → Bool → List Candidate
candidates block short_matters =
    record { threshold = long_threshold block; below = needs_timing; above = unsafe }
    ∷ (if short_matters
        then record { threshold = short_threshold block; below = safe; above = needs_timing } ∷ []
        else [])

-- The strip, low end out and high end in.
abbrev pub in_strip : ℕ → ℕ → Candidate → Bool
in_strip lo hi c = ltb lo c.threshold && leb c.threshold hi

-- The proportional part of the estimate.
abbrev pub strip_point : DurationEstimate → ℕ
strip_point d = d.point_ms - fixed_overhead_point_ms

-- `_boundary_refusal`
unfoldable pub boundary_refusal : DurationEstimate → Block → Bool → Option Boundary
boundary_refusal d block short_matters = elim d.constant_key [
  | none ↦ none
  | some key ↦
      let spread = boundary_spread_tenths (duration_constants key) in
      let point = strip_point d in
      let inside =
        first (in_strip (point * 10 / spread) (point * spread / 10))
          (candidates block short_matters) in
      if nat_beq point 0 then none else (elim inside [
        | none ↦ none
        | some c ↦ some (record {
          threshold_ms = c.threshold;
          spread_tenths = spread;
          faster = c.below;
          slower = c.above;
          would_be = band_of d.high_ms block;
        })
      ])
]

-- A verdict without conditions.
abbrev pub verdict_of : Classification → Method → Verdict
verdict_of classification method = record {
  classification = classification;
  method = method;
  conditions = [];
  band = none;
  refusal = false;
  refused_from = none;
  refused_alternatives = [];
}

-- `_refused_verdict`
unfoldable pub refused_verdict : Boundary → DurationEstimate → Method → Verdict
refused_verdict b d method = record {
  classification = Classification.unknown;
  method = method;
  conditions = time_a_copy b.faster b.slower ∷ [];
  band = some (duration_band d.high_ms);
  refusal = true;
  refused_from = some b.would_be;
  refused_alternatives = b.faster ∷ b.slower ∷ [];
}
