-- ===== src/Verdict/Safety/Bands.antt =====
-- The thresholds of verdict/engine.py, and what a refusal at one of them means.
use blastoise.Base.{
  ℕ, ◌*◌, ◌/◌, ◌-◌, ◌≤◌, ◌<◌, ◌≡◌, Bool, true, false, Option, some, none, arith, ◌⊎◌, inl, inr,
  Option-cases, first,
}
use blastoise.Verdict.Constants.{
  Family, duration_constants, boundary_spread_tenths, boundary_spread_tenths-ge,
}
use blastoise.Verdict.Model.{Classification, safe, needs_timing, combine_rank, DurationEstimate}
use blastoise.Verdict.Engine.{
  Block, reads, writes, band_of, Boundary, Candidate, candidates, in_strip, strip_point,
  boundary_refusal,
}

-- A longer block is never judged milder.
band_of_mono :
    (block : Block) (x y : ℕ)
    → x ≤ y
    → combine_rank (band_of x block) ≤ combine_rank (band_of y block)
unfolding band_of
band_of_mono reads x y h = ground arith
band_of_mono writes x y h = ground arith

abbrev pub strip_low : DurationEstimate → Family → ℕ
strip_low d key = strip_point d * 10 / boundary_spread_tenths (duration_constants key)

abbrev pub strip_high : DurationEstimate → Family → ℕ
strip_high d key = strip_point d * boundary_spread_tenths (duration_constants key) / 10

-- A threshold inside a strip: the rule by bands gives the two tiers named just below it and at it.
pub record IsLine (lo hi : ℕ) (block : Block) (threshold : ℕ) (faster slower : Classification)
    : Type 0 where
  pub above_low : lo < threshold
  pub below_high : threshold ≤ hi
  pub faster_tier : band_of (threshold - 1) block ≡ faster
  pub slower_tier : band_of threshold block ≡ slower
  pub differ : combine_rank faster < combine_rank slower

inside-IsLine :
    (lo hi : ℕ) (block : Block) (short : Bool) (c : Candidate)
    → first (in_strip lo hi) (candidates block short) ≡ some c
    → IsLine lo hi block c.threshold c.below c.above
unfolding band_of
inside-IsLine lo hi reads true c e = ground arith
inside-IsLine lo hi reads false c e = ground arith
inside-IsLine lo hi writes true c e = ground arith
inside-IsLine lo hi writes false c e = ground arith

-- Outside every strip, the two ends fall in one tier, but for the line that does not matter.
outside-one_tier :
    (lo hi : ℕ) (block : Block) (short : Bool)
    → lo ≤ hi
    → first (in_strip lo hi) (candidates block short) ≡ none
    → (band_of lo block ≡ band_of hi block)
      ⊎ ((short ≡ false) × (band_of lo block ≡ safe) × (band_of hi block ≡ needs_timing))
unfolding band_of
outside-one_tier lo hi reads true h e = ground arith
outside-one_tier lo hi reads false h e = ground arith
outside-one_tier lo hi writes true h e = ground arith
outside-one_tier lo hi writes false h e = ground arith

ordered : (p s : ℕ) → 15 ≤ s → p * 10 / s ≤ p * s / 10
ordered p s h = grind arith

abbrev line_inside : DurationEstimate → Block → Bool → Family → Option Candidate
line_inside d block short key =
    first (in_strip (strip_low d key) (strip_high d key)) (candidates block short)

strip_low-le-high : (d : DurationEstimate) (key : Family) → strip_low d key ≤ strip_high d key
strip_low-le-high d key =
    ordered (strip_point d) (boundary_spread_tenths (duration_constants key))
      (boundary_spread_tenths-ge (duration_constants key))

-- A refusal names a threshold inside the strip, and the tiers that the rule by bands gives just
-- below it and at it.
pub boundary_refusal-IsLine :
    (d : DurationEstimate) (block : Block) (short : Bool) (key : Family) (b : Boundary)
    → d.constant_key ≡ some key
    → boundary_refusal d block short ≡ some b
    → IsLine (strip_low d key) (strip_high d key) block b.threshold_ms b.faster b.slower
unfolding boundary_refusal
boundary_refusal-IsLine d block short key b h e =
    elim (Option-cases (line_inside d block short key)) [
      | inl none_inside ↦ ground arith
      | inr (c, found) ↦
          ground (arith, inside-IsLine (strip_low d key) (strip_high d key) block short c found)
    ]

-- Where the rule refuses nothing to an estimate with a named constant, both ends of its hardware
-- strip fall in one tier; or the line between SAFE and NEEDS_TIMING does not matter, and the ends
-- are on its two sides.
pub boundary_refusal-none :
    (d : DurationEstimate) (block : Block) (short : Bool) (key : Family)
    → d.constant_key ≡ some key
    → boundary_refusal d block short ≡ none
    → (band_of (strip_low d key) block ≡ band_of (strip_high d key) block)
      ⊎ ((short ≡ false)
          × (band_of (strip_low d key) block ≡ safe)
          × (band_of (strip_high d key) block ≡ needs_timing))
unfolding boundary_refusal
boundary_refusal-none d block short key h e = elim (Option-cases (line_inside d block short key)) [
  | inl none_inside ↦
      outside-one_tier (strip_low d key) (strip_high d key) block short (strip_low-le-high d key)
        none_inside
  | inr (c, found) ↦ ground (arith)
]
