-- ===== src/Tests/Engine.antt =====
-- Rows and statements of verdict/engine.py on concrete inputs.
use blastoise.Base.{◌≡◌, refl, true, false, some, none, any, Any, ◌⊎◌, inl}
use blastoise.Ir.{label}
use blastoise.Catalog.{conflicts_with}
use blastoise.Verdict.Constants.{heap_rewrite, boundary_spread_tenths, duration_constants}
use blastoise.Verdict.Model.{
  Classification, safe, needs_timing, unsafe, in_safe_tiers, high, simulated,
}
use blastoise.Verdict.Engine.{
  assess_row, fresh, has_live_exclusive, live_exclusive, branch, decide, file_local,
  relation_assessments, generic_verdict, block_type, state_of, state_of_label, is_observed,
  add_waiters, mode_conflicts, resolved_name, Boundary, boundary_refusal, reads, band_of,
  row_verdict, cap_for_conditions, escalate_for_contention, floor_for_access_exclusive,
  short_matters, proportional_verdict, rows_estimate, duration_relation, rows_family,
  refused_verdict, contention_for,
}
use blastoise.Verdict.Duration.{
  rows_family_by_kind, estimate_from_rows, usable_rows, staleness, with_rows, mods_widen,
  simulated_estimate, scaled,
}
use blastoise.Verdict.Narrow.{relation_facts_for}
use blastoise.Verdict.Probes.{probe_name, quote_part}
use blastoise.Live.Calibrate.{hardware_factor_tenths}
use blastoise.Verdict.Safety.Bands
use blastoise.Verdict.Safety.Rows
use blastoise.Verdict.Safety.Refusals
use blastoise.Verdict.Model.{DurationEstimate}
use blastoise.Tests.Contexts.{online, contended, cluster, large}

-- An estimate of 21 seconds for a heap rewrite.
abbrev near_line : DurationEstimate
near_line = record {
  point_ms = 21_010;
  low_ms = 15_000;
  high_ms = 30_000;
  confidence = high;
  method = simulated;
  constant_key = some heap_rewrite;
}

abbrev outage_line : Boundary
outage_line = record {
  threshold_ms = 20_000;
  spread_tenths = 15;
  faster = needs_timing;
  slower = unsafe;
  would_be = unsafe;
}

near_line-boundary : boundary_refusal near_line reads false ≡ some outage_line
unfolding boundary_refusal band_of boundary_spread_tenths duration_constants
near_line-boundary = refl

boundary_refusal-IsLine_example :
    Bands.IsLine
      (Bands.strip_low near_line heap_rewrite)
      (Bands.strip_high near_line heap_rewrite)
      reads
      20_000
      needs_timing
      unsafe
boundary_refusal-IsLine_example =
    Bands.boundary_refusal-IsLine near_line reads false heap_rewrite outage_line refl
      near_line-boundary

-- A strip of 200 to 450 seconds, above both lines.
abbrev far_beyond : DurationEstimate
far_beyond = record near_line { point_ms = 300_010 }

far_beyond-clear : boundary_refusal far_beyond reads true ≡ none
unfolding boundary_refusal band_of boundary_spread_tenths duration_constants
far_beyond-clear = refl

boundary_refusal-none_example :
    (band_of (Bands.strip_low far_beyond heap_rewrite) reads
      ≡ band_of (Bands.strip_high far_beyond heap_rewrite) reads)
    ⊎ ((true ≡ false)
        × (band_of (Bands.strip_low far_beyond heap_rewrite) reads ≡ safe)
        × (band_of (Bands.strip_high far_beyond heap_rewrite) reads ≡ needs_timing))
boundary_refusal-none_example =
    Bands.boundary_refusal-none far_beyond reads true heap_rewrite refl far_beyond-clear

online-exclusive : Any (Rows.IsForeignExclusive online) (assess_row online cluster).relations
unfolding assess_row decide branch relation_assessments file_local generic_verdict state_of
    state_of_label fresh label
online-exclusive = inl (refl, refl, refl)

assess_row-exclusive_example :
    in_safe_tiers (assess_row online cluster).verdict.classification ≡ false
assess_row-exclusive_example = Rows.assess_row-exclusive online cluster online-exclusive

contended-observed : any is_observed (assess_row contended cluster).contention ≡ true
unfolding assess_row decide branch relation_assessments file_local generic_verdict state_of
    state_of_label fresh label contention_for add_waiters mode_conflicts resolved_name
    conflicts_with
contended-observed = refl

large-refused : (assess_row large cluster).verdict.refusal ≡ true
unfolding assess_row decide branch relation_assessments file_local generic_verdict state_of
    state_of_label fresh label contention_for add_waiters mode_conflicts resolved_name
    conflicts_with row_verdict cap_for_conditions escalate_for_contention floor_for_access_exclusive
    live_exclusive has_live_exclusive short_matters proportional_verdict rows_estimate
    duration_relation rows_family rows_family_by_kind relation_facts_for probe_name quote_part
    estimate_from_rows usable_rows staleness boundary_refusal refused_verdict boundary_spread_tenths
    duration_constants hardware_factor_tenths block_type with_rows mods_widen simulated_estimate
    scaled
large-refused = refl

assess_row-refusal_example :
    ((assess_row large cluster).verdict.classification ≡ Classification.unknown)
    × Refusals.SidesDiffer (assess_row large cluster).verdict.refused_alternatives
assess_row-refusal_example = Refusals.assess_row-refusal large cluster large-refused
