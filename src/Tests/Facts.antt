-- ===== src/Tests/Facts.antt =====
-- Facts, estimates and narrowings on concrete inputs.
use blastoise.Base.{
  pos, ◌≡◌, ◌≤◌, refl, ◌⊎◌, true, false, Option, some, none, codes, ◌↔◌, arith, ◌==◌, option_eq,
  list_eq, nat_eq,
}
use blastoise.Ir.{statement, StatementKind}
use blastoise.Live.{known, value, TypeChangeFacts}
use blastoise.Live.Calibrate.{hardware_factor_tenths, reading}
use blastoise.Live.TypeChange.{
  assess_type_change, no_rewrite, unknown, facts_complete, domain_rewrites, parse_type_text,
  decide_change,
}
use blastoise.Live.TypeChange.Laws.{
  assess_type_change-no_rewrite, assess_type_change-unknown, cur_text, new_text, SixRead,
  OneMissing, NoneKnown,
}
use blastoise.Verdict.Constants.{heap_rewrite}
use blastoise.Verdict.Model.{Reason, ReversibilityAssessment}
use blastoise.Verdict.Duration.{estimate_from_rows, rows_family_by_kind}
use blastoise.Verdict.Duration.Bounds.{EstimateHas, IsInterval, estimate_from_rows-IsInterval}
use blastoise.Verdict.Duration.Refusals.{Explains}
use blastoise.Verdict.Reversibility.{statement_reversibility}
use blastoise.Live.TypeChange.{Params, growth_allows, precision_six}
use blastoise.Live.TypeChange.Laws.{IsBounded}
use blastoise.Tests.Samples.{users_facts, server}

-- `varchar(50)` to `text`.
abbrev pub widening : TypeChangeFacts
widening = record {
  relation = codes "users";
  column = codes "email";
  new_type_requested = codes "text";
  current_type = known (some (codes "character varying(50)"));
  current_typmod = known (some (pos 54));
  current_base_type = known (some (codes "character varying(50)"));
  current_is_domain = known (some false);
  current_domain_not_null = known (some false);
  current_domain_constraint_count = known (some 0);
  new_base_type = known (some (codes "text"));
  cast_context = known (some (codes "i"));
  new_type = known (some (codes "text"));
  new_is_domain = known (some false);
  new_domain_not_null = known none;
  new_domain_constraint_count = known none;
  new_domain_has_typmod = known none;
  same_type = known (some false);
  bases_same = known (some false);
  cast_method = known (some (codes "b"));
}

widening-free : assess_type_change 16 false widening ≡ no_rewrite
unfolding assess_type_change facts_complete parse_type_text decide_change domain_rewrites
widening-free = refl

assess_type_change-no_rewrite_example :
    (false ≡ false)
    × SixRead widening
    × NoneKnown widening
    × ((value widening.bases_same ≡ some true)
        ⊎ ((value widening.cast_method == some (codes "b")) ≡ true))
assess_type_change-no_rewrite_example =
    assess_type_change-no_rewrite 16 false widening widening-free

assess_type_change-unknown_example : (assess_type_change 16 false widening ≡ unknown) ↔ (
    (false ≡ false)
    × (OneMissing widening ⊎ ((cur_text widening ≡ none) ⊎ (new_text widening ≡ none))))
assess_type_change-unknown_example = assess_type_change-unknown 16 false widening

estimate_from_rows-IsInterval_example :
    EstimateHas IsInterval (estimate_from_rows (users_facts 1_000) server heap_rewrite none)
estimate_from_rows-IsInterval_example =
    estimate_from_rows-IsInterval (users_facts 1_000) server heap_rewrite none

users_usable : (reason : Reason) → ¬ Explains reason (users_facts 1_000)
users_usable Reason.existence_unknown h = ground arith
users_usable _ h = ground arith

slower : hardware_factor_tenths none ≤ hardware_factor_tenths (reading 430)
unfolding hardware_factor_tenths
slower = omega arith

cluster_family : rows_family_by_kind (statement StatementKind.cluster) ≡ some heap_rewrite
unfolding rows_family_by_kind
cluster_family = refl

abbrev first : ReversibilityAssessment
first = statement_reversibility StatementKind.cluster

abbrev second : ReversibilityAssessment
second = statement_reversibility StatementKind.drop_table

-- `timestamp(3)` to `timestamp` to `timestamp(6)`.
abbrev three : Option Params
three = some (record { precision = 3; scale = none })

abbrev six : Option Params
six = some (record { precision = 6; scale = none })

three-IsBounded : IsBounded precision_six three
three-IsBounded = omega arith

six-allowed : growth_allows precision_six none six ≡ true
unfolding growth_allows
six-allowed = refl

bare-allowed : growth_allows precision_six three none ≡ true
unfolding growth_allows
bare-allowed = refl
