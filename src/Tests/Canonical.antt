-- ===== src/Tests/Canonical.antt =====
-- Runs of the theorems on the canonical serialisation and on the totals of a run.
use blastoise.Base.{
  ◌+◌, ◌↔◌, nat_eq, ◌≡◌, ◌≢◌, refl, true, false, list_beq_iff, arith, some, none, [], ◌∷◌, length,
  codes, pos,
}
use blastoise.Verdict.Model.{unsafe}
use blastoise.Report.Model.{block}
use blastoise.Live.Canonical.{
  Value, integer, dict, sequence, no_entries, entry, no_values, value, text_key, Json, number,
  string, object, no_members, member, normalize, print, print_text, print_number, unicode, digits,
  sort_keys, dumps,
}
use blastoise.Live.Canonical.Sorting.{in_object, swap, dumps-Reordered, dumps-injective}
use blastoise.Live.Canonical.Accepted.{Inside, IsAccepted, is_plain, normalize-IsAccepted}
use blastoise.Ci.{assessed, error}
use blastoise.Ci.Summary.{
  CiRun, count, get_count, totals, assessed_files, unsupported_files, error_files, tier_value,
}
use blastoise.Ci.Totals.{sum_over, totals-sum}
use blastoise.Tests.Samples.{outcome_of, snapshot_with, waiter}
use blastoise.Live.{known, missing}
use blastoise.Live.Canonical.{snapshot_json, text}
use blastoise.Live.Canonical.Plain.{fields, fact_value}
use blastoise.Live.Canonical.Complete.{snapshot_json-IsAccepted}

-- {"size": 120, "name": "é"}, and the members the other way about.
abbrev size_first : Json
size_first = object (
    member (codes "size") (number (pos 120))
      (member (codes "name") (string (codes "é")) no_members))

abbrev name_first : Json
name_first = object (
    member (codes "name") (string (codes "é"))
      (member (codes "size") (number (pos 120)) no_members))

size_first-text : dumps size_first ≡ codes "{\"name\":\"\\u00e9\",\"size\":120}"
unfolding dumps print print_text print_number digits unicode sort_keys
size_first-text = refl

one_text : dumps size_first ≡ dumps name_first
unfolding dumps print print_text print_number digits unicode sort_keys
one_text = refl

dumps-injective_example : sort_keys size_first ≡ sort_keys name_first
dumps-injective_example = dumps-injective size_first name_first refl refl one_text

keys-differ : codes "size" ≢ codes "name"
keys-differ e =
    let found : false ≡ true = (list_beq_iff (codes "size") (codes "name")).1 e in ground arith

dumps-Reordered_example : dumps size_first ≡ dumps name_first
dumps-Reordered_example = dumps-Reordered size_first name_first (in_object (swap keys-differ))

-- {"pids": [7]}
abbrev pids : Value
pids =
    dict (entry (text_key (codes "pids")) (sequence (value (integer (pos 7)) no_values)) no_entries)

normalize-IsAccepted_example :
    IsAccepted (normalize pids) ↔ ((w : Value) → Inside w pids → is_plain w ≡ true)
normalize-IsAccepted_example = normalize-IsAccepted pids

snapshot_json-IsAccepted_example : IsAccepted (snapshot_json (snapshot_with 120 (waiter ∷ [])))
snapshot_json-IsAccepted_example = snapshot_json-IsAccepted (snapshot_with 120 (waiter ∷ []))

-- A null that was read, and a fact that was not.
facts-differ :
    normalize (fact_value text (known none))
    ≢ normalize (fact_value text (missing (codes "denied")))
unfolding normalize fields
facts-differ = λ e. cc

abbrev a_run : CiRun
a_run = record {
  outcomes =
      outcome_of assessed (some block) ∷ outcome_of error none ∷ outcome_of assessed none ∷ [];
  online = true;
  tool_version = codes "1.0";
  changed_files = 3;
  database_label = none;
  degraded_reason = none;
  notes = [];
  report_root = none;
  artifact_name = none;
}

totals-sum_example :
    (get_count (codes (tier_value unsafe)) (totals a_run)
      ≡ sum_over (λ o. count o unsafe) (assessed_files a_run))
    × (length (assessed_files a_run) + length (unsupported_files a_run) + length (error_files a_run)
        ≡ length a_run.outcomes)
totals-sum_example = totals-sum a_run unsafe (refl, (refl, (refl, tt)))
