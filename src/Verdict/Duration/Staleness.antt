-- ===== src/Verdict/Duration/Staleness.antt =====
-- verdict/duration.py: the widening of an interval by the age of the statistics and by the rows
-- modified since, and the row count that an estimate may use.
use blastoise.Base.{
  ℕ, to_ℕ, ◌+◌, ◌-◌, ◌*◌, ◌/◌, min, max, Bool, true, false, ◌&&◌, Option, some, none, ltb, leb,
  nat_beq, if◌then◌else◌,
}
use blastoise.Live.{Fact, known, missing, Stamp, instant, RelationFacts, ServerFacts}
use blastoise.Verdict.Constants.{
  widen_age_fresh_tenths, widen_age_week_tenths, widen_age_month_tenths, widen_age_old_tenths,
  widen_age_unknown_tenths, widen_mods_unknown_tenths, widen_mods_cap_tenths,
}
use blastoise.Verdict.Model.{
  Reason, existence_unknown, does_not_exist, no_row_estimate, never_analyzed,
}

-- The later of two stamps, of which either may be missing.
newer : Option ℕ → Fact Stamp → Option ℕ
newer newest (known (some (instant _ t))) = elim newest [
  | none ↦ some t
  | some n ↦ if ltb n t then some t else some n
]
newer newest _ = newest

newest_stamp : RelationFacts → Option ℕ
unfolding newer
newest_stamp r = newer (newer none r.last_analyze) r.last_autoanalyze

-- By the age in seconds.
age_tenths : ℕ → ℕ
age_tenths age_s =
    if leb age_s 86_400
    then widen_age_fresh_tenths
    else if leb (age_s / 86_400) 7
    then widen_age_week_tenths
    else if leb (age_s / 86_400) 30
    then widen_age_month_tenths
    else widen_age_old_tenths

-- The factor of `_age_widen`, in tenths; stamps are in microseconds.
unfoldable pub age_widen : RelationFacts → ServerFacts → ℕ
unfolding newest_stamp age_tenths
age_widen r server = elim (newest_stamp r) [
  | none ↦ widen_age_unknown_tenths
  | some newest ↦ elim server.server_now [
    | known (some (instant _ now)) ↦ age_tenths ((now - newest) / 1_000_000)
    | _ ↦ widen_age_unknown_tenths
  ]
]

-- The factor of `_mods_widen`, or `none` where the churn swamps the estimate.
unfoldable pub mods_widen : RelationFacts → ℕ → Option ℕ
mods_widen r rows = elim r.n_mod_since_analyze [
  | known (some n_mod) ↦
      if ltb 0 n_mod && ltb rows (n_mod / 10)
      then none
      else some (min widen_mods_cap_tenths (10 + 10 * n_mod / max rows 1))
  | _ ↦ some widen_mods_unknown_tenths
]

abbrev pub is_known_null : {A : Type 0} → Fact A → Bool
is_known_null (known none) = true
is_known_null _ = false

-- A number of rows, or the reason why there is none.
pub data Rows : Type 0 where
  rows : ℕ → Rows
  refused : Reason → Rows

known_rows : RelationFacts → ℕ → Rows
known_rows r n =
    if nat_beq n 0 && (is_known_null r.last_analyze && is_known_null r.last_autoanalyze)
    then refused never_analyzed
    else rows n

existing_rows : RelationFacts → Rows
unfolding known_rows
existing_rows r = elim r.reltuples [
  | known (some n) ↦ known_rows r (to_ℕ n)
  | _ ↦ refused no_row_estimate
]

unfoldable pub usable_rows : RelationFacts → Rows
unfolding existing_rows
usable_rows r = elim r.exists [
  | missing _ ↦ refused existence_unknown
  | known none ↦ existing_rows r
  | known (some e) ↦ if e then existing_rows r else refused does_not_exist
]

-- `_staleness`: the factor from both, in tenths.
unfoldable pub staleness : RelationFacts → ServerFacts → ℕ → Option ℕ
staleness r server n = elim (mods_widen r n) [
  | none ↦ none
  | some mods ↦ some (age_widen r server * mods / 10)
]
