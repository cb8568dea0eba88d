-- ===== src/Live/TypeChange/Assess.antt =====
-- live/typechange.py `assess_type_change`. The citation of a verdict is
-- left out.
use blastoise.Base.{
  ℕ, Bool, false, ◌&&◌, ◌||◌, not, Option, some, none, Text, codes, ltb, nat_eq, list_eq, option_eq,
  ◌==◌, if◌then◌else◌,
}
use blastoise.Live.Facts.{available, value, TypeChangeFacts}
use blastoise.Live.TypeChange.Spelling.{Params, TypeText, parse_type_text}
use blastoise.Live.TypeChange.Growth.{precision_six, growth_rule, growth_allows, params_beq}

pub data RewriteVerdict : Type 0 where
  no_rewrite rewrite no_rewrite_if_session_tz_utc unknown : RewriteVerdict

-- The truth value of an optional one: `None` is falsy.
abbrev pub truthy : Option Bool → Bool
truthy none = false
truthy (some b) = b

abbrev pub or_zero : Option ℕ → ℕ
or_zero none = 0
or_zero (some n) = n

unfoldable pub facts_complete : TypeChangeFacts → Bool
facts_complete f =
    available f.current_type
    && (available f.new_type
        && (available f.same_type
            && (available f.bases_same && (available f.cast_method && available f.new_is_domain))))

-- A target domain whose constraints or modifiers apply to every row.
unfoldable pub domain_rewrites : TypeChangeFacts → Bool
domain_rewrites f =
    truthy (value f.new_is_domain)
    && (ltb 0 (or_zero (value f.new_domain_constraint_count))
        || (truthy (value f.new_domain_not_null) || truthy (value f.new_domain_has_typmod)))

unfoldable pub is_timestamp_pair : Text → Text → Bool
is_timestamp_pair cur new =
    cur == codes "timestamp" && new == codes "timestamptz"
    || cur == codes "timestamptz" && new == codes "timestamp"

timestamp_verdict : ℕ → Option Params → Option Params → RewriteVerdict
timestamp_verdict pg_major cur new =
    if ltb pg_major 12
    then rewrite
    else if growth_allows precision_six cur new
    then no_rewrite_if_session_tz_utc
    else rewrite

same_base_verdict : TypeChangeFacts → Text → Option Params → Option Params → RewriteVerdict
same_base_verdict f cur_name cur none = no_rewrite
same_base_verdict f cur_name cur (some new) =
    if truthy (value f.current_is_domain) || truthy (value f.new_is_domain)
    then rewrite
    else if params_beq cur (some new)
    then no_rewrite
    else elim (growth_rule cur_name) [
      | none ↦ rewrite
      | some rule ↦ if growth_allows rule cur (some new) then no_rewrite else rewrite
    ]

cast_verdict : TypeChangeFacts → Option Params → RewriteVerdict
cast_verdict f new =
    if value f.cast_method == some (codes "b")
    then elim new [ none ↦ no_rewrite | some _ ↦ rewrite ]
    else rewrite

-- What follows once both spellings are understood.
unfoldable pub decide_change : ℕ → TypeChangeFacts → TypeText → TypeText → RewriteVerdict
unfolding is_timestamp_pair timestamp_verdict same_base_verdict cast_verdict
decide_change pg_major f cur new =
    let new_params : Option Params = if truthy (value f.new_is_domain) then none else new.params in
    if domain_rewrites f
    then rewrite
    else if is_timestamp_pair cur.name new.name
    then timestamp_verdict pg_major cur.params new_params
    else if truthy (value f.bases_same)
    then same_base_verdict f cur.name cur.params new_params
    else cast_verdict f new_params

-- `str(facts.current_type.value)`: a null reads `None`.
abbrev pub str_or_none : Option Text → Text
str_or_none none = codes "None"
str_or_none (some t) = t

unfoldable pub assess_type_change : ℕ → Bool → TypeChangeFacts → RewriteVerdict
assess_type_change pg_major has_using_expression f =
    if has_using_expression
    then rewrite
    else if not (facts_complete f)
    then unknown
    else elim (parse_type_text (str_or_none (value f.current_type))) [
      | none ↦ unknown
      | some cur ↦ elim (parse_type_text f.new_type_requested) [
        | none ↦ unknown
        | some new ↦ decide_change pg_major f cur new
      ]
    ]
