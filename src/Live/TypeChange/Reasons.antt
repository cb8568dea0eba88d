-- ===== src/Live/TypeChange/Reasons.antt =====
-- live/typechange.py `assess_type_change`: the reason of a verdict, a text for each branch. That of
-- UNKNOWN, which is not told as a narrative, is left out.
use blastoise.Base.{
  ℕ, Bool, ◌&&◌, ◌||◌, not, Option, some, none, Text, codes, ltb, nat_eq, list_eq, option_eq, ◌==◌,
  ◌++◌, if◌then◌else◌,
}
use blastoise.Live.Facts.{value, TypeChangeFacts}
use blastoise.Live.Canonical.{print_natural}
use blastoise.Live.TypeChange.Spelling.{Params, TypeText, parse_type_text}
use blastoise.Live.TypeChange.Growth.{precision_six, growth_rule, growth_allows, params_beq}
use blastoise.Live.TypeChange.Assess.{
  truthy, or_zero, str_or_none, facts_complete, is_timestamp_pair,
}

domain_reason : TypeChangeFacts → Text
domain_reason f =
    let constraints = or_zero (value f.new_domain_constraint_count) in
    let not_null = truthy (value f.new_domain_not_null) in
    if ltb 0 constraints || not_null
    then codes "the target type is a domain with "
      ++ (print_natural constraints (codes " CHECK constraint(s)")
          ++ ((if not_null then codes " and NOT NULL" else codes "")
              ++ codes "; every row is checked"))
    else codes
        "the target domain carries a typmod on its base type; the coercion applies it to every row (not modeled further)"

timestamp_reason : ℕ → Option Params → Option Params → Text
timestamp_reason pg_major cur new =
    if ltb pg_major 12
    then codes "timestamp<->timestamptz always rewrites before PG 12"
    else if growth_allows precision_six cur new
    then codes
        "binary compatible when the migration session runs with TimeZone=UTC; any other zone rewrites (the server's configured TimeZone is in ServerFacts.timezone as evidence, but the migration session decides)"
    else codes "the precision also shrinks, which re-checks every row"

lossy : Text → Text
lossy cur_name =
    cur_name
    ++ codes ": the typmod change is (or cannot be proven) non-lossy; every row is re-checked"

same_base_reason : TypeChangeFacts → Text → Option Params → Option Params → Text
unfolding lossy
same_base_reason f cur_name cur none =
    codes "same underlying type and the target carries no typmod: nothing is re-checked"
same_base_reason f cur_name cur (some new) =
    if truthy (value f.current_is_domain) || truthy (value f.new_is_domain)
    then codes
        "a domain is involved and the target carries a typmod; the combination is not modeled, so the worst case stands"
    else if params_beq cur (some new)
    then codes "the type and typmod are unchanged; the transform is a no-op"
    else elim (growth_rule cur_name) [
      | none ↦ lossy cur_name
      | some rule ↦
          if growth_allows rule cur (some new)
          then cur_name
            ++ codes ": the typmod change is non-lossy, so the coercion simplifies to a no-op"
          else lossy cur_name
    ]

cast_reason : TypeChangeFacts → Option Params → Text
cast_reason f new =
    if value f.cast_method == some (codes "b")
    then elim new [
      | none ↦
          codes
            "binary coercible (pg_cast.castmethod = 'b' on the connected server) and the target carries no typmod: a pure relabel"
      | some _ ↦
          codes
            "binary coercible, but the target's typmod applies a length/precision coercion to every row (verified live: text->varchar(10) rewrites)"
    ]
    else elim (value f.cast_method) [
      | none ↦
          codes
            "no cast exists between the types on the connected server; the statement needs a USING expression, which rewrites"
      | some m ↦
          codes "the cast uses "
          ++ ((if m == codes "f" then codes "a conversion function" else codes "I/O conversion")
              ++ (codes " (pg_cast.castmethod = '"
                  ++ (m
                      ++ codes
                          "'); every row is converted (verified live: integer->bigint rewrites)")))
    ]

change_reason : ℕ → TypeChangeFacts → TypeText → TypeText → Text
unfolding domain_reason timestamp_reason same_base_reason cast_reason is_timestamp_pair
change_reason pg_major f cur new =
    let new_params : Option Params = if truthy (value f.new_is_domain) then none else new.params in
    if truthy (value f.new_is_domain)
      && (ltb 0 (or_zero (value f.new_domain_constraint_count))
          || (truthy (value f.new_domain_not_null) || truthy (value f.new_domain_has_typmod)))
    then domain_reason f
    else if is_timestamp_pair cur.name new.name
    then timestamp_reason pg_major cur.params new_params
    else if truthy (value f.bases_same)
    then same_base_reason f cur.name cur.params new_params
    else cast_reason f new_params

-- `assessment.reason`
unfoldable pub type_change_reason : ℕ → Bool → TypeChangeFacts → Text
unfolding change_reason
type_change_reason pg_major has_using_expression f =
    if has_using_expression
    then codes
        "the statement has a USING expression; whether it changes the column contents is not statically provable, so the worst case stands"
    else if not (facts_complete f)
    then codes ""
    else elim (parse_type_text (str_or_none (value f.current_type))) [
      | none ↦ codes ""
      | some cur ↦ elim (parse_type_text f.new_type_requested) [
        | none ↦ codes ""
        | some new ↦ change_reason pg_major f cur new
      ]
    ]
