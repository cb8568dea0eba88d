-- ===== src/Live/TypeChange/Growth.antt =====
-- live/typechange.py: the rules under which a change of modifiers loses nothing.
use blastoise.Base.{
  ℕ, Bool, true, false, ◌&&◌, Option, some, none, List, [], ◌∷◌, String, Text, codes, leb, nat_eq,
  option_eq, list_eq, ◌==◌, if◌then◌else◌,
}
use blastoise.Live.TypeChange.Spelling.{Params}

-- `effective_default` is what absent modifiers mean: `none` for no bound.
pub record GrowthRule : Type 0 where
  pub effective_default : Option ℕ
  pub scale_sensitive : Bool

abbrev pub unbounded : GrowthRule
unbounded = record { effective_default = none; scale_sensitive = false }

abbrev pub with_scale : GrowthRule
with_scale = record { effective_default = none; scale_sensitive = true }

abbrev pub precision_six : GrowthRule
precision_six = record { effective_default = some 6; scale_sensitive = false }

-- `_GROWTH_RULES`
growth_table : List (String × GrowthRule)
growth_table =
    ("varchar", unbounded)
    ∷ ("varbit", unbounded)
    ∷ ("numeric", with_scale)
    ∷ ("timestamp", precision_six)
    ∷ ("timestamptz", precision_six)
    ∷ ("time", precision_six)
    ∷ ("timetz", precision_six)
    ∷ []

rule_in : List (String × GrowthRule) → Text → Option GrowthRule
rule_in [] name = none
rule_in ((key, rule) ∷ rest) name = if codes key == name then some rule else rule_in rest name

unfoldable pub growth_rule : Text → Option GrowthRule
unfolding growth_table rule_in
growth_rule name = rule_in growth_table name

abbrev pub scale_or_zero : Params → ℕ
scale_or_zero p = elim p.scale [ none ↦ 0 | some s ↦ s ]

-- `_growth_allows`
unfoldable pub growth_allows : GrowthRule → Option Params → Option Params → Bool
growth_allows rule cur none = true
growth_allows rule none (some new) =
    if rule.scale_sensitive
    then false
    else elim rule.effective_default [ none ↦ false | some d ↦ leb d new.precision ]
growth_allows rule (some cur) (some new) =
    if rule.scale_sensitive
    then scale_or_zero cur == scale_or_zero new && leb cur.precision new.precision
    else leb cur.precision new.precision

abbrev pub params_beq : Option Params → Option Params → Bool
params_beq none none = true
params_beq (some a) (some b) = a.precision == b.precision && a.scale == b.scale
params_beq _ _ = false
