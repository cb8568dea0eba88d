-- ===== src/Live/TypeChange/Laws.antt =====
-- The typmod rules, and what a verdict of live/typechange.py rests on.
use blastoise.Base.{
  ℕ, ◌≤◌, ◌≡◌, refl, ◌≢◌, ◌↔◌, Option-cases, Bool-cases, ◌==◌, option_eq, list_eq, nat_eq, ◌⊎◌, inl,
  inr, Bool, true, false, Option, some, none, arith, codes,
}
use blastoise.Live.Facts.{TypeChangeFacts, available, value}
use blastoise.Live.TypeChange.Spelling.{Params, TypeText, parse_type_text}
use blastoise.Live.TypeChange.Growth.{GrowthRule, growth_allows}
use blastoise.Live.TypeChange.Assess.{
  no_rewrite, unknown, str_or_none, truthy, or_zero, facts_complete, domain_rewrites, decide_change,
  assess_type_change,
}

-- Modifiers within the type's own bound: a precision of at most what its absence means.
abbrev pub IsBounded : GrowthRule → Option Params → Type 0
IsBounded rule none = Unit
IsBounded rule (some p) = elim rule.effective_default [ none ↦ Unit | some d ↦ p.precision ≤ d ]

-- Two changes of modifiers that lose nothing, one after the other, are one that loses nothing.
pub growth_allows_trans :
    (rule : GrowthRule) (a b c : Option Params)
    → IsBounded rule a
    → growth_allows rule a b ≡ true
    → growth_allows rule b c ≡ true
    → growth_allows rule a c ≡ true
unfolding growth_allows
growth_allows_trans rule a b none bounded h k = refl
growth_allows_trans rule none none (some c) bounded h k = k
growth_allows_trans rule none (some b) (some c) bounded h k = ground arith
growth_allows_trans rule (some a) none (some c) bounded h k = ground arith
growth_allows_trans rule (some a) (some b) (some c) bounded h k = ground arith

growth_allows_refl : (rule : GrowthRule) (a : Option Params) → growth_allows rule a a ≡ true
unfolding growth_allows
growth_allows_refl rule none = refl
growth_allows_refl rule (some a) = ground arith

-- The six facts that a verdict rests on were read.
abbrev pub SixRead : TypeChangeFacts → Type 0
SixRead f =
    (available f.current_type ≡ true)
    × (available f.new_type ≡ true)
    × (available f.same_type ≡ true)
    × (available f.bases_same ≡ true)
    × (available f.cast_method ≡ true)
    × (available f.new_is_domain ≡ true)

-- One of the six was not.
abbrev pub OneMissing : TypeChangeFacts → Type 0
OneMissing f =
    (available f.current_type ≡ false)
    ⊎ ((available f.new_type ≡ false)
        ⊎ ((available f.same_type ≡ false)
            ⊎ ((available f.bases_same ≡ false)
                ⊎ ((available f.cast_method ≡ false) ⊎ (available f.new_is_domain ≡ false)))))

-- The new type is not a domain, or no constraint, NOT NULL or modifier of the domain is known. A
-- fact that is missing counts as none.
abbrev pub NoneKnown : TypeChangeFacts → Type 0
NoneKnown f =
    (truthy (value f.new_is_domain) ≡ false)
    ⊎ ((or_zero (value f.new_domain_constraint_count) ≡ 0)
        × (truthy (value f.new_domain_not_null) ≡ false)
        × (truthy (value f.new_domain_has_typmod) ≡ false))

facts_complete-SixRead : (f : TypeChangeFacts) → facts_complete f ≡ true → SixRead f
unfolding facts_complete
facts_complete-SixRead f h = ground arith

facts_complete-missing : (f : TypeChangeFacts) → (facts_complete f ≡ false) ↔ OneMissing f
unfolding facts_complete
facts_complete-missing f = ((λ h. ground arith), (λ h. ground arith))

domain_rewrites-NoneKnown : (f : TypeChangeFacts) → domain_rewrites f ≡ false → NoneKnown f
unfolding domain_rewrites
domain_rewrites-NoneKnown f h = ground arith

decide_change-no_rewrite :
    (pg : ℕ) (f : TypeChangeFacts) (cur new : TypeText)
    → decide_change pg f cur new ≡ no_rewrite
    → (domain_rewrites f ≡ false)
      × ((value f.bases_same ≡ some true) ⊎ ((value f.cast_method == some (codes "b")) ≡ true))
unfolding decide_change
decide_change-no_rewrite pg f cur new h = ground arith

decide_change-known :
    (pg : ℕ) (f : TypeChangeFacts) (cur new : TypeText) → decide_change pg f cur new ≢ unknown
unfolding decide_change
decide_change-known pg f cur new = ground arith

-- The spelling of the current type and of the new one.
abbrev pub cur_text : TypeChangeFacts → Option TypeText
cur_text f = parse_type_text (str_or_none (value f.current_type))

abbrev pub new_text : TypeChangeFacts → Option TypeText
new_text f = parse_type_text f.new_type_requested

module _ (pg : ℕ) (using_clause : Bool) (f : TypeChangeFacts) where
  no_rewrite_lem :
      assess_type_change pg using_clause f ≡ no_rewrite
      → (using_clause ≡ false)
        × (facts_complete f ≡ true)
        × (domain_rewrites f ≡ false)
        × ((value f.bases_same ≡ some true) ⊎ ((value f.cast_method == some (codes "b")) ≡ true))
  unfolding assess_type_change
  no_rewrite_lem h = elim (Option-cases (cur_text f)) [
    | inl e ↦ ground arith
    | inr (cur, e) ↦ elim (Option-cases (new_text f)) [
      | inl e' ↦ ground arith
      | inr (new, e') ↦ ground (arith, decide_change-no_rewrite pg f cur new)
    ]
  ]

  -- A type change is called free of a rewrite only without USING, where the six facts that a
  -- verdict rests on were read, for a target that is no domain or one of which no constraint, NOT
  -- NULL or modifier is known (a missing fact about the domain counts as none), between types of
  -- one base or with a binary coercible cast.
  pub assess_type_change-no_rewrite :
      assess_type_change pg using_clause f ≡ no_rewrite
      → (using_clause ≡ false)
        × SixRead f
        × NoneKnown f
        × ((value f.bases_same ≡ some true) ⊎ ((value f.cast_method == some (codes "b")) ≡ true))
  assess_type_change-no_rewrite h =
      let all = no_rewrite_lem h in
      (all.0, facts_complete-SixRead f all.1, domain_rewrites-NoneKnown f all.2, all.3)

  withheld :
      assess_type_change pg using_clause f ≡ unknown
      → (using_clause ≡ false) × (OneMissing f ⊎ ((cur_text f ≡ none) ⊎ (new_text f ≡ none)))
  unfolding assess_type_change
  withheld h = elim (Option-cases (cur_text f)) [
    | inl e ↦ ground arith
    | inr (cur, e) ↦ elim (Option-cases (new_text f)) [
      | inl e' ↦ ground arith
      | inr (new, e') ↦ elim (Bool-cases (facts_complete f)) [
        | inl t ↦ absurd (ground (arith, decide_change-known pg f cur new))
        | inr m ↦ (ground arith, inl ((facts_complete-missing f).0 m))
      ]
    ]
  ]

  withholds :
      (using_clause ≡ false)
        × ((facts_complete f ≡ false) ⊎ ((cur_text f ≡ none) ⊎ (new_text f ≡ none)))
      → assess_type_change pg using_clause f ≡ unknown
  unfolding assess_type_change
  withholds h = ground arith

  -- A verdict is withheld exactly where there is no USING clause and one of the six facts is
  -- missing, or the spelling of one of the types is not understood.
  pub assess_type_change-unknown :
      (assess_type_change pg using_clause f ≡ unknown)
      ↔ ((using_clause ≡ false) × (OneMissing f ⊎ ((cur_text f ≡ none) ⊎ (new_text f ≡ none))))
  assess_type_change-unknown = (
    withheld,
    λ h. elim (h.1) [
      | inl m ↦ withholds (h.0, inl ((facts_complete-missing f).1 m))
      | inr odd ↦ withholds (h.0, inr odd)
    ],
  )
