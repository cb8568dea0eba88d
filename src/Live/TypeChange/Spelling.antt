-- ===== src/Live/TypeChange/Spelling.antt =====
-- live/typechange.py `_parse_type_text`: the name and the modifiers of a written type.
use blastoise.Base.{
  ℕ, ◌+◌, ◌-◌, ◌*◌, Bool, false, ◌&&◌, ◌||◌, Option, some, none, List, [], ◌∷◌, ◌++◌, map, Text,
  codes, String, nat_beq, list_eq, nat_eq, ◌==◌, contains, if◌then◌else◌, is_space, is_digit,
  is_lower, lower_char, join_words, drop_prefix, lstrip, all,
}

-- The modifiers `(p)` or `(p, s)`.
pub record Params : Type 0 where
  pub precision : ℕ
  pub scale : Option ℕ

-- The digits in front and the rest, with the number that they spell.
digits_from : ℕ → Text → ℕ × Text
digits_from n [] = (n, [])
digits_from n (c ∷ cs) =
    let more = digits_from (10 * n + (c - b'0')) cs in if is_digit c then more else (n, c ∷ cs)

-- `(\d+)`
unsigned : Text → Option (ℕ × Text)
unfolding digits_from is_digit
unsigned [] = none
unsigned (c ∷ cs) = if is_digit c then some (digits_from 0 (c ∷ cs)) else none

spaces : Text → Text
unfolding lstrip is_space
spaces text = lstrip is_space text

-- The closing parenthesis, and the text behind it.
closing : Params → Text → Option (Params × Text)
closing p [] = none
closing p (c ∷ cs) = if nat_beq c b')' then some (p, cs) else none

after_comma : ℕ → Text → Option (Params × Text)
unfolding unsigned spaces
after_comma p text = elim (unsigned (spaces text)) [
  | none ↦ none
  | some (s, rest) ↦ closing (record { precision = p; scale = some s }) (spaces rest)
]

after_precision : ℕ → Text → Option (Params × Text)
unfolding closing after_comma
after_precision p [] = none
after_precision p (c ∷ cs) =
    if nat_beq c b','
    then after_comma p cs
    else closing (record { precision = p; scale = none }) (c ∷ cs)

-- `\(\s*(\d+)\s*(?:,\s*(\d+)\s*)?\)` at the front of a text that begins behind the parenthesis.
typmod_here : Text → Option (Params × Text)
unfolding unsigned spaces after_precision
typmod_here text = elim (unsigned (spaces text)) [
  | none ↦ none
  | some (p, rest) ↦ after_precision p (spaces rest)
]

-- `_TYPMOD_RE.search`: the modifiers with the texts before and behind the first match.
typmod_search : Text → Text → Option (Text × Params × Text)
unfolding typmod_here
typmod_search before [] = none
typmod_search before (c ∷ cs) =
    let later = typmod_search (before ++ (c ∷ [])) cs in
    if nat_beq c b'('
    then elim (typmod_here cs) [ none ↦ later | some (p, rest) ↦ some (before, p, rest) ]
    else later

-- `[a-z_][a-z0-9_ ]*`
is_type_name : Text → Bool
unfolding is_lower is_digit
is_type_name [] = false
is_type_name (c ∷ cs) =
    (is_lower c || nat_beq c b'_')
    && all (λ d. is_lower d || (is_digit d || (nat_beq d b'_' || nat_beq d b' '))) cs

-- `_TYPE_ALIASES`
aliases : List (String × String)
aliases =
    ("varchar", "varchar")
    ∷ ("character varying", "varchar")
    ∷ ("char varying", "varchar")
    ∷ ("numeric", "numeric")
    ∷ ("decimal", "numeric")
    ∷ ("dec", "numeric")
    ∷ ("varbit", "varbit")
    ∷ ("bit varying", "varbit")
    ∷ ("timestamp", "timestamp")
    ∷ ("timestamp without time zone", "timestamp")
    ∷ ("timestamptz", "timestamptz")
    ∷ ("timestamp with time zone", "timestamptz")
    ∷ ("time", "time")
    ∷ ("time without time zone", "time")
    ∷ ("timetz", "timetz")
    ∷ ("time with time zone", "timetz")
    ∷ ("char", "bpchar")
    ∷ ("character", "bpchar")
    ∷ ("bpchar", "bpchar")
    ∷ ("bit", "bit")
    ∷ ("interval", "interval")
    ∷ []

alias_in : List (String × String) → Text → Text
alias_in [] name = name
alias_in ((from, to) ∷ rest) name = if codes from == name then codes to else alias_in rest name

pub record TypeText : Type 0 where
  pub name : Text
  pub params : Option Params

named : Text → Option Params → Option TypeText
unfolding is_type_name aliases alias_in
named name params =
    if is_type_name name
    then some (record { name = alias_in aliases name; params = params })
    else none

parse_lowered : Text → Option TypeText
unfolding typmod_search named join_words
parse_lowered text =
    if contains b'"' text || contains b'[' text then none else elim (typmod_search [] text) [
      | none ↦ if contains b'(' text || contains b')' text then none else named text none
      | some (before, p, rest) ↦ named (join_words (before ++ (b' ' ∷ rest))) (some p)
    ]

-- `None`, where the spelling is not understood.
unfoldable pub parse_type_text : Text → Option TypeText
unfolding parse_lowered join_words lower_char drop_prefix
parse_type_text text =
    let lowered = join_words (map lower_char text) in
    elim (drop_prefix (codes "pg_catalog.") lowered) [
      | none ↦ parse_lowered lowered
      | some rest ↦ parse_lowered rest
    ]
