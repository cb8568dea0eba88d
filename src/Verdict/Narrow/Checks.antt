-- ===== src/Verdict/Narrow/Checks.antt =====
-- verdict/narrow.py: does a CHECK expression prove that a column is not null?
use blastoise.Base.{
  ℕ, zero, suc, ◌+◌, Bool, true, false, ◌&&◌, ◌||◌, not, Option, some, none, List, [], ◌∷◌, ◌++◌,
  Text, codes, nat_beq, nat_eq, list_eq, ◌==◌, if◌then◌else◌, is_space, lstrip, strip, last,
  drop_last, length, any, keep,
}

-- One character of a pattern's letter under IGNORECASE. Of the letters of the patterns only I and S
-- have partners outside ASCII.
same_letter : ℕ → ℕ → Bool
same_letter letter c =
    nat_beq c letter
    || nat_beq c (letter + 32)
    || nat_beq letter b'I' && (nat_beq c 0x130 || nat_beq c 0x131)
    || nat_beq letter b'S' && nat_beq c 0x17f

-- A word of a pattern at the front, and the text behind it.
word : Text → Text → Option Text
unfolding same_letter
word [] text = some text
word (l ∷ ls) [] = none
word (l ∷ ls) (c ∷ cs) = if same_letter l c then word ls cs else none

-- `\s+`, which no letter follows into, so that it takes all the spaces.
some_spaces : Text → Option Text
unfolding lstrip is_space
some_spaces [] = none
some_spaces (c ∷ cs) = if is_space c then some (lstrip is_space cs) else none

-- Whether a `)` closes the parenthesis at the front before the last character. The depth stays
-- above 0 until then.
closes_early : ℕ → Text → Bool
closes_early depth [] = false
closes_early depth (c ∷ cs) =
    let deeper = closes_early (suc depth) cs in
    let same = closes_early depth cs in
    if nat_beq c b'('
    then deeper
    else if nat_beq c b')'
    then (elim depth [
      | zero ↦ same
      | suc d ↦ elim d [
        | zero ↦ elim cs [ [] ↦ false | _ ∷ _ ↦ true ]
        | suc e ↦ closes_early (suc e) cs
      ]
    ])
    else same

trimmed : Text → Text
unfolding strip is_space
trimmed text = strip is_space text

is_enclosed : Text → Bool
unfolding closes_early last
is_enclosed [] = false
is_enclosed (c ∷ cs) =
    nat_beq c b'('
    && elim (last (c ∷ cs)) [ none ↦ false | some d ↦ nat_beq d b')' ]
    && not (closes_early 0 (c ∷ cs))

-- `text[1:-1]`
inside : Text → Text
unfolding drop_last
inside [] = []
inside (c ∷ cs) = drop_last cs

-- The loop of `_strip_outer_parens`. Each round removes two characters, so the length is fuel
-- enough.
strip_parens : ℕ → Text → Text
unfolding is_enclosed inside trimmed
strip_parens zero text = text
strip_parens (suc fuel) text =
    let inner = strip_parens fuel (trimmed (inside text)) in
    if is_enclosed text then inner else text

unfoldable pub strip_outer_parens : Text → Text
unfolding strip_parens trimmed
strip_outer_parens text = let t = trimmed text in strip_parens (length t) t

-- A separator `\s+AND\s+` at the front: the text behind it.
separator : Text → Option Text
unfolding some_spaces word
separator text = elim (some_spaces text) [
  | none ↦ none
  | some rest ↦ elim (word (codes "AND") rest) [ none ↦ none | some behind ↦ some_spaces behind ]
]

-- The tokens of `re.split`: the part `current` grows until a separator at depth 0, where as many
-- parentheses are closed as opened. The parts come stripped. A separator deeper down is kept, and
-- its spaces and letters change no depth. Fuel: the length of the text.
split_and : ℕ → ℕ → ℕ → Text → Text → List Text
unfolding separator trimmed
split_and zero opened closed current text = trimmed current ∷ []
split_and (suc fuel) opened closed current [] = trimmed current ∷ []
split_and (suc fuel) opened closed current (c ∷ cs) =
    let step =
      split_and fuel (if nat_beq c b'(' then suc opened else opened)
        (if nat_beq c b')' then suc closed else closed) (current ++ (c ∷ [])) cs in
    elim (separator (c ∷ cs)) [
      | none ↦ step
      | some rest ↦
          if nat_beq opened closed
          then trimmed current ∷ split_and fuel opened closed [] rest
          else step
    ]

is_filled : Text → Bool
is_filled [] = false
is_filled (c ∷ cs) = true

unfoldable pub split_top_level_and : Text → List Text
unfolding split_and is_filled
split_top_level_and text = keep is_filled (split_and (suc (length text)) 0 0 [] text)

-- `"?\s+IS\s+NOT\s+NULL` up to the end.
is_not_null_tail : Text → Bool
unfolding some_spaces word
is_not_null_tail text =
    let unquoted : Text = elim text [ [] ↦ [] | c ∷ cs ↦ if nat_beq c b'"' then cs else c ∷ cs ] in
    elim (some_spaces unquoted) [
      | none ↦ false
      | some a ↦ elim (word (codes "IS") a) [
        | none ↦ false
        | some b ↦ elim (some_spaces b) [
          | none ↦ false
          | some c ↦ elim (word (codes "NOT") c) [
            | none ↦ false
            | some d ↦ elim (some_spaces d) [
              | none ↦ false
              | some e ↦ elim (word (codes "NULL") e) [
                | none ↦ false
                | some f ↦ elim f [ [] ↦ true | _ ∷ _ ↦ false ]
              ]
            ]
          ]
        ]
      ]
    ]

-- The group `name`, `[^"]+`: the longest prefix behind which the tail matches.
longest_name : Text → Option Text
unfolding is_not_null_tail
longest_name [] = none
longest_name (c ∷ cs) = if nat_beq c b'"' then none else elim (longest_name cs) [
  | some name ↦ some (c ∷ name)
  | none ↦ if is_not_null_tail cs then some (c ∷ []) else none
]

-- `_IS_NOT_NULL_RE.fullmatch`. A name has no quote, so a quote in front is the pattern's.
not_null_name : Text → Option Text
unfolding longest_name
not_null_name [] = none
not_null_name (c ∷ cs) = if nat_beq c b'"' then longest_name cs else longest_name (c ∷ cs)

unquote : Text → Text
unfolding strip
unquote name = strip (λ c. nat_beq c b'"') name

conjunct_proves : Text → Text → Bool
unfolding strip_outer_parens not_null_name unquote
conjunct_proves column conjunct = elim (not_null_name (strip_outer_parens conjunct)) [
  | none ↦ false
  | some name ↦ unquote name == unquote column
]

unfoldable pub check_expression_proves_not_null : Text → Text → Bool
unfolding strip_outer_parens split_top_level_and conjunct_proves
check_expression_proves_not_null expression column =
    any (conjunct_proves column) (split_top_level_and (strip_outer_parens expression))
