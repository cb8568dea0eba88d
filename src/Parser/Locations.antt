-- ===== src/Parser/Locations.antt =====
-- parser.py: lines, and the place of a syntax error.
use blastoise.Base.{
  ℕ, zero, suc, ◌+◌, Bool, true, false, Option, some, none, [], ◌∷◌, ◌++◌, Text, codes,
  if◌then◌else◌, nat_beq, drop_prefix,
}

unfoldable pub take : ℕ → Text → Text
take zero cs = []
take (suc n) [] = []
take (suc n) (c ∷ cs) = c ∷ take n cs

unfoldable pub drop : ℕ → Text → Text
drop zero cs = cs
drop (suc n) [] = []
drop (suc n) (c ∷ cs) = drop n cs

unfoldable pub count_of : ℕ → Text → ℕ
count_of c [] = 0
count_of c (d ∷ ds) = if nat_beq c d then suc (count_of c ds) else count_of c ds

-- `_line_of`.
unfoldable pub line_of : Text → ℕ → ℕ
unfolding take count_of
line_of source offset = count_of 10 (take offset source) + 1

-- `source.find(c)` for one character.
unfoldable pub find_char : ℕ → Text → Option ℕ
find_char c [] = none
find_char c (d ∷ ds) =
    let later : Option ℕ = elim (find_char c ds) [ none ↦ none | some i ↦ some (suc i) ] in
    if nat_beq c d then some 0 else later

abbrev is_prefix : Text → Text → Bool
is_prefix p text = elim (drop_prefix p text) [ none ↦ false | some rest ↦ true ]

-- `source.find(token, offset)`, of the rest of the source from that offset.
unfoldable pub find_from : Text → ℕ → Text → Option ℕ
find_from token offset [] = if is_prefix token [] then some offset else none
find_from token offset (c ∷ cs) =
    let later = find_from token (suc offset) cs in
    if is_prefix token (c ∷ cs) then some offset else later

-- `[^"]+"`: what stands before a quote, at least one character.
unfoldable pub before_quote : Text → Text → Option Text
before_quote seen [] = none
before_quote seen (c ∷ cs) =
    let later = before_quote (seen ++ c ∷ []) cs in
    if nat_beq c b'"' then (elim seen [ [] ↦ none | d ∷ ds ↦ some (d ∷ ds) ]) else later

abbrev near : Text
near = codes "at or near " ++ b'"' ∷ []

-- `_NEAR_TOKEN.search(message)`: the token at the first place where the pattern matches.
unfoldable pub near_token : Text → Option Text
near_token [] = none
near_token (c ∷ cs) =
    let later = near_token cs in
    elim (drop_prefix near (c ∷ cs)) [
      | none ↦ later
      | some rest ↦ elim (before_quote [] rest) [ none ↦ later | some token ↦ some token ]
    ]

abbrev or_offset : ℕ → Option ℕ → ℕ
or_offset offset none = offset
or_offset offset (some found) = found

-- `_refine_offset`.
unfoldable pub refine_offset : Text → Option ℕ → Text → Option ℕ
unfolding near_token find_from
refine_offset source none message = none
refine_offset source (some offset) message = elim (near_token message) [
  | none ↦ some offset
  | some token ↦
      if is_prefix token (drop offset source)
      then some offset
      else some (or_offset offset (find_from token offset (drop offset source)))
]
