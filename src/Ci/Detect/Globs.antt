-- ===== src/Ci/Detect/Globs.antt =====
-- ci/detect.py `glob_to_regex`: the pattern of a glob over paths.
use blastoise.Base.{
  ℕ, zero, suc, Bool, true, false, ◌||◌, Option, none, some, List, [], ◌∷◌, Text, nat_beq, ltb, any,
  length, Result, ok, raise, value_error, ◌>>=◌, traverse, if◌then◌else◌,
}
use blastoise.Regex.{Regex, start, stop, one, both, many, is_match}
use blastoise.Ci.Detect.Files.{normalize_path}
use blastoise.Ci.Detect.Rules.{literal, no_slash, some_of, all_of}

-- `normalized.startswith(c)` at an index.
abbrev pub starts : ℕ → Text → Bool
starts c [] = false
starts c (d ∷ ds) = nat_beq d c

abbrev pub tail_of : Text → Text
tail_of [] = []
tail_of (c ∷ cs) = cs

-- `(?:[^/]+/)*` and `.*`.
abbrev pub directories : Regex
directories = many (both (some_of no_slash) (literal b'/'))

abbrev pub anything : Regex
anything = many (one (record { negated = true; ranges = (10, 10) ∷ [] }))

-- What stands between the brackets, up to the first `]`, and nothing where there is none.
unfoldable pub class_body : Text → Option Text
class_body [] = none
class_body (c ∷ cs) =
    let rest = class_body cs in
    if nat_beq c b']' then some [] else elim rest [ none ↦ none | some body ↦ some (c ∷ body) ]

-- The members of a class, as `re` reads them: a range, or one character.
unfoldable pub class_ranges : Text → Result (List (ℕ × ℕ))
class_ranges [] = ok []
class_ranges (c ∷ []) = ok ((c, c) ∷ [])
class_ranges (c ∷ d ∷ []) = ok ((c, c) ∷ (d, d) ∷ [])
class_ranges (c ∷ d ∷ e ∷ cs) =
    let range = class_ranges cs >>= λ rs. ok ((c, e) ∷ rs) in
    let single = class_ranges (d ∷ e ∷ cs) >>= λ rs. ok ((c, c) ∷ rs) in
    if nat_beq d b'-' then if ltb e c then raise value_error else range else single

abbrev pub class_of_members : Bool → Text → Result Regex
class_of_members negated [] = raise value_error
class_of_members negated (c ∷ cs) =
    class_ranges (c ∷ cs) >>= λ rs. ok (one (record { negated = negated; ranges = rs }))

-- A class without members is refused, as `re` refuses it where no bracket of a later part closes it.
unfoldable pub class_of : Text → Result Regex
unfolding class_ranges
class_of body =
    if starts b'!' body || starts b'^' body
    then class_of_members true (tail_of body)
    else class_of_members false body

-- The part of a character, and how many characters behind it belong to the part.
unfoldable pub star_part : Text → Regex × ℕ
star_part cs =
    if starts b'*' cs
    then if starts b'/' (tail_of cs) then (directories, 2) else (anything, 1)
    else (many no_slash, 0)

unfoldable pub class_part : Text → Result (Regex × ℕ)
unfolding class_of class_body
class_part cs = elim (class_body cs) [
  | none ↦ ok (literal b'[', 0)
  | some body ↦ class_of body >>= λ r. ok (r, suc (length body))
]

unfoldable pub next_part : ℕ → Text → Result (Regex × ℕ)
unfolding star_part class_part
next_part c cs =
    if nat_beq c b'*'
    then ok (star_part cs)
    else if nat_beq c b'?'
    then ok (no_slash, 0)
    else if nat_beq c b'['
    then class_part cs
    else ok (literal c, 0)

-- The loop of `glob_to_regex`, with the number of characters to pass over before its index.
unfoldable pub parts_from : ℕ → Text → Result (List Regex)
unfolding next_part
parts_from n [] = ok []
parts_from (suc n) (c ∷ cs) = parts_from n cs
parts_from zero (c ∷ cs) =
    next_part c cs >>= λ (part, n). parts_from n cs >>= λ parts. ok (part ∷ parts)

unfoldable pub glob_to_regex : Text → Result Regex
unfolding parts_from normalize_path
glob_to_regex pattern =
    parts_from 0 (normalize_path pattern) >>= λ parts. ok (both start (both (all_of parts) stop))

unfoldable pub compile_globs : List Text → Result (List Regex)
unfolding glob_to_regex
compile_globs patterns = traverse glob_to_regex patterns

unfoldable pub matches_any : Text → List Regex → Bool
unfolding is_match
matches_any path patterns = any (λ r. is_match r path) patterns
