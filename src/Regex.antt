-- ===== src/Regex.antt =====
-- What the code uses of Python's `re`: patterns as trees, and the backtracking search for a match. A
-- pattern is matched at a place, which is the rest of the text, with a flag for the start of the text.
pub mod Ends
use blastoise.Base.{
  ℕ, ◌+◌, Bool, true, false, ◌&&◌, not, List, [], ◌∷◌, ◌++◌, length, any, leb, nat_beq, zero, suc,
  Text, if◌then◌else◌,
}

-- `[...]`, with `^` or without, as ranges of characters.
pub record CharClass : Type 0 where
  pub negated : Bool
  pub ranges : List (ℕ × ℕ)

-- `start` is `^`, `stop` is `$`, `many` is `*`, and `unless` is `(?!...)`.
pub data Regex : Type 0 where
  nothing start stop : Regex
  one : CharClass → Regex
  both either : Regex → Regex → Regex
  many unless : Regex → Regex

abbrev pub Place : Type 0
Place = Bool × Text

abbrev pub in_ranges : List (ℕ × ℕ) → ℕ → Bool
in_ranges ranges c = any (λ r. leb r.0 c && leb c r.1) ranges

abbrev pub in_class : CharClass → ℕ → Bool
in_class k c = if k.negated then not (in_ranges k.ranges c) else in_ranges k.ranges c

-- `$` also matches in front of a line feed that ends the text.
unfoldable pub at_stop : Text → Bool
at_stop [] = true
at_stop (c ∷ []) = nat_beq c 10
at_stop (c ∷ d ∷ cs) = false

abbrev pub is_empty {ℓ} : {A : Type ℓ} → List A → Bool
is_empty [] = true
is_empty (x ∷ xs) = false

-- The ends of all matches from some places.
unfoldable pub from_all : (Place → List Place) → List Place → List Place
from_all f [] = []
from_all f (p ∷ ps) = f p ++ from_all f ps

-- At most so many rounds of a pattern that is repeated.
unfoldable pub rounds : (Place → List Place) → ℕ → Place → List Place
unfolding from_all
rounds f zero p = p ∷ []
rounds f (suc n) p = p ∷ from_all (rounds f n) (f p)

-- The places where a match can end that begins at a place. What is repeated takes a character in each
-- round, so that the length of the text bounds the rounds.
unfoldable pub ends : Regex → Place → List Place
unfolding rounds at_stop
ends nothing p = p ∷ []
ends start p = if p.0 then p ∷ [] else []
ends stop p = if at_stop p.1 then p ∷ [] else []
ends (one k) (b, []) = []
ends (one k) (b, c ∷ cs) = if in_class k c then (false, cs) ∷ [] else []
ends (both r s) p = from_all (ends s) (ends r p)
ends (either r s) p = ends r p ++ ends s p
ends (many r) p = rounds (ends r) (length p.1) p
ends (unless r) p = if is_empty (ends r p) then p ∷ [] else []

-- `pattern.match(text)`, as a test.
unfoldable pub is_match : Regex → Text → Bool
unfolding ends
is_match r t = not (is_empty (ends r (true, t)))

unfoldable pub search_from : Regex → Bool → Text → Bool
unfolding ends
search_from r b [] = not (is_empty (ends r (b, [])))
search_from r b (c ∷ cs) =
    let later = search_from r false cs in if is_empty (ends r (b, c ∷ cs)) then later else true

-- `pattern.search(text)`, as a test.
unfoldable pub search : Regex → Text → Bool
unfolding search_from
search r t = search_from r true t
