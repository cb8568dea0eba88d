-- ===== src/Sql/Names.antt =====
-- classify.py and volatility.py read the names of a parse tree by these.
use blastoise.Base.{Option, some, none, List, [], ◌∷◌, Text}
use blastoise.Sql.Trees.{Name, string, not_string}

-- `_strings`: the texts among the items.
unfoldable pub strings : List Name → List Text
strings [] = []
strings (string (some sval) ∷ items) = sval ∷ strings items
strings (string none ∷ items) = strings items
strings (not_string ∷ items) = strings items

-- `names[-1]`, where there is one.
unfoldable pub last_name : List Text → Option Text
last_name [] = none
last_name (t ∷ []) = some t
last_name (t ∷ u ∷ ts) = last_name (u ∷ ts)

-- The items of the class that the code asks for, of a list that holds others as `none`.
unfoldable pub of_class {ℓ} : {A : Type ℓ} → List (Option A) → List A
of_class [] = []
of_class (none ∷ xs) = of_class xs
of_class (some x ∷ xs) = x ∷ of_class xs
