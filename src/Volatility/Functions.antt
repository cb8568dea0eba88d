-- ===== src/Volatility/Functions.antt =====
-- volatility.py: the order of volatilities, and the name of a called function.
use blastoise.Base.{
  ℕ, Option, some, none, List, [], ◌∷◌, ◌++◌, map, Text, codes, contains, max_by, lower_char,
  if◌then◌else◌, list_eq, nat_eq,
}
use blastoise.Ir.{Volatility, constant, immutable, stable, unknown, volatile}
use blastoise.Sql.{Name, strings, last_name}
use blastoise.Volatility.Tables.{volatile_functions, stable_functions, immutable_functions}

-- `_RANK`.
abbrev pub rank : Volatility → ℕ
rank constant = 0
rank immutable = 1
rank stable = 2
rank unknown = 3
rank volatile = 4

-- The worst part.
unfoldable pub combine : List Volatility → Volatility
combine volatilities = max_by rank constant volatilities

lowered : Text → Text
lowered t = map lower_char t

dotted : List Text → Text
dotted [] = []
dotted (t ∷ []) = t
dotted (t ∷ u ∷ ts) = t ++ (codes "." ++ dotted (u ∷ ts))

-- The unqualified name of the function, in lower case.
unfoldable pub function_name : List Name → Option Text
unfolding lowered
function_name funcname = elim (last_name (strings funcname)) [
  | none ↦ none
  | some name ↦ some (lowered name)
]

-- The full name, in lower case: the key of the facts that a server gives.
unfoldable pub function_key : List Name → Option Text
unfolding lowered dotted
function_key funcname = elim (strings funcname) [
  | [] ↦ none
  | t ∷ ts ↦ some (dotted (map lowered (t ∷ ts)))
]

unfoldable pub static_function_volatility : Option Text → Volatility
static_function_volatility none = unknown
static_function_volatility (some name) =
    if contains name volatile_functions
    then volatile
    else if contains name stable_functions
    then stable
    else if contains name immutable_functions
    then immutable
    else unknown
