-- ===== src/Live/Resolve.antt =====
-- live/resolve.py: facts about functions decide what the parser left open.
use blastoise.Base.{
  Bool, true, false, Option, some, none, List, [], ◌∷◌, Text, codes, any, nat_eq, list_eq, ◌==◌,
  if◌then◌else◌,
}
use blastoise.Ir.{DefaultInfo, Volatility}
use blastoise.Live.Facts.{known, LiveSnapshot, FunctionFacts}

-- live/resolve.py `_PROVOLATILE`
provolatile : Text → Option Volatility
provolatile code =
    if code == codes "i"
    then some Volatility.immutable
    else if code == codes "s"
    then some Volatility.stable
    else if code == codes "v"
    then some Volatility.volatile
    else none

-- live/resolve.py `resolved_function_volatilities`: a later entry of one name wins.
decided_volatility : FunctionFacts → Option Volatility
unfolding provolatile
decided_volatility f = elim f.volatility [ known (some code) ↦ provolatile code | _ ↦ none ]

resolved_in : List FunctionFacts → Text → Option Volatility
unfolding decided_volatility
resolved_in [] name = none
resolved_in (f ∷ fs) name = elim (resolved_in fs name) [
  | some v ↦ some v
  | none ↦ if f.requested == name then decided_volatility f else none
]

abbrev is_some {ℓ} : {A : Type ℓ} → Option A → Bool
is_some none = false
is_some (some a) = true

-- The dictionary of the decided functions, which volatility.py evaluates an expression with.
abbrev pub Decided : Type 0
Decided = Text → Option Volatility

-- live/resolve.py `decide_default_volatility`. `evaluate` is `resolve_expression_volatility` of
-- volatility.py, which parses the expression with pglast.
unfoldable pub decide_default_volatility :
    (evaluate : Text → Decided → Volatility) → DefaultInfo → LiveSnapshot → Volatility
unfolding resolved_in
decide_default_volatility evaluate default snapshot =
    let resolved : Decided = resolved_in snapshot.functions in
    elim default.volatility [
      | Volatility.unknown ↦ elim default.expression [
        | none ↦ default.volatility
        | some e ↦
            if any (λ name. is_some (resolved name)) default.unknown_functions
            then evaluate e resolved
            else default.volatility
      ]
      | _ ↦ default.volatility
    ]
