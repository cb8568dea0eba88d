-- ===== src/Verdict/Probes.antt =====
-- verdict/probes.py `probe_name`: the spelling of a relation that the server resolves as written.
use blastoise.Base.{
  Bool, false, ◌&&◌, ◌||◌, some, none, [], ◌∷◌, ◌++◌, Text, nat_beq, all, if◌then◌else◌, is_lower,
  is_digit,
}
use blastoise.Ir.{QualifiedName}

-- `[a-z_][a-z0-9_$]*`
unfoldable pub is_safe_identifier : Text → Bool
unfolding is_lower is_digit
is_safe_identifier [] = false
is_safe_identifier (c ∷ cs) =
    (is_lower c || nat_beq c b'_')
    && all (λ d. is_lower d || (is_digit d || (nat_beq d b'_' || nat_beq d b'$'))) cs

unfoldable pub double_quotes : Text → Text
double_quotes [] = []
double_quotes (c ∷ cs) =
    let rest = double_quotes cs in if nat_beq c b'"' then b'"' ∷ b'"' ∷ rest else c ∷ rest

unfoldable pub quote_part : Text → Text
unfolding is_safe_identifier double_quotes
quote_part part =
    if is_safe_identifier part then part else b'"' ∷ (double_quotes part ++ (b'"' ∷ []))

unfoldable pub probe_name : QualifiedName → Text
probe_name q = elim q.schema [
  | none ↦ quote_part q.name
  | some s ↦ quote_part s ++ (b'.' ∷ quote_part q.name)
]
