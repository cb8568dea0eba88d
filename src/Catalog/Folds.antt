-- ===== src/Catalog/Folds.antt =====
-- catalog/resolve.py: the strongest lock of a statement, and the kinds that are reached from it.
use blastoise.Base.{List, [], ◌∷◌, ◌++◌, map, max_by}
use blastoise.Ir.{
  StatementKind, ParsedStatement, parsed, Details, do_block_details, StatementList, nil, cons,
}
use blastoise.Catalog.Modes.{LockMode, none_mode, level}
use blastoise.Catalog.Resolve.{ResolvedLock}

-- `max(modes, key=level)`, where there is one.
abbrev strongest_of : List LockMode → LockMode
strongest_of [] = none_mode
strongest_of (m ∷ ms) = max_by level m ms

unfoldable pub statement_lock_mode : List ResolvedLock → LockMode
statement_lock_mode resolved = strongest_of (map (λ (r : ResolvedLock). r.entry.lock_mode) resolved)

unfoldable mutual
  pub kinds_in : ParsedStatement → List StatementKind
  kinds_in (parsed h d) = h.kind ∷ kinds_inside d

  pub kinds_inside : Details → List StatementKind
  kinds_inside (do_block_details block inner) = kinds_of_all inner
  kinds_inside _ = []

  pub kinds_of_all : StatementList → List StatementKind
  kinds_of_all nil = []
  kinds_of_all (cons s rest) = kinds_in s ++ kinds_of_all rest
