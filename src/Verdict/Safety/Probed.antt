-- ===== src/Verdict/Safety/Probed.antt =====
-- That the snapshot of verdict/probes.py asks for each relation which verdict/engine.py sizes.
use blastoise.Base.{
  ℕ, ◌≡◌, refl, sym, ap, subst, Option, some, none, List, [], ◌∷◌, ◌++◌, map, All, Any, arith, ◌⊎◌,
  inl, inr, Text, Option-cases, ok, OkHas,
}
use blastoise.Ir.{
  QualifiedName, AlterTableAction, ParsedStatement, head, details, first_target, MigrationScript,
}
use blastoise.Catalog.{LockCatalog, ResolvedLock, resolve}
use blastoise.Verdict.Probes.{probe_name}
use blastoise.Verdict.Collect.{
  walk, probe_of, details_relations, statement_relations, action_relations, gathered, walked,
  snapshot_probes,
}
use blastoise.Verdict.Engine.{duration_relation}
use blastoise.Verdict.Safety.Members.{Among, sorted_set-member, append-left, append-right}
use blastoise.Verdict.Safety.Origins.{
  InStatements, InActions, ActionOf, ComesFrom, statements-left, statements-right, row-ComesFrom,
  resolve-ComesFrom,
}

first_target-Among :
    (q : QualifiedName) (qs : List QualifiedName)
    → first_target qs ≡ some q
    → Among (probe_name q) (map probe_name qs)
first_target-Among q [] h = cc
first_target-Among q (p ∷ ps) h = inl (ap probe_name (some-injective q p (sym h)))
  where
    some-injective : (x y : QualifiedName) → some x ≡ some y → x ≡ y
    some-injective x y e = cc

probe_of-Among :
    (q : QualifiedName) (o : Option QualifiedName) → o ≡ some q → Among (probe_name q) (probe_of o)
probe_of-Among q o h = subst (λ p. Among (probe_name q) (probe_of p)) (sym h) (inl refl)

partition-Among :
    (q : QualifiedName) (a : AlterTableAction) (actions : List AlterTableAction)
    → InActions a actions
    → a.partition ≡ some q
    → Among (probe_name q) (action_relations actions)
partition-Among q a [] m h = absurd m
partition-Among q a (b ∷ bs) (inl e) h =
    append-right (probe_name q) (probe_of b.referenced_table)
      (probe_of b.partition ++ action_relations bs)
      (append-left (probe_name q) (probe_of b.partition) (action_relations bs)
        (probe_of-Among q b.partition (subst (λ (c : AlterTableAction). c.partition ≡ some q) e h)))
partition-Among q a (b ∷ bs) (inr m) h =
    append-right (probe_name q) (probe_of b.referenced_table)
      (probe_of b.partition ++ action_relations bs)
      (append-right (probe_name q) (probe_of b.partition) (action_relations bs)
        (partition-Among q a bs m h))

target-probed :
    (s : ParsedStatement) (q : QualifiedName)
    → first_target (head s).targets ≡ some q
    → Among (probe_name q) (statement_relations s)
target-probed s q h =
    append-left (probe_name q) (map probe_name (head s).targets) _
      (first_target-Among q (head s).targets h)

no_action-relation :
    (r : ResolvedLock) (q : QualifiedName)
    → r.of_action ≡ none
    → duration_relation r ≡ some q
    → first_target (head r.of_statement).targets ≡ some q
unfolding duration_relation
no_action-relation r q e h = ground arith

action-relation :
    (r : ResolvedLock) (q : QualifiedName) (a : AlterTableAction)
    → r.of_action ≡ some a
    → duration_relation r ≡ some q
    → (first_target (head r.of_statement).targets ≡ some q) ⊎ (a.partition ≡ some q)
unfolding duration_relation
action-relation r q a e h = ground arith

row-probed :
    (r : ResolvedLock) (q : QualifiedName)
    → ActionOf r.of_statement r.of_action
    → duration_relation r ≡ some q
    → Among (probe_name q) (statement_relations r.of_statement)
row-probed r q m h = elim (Option-cases r.of_action) [
  | inl e ↦ target-probed r.of_statement q (no_action-relation r q e h)
  | inr (a, e) ↦ elim (action-relation r q a e h) [
    | inl t ↦ target-probed r.of_statement q t
    | inr p ↦
        append-right (probe_name q) (map probe_name (head r.of_statement).targets)
          (details_relations (details r.of_statement)
            ++ action_relations (head r.of_statement).alter_actions)
          (append-right (probe_name q) (details_relations (details r.of_statement))
            (action_relations (head r.of_statement).alter_actions)
            (partition-Among q a (head r.of_statement).alter_actions
              (subst (ActionOf r.of_statement) e m) p))
  ]
]

gathered-member :
    (t : ParsedStatement) (ss : List ParsedStatement) (x : Text)
    → InStatements t ss
    → Among x (statement_relations t)
    → Among x (gathered statement_relations ss)
gathered-member t [] x m h = absurd m
gathered-member t (s ∷ ss) x (inl e) h =
    append-left x (statement_relations s) (gathered statement_relations ss)
      (subst (λ u. Among x (statement_relations u)) e h)
gathered-member t (s ∷ ss) x (inr m) h =
    append-right x (statement_relations s) (gathered statement_relations ss)
      (gathered-member t ss x m h)

walked-member :
    (s t : ParsedStatement) (ss : List ParsedStatement)
    → InStatements s ss
    → InStatements t (walk s)
    → InStatements t (walked ss)
walked-member s t [] m h = absurd m
walked-member s t (u ∷ ss) (inl e) h =
    statements-left t (walk u) (walked ss) (subst (λ w. InStatements t (walk w)) e h)
walked-member s t (u ∷ ss) (inr m) h =
    statements-right t (walk u) (walked ss) (walked-member s t ss m h)

-- For a statement of a script, the relation that sizes the work of each of its rows is among the
-- relations that the snapshot asks the server for, under the spelling by which the engine looks it up.
pub snapshot_probes-covers :
    (catalog : LockCatalog) (v : ℕ) (script : MigrationScript) (s : ParsedStatement)
    (rows : List ResolvedLock) (r : ResolvedLock) (q : QualifiedName)
    → InStatements s script.statements
    → resolve catalog v s ≡ ok rows
    → Any (λ row. r ≡ row) rows
    → duration_relation r ≡ some q
    → Among (probe_name q) (snapshot_probes script).relations
unfolding snapshot_probes
snapshot_probes-covers catalog v script s rows r q m e among sized =
    let from =
      row-ComesFrom (walk s) r rows among
        (subst (OkHas (All (ComesFrom (walk s)))) e (resolve-ComesFrom catalog v s)) in
    sorted_set-member (probe_name q) (gathered statement_relations (walked script.statements)) (
      gathered-member r.of_statement (walked script.statements) (probe_name q)
        (walked-member s r.of_statement script.statements m from.0) (row-probed r q from.1 sized))
