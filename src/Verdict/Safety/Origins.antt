-- ===== src/Verdict/Safety/Origins.antt =====
-- Which statement and subcommand a row of catalog/resolve.py comes from.
use blastoise.Base.{
  ℕ, ◌≡◌, refl, sym, subst, Bool, true, false, ◌||◌, Option, some, none, List, [], ◌∷◌, ◌++◌, All,
  All-append, All-map, Any, inl, inr, Result, ok, raise, ◌>>=◌, traverse, OkHas, OkHas-bind,
  OkHas-any,
}
use blastoise.Ir.{
  AlterTableAction, ParsedStatement, parsed, head, Details, do_block_details, StatementList, nil,
  cons, ir_attrs,
}
use blastoise.Catalog.{
  LockCatalog, ResolvedLock, resolve, resolve_one, resolve_in, resolve_inner, resolve_all,
  entry_for, relations_from, resolution_of, direct, per_action, inner_statements,
}
use blastoise.Verdict.Collect.{walk, walk_details, walk_all}

abbrev pub InStatements : ParsedStatement → List ParsedStatement → Type 0
InStatements s ss = Any (λ t. s ≡ t) ss

abbrev pub InActions : AlterTableAction → List AlterTableAction → Type 0
InActions a actions = Any (λ b. a ≡ b) actions

-- The action of a row is one of its statement, if it has one.
abbrev pub ActionOf : ParsedStatement → Option AlterTableAction → Type 0
ActionOf s none = Unit
ActionOf s (some a) = InActions a (head s).alter_actions

-- The row comes from one of the statements, and from one of its subcommands.
abbrev pub ComesFrom : List ParsedStatement → ResolvedLock → Type 0
ComesFrom ss r = InStatements r.of_statement ss × ActionOf r.of_statement r.of_action

resolve_one-ComesFrom :
    (catalog : LockCatalog) (v : ℕ) (s : ParsedStatement) (o : Option AlterTableAction) (d c : Bool)
    → OkHas (λ r. (r.of_statement ≡ s) × (r.of_action ≡ o)) (resolve_one catalog v s o d c)
unfolding resolve_one
resolve_one-ComesFrom catalog v s o d c =
    OkHas-bind (λ x. Unit) (λ r. (r.of_statement ≡ s) × (r.of_action ≡ o))
      (entry_for catalog _ v (ir_attrs s o)) (λ entry. _)
      (OkHas-any (entry_for catalog _ v (ir_attrs s o)))
      λ entry u.
        OkHas-bind (λ x. Unit) (λ r. (r.of_statement ≡ s) × (r.of_action ≡ o))
          (relations_from catalog entry.affected_relations s o) (λ relations. _)
          (OkHas-any (relations_from catalog entry.affected_relations s o))
          λ relations w. (refl, refl)

OkHas-traverse :
    {A B : Type 0} (P : B → Type 0) (f : A → Result B) (xs : List A)
    → All (λ x. OkHas P (f x)) xs
    → OkHas (All P) (traverse f xs)
OkHas-traverse P f [] h = tt
OkHas-traverse P f (x ∷ xs) h =
    OkHas-bind P (All P) (f x) (λ y. _) h.0
      λ y py.
        OkHas-bind (All P) (All P) (traverse f xs) (λ ys. _) (OkHas-traverse P f xs h.1)
          λ ys pys. (py, pys)

OkHas-weaken :
    {A : Type 0} (P Q : A → Type 0) (m : Result A) → ((x : A) → P x → Q x) → OkHas P m → OkHas Q m
OkHas-weaken P Q (ok x) k h = k x h
OkHas-weaken P Q (raise e) k h = tt

pub statements-left :
    (s : ParsedStatement) (ss ts : List ParsedStatement)
    → InStatements s ss
    → InStatements s (ss ++ ts)
statements-left s [] ts h = absurd h
statements-left s (t ∷ ss) ts (inl e) = inl e
statements-left s (t ∷ ss) ts (inr h) = inr (statements-left s ss ts h)

pub statements-right :
    (s : ParsedStatement) (ss ts : List ParsedStatement)
    → InStatements s ts
    → InStatements s (ss ++ ts)
statements-right s [] ts h = h
statements-right s (t ∷ ss) ts h = inr (statements-right s ss ts h)

actions-All : (actions : List AlterTableAction) → All (λ a. InActions a actions) actions
actions-All [] = tt
actions-All (a ∷ rest) = (
  inl refl,
  All-map (λ b. InActions b rest) (λ b. InActions b (a ∷ rest)) (λ b m. inr m) rest
      (actions-All rest),
)

module _ (catalog : LockCatalog) (v : ℕ) where
  one-ComesFrom :
      (s : ParsedStatement) (ss : List ParsedStatement) (o : Option AlterTableAction) (d c : Bool)
      → ActionOf s o
      → OkHas (ComesFrom (s ∷ ss)) (resolve_one catalog v s o d c)
  one-ComesFrom s ss o d c m =
      OkHas-weaken (λ r. (r.of_statement ≡ s) × (r.of_action ≡ o)) (ComesFrom (s ∷ ss))
        (resolve_one catalog v s o d c)
        (λ r h.
          (inl h.0, subst (λ t. ActionOf t r.of_action) (sym h.0) (subst (ActionOf s) (sym h.1) m)))
        (resolve_one-ComesFrom catalog v s o d c)

  mutual
    unfolding resolve_in walk

    in-ComesFrom :
        (d c : Bool) (s : ParsedStatement)
        → OkHas (All (ComesFrom (walk s))) (resolve_in catalog v d c s)
    in-ComesFrom d c (parsed h det) =
        elim (resolution_of catalog h.kind)
          as (λ x.
            OkHas (All (ComesFrom (parsed h det ∷ walk_details det)))
              (elim x as (λ y. Result (List ResolvedLock)) [
                | direct ↦ resolve_one catalog v (parsed h det) none d c >>= λ row. ok (row ∷ [])
                | per_action ↦
                    traverse (λ a. resolve_one catalog v (parsed h det) (some a) d c)
                      h.alter_actions
                | inner_statements ↦ resolve_inner catalog v c det
              ])) [
                | direct ↦
                    OkHas-bind (ComesFrom (parsed h det ∷ walk_details det))
                      (All (ComesFrom (parsed h det ∷ walk_details det)))
                      (resolve_one catalog v (parsed h det) none d c) (λ row. ok (row ∷ []))
                      (one-ComesFrom (parsed h det) (walk_details det) none d c tt) λ row k. (k, tt)
                | per_action ↦
                    OkHas-traverse (ComesFrom (parsed h det ∷ walk_details det))
                      (λ a. resolve_one catalog v (parsed h det) (some a) d c) h.alter_actions
                      (All-map (λ a. InActions a h.alter_actions)
                        (λ a.
                          OkHas (ComesFrom (parsed h det ∷ walk_details det))
                            (resolve_one catalog v (parsed h det) (some a) d c))
                        (λ a m. one-ComesFrom (parsed h det) (walk_details det) (some a) d c m)
                        h.alter_actions (actions-All h.alter_actions))
                | inner_statements ↦
                    OkHas-weaken (All (ComesFrom (walk_details det)))
                      (All (ComesFrom (parsed h det ∷ walk_details det)))
                      (resolve_inner catalog v c det)
                      (λ rs k.
                        All-map (ComesFrom (walk_details det))
                          (ComesFrom (parsed h det ∷ walk_details det)) (λ r m. (inr m.0, m.1)) rs
                          k)
                      (inner-ComesFrom c det)
              ]

    inner-ComesFrom :
        (c : Bool) (det : Details)
        → OkHas (All (ComesFrom (walk_details det))) (resolve_inner catalog v c det)
    inner-ComesFrom c (do_block_details block inner) =
        All-ComesFrom (c || block.existence_guarded) inner
    inner-ComesFrom c _ = tt

    All-ComesFrom :
        (c : Bool) (ss : StatementList)
        → OkHas (All (ComesFrom (walk_all ss))) (resolve_all catalog v c ss)
    All-ComesFrom c nil = tt
    All-ComesFrom c (cons s rest) =
        OkHas-bind (All (ComesFrom (walk s))) (All (ComesFrom (walk s ++ walk_all rest)))
          (resolve_in catalog v true c s) (λ rows. _) (in-ComesFrom true c s)
          λ rows hr.
            OkHas-bind (All (ComesFrom (walk_all rest))) (All (ComesFrom (walk s ++ walk_all rest)))
              (resolve_all catalog v c rest) (λ more. _) (All-ComesFrom c rest)
              λ more hm.
                All-append (ComesFrom (walk s ++ walk_all rest)) rows more
                  (All-map (ComesFrom (walk s)) (ComesFrom (walk s ++ walk_all rest))
                    (λ r k. (statements-left r.of_statement (walk s) (walk_all rest) k.0, k.1)) rows
                    hr)
                  (All-map (ComesFrom (walk_all rest)) (ComesFrom (walk s ++ walk_all rest))
                    (λ r k. (statements-right r.of_statement (walk s) (walk_all rest) k.0, k.1))
                    more hm)

pub row-ComesFrom :
    (ss : List ParsedStatement) (r : ResolvedLock) (rows : List ResolvedLock)
    → Any (λ row. r ≡ row) rows
    → All (ComesFrom ss) rows
    → ComesFrom ss r
row-ComesFrom ss r [] m h = absurd m
row-ComesFrom ss r (row ∷ rows) (inl e) h = subst (ComesFrom ss) (sym e) h.0
row-ComesFrom ss r (row ∷ rows) (inr m) h = row-ComesFrom ss r rows m h.1

pub resolve-ComesFrom :
    (catalog : LockCatalog) (v : ℕ) (s : ParsedStatement)
    → OkHas (All (ComesFrom (walk s))) (resolve catalog v s)
unfolding resolve
resolve-ComesFrom catalog v s = in-ComesFrom catalog v false false s
