-- ===== src/Catalog/Reach.antt =====
-- What `resolve` of catalog/resolve.py reaches.
use blastoise.Base.{
  ℕ, Bool, true, false, ◌||◌, ◌≡◌, refl, ap, ◌∙◌, ◌++◌, Option, some, none, List, [], ◌∷◌, map, All,
  ok, Result, OkHas, OkHas-bind, ok-has, OkHas-after, All-append, traverse,
}
use blastoise.Ir.{
  ParsedStatement, parsed, head, AlterTableAction, Details, do_block_details, StatementList, nil,
  cons, Kind, statement, action, ir_attrs,
}
use blastoise.Catalog.Modes.{Resolution, direct, per_action, inner_statements}
use blastoise.Catalog.Entries.{LockCatalog}
use blastoise.Catalog.Lookup.{resolution_of, entry_for}
use blastoise.Catalog.Resolve.{
  ResolvedLock, relations_from, resolve_one, resolve_in, resolve_inner, resolve_all, resolve,
}

-- Where a row belongs: the statement, the subcommand of it, whether a DO block is around it, and
-- whether some DO block around it has an existence guard.
pub record Place : Type 0 where
  pub of_statement : ParsedStatement
  pub of_action : Option AlterTableAction
  pub in_do_block : Bool
  pub guarded : Bool

abbrev pub place_of : ResolvedLock → Place
place_of r = record {
  of_statement = r.of_statement;
  of_action = r.of_action;
  in_do_block = r.in_do_block;
  guarded = r.conditional;
}

abbrev place : Bool → Bool → ParsedStatement → Option AlterTableAction → Place
place b c s a = record { of_statement = s; of_action = a; in_do_block = b; guarded = c }

-- The places of a statement, by how the catalog resolves its kind: the statement itself, each of
-- its subcommands in order, or the places of the statements inside, one after the other.
module _ (catalog : LockCatalog) where
  unfoldable mutual
    pub places_in : (in_do_block guarded : Bool) → ParsedStatement → List Place
    places_in b c (parsed h d) = elim (resolution_of catalog h.kind) [
      | direct ↦ place b c (parsed h d) none ∷ []
      | per_action ↦ map (λ a. place b c (parsed h d) (some a)) h.alter_actions
      | inner_statements ↦ places_inside c d
    ]

    places_inside : Bool → Details → List Place
    places_inside c (do_block_details block inner) =
        places_of_all (c || block.existence_guarded) inner
    places_inside c _ = []

    places_of_all : Bool → StatementList → List Place
    places_of_all c nil = []
    places_of_all c (cons s rest) = places_in true c s ++ places_of_all c rest

abbrev kind_at : Place → Kind
kind_at p = elim p.of_action [
  | none ↦ statement (head p.of_statement).kind
  | some a ↦ action a.kind
]

-- The row is the one that the catalog has for its place, and its locks are those of the row there.
abbrev pub IsRowThere : LockCatalog → ℕ → ResolvedLock → Type 0
IsRowThere catalog pg_version r =
    (entry_for catalog (kind_at (place_of r)) pg_version (ir_attrs r.of_statement r.of_action)
      ≡ ok r.entry)
    × (relations_from catalog r.entry.affected_relations r.of_statement r.of_action
        ≡ ok r.relations)

resolution_case :
    {A B : Type 0} (P : A → B → Type 0) (r : Resolution) (x y z : A) (u v w : B)
    → P x u
    → P y v
    → P z w
    → P
        (elim r [ direct ↦ x | per_action ↦ y | inner_statements ↦ z ])
        (elim r [ direct ↦ u | per_action ↦ v | inner_statements ↦ w ])
resolution_case P direct x y z u v w h k l = h
resolution_case P per_action x y z u v w h k l = k
resolution_case P inner_statements x y z u v w h k l = l

map-append :
    (xs ys : List ResolvedLock) → map place_of (xs ++ ys) ≡ map place_of xs ++ map place_of ys
map-append [] ys = refl
map-append (x ∷ xs) ys = ap (λ ps. place_of x ∷ ps) (map-append xs ys)

module _ (catalog : LockCatalog) (pg_version : ℕ) where
  -- The rows stand at the places, in order.
  abbrev Stand : List Place → List ResolvedLock → Type 0
  Stand places rows = (map place_of rows ≡ places) × All (IsRowThere catalog pg_version) rows

  abbrev AllStand : Result (List ResolvedLock) → List Place → Type 0
  AllStand result places = OkHas (Stand places) result

  resolve_one-place :
      (s : ParsedStatement) (a : Option AlterTableAction) (b c : Bool)
      → OkHas
          (λ r. (place_of r ≡ place b c s a) × IsRowThere catalog pg_version r)
          (resolve_one catalog pg_version s a b c)
  unfolding resolve_one
  resolve_one-place s a b c = OkHas-after _ (entry_for catalog _ pg_version _) _ λ entry found.
      OkHas-after _ (relations_from catalog entry.affected_relations s a) _
        λ relations locked. (refl, (found, locked))

  traverse-Stand :
      (s : ParsedStatement) (b c : Bool) (actions : List AlterTableAction)
      → AllStand
          (traverse (λ a. resolve_one catalog pg_version s (some a) b c) actions)
          (map (λ a. place b c s (some a)) actions)
  traverse-Stand s b c [] = (refl, tt)
  traverse-Stand s b c (a ∷ actions) =
      OkHas-bind _ _ (resolve_one catalog pg_version s (some a) b c) _
        (resolve_one-place s (some a) b c)
        λ r here.
          OkHas-bind _ _ (traverse (λ x. resolve_one catalog pg_version s (some x) b c) actions) _
            (traverse-Stand s b c actions)
            λ rows there. (
              ap (λ p. p ∷ map place_of rows) here.0 ∙ ap (λ ps. place b c s (some a) ∷ ps) there.0,
              (here.1, there.1),
            )

  mutual
    unfolding resolve_in places_in

    resolve_in-Stand :
        (b c : Bool) (s : ParsedStatement)
        → AllStand (resolve_in catalog pg_version b c s) (places_in catalog b c s)
    resolve_in-Stand b c (parsed h d) =
        resolution_case AllStand (resolution_of catalog h.kind) _ _ _ _ _ _
          (OkHas-bind _ _ (resolve_one catalog pg_version (parsed h d) none b c) _
            (resolve_one-place (parsed h d) none b c)
            λ r here. (ap (λ p. p ∷ []) here.0, (here.1, tt)))
          (traverse-Stand (parsed h d) b c h.alter_actions) (resolve_inner-Stand c d)

    resolve_inner-Stand :
        (c : Bool) (d : Details)
        → AllStand (resolve_inner catalog pg_version c d) (places_inside catalog c d)
    resolve_inner-Stand c (do_block_details block inner) =
        resolve_all-Stand (c || block.existence_guarded) inner
    resolve_inner-Stand c _ = (refl, tt)

    resolve_all-Stand :
        (c : Bool) (ss : StatementList)
        → AllStand (resolve_all catalog pg_version c ss) (places_of_all catalog c ss)
    resolve_all-Stand c nil = (refl, tt)
    resolve_all-Stand c (cons s rest) =
        OkHas-bind (Stand (places_in catalog true c s)) _ (resolve_in catalog pg_version true c s) _
          (resolve_in-Stand true c s)
          λ rows here.
            OkHas-bind (Stand (places_of_all catalog c rest)) _
              (resolve_all catalog pg_version c rest) _ (resolve_all-Stand c rest)
              λ more there. (
                map-append rows more
                    ∙ (ap (λ ps. ps ++ map place_of more) here.0
                        ∙ ap (λ ps. places_in catalog true c s ++ ps) there.0),
                All-append _ rows more here.1 there.1,
              )

pub resolve-reaches :
    (catalog : LockCatalog) (pg_version : ℕ) (s : ParsedStatement) (rows : List ResolvedLock)
    → resolve catalog pg_version s ≡ ok rows
    → (map place_of rows ≡ places_in catalog false false s)
      × All (IsRowThere catalog pg_version) rows
unfolding resolve
resolve-reaches catalog pg_version s rows e =
    ok-has (Stand catalog pg_version (places_in catalog false false s))
      (resolve catalog pg_version s) rows e (resolve_in-Stand catalog pg_version false false s)
