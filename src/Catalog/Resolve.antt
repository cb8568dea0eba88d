-- ===== src/Catalog/Resolve.antt =====
-- catalog/resolve.py: which rows of the catalog apply to a statement, and what they lock.
use blastoise.Base.{
  ℕ, Bool, true, false, ◌||◌, not, Option, some, none, List, [], ◌∷◌, ◌++◌, map, Result, ok, raise,
  lookup_error, ◌>>=◌, traverse, contains, if◌then◌else◌,
}
use blastoise.Ir.{
  QualifiedName, AlterTableAction, ParsedStatement, parsed, head, Details, details,
  create_table_details, do_block_details, StatementList, nil, cons, ir_attrs, Kind, statement,
  action,
}
use blastoise.Catalog.Modes.{
  LockMode, access_share, row_exclusive, mode_eq, direct, per_action, inner_statements,
}
use blastoise.Catalog.Entries.{
  Role, target, additional_targets, referenced_table, referenced_tables, partition, parent,
  unresolvable, AffectedRelation, CatalogEntry, LockCatalog,
}
use blastoise.Catalog.Lookup.{resolution_of, conflicts_with, entry_for}

pub record RelationLock : Type 0 where
  pub role : Role
  pub name : Option QualifiedName
  pub lock_mode : LockMode
  pub blocks_reads : Bool
  pub blocks_writes : Bool
  pub certain : Bool

-- `statement` and `action` are the fields of these names.
pub record ResolvedLock : Type 0 where
  pub entry : CatalogEntry
  pub relations : List RelationLock
  pub of_statement : ParsedStatement
  pub of_action : Option AlterTableAction
  pub in_do_block : Bool
  pub conditional : Bool

abbrev option_list {ℓ} : {A : Type ℓ} → Option A → List A
option_list none = []
option_list (some a) = a ∷ []

abbrev take_one {ℓ} : {A : Type ℓ} → List A → List A
take_one [] = []
take_one (x ∷ xs) = x ∷ []

abbrev drop_one {ℓ} : {A : Type ℓ} → List A → List A
drop_one [] = []
drop_one (x ∷ xs) = xs

created_references : Details → List QualifiedName
created_references (create_table_details d) = d.referenced_tables
created_references _ = []

created_parent : Details → List QualifiedName
created_parent (create_table_details d) = option_list d.partition_of
created_parent _ = []

action_names :
    (AlterTableAction → Option QualifiedName) → Option AlterTableAction → List QualifiedName
action_names field none = []
action_names field (some a) = option_list (field a)

names_for_role : Role → ParsedStatement → Option AlterTableAction → List (Option QualifiedName)
unfolding created_references created_parent action_names
names_for_role target s a = map some (take_one (head s).targets)
names_for_role additional_targets s a = map some (drop_one (head s).targets)
names_for_role referenced_table s a = map some (action_names (λ b. b.referenced_table) a)
names_for_role referenced_tables s a = map some (created_references (details s))
names_for_role partition s a = map some (action_names (λ b. b.partition) a)
names_for_role parent s a = map some (created_parent (details s))
names_for_role (unresolvable _) s a = none ∷ []

module _ (catalog : LockCatalog) where
  relation_lock : AffectedRelation → Option QualifiedName → RelationLock
  relation_lock rel name =
      let conflicts = conflicts_with catalog rel.lock_mode in
      record {
        role = rel.role;
        name = name;
        lock_mode = rel.lock_mode;
        blocks_reads = contains access_share conflicts;
        blocks_writes = contains row_exclusive conflicts;
        certain = rel.statically_resolvable || not rel.optional;
      }

  affected_locks :
      ParsedStatement → Option AlterTableAction → AffectedRelation → Result (List RelationLock)
  unfolding names_for_role relation_lock
  affected_locks s a rel =
      let names =
        if not rel.statically_resolvable then none ∷ [] else names_for_role rel.role s a in
      elim names [
        | [] ↦ if rel.optional then ok [] else raise lookup_error
        | n ∷ ns ↦ ok (map (relation_lock rel) (n ∷ ns))
      ]

  -- `_relations`.
  unfoldable pub relations_from :
      List AffectedRelation → ParsedStatement → Option AlterTableAction → Result (List RelationLock)
  unfolding affected_locks
  relations_from [] s a = ok []
  relations_from (rel ∷ rels) s a =
      affected_locks s a rel >>= λ locks. relations_from rels s a >>= λ rest. ok (locks ++ rest)

module _ (catalog : LockCatalog) (pg_version : ℕ) where
  -- The row of one statement or one subcommand.
  unfoldable pub resolve_one :
      ParsedStatement → Option AlterTableAction → Bool → Bool → Result ResolvedLock
  resolve_one s a in_do_block conditional =
      let kind : Kind = elim a [ none ↦ statement (head s).kind | some b ↦ action b.kind ] in
      entry_for catalog kind pg_version (ir_attrs s a) >>= λ entry.
      relations_from catalog entry.affected_relations s a >>= λ relations. ok (record {
        entry = entry;
        relations = relations;
        of_statement = s;
        of_action = a;
        in_do_block = in_do_block;
        conditional = conditional;
      })

  unfoldable mutual
    pub resolve_in : Bool → Bool → ParsedStatement → Result (List ResolvedLock)
    resolve_in in_do_block conditional (parsed h d) = elim (resolution_of catalog h.kind) [
      | direct ↦ resolve_one (parsed h d) none in_do_block conditional >>= λ row. ok (row ∷ [])
      | per_action ↦
          traverse (λ a. resolve_one (parsed h d) (some a) in_do_block conditional) h.alter_actions
      | inner_statements ↦ resolve_inner conditional d
    ]

    pub resolve_inner : Bool → Details → Result (List ResolvedLock)
    resolve_inner conditional (do_block_details block inner) =
        resolve_all (conditional || block.existence_guarded) inner
    resolve_inner conditional _ = ok []

    pub resolve_all : Bool → StatementList → Result (List ResolvedLock)
    resolve_all conditional nil = ok []
    resolve_all conditional (cons s rest) = resolve_in true conditional s >>= λ rows.
        resolve_all conditional rest >>= λ more. ok (rows ++ more)

  -- `resolve` with its defaults.
  unfoldable pub resolve : ParsedStatement → Result (List ResolvedLock)
  unfolding resolve_in
  resolve s = resolve_in false false s
