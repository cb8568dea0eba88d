-- ===== src/Verdict/Engine/FileStates.antt =====
-- verdict/engine.py `_FileState`: what the file itself has created so far.
use blastoise.Base.{
  Bool, false, ◌||◌, Option, some, none, List, [], ◌∷◌, Text, codes, nat_eq, list_eq, ◌==◌,
  if◌then◌else◌, after_last,
}
use blastoise.Ir.{
  StatementKind, QualifiedName, ParsedStatement, parsed, Head, Details, rename_details,
  insert_details, do_block_details, StatementList, nil, cons, first_target,
}

-- Created empty, or bulk-loaded by a query.
pub data Tag : Type 0 where
  clean loaded : Tag

-- The dictionary `created`, by unqualified name.
abbrev pub Created : Type 0
Created = Text → Option Tag

pub record FileState : Type 0 where
  pub created : Created
  pub baseline : Bool

unfoldable pub fresh : Bool → FileState
fresh baseline = record { created = λ name. none; baseline = baseline }

unfoldable pub state_of : FileState → Option QualifiedName → Option Tag
state_of st name =
    if st.baseline then some clean else elim name [ none ↦ none | some q ↦ st.created q.name ]

-- The same from a rendered `schema.name`.
unfoldable pub state_of_label : FileState → Option Text → Option Tag
state_of_label st label =
    if st.baseline
    then some clean
    else elim label [ none ↦ none | some text ↦ st.created (after_last b'.' text) ]

-- `created[name] = tag`, and `created.pop(name, None)`.
unfoldable pub tagged : Text → Tag → FileState → FileState
tagged name tag st = record st {
  created = λ other. if other == name then some tag else st.created other;
}

unfoldable pub removed : Text → FileState → FileState
removed name st = record st { created = λ other. if other == name then none else st.created other }

unfoldable pub removed_all : List QualifiedName → FileState → FileState
removed_all [] st = st
removed_all (q ∷ qs) st = removed_all qs (removed q.name st)

unfoldable pub tag_target : Tag → Option QualifiedName → FileState → FileState
tag_target tag none st = st
tag_target tag (some q) st = tagged q.name tag st

unfoldable pub renamed_to : Details → Option Text
renamed_to (rename_details d) = d.new_name
renamed_to _ = none

unfoldable pub rename_target : Option QualifiedName → Option Text → FileState → FileState
rename_target none new st = st
rename_target (some q) none st = st
rename_target (some q) (some new) st = elim (st.created q.name) [
  | none ↦ st
  | some tag ↦ tagged new tag (removed q.name st)
]

-- Rows that do not come from a query.
unfoldable pub is_bounded : Details → Bool
is_bounded (insert_details source) = source == codes "values" || source == codes "default_values"
is_bounded _ = false

-- An insert into a relation of the file. `otherwise` is the last branch, of a DO block.
unfoldable pub load_target : Option QualifiedName → Details → FileState → FileState → FileState
unfolding is_bounded
load_target none d otherwise st = otherwise
load_target (some q) d otherwise st = elim (st.created q.name) [
  | none ↦ otherwise
  | some _ ↦ if is_bounded d then st else tagged q.name loaded st
]

unfoldable pub observe_kind : StatementKind → Head → Details → FileState → FileState → FileState
unfolding tag_target renamed_to rename_target load_target
observe_kind StatementKind.create_table h d otherwise st =
    tag_target clean (first_target h.targets) st
observe_kind StatementKind.create_table_partition_of h d otherwise st =
    tag_target clean (first_target h.targets) st
observe_kind StatementKind.create_table_as h d otherwise st =
    tag_target loaded (first_target h.targets) st
observe_kind StatementKind.select_into h d otherwise st =
    tag_target loaded (first_target h.targets) st
observe_kind StatementKind.create_matview h d otherwise st =
    tag_target loaded (first_target h.targets) st
observe_kind StatementKind.drop_table h d otherwise st = removed_all h.targets st
observe_kind StatementKind.rename_table h d otherwise st =
    rename_target (first_target h.targets) (renamed_to d) st
observe_kind StatementKind.insert h d otherwise st =
    load_target (first_target h.targets) d otherwise st
observe_kind StatementKind.copy_from h d otherwise st =
    load_target (first_target h.targets) d otherwise st
observe_kind StatementKind.merge h d otherwise st =
    load_target (first_target h.targets) d otherwise st
observe_kind _ h d otherwise st = otherwise

unfoldable mutual
  unfolding observe_kind

  pub observe : ParsedStatement → FileState → FileState
  observe (parsed h d) st =
      let otherwise = observe_details d st in observe_kind h.kind h d otherwise st

  pub observe_details : Details → FileState → FileState
  observe_details (do_block_details block inner) st = observe_all inner st
  observe_details _ st = st

  pub observe_all : StatementList → FileState → FileState
  observe_all nil st = st
  observe_all (cons s rest) st = observe_all rest (observe s st)
