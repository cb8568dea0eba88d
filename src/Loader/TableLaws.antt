-- ===== src/Loader/TableLaws.antt =====
-- What holds of the tables that catalog/loader.py `parse_catalog` accepts.
use blastoise.Base.{
  OkHas-after, traverse-All, Bool, true, false, not, ◌≡◌, none, List, All, all, arith, Text, ok,
  traverse, OkHas, OkHas-bind, ap, if◌then◌else◌, list_eq, nat_eq,
}
use blastoise.Ir.{StatementKind, AlterTableActionKind, statement, action}
use blastoise.Catalog.{Resolution, VersionRange, CatalogEntry}
use blastoise.Loader.Documents.{Yaml, pairs, as_mapping}
use blastoise.Loader.Spellings.{
  statement_kinds, action_kinds, same_statement, same_action, statement_kind_of, action_kind_of,
  resolutions,
}
use blastoise.Loader.Scalars.{enum}
use blastoise.Loader.Matrix.{MatrixRows}
use blastoise.Loader.Tables.{
  find_kind, is_some, kind_of, parse_rows, Resolutions, StatementRows, ActionRows, not_direct,
  resolves_by, parse_resolution, parse_resolutions, parse_statement, parse_statements, parse_action,
  parse_actions,
}
use blastoise.Loader.Lookups.{AreChecked, parse_rows-has}
use blastoise.Loader.Checks.{require-then, all-Any}
use blastoise.Loader.Injective.{statement-listed, action-listed}

first_of_two : (b c : Bool) → (if b then true else c) ≡ true → c ≡ false → b ≡ true
first_of_two b c h k = ground arith

module _ (matrix : MatrixRows) (domain : VersionRange) where
  abbrev pub StatementChecked : StatementKind × List CatalogEntry → Type 0
  StatementChecked p = AreChecked matrix domain (statement p.0) p.1

  abbrev pub ActionChecked : AlterTableActionKind × List CatalogEntry → Type 0
  ActionChecked p = AreChecked matrix domain (action p.0) p.1

  -- Every row list is checked, and a kind that resolves in no other way has one.
  abbrev pub StatementsHave : Resolutions → StatementRows → Type 0
  StatementsHave rs table =
      All StatementChecked table
      × ((k : StatementKind)
          → find_kind same_statement k rs ≡ none
          → is_some (find_kind same_statement k table) ≡ true)

  parse_statement-has :
      (rs : Resolutions) (p : Text × Yaml)
      → OkHas StatementChecked (parse_statement matrix domain rs p)
  unfolding parse_statement
  parse_statement-has rs (key, rows) =
      OkHas-after StatementChecked (kind_of (statement_kind_of key)) _ λ kind _.
        require-then (not (is_some (find_kind same_statement kind rs))) StatementChecked _ λ _.
          OkHas-bind (AreChecked matrix domain (statement kind)) StatementChecked
            (parse_rows matrix domain (statement kind) rows) _
            (parse_rows-has matrix domain (statement kind) rows) λ entries checked. checked

  pub parse_statements-has :
      (rs : Resolutions) (raw : Yaml)
      → OkHas (StatementsHave rs) (parse_statements matrix domain rs raw)
  unfolding parse_statements
  parse_statements-has rs raw = OkHas-after (StatementsHave rs) (as_mapping raw) _ λ m _.
      OkHas-bind (All StatementChecked) (StatementsHave rs)
        (traverse (parse_statement matrix domain rs) (pairs m)) _
        (traverse-All StatementChecked (parse_statement matrix domain rs) (pairs m)
          (parse_statement-has rs))
        λ table checked. require-then (all _ statement_kinds) (StatementsHave rs) (ok table) λ h. (
          checked,
          λ k none_found.
              first_of_two _ _ (all-Any _ k statement_kinds h (statement-listed k))
                (ap is_some none_found),
        )

  abbrev pub ActionsHave : ActionRows → Type 0
  ActionsHave table =
      All ActionChecked table
      × ((k : AlterTableActionKind) → is_some (find_kind same_action k table) ≡ true)

  parse_action-has : (p : Text × Yaml) → OkHas ActionChecked (parse_action matrix domain p)
  unfolding parse_action
  parse_action-has (key, rows) =
      OkHas-after ActionChecked (kind_of (action_kind_of key)) _ λ kind _.
        OkHas-bind (AreChecked matrix domain (action kind)) ActionChecked
          (parse_rows matrix domain (action kind) rows) _
          (parse_rows-has matrix domain (action kind) rows) λ entries checked. checked

  pub parse_actions-has : (raw : Yaml) → OkHas ActionsHave (parse_actions matrix domain raw)
  unfolding parse_actions
  parse_actions-has raw = OkHas-after ActionsHave (as_mapping raw) _ λ m _.
      OkHas-bind (All ActionChecked) ActionsHave (traverse (parse_action matrix domain) (pairs m)) _
        (traverse-All ActionChecked (parse_action matrix domain) (pairs m) parse_action-has)
        λ table checked.
          require-then (all (λ k. is_some (find_kind same_action k table)) action_kinds) ActionsHave
            (ok table) λ h. (checked, λ k. all-Any _ k action_kinds h (action-listed k))

-- Every way of resolving that is written down is not the default.
abbrev pub Indirect : Resolutions → Type 0
Indirect rs = All (λ (p : StatementKind × Resolution). not_direct p.1 ≡ true) rs

pub parse_resolutions-has : (raw : Yaml) → OkHas Indirect (parse_resolutions raw)
unfolding parse_resolutions parse_resolution
parse_resolutions-has raw = OkHas-after Indirect (as_mapping raw) _ λ m _.
    OkHas-bind Indirect Indirect (traverse parse_resolution (pairs m)) _
      (traverse-All _ parse_resolution (pairs m) λ p.
        OkHas-after _ (kind_of (statement_kind_of p.0)) _ λ kind _.
          OkHas-after _ (enum resolutions p.1) _
            λ mode _. require-then (not_direct mode) _ (ok (kind, mode)) λ h. h)
      λ rs indirect.
        require-then (resolves_by StatementKind.alter_table Resolution.per_action rs) Indirect _
          λ _.
            require-then (resolves_by StatementKind.do_block Resolution.inner_statements rs)
              Indirect (ok rs) λ _. indirect
