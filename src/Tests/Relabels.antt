-- ===== src/Tests/Relabels.antt =====
-- Narrowings of verdict/narrow.py on concrete inputs, and how the engine reads them.
use blastoise.Base.{
  ◌≡◌, ◌≢◌, refl, true, false, ◌⊎◌, Option, some, none, [], ◌∷◌, codes, drop_prefix,
}
use blastoise.Ir.{
  AlterTableActionKind, AlterTableAction, ParsedStatement, parsed, StatementKind, no_details,
}
use blastoise.Catalog.{ResolvedLock}
use blastoise.Live.{LiveSnapshot, known, ConstraintFacts, RelationFacts}
use blastoise.Live.TypeChange.{
  assess_type_change, facts_complete, domain_rewrites, parse_type_text, decide_change,
}
use blastoise.Verdict.Model.{RowAssessment, reversible, says_no_table_rewrite, render, is_within}
use blastoise.Verdict.Narrow.{
  NarrowResult, narrow_action, open_question, constant, target_facts, narrow_kind,
  narrow_drop_constraint, drop_result, constraints_of, named_constraint, narrow_alter_column_type,
  type_change_result, narrow_no_rewrite_with_indexes, indexes_read, rebuilds_result,
  rebuilt_indexes, dependent_indexes, relation_facts_for, typechange_facts_for,
}
use blastoise.Verdict.Probes.{probe_name, quote_part}
use blastoise.Verdict.Narrow.Grounds.{Grounds}
use blastoise.Verdict.Narrow.Laws.{IsSound, narrow_action-IsSound}
use blastoise.Verdict.Engine.{
  Context, fresh, apply_narrowing, assess_row, narrow_relabel, reversibility_of,
}
use blastoise.Verdict.Safety.Relabels.{apply_narrowing-relabel}
use blastoise.Tests.Facts.{widening}
use blastoise.Tests.Samples.{
  context, resolved_of, cluster_row, users, head_of, action_of, snapshot_with, users_facts,
  evaluate,
}

-- `ALTER TABLE users ALTER COLUMN email TYPE text`
abbrev to_text : AlterTableAction
to_text = record (action_of AlterTableActionKind.alter_column_type) {
  column_type = some (codes "text");
}

abbrev to_text_users : ParsedStatement
to_text_users = parsed (head_of StatementKind.alter_table (users ∷ []) (to_text ∷ [])) no_details

abbrev typed : LiveSnapshot
typed = record (snapshot_with 1_000 []) { type_changes = widening ∷ [] }

abbrev or_open : Option NarrowResult → NarrowResult
or_open none = open_question
or_open (some r) = r

abbrev narrowed_text : NarrowResult
narrowed_text = or_open (narrow_action evaluate to_text to_text_users typed 16)

narrowed-some : narrow_action evaluate to_text to_text_users typed 16 ≡ some narrowed_text
unfolding narrow_action
narrowed-some = refl

narrow_action-IsSound_example :
    IsSound narrowed_text
    × ((narrowed_text.outcome ≢ constant)
        ⊎ Grounds evaluate to_text to_text_users typed 16
            (target_facts to_text_users typed)
            AlterTableActionKind.alter_column_type)
narrow_action-IsSound_example =
    narrow_action-IsSound evaluate to_text to_text_users typed 16 narrowed_text narrowed-some

abbrev online : Context
online = context (some typed) (fresh false)

abbrev typing : ResolvedLock
typing = record (resolved_of cluster_row false) { of_action = some to_text }

abbrev typed_row : RowAssessment
typed_row = record (assess_row online typing) {
  narrowings = (apply_narrowing online typing [] narrowed_text).narrowings;
}

narrowed-relabel : narrowed_text.relabel ≡ true
unfolding narrow_action narrow_kind narrow_alter_column_type type_change_result
    narrow_no_rewrite_with_indexes indexes_read rebuilds_result rebuilt_indexes dependent_indexes
    relation_facts_for typechange_facts_for target_facts assess_type_change facts_complete
    domain_rewrites parse_type_text decide_change probe_name quote_part
narrowed-relabel = refl

apply_narrowing-relabel_example :
    (narrow_relabel typed_row ≡ true)
    × ((reversibility_of to_text_users ((typing, typed_row) ∷ [])).reversibility ≡ reversible)
apply_narrowing-relabel_example =
    apply_narrowing-relabel online typing [] to_text to_text_users typed narrowed_text typed_row
      narrowed-some narrowed-relabel refl refl

-- A constraint whose name has the words the engine searches for.
abbrev odd_name : ConstraintFacts
odd_name = record {
  name = codes "no table rewrite";
  contype = codes "c";
  validated = true;
  columns = [];
  definition = codes "CHECK ((age > 0))";
  check_expression = none;
  referenced_table = none;
}

abbrev constrained : RelationFacts
constrained = record (users_facts 1_000) { constraints = known (some (odd_name ∷ [])) }

abbrev drop_odd : AlterTableAction
drop_odd = record (action_of AlterTableActionKind.drop_constraint) {
  constraint_name = some (codes "no table rewrite");
}

-- Its removal is no relabel, and is told with the words.
dropped-misread :
    ((narrow_drop_constraint drop_odd (some constrained)).relabel ≡ false)
    × (says_no_table_rewrite (narrow_drop_constraint drop_odd (some constrained)).narrative ≡ true)
unfolding narrow_drop_constraint drop_result constraints_of named_constraint says_no_table_rewrite
    render is_within drop_prefix
dropped-misread = (refl, refl)
