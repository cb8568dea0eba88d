-- ===== src/Tests/Migrations.antt =====
-- Runs of the theorems on whole files: from the source to the assessment, and a squash file.
use blastoise.Base.{
  ℕ, zero, suc, true, false, ◌≡◌, refl, ◌≤◌, some, none, List, [], ◌∷◌, ◌++◌, codes, length, All,
  Succeeds, strip, lstrip, is_space,
}
use blastoise.Ir.{StatementKind, ParsedStatement, parsed, MigrationScript, no_details}
use blastoise.Sql.{Pglast, accepted, Statement, RawStmt, Node, end}
use blastoise.Catalog.{
  resolve, resolution_of, resolve_one, entry_for, entries_for, rows_for, pick, relations_from,
}
use blastoise.Classify.{classify_statement, classify_plain, targets, qname}
use blastoise.Parser.{
  parse_migration, script, baseline_shaped, baseline_from, baseline_step, use_of, parent_created,
  find_char, script_of, classify_all, span_of, text_at, line_of, count_of, take, drop,
  group_transactions, group_from, group_step, boundary, chained, move, flush, finish,
}
use blastoise.Parser.Needs.{needs}
use blastoise.Parser.SelfContained.{Among, own, made, baseline_shaped_sound}
use blastoise.Verdict.Model.{ScriptAssessment}
use blastoise.Verdict.Engine.{assess_script}
use blastoise.Verdict.Safety.Scripts.{Resolves, kinds_of}
use blastoise.Verdict.Safety.Migrations.{parse_migration-assessed}
use blastoise.Tests.Samples.{users, create_users, cluster_users, catalog, evaluate}

abbrev repeat : ℕ → ParsedStatement → List ParsedStatement
repeat zero s = []
repeat (suc n) s = s ∷ repeat n s

squash : baseline_shaped (repeat 49 create_users ++ cluster_users ∷ []) ≡ true
unfolding baseline_shaped baseline_from baseline_step use_of parent_created
squash = refl

baseline_shaped_sound_example :
    (50 ≤ length (repeat 49 create_users ++ cluster_users ∷ []))
    × All (Among (own cluster_users ++ made (repeat 49 create_users))) (needs cluster_users)
baseline_shaped_sound_example =
    baseline_shaped_sound (repeat 49 create_users) cluster_users [] squash

-- A parser that reads every text as CLUSTER.
abbrev raw : RawStmt
raw = record {
  stmt = some (
      Statement.cluster_stmt (
        some (record {
          relname = some (codes "users");
          schemaname = none;
          inh = true;
          relpersistence = none;
        })));
  tree = Node.other_node end;
  stmt_location = none;
  stmt_len = none;
}

abbrev pglast : Pglast
pglast = record {
  parse_sql = λ text. accepted (raw ∷ []);
  parse_plpgsql = λ text. none;
  deparse = λ n. none;
}

abbrev found : MigrationScript
found = record {
  statements =
      parsed
        (record {
          kind = StatementKind.cluster;
          sql = codes "CLUSTER users";
          span = record { start = 0; end = 13; line = 1 };
          node_tag = codes "ClusterStmt";
          targets = users ∷ [];
          alter_actions = [];
          only = false;
        })
        no_details
      ∷ [];
  transaction_groups =
      record {
        explicit = false;
        statement_indices = 0 ∷ [];
        opened_by = none;
        closed_by = none;
        rolled_back = false;
      }
      ∷ [];
  baseline_shaped = false;
}

file_parsed : parse_migration pglast (codes "CLUSTER users") ≡ script found []
unfolding parse_migration find_char script_of classify_all classify_statement classify_plain targets
    qname span_of text_at line_of count_of take drop strip lstrip is_space group_transactions
    group_from group_step boundary chained move flush finish baseline_shaped
file_parsed = refl

found-Resolves : All (Resolves catalog 16) found.statements
unfolding resolve resolution_of resolve_one entry_for entries_for rows_for pick relations_from
found-Resolves = (tt, tt)

parse_migration-assessed_example :
    Succeeds
      (λ (a : ScriptAssessment). kinds_of a.statements ≡ StatementKind.cluster ∷ [])
      (assess_script evaluate found catalog 16 none)
parse_migration-assessed_example =
    parse_migration-assessed pglast (codes "CLUSTER users") found [] evaluate catalog 16 none
      file_parsed found-Resolves
