-- ===== src/Tests/Resolving.antt =====
-- A DO block with one statement inside, resolved in a small catalog.
use blastoise.Base.{
  ◌≡◌, refl, true, false, some, none, List, [], All, map, codes, Result, ok, raise,
}
use blastoise.Ir.{StatementKind, ParsedStatement, parsed, do_block_details, nil, cons}
use blastoise.Catalog.{
  LockCatalog, ResolvedLock, Resolution, resolve, resolve_one, resolution_of, entry_for,
  entries_for, rows_for, pick, relations_from,
}
use blastoise.Catalog.Reach.{place_of, places_in, IsRowThere, resolve-reaches}
use blastoise.Tests.Samples.{head_of, cluster_users, catalog}

abbrev guarded : LockCatalog
guarded = record catalog {
  statement_resolution =
      λ kind. elim kind [ StatementKind.do_block ↦ some Resolution.inner_statements | _ ↦ none ];
}

abbrev block : ParsedStatement
block = parsed (head_of StatementKind.do_block [] []) (
    do_block_details
      (record {
        language = codes "plpgsql";
        dynamic_sql_count = 0;
        fully_parsed = true;
        existence_guarded = true;
      })
      (cons cluster_users nil))

abbrev or_nothing : Result (List ResolvedLock) → List ResolvedLock
or_nothing (ok rows) = rows
or_nothing (raise e) = []

abbrev block_rows : List ResolvedLock
block_rows = or_nothing (resolve guarded 16 block)

block-resolved : resolve guarded 16 block ≡ ok block_rows
unfolding resolve resolution_of resolve_one entry_for entries_for rows_for pick relations_from
block-resolved = refl

resolve-reaches_example :
    (map place_of block_rows ≡ places_in guarded false false block)
    × All (IsRowThere guarded 16) block_rows
resolve-reaches_example = resolve-reaches guarded 16 block block_rows block-resolved
