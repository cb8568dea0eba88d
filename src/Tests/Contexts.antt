-- ===== src/Tests/Contexts.antt =====
-- Sample contexts of verdict/engine.py, and rows that are assessed in them.
use blastoise.Base.{true, false, some, none, [], ◌∷◌}
use blastoise.Catalog.{ResolvedLock, uncalibrated}
use blastoise.Verdict.Engine.{Context, fresh}
use blastoise.Tests.Samples.{context, snapshot_with, resolved_of, cluster_row, missing_row, waiter}

abbrev pub online : Context
online = context (some (snapshot_with 1_000 [])) (fresh false)

abbrev pub contended : Context
contended = context (some (snapshot_with 1_000 (waiter ∷ []))) (fresh false)

abbrev pub offline : Context
offline = context none (fresh false)

abbrev pub cluster : ResolvedLock
cluster = resolved_of cluster_row false

abbrev pub guarded_cluster : ResolvedLock
guarded_cluster = resolved_of cluster_row true

abbrev pub missing_form : ResolvedLock
missing_form = resolved_of missing_row false

abbrev pub stub_row : ResolvedLock
stub_row = resolved_of (record cluster_row { calibration = uncalibrated }) false

abbrev pub large : Context
large = context (some (snapshot_with 1_480_000 [])) (fresh false)

abbrev pub baseline : Context
baseline = context none (fresh true)
