-- ===== src/Verdict/Engine/Durations.antt =====
-- verdict/engine.py: how long the work of a row runs.
use blastoise.Base.{
  Bool, true, false, ◌||◌, not, Option, some, none, List, Text, codes, nat_eq, list_eq, ◌==◌,
  if◌then◌else◌,
}
use blastoise.Ir.{
  AlterTableActionKind, QualifiedName, AlterTableAction, head, details, first_target, Details,
  index_details,
}
use blastoise.Catalog.{ResolvedLock, constant}
use blastoise.Live.{known}
use blastoise.Verdict.Constants.{Family, index_build_btree, index_build_expression}
use blastoise.Verdict.Model.{
  proven, unverified, Duration, estimate, cannot_estimate, no_relation_to_size, bulk_loaded,
  no_snapshot, no_throughput_constant, not_captured, no_index_to_size, size_unavailable,
  no_rebuild_relation,
}
use blastoise.Verdict.Duration.{
  rows_family_by_kind, bytes_family_by_kind, estimate_from_rows, estimate_index_rebuilds,
  estimate_from_bytes, constant_op_estimate, empty_relation_estimate,
}
use blastoise.Verdict.Probes.{probe_name}
use blastoise.Verdict.Narrow.{relation_facts_for}
use blastoise.Verdict.Engine.FileStates.{clean, loaded, state_of}
use blastoise.Verdict.Engine.Locks.{Context}

is_attach : AlterTableAction → Bool
is_attach a = elim a.kind [ AlterTableActionKind.attach_partition ↦ true | _ ↦ false ]

-- `_duration_relation`
unfoldable pub duration_relation : ResolvedLock → Option QualifiedName
unfolding is_attach
duration_relation resolved = elim resolved.of_action [
  | none ↦ first_target (head resolved.of_statement).targets
  | some a ↦ if is_attach a then a.partition else first_target (head resolved.of_statement).targets
]

-- A build by expression, or by a method other than btree.
is_slow_build : Details → Bool
is_slow_build (index_details d) = not (d.method == codes "btree") || d.has_expression
is_slow_build _ = false

-- `_rows_family`
unfoldable pub rows_family : ResolvedLock → Option Family → Option Family
unfolding is_slow_build
rows_family resolved (some family) = some family
rows_family resolved none = elim (rows_family_by_kind resolved.entry.kind) [
  | none ↦ none
  | some index_build_btree ↦ some (
      if is_slow_build (details resolved.of_statement)
      then index_build_expression
      else index_build_btree)
  | some family ↦ some family
]

-- `_rows_estimate`
unfoldable pub rows_estimate : Context → ResolvedLock → Option Family → Duration
rows_estimate ctx resolved override = elim (duration_relation resolved) [
  | none ↦ cannot_estimate no_relation_to_size unverified
  | some name ↦ elim (state_of ctx.file_state (some name)) [
    | some clean ↦ estimate empty_relation_estimate
    | some loaded ↦ cannot_estimate bulk_loaded unverified
    | none ↦ elim ctx.snapshot [
      | none ↦ cannot_estimate no_snapshot unverified
      | some snapshot ↦ elim (rows_family resolved override) [
        | none ↦ cannot_estimate no_throughput_constant unverified
        | some family ↦ elim (relation_facts_for snapshot (probe_name name)) [
          | none ↦ cannot_estimate not_captured unverified
          | some facts ↦ estimate_from_rows facts snapshot.server family (some snapshot.calibration)
        ]
      ]
    ]
  ]
]

-- `_bytes_estimate`
unfoldable pub bytes_estimate : Context → ResolvedLock → Duration
bytes_estimate ctx resolved = elim (duration_relation resolved) [
  | none ↦ cannot_estimate no_index_to_size unverified
  | some name ↦ elim (bytes_family_by_kind resolved.entry.kind) [
    | none ↦ cannot_estimate no_index_to_size unverified
    | some family ↦ elim ctx.snapshot [
      | none ↦ cannot_estimate no_snapshot unverified
      | some snapshot ↦ elim (relation_facts_for snapshot (probe_name name)) [
        | none ↦ cannot_estimate not_captured unverified
        | some facts ↦ elim facts.relation_size_bytes [
          | known (some size) ↦
              estimate (estimate_from_bytes size family (some snapshot.calibration))
          | _ ↦ cannot_estimate size_unavailable unverified
        ]
      ]
    ]
  ]
]

-- `_rebuild_estimate`, of one rebuild and more.
unfoldable pub rebuild_estimate :
    Context → ResolvedLock → Text × Family → List (Text × Family) → Duration
rebuild_estimate ctx resolved rebuild rebuilds = elim (duration_relation resolved) [
  | none ↦ cannot_estimate no_rebuild_relation unverified
  | some name ↦ elim ctx.snapshot [
    | none ↦ cannot_estimate no_rebuild_relation unverified
    | some snapshot ↦ elim (state_of ctx.file_state (some name)) [
      | some clean ↦ estimate empty_relation_estimate
      | _ ↦ elim (relation_facts_for snapshot (probe_name name)) [
        | none ↦ cannot_estimate not_captured unverified
        | some facts ↦
            estimate_index_rebuilds facts snapshot.server rebuild rebuilds
              (some snapshot.calibration)
      ]
    ]
  ]
]

-- `_file_local_duration`
unfoldable pub file_local_duration : Context → ResolvedLock → Duration
file_local_duration ctx resolved = elim resolved.entry.duration_model [
  | constant ↦ estimate (constant_op_estimate proven)
  | _ ↦ elim (state_of ctx.file_state (duration_relation resolved)) [
    | some loaded ↦ cannot_estimate bulk_loaded unverified
    | _ ↦ estimate empty_relation_estimate
  ]
]
