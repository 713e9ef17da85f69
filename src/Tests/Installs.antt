-- ===== src/Tests/Installs.antt =====
-- A compaction of L0 whose result is installed.
use tiny_lsm.Common.{◌≡◌, refl, false, none, some, [], ◌∷◌, arith, ==_iff}
use tiny_lsm.Compact.Simple.{SimpleLeveledCompactionTask, generate_compaction_task, l0_task}
use tiny_lsm.Compact.Task.{simple}
use tiny_lsm.Storage.Inner.{LsmStorageInner}
use tiny_lsm.Storage.Write.{write_batch, force_freeze_memtable, publish_flush}
use tiny_lsm.Storage.WellFormed.{IsWellFormed}
use tiny_lsm.Storage.Steps.{Reach, later, froze, flushed}
use tiny_lsm.Storage.Invariant.{Reach-IsWellFormed}
use tiny_lsm.Storage.Compaction.{install}
use tiny_lsm.Storage.Installs.{IsFresh, install-IsWellFormed}
use tiny_lsm.Tests.Stores.{
  test_env, or_empty, first_table, flushed_store, flushed-Reach, two_levels,
}

abbrev twice_frozen : LsmStorageInner test_env
twice_frozen = or_empty (force_freeze_memtable test_env flushed_store)

abbrev twice_flushed : LsmStorageInner test_env
twice_flushed = or_empty (publish_flush test_env twice_frozen (record first_table { id = 1 }))

twice-Reach : Reach test_env twice_flushed
unfolding force_freeze_memtable publish_flush write_batch
twice-Reach =
    later twice_frozen twice_flushed
      (later flushed_store twice_frozen flushed-Reach (froze twice_frozen (omega arith) refl))
      (flushed (record first_table { id = 1 }) twice_flushed refl)

-- The store after the id of the new table was handed out.
abbrev compacting : LsmStorageInner test_env
compacting = record twice_flushed { next_sst_id = 4 }

abbrev l0_compaction : SimpleLeveledCompactionTask
l0_compaction = record {
  upper_level = none;
  upper_level_sst_ids = 1 ∷ 0 ∷ [];
  lower_level = 1;
  lower_level_sst_ids = [];
  is_lower_level_bottom_level = false;
}

l0_generated : generate_compaction_task two_levels compacting.state ≡ some (some l0_compaction)
unfolding generate_compaction_task l0_task force_freeze_memtable publish_flush write_batch
l0_generated = refl

compacting-IsWellFormed : IsWellFormed compacting.state 4
unfolding force_freeze_memtable publish_flush write_batch
compacting-IsWellFormed =
    let w = Reach-IsWellFormed test_env twice_flushed twice-Reach in
    record { owned = w.owned; once = w.once; below = λ id h. omega (arith, w.below id h) }

output-IsFresh : IsFresh {env = test_env} compacting (record first_table { id = 3 } ∷ [])
unfolding force_freeze_memtable publish_flush write_batch
output-IsFresh = record {
  distinct = λ id. ground arith;
  unused = λ id h. ground (arith, ==_iff 3 id);
  handed_out = λ id h. ground (arith, ==_iff 3 id);
}

install-IsWellFormed_example :
    (inner : LsmStorageInner test_env) × (install test_env 4 compacting
        (simple l0_compaction)
        (record first_table { id = 3 } ∷ [])
      ≡ some inner)
    × IsWellFormed inner.state inner.next_sst_id
unfolding force_freeze_memtable publish_flush write_batch
install-IsWellFormed_example =
    install-IsWellFormed test_env 4 compacting two_levels compacting.state [] l0_compaction
      (record first_table { id = 3 } ∷ []) refl (refl, (refl, tt)) l0_generated refl refl
      compacting-IsWellFormed output-IsFresh
