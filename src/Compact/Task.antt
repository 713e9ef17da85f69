-- ===== src/Compact/Task.antt =====
-- compact.rs: the tasks and the controllers of the three strategies under one interface.
use tiny_lsm.Common.{ℕ, Bool, true, false, Option, none, some, List}
use tiny_lsm.Key.{Key}
use tiny_lsm.Storage.State.{LsmStorageState}
use tiny_lsm.Compact.Float.{Float}
use tiny_lsm.Compact.Leveled
use tiny_lsm.Compact.Leveled.{LeveledCompactionOptions, LeveledCompactionTask}
use tiny_lsm.Compact.Leveled.Apply
use tiny_lsm.Compact.Tiered
use tiny_lsm.Compact.Tiered.{TieredCompactionOptions, TieredCompactionTask}
use tiny_lsm.Compact.Simple
use tiny_lsm.Compact.Simple.{SimpleLeveledCompactionOptions, SimpleLeveledCompactionTask}

pub data CompactionTask : Type 0 where
  leveled : LeveledCompactionTask → CompactionTask
  tiered : TieredCompactionTask → CompactionTask
  simple : SimpleLeveledCompactionTask → CompactionTask
  force_full_compaction : List ℕ → List ℕ → CompactionTask

unfoldable pub compact_to_bottom_level : CompactionTask → Bool
compact_to_bottom_level (force_full_compaction l0_sstables l1_sstables) = true
compact_to_bottom_level (leveled task) = task.is_lower_level_bottom_level
compact_to_bottom_level (simple task) = task.is_lower_level_bottom_level
compact_to_bottom_level (tiered task) = task.bottom_tier_included

-- `CompactionController`, and `CompactionOptions`, from which `open` makes it: a controller holds
-- nothing but its options.
pub data CompactionOptions : Type 0 where
  leveled_options : LeveledCompactionOptions → CompactionOptions
  tiered_options : TieredCompactionOptions → CompactionOptions
  simple_options : SimpleLeveledCompactionOptions → CompactionOptions
  no_compaction : CompactionOptions

unfoldable pub flush_to_l0 : CompactionOptions → Bool
flush_to_l0 (tiered_options o) = false
flush_to_l0 (leveled_options o) = true
flush_to_l0 (simple_options o) = true
flush_to_l0 no_compaction = true

-- `Option::map` on the outcome of a controller.
abbrev pub map_task :
    {A : Type 0} → (A → CompactionTask) → Option (Option A) → Option (Option CompactionTask)
map_task f none = none
map_task f (some none) = some none
map_task f (some (some task)) = some (some (f task))

module _ (float : Float) {Mem Sst : Type 0} (first_key last_key : Sst → Key)
    (table_size : Sst → ℕ) where
  -- `CompactionController::generate_compaction_task`; `unreachable!` panics.
  unfoldable pub generate_task :
      CompactionOptions → LsmStorageState Mem Sst → Option (Option CompactionTask)
  unfolding Leveled.generate_compaction_task Tiered.generate_compaction_task
      Simple.generate_compaction_task
  generate_task (leveled_options o) snapshot =
      map_task leveled
        (Leveled.generate_compaction_task float first_key last_key table_size o snapshot)
  generate_task (tiered_options o) snapshot =
      map_task tiered (Tiered.generate_compaction_task float o snapshot)
  generate_task (simple_options o) snapshot =
      map_task simple (Simple.generate_compaction_task o snapshot)
  generate_task no_compaction snapshot = none

module _ {Mem Sst : Type 0} (first_key : Sst → Key) where
  -- `CompactionController::apply_compaction_result`
  unfoldable pub apply_result :
      CompactionOptions
      → LsmStorageState Mem Sst
      → CompactionTask
      → List ℕ
      → Bool
      → Option (LsmStorageState Mem Sst × List ℕ)
  unfolding Apply.apply_compaction_result Tiered.apply_compaction_result
      Simple.apply_compaction_result
  apply_result (leveled_options o) snapshot (leveled task) output in_recovery =
      Apply.apply_compaction_result first_key snapshot task output in_recovery
  apply_result (simple_options o) snapshot (simple task) output in_recovery =
      Simple.apply_compaction_result snapshot task output
  apply_result (tiered_options o) snapshot (tiered task) output in_recovery =
      Tiered.apply_compaction_result snapshot task output
  apply_result _ snapshot task output in_recovery = none
