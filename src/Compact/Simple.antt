-- ===== src/Compact/Simple.antt =====
-- compact/simple_leveled.rs: a level is merged into the next one where it has too many files.
pub mod Conserve
use tiny_lsm.Common.{
  ℕ, zero, suc, ◌+◌, ◌-◌, ◌*◌, ◌/◌, Bool, true, false, not, Option, none, some, List, [], ◌∷◌, ◌++◌,
  length, get_elem?, filter, contains, ◌>>=◌, ◌>>◌, ltb, leb, ◌==◌, if◌then◌else◌, checked_sub,
}
use tiny_lsm.Storage.State.{LsmStorageState, Level, set_checked}

pub record SimpleLeveledCompactionOptions : Type 0 where
  pub size_ratio_percent : ℕ
  pub level0_file_num_compaction_trigger : ℕ
  pub max_levels : ℕ

-- `upper_level` is `none` for a compaction of L0.
pub record SimpleLeveledCompactionTask : Type 0 where
  pub upper_level : Option ℕ
  pub upper_level_sst_ids : List ℕ
  pub lower_level : ℕ
  pub lower_level_sst_ids : List ℕ
  pub is_lower_level_bottom_level : Bool

unfoldable pub compaction_required : SimpleLeveledCompactionOptions → ℕ → ℕ → Bool
compaction_required o upper_num_files lower_num_files =
    if upper_num_files == 0
    then false
    else ltb (lower_num_files * 100 / upper_num_files) o.size_ratio_percent

-- The loop over neighbouring levels; `max_level` is the number of all levels.
unfoldable pub find_level :
    SimpleLeveledCompactionOptions → ℕ → List Level → Option SimpleLeveledCompactionTask
unfolding compaction_required
find_level o max_level [] = none
find_level o max_level (upper ∷ []) = none
find_level o max_level ((upper_l, upper_ssts) ∷ (lower_l, lower_ssts) ∷ rest) =
    let later = find_level o max_level ((lower_l, lower_ssts) ∷ rest) in
    if compaction_required o (length upper_ssts) (length lower_ssts)
    then some (record {
      upper_level = some upper_l;
      upper_level_sst_ids = upper_ssts;
      lower_level = lower_l;
      lower_level_sst_ids = lower_ssts;
      is_lower_level_bottom_level = max_level == lower_l;
    })
    else later

module _ {Mem Sst : Type 0} where
  -- The task for L0. `levels[0]` panics where there is no level.
  unfoldable pub l0_task : LsmStorageState Mem Sst → Option SimpleLeveledCompactionTask
  l0_task snapshot = do
    l1 ← get_elem? snapshot.levels 0
    some (record {
      upper_level = none;
      upper_level_sst_ids = snapshot.l0_sstables;
      lower_level = 1;
      lower_level_sst_ids = l1.1;
      is_lower_level_bottom_level = length snapshot.levels == 1;
    })

  -- `generate_compaction_task`: the outer `none` is a panic, the inner one is no task.
  unfoldable pub generate_compaction_task :
      SimpleLeveledCompactionOptions
      → LsmStorageState Mem Sst
      → Option (Option SimpleLeveledCompactionTask)
  unfolding l0_task find_level
  generate_compaction_task o snapshot =
      if leb o.level0_file_num_compaction_trigger (length snapshot.l0_sstables)
      then (do task ← l0_task snapshot; some (some task))
      else (do
        rounds ← checked_sub (length snapshot.levels) 1
        some (find_level o (length snapshot.levels) snapshot.levels))

  -- The new state of `apply_compaction_result`, from the level of the task.
  unfoldable pub apply_levels :
      Option ℕ
      → LsmStorageState Mem Sst
      → SimpleLeveledCompactionTask
      → List ℕ
      → Option (LsmStorageState Mem Sst)
  apply_levels none snapshot task output = do
    levels ← set_checked snapshot.levels 0 (1, output)
    some (record snapshot {
      l0_sstables = filter (λ id. not (contains task.upper_level_sst_ids id)) snapshot.l0_sstables;
      levels = levels;
    })
  apply_levels (some upper_level) snapshot task output = do
    upper_idx ← checked_sub upper_level 1
    cleared ← set_checked snapshot.levels upper_idx (upper_level, [])
    lower_idx ← checked_sub task.lower_level 1
    levels ← set_checked cleared lower_idx (task.lower_level, output)
    some (record snapshot { levels = levels })

  -- `apply_compaction_result`: the new state, and the ids of the removed tables.
  unfoldable pub apply_compaction_result :
      LsmStorageState Mem Sst
      → SimpleLeveledCompactionTask
      → List ℕ
      → Option (LsmStorageState Mem Sst × List ℕ)
  unfolding apply_levels
  apply_compaction_result snapshot task output = do
    state ← apply_levels task.upper_level snapshot task output
    some (state, task.upper_level_sst_ids ++ task.lower_level_sst_ids)
