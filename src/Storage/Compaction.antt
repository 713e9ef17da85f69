-- ===== src/Storage/Compaction.antt =====
-- compact.rs: the tables of a task are merged into new tables, which replace them in the state.
use tiny_lsm.Common.{
  ℕ, zero, suc, Bool, false, not, ◌&&◌, Option, none, some, List, [], ◌∷◌, ◌++◌, Bytes, map, filter,
  contains, ◌>>=◌, leb, if◌then◌else◌, get_elem?,
}
use tiny_lsm.Key.{Key, is_empty_bytes}
use tiny_lsm.Table.Sst.{SsTable, table_size}
use tiny_lsm.Table.Builder
use tiny_lsm.Table.Builder.{SsTableBuilder, estimated_size}
use tiny_lsm.Table.Iterator
use tiny_lsm.Table.Iterator.{SsTableIterator}
use tiny_lsm.Iterators.{StorageIterator}
use tiny_lsm.Iterators.Merge
use tiny_lsm.Iterators.Merge.{MergeIterator, merge_storage}
use tiny_lsm.Iterators.TwoMerge
use tiny_lsm.Iterators.Concat
use tiny_lsm.Iterators.Concat.{SstConcatIterator}
use tiny_lsm.Iterators.Cursors.{table_storage, concat_storage}
use tiny_lsm.Compact.Task.{
  CompactionTask, leveled, tiered, simple, force_full_compaction, compact_to_bottom_level,
  generate_task, apply_result,
}
use tiny_lsm.Storage.State.{remove, insert, set_checked}
use tiny_lsm.Storage.Inner.{Env, Tree, LsmStorageInner, take_sst_id}
use tiny_lsm.Storage.Read.{collect_all, tables_of}

module _ (env : Env) where
  open env use {buf, crc, hashes, float}

  -- A builder is made into a table with the next id.
  unfoldable pub build_next :
      LsmStorageInner env → SsTableBuilder → Option (SsTable × LsmStorageInner env)
  unfolding take_sst_id Builder.build
  build_next inner builder = do
    let (sst_id, taken) = take_sst_id env inner
    sst ← Builder.build buf crc hashes builder sst_id
    some (sst, taken)

  -- The builder of a round, a new one if there is none.
  abbrev pub or_new : ℕ → Option SsTableBuilder → SsTableBuilder
  or_new block_size none = Builder.new_table block_size
  or_new block_size (some builder) = builder

  -- An entry goes to the builder, a tombstone only if the output is not the bottom level.
  unfoldable pub add_kept : Bool → SsTableBuilder → Key → Bytes → Option SsTableBuilder
  unfolding Builder.add
  add_kept compact_to_bottom builder key value =
      if compact_to_bottom && is_empty_bytes value
      then some builder
      else Builder.add buf crc hashes builder key value

  module _ {I : Type 0} (storage : StorageIterator I) where
    -- The loop of `compact_generate_sst_from_iter`, and the last table after it.
    unfoldable pub generate_loop :
        ℕ
        → Bool
        → LsmStorageInner env
        → I
        → Option SsTableBuilder
        → List SsTable
        → Option (List SsTable × LsmStorageInner env)
    unfolding build_next add_kept Builder.new_table
    generate_loop zero compact_to_bottom inner iter builder new_sst = none
    generate_loop (suc fuel) compact_to_bottom inner iter builder new_sst =
        if storage.is_valid iter
        then (do
          k ← storage.key iter
          v ← storage.value iter
          added ← add_kept compact_to_bottom (or_new inner.options.block_size builder) k v
          iter' ← storage.next iter
          if leb inner.options.target_sst_size (estimated_size added)
              then (build_next inner added >>= λ built.
                  generate_loop fuel compact_to_bottom built.1 iter' none (new_sst ++ built.0 ∷ []))
              else generate_loop fuel compact_to_bottom inner iter' (some added) new_sst)
        else elim builder [
          | none ↦ some (new_sst, inner)
          | some b ↦ (build_next inner b >>= λ built. some (new_sst ++ built.0 ∷ [], built.1))
        ]

    unfoldable pub compact_generate_sst_from_iter :
        ℕ → LsmStorageInner env → I → Bool → Option (List SsTable × LsmStorageInner env)
    unfolding generate_loop
    compact_generate_sst_from_iter fuel inner iter compact_to_bottom =
        generate_loop fuel compact_to_bottom inner iter none []

  module _ (fuel : ℕ) where
    -- Iterators over tables that may overlap, as those of L0.
    unfoldable pub merge_of : Tree env → List ℕ → Option (MergeIterator SsTableIterator)
    unfolding Iterator.open_first Merge.create
    merge_of snapshot ids = do
      tables ← tables_of env fuel snapshot ids
      iters ← collect_all (Iterator.open_first buf crc) tables
      Merge.create (table_storage buf crc) iters

    -- An iterator over the tables of a level.
    unfoldable pub concat_of : Tree env → List ℕ → Option SstConcatIterator
    unfolding Concat.open_first
    concat_of snapshot ids = do
      tables ← tables_of env fuel snapshot ids
      Concat.open_first buf crc tables

    -- A compaction of L0 into a level.
    unfoldable pub compact_l0 :
        LsmStorageInner env → List ℕ → List ℕ → Bool → Option (List SsTable × LsmStorageInner env)
    unfolding merge_of concat_of compact_generate_sst_from_iter TwoMerge.create
    compact_l0 inner upper lower compact_to_bottom = do
      upper_iter ← merge_of inner.state upper
      lower_iter ← concat_of inner.state lower
      let upper_storage = merge_storage (table_storage buf crc) fuel
      let lower_storage = concat_storage buf crc
      compact_generate_sst_from_iter (TwoMerge.storage upper_storage lower_storage) fuel inner
          (TwoMerge.create upper_storage lower_storage upper_iter lower_iter) compact_to_bottom

    -- A compaction of a level into the next one.
    unfoldable pub compact_levels :
        LsmStorageInner env → List ℕ → List ℕ → Bool → Option (List SsTable × LsmStorageInner env)
    unfolding concat_of compact_generate_sst_from_iter TwoMerge.create
    compact_levels inner upper lower compact_to_bottom = do
      upper_iter ← concat_of inner.state upper
      lower_iter ← concat_of inner.state lower
      let storage = concat_storage buf crc
      compact_generate_sst_from_iter (TwoMerge.storage storage storage) fuel inner
          (TwoMerge.create storage storage upper_iter lower_iter) compact_to_bottom

    -- A compaction of tiers.
    unfoldable pub compact_tiers :
        LsmStorageInner env → List (ℕ × List ℕ) → Bool → Option (List SsTable × LsmStorageInner env)
    unfolding concat_of compact_generate_sst_from_iter Merge.create
    compact_tiers inner tiers compact_to_bottom = do
      iters ← collect_all (λ tier. concat_of inner.state tier.1) tiers
      iter ← Merge.create (concat_storage buf crc) iters
      compact_generate_sst_from_iter (merge_storage (concat_storage buf crc) fuel) fuel inner iter
          compact_to_bottom

    -- An upper level, or L0.
    abbrev pub compact_upper :
        LsmStorageInner env
        → Option ℕ
        → List ℕ
        → List ℕ
        → Bool
        → Option (List SsTable × LsmStorageInner env)
    compact_upper inner none upper lower compact_to_bottom =
        compact_l0 inner upper lower compact_to_bottom
    compact_upper inner (some level) upper lower compact_to_bottom =
        compact_levels inner upper lower compact_to_bottom

    -- `LsmStorageInner::compact`
    unfoldable pub compact :
        LsmStorageInner env → CompactionTask → Option (List SsTable × LsmStorageInner env)
    unfolding compact_l0 compact_levels compact_tiers compact_to_bottom_level
    compact inner (force_full_compaction l0_sstables l1_sstables) =
        compact_l0 inner l0_sstables l1_sstables
          (compact_to_bottom_level (force_full_compaction l0_sstables l1_sstables))
    compact inner (simple task) =
        compact_upper inner task.upper_level task.upper_level_sst_ids task.lower_level_sst_ids
          task.is_lower_level_bottom_level
    compact inner (tiered task) =
        compact_tiers inner task.tiers (compact_to_bottom_level (tiered task))
    compact inner (leveled task) =
        compact_upper inner task.upper_level task.upper_level_sst_ids task.lower_level_sst_ids
          task.is_lower_level_bottom_level

    abbrev pub remove_tables : List ℕ → List (ℕ × SsTable) → List (ℕ × SsTable)
    remove_tables [] sstables = sstables
    remove_tables (id ∷ ids) sstables = remove_tables ids (remove id sstables)

    abbrev pub insert_tables : List SsTable → List (ℕ × SsTable) → List (ℕ × SsTable)
    insert_tables [] sstables = sstables
    insert_tables (sst ∷ ssts) sstables = insert_tables ssts (insert sst.id sst sstables)

    -- The write to the state of `force_full_compaction`, under the lock.
    unfoldable pub publish_full :
        LsmStorageInner env → List ℕ → List SsTable → Option (LsmStorageInner env)
    publish_full inner ssts_to_compact new_ssts = do
      levels ← set_checked inner.state.levels 0 (1, map (λ sst. sst.id) new_ssts)
      some (record inner {
        state = record inner.state {
          l0_sstables = filter (λ id. not (contains ssts_to_compact id)) inner.state.l0_sstables;
          levels = levels;
          sstables = insert_tables new_ssts (remove_tables ssts_to_compact inner.state.sstables);
        };
      })

    -- `force_full_compaction`; the files of the old tables are deleted.
    unfoldable pub force_full : LsmStorageInner env → Option (LsmStorageInner env)
    unfolding compact publish_full
    force_full inner = do
      l1 ← get_elem? inner.state.levels 0
      new_ssts ← compact inner (force_full_compaction inner.state.l0_sstables l1.1)
      publish_full new_ssts.1 (inner.state.l0_sstables ++ l1.1) new_ssts.0

    -- The second half of `trigger_compaction`: the new state is made from a state that was read and
    -- then written, and no lock is held in between.
    unfoldable pub install :
        LsmStorageInner env → CompactionTask → List SsTable → Option (LsmStorageInner env)
    unfolding apply_result
    install inner task output_sst = do
      let with_output = record inner.state {
        sstables = insert_tables output_sst inner.state.sstables;
      }
      applied ←
          apply_result SsTable.first_key inner.options.compaction_options with_output task
            (map (λ sst. sst.id) output_sst) false
      some (record inner {
        state = record applied.0 { sstables = remove_tables applied.1 applied.0.sstables };
      })

    -- `trigger_compaction`, one round of the compaction thread, with nothing in between.
    unfoldable pub trigger_compaction : LsmStorageInner env → Option (LsmStorageInner env)
    unfolding generate_task compact install
    trigger_compaction inner = do
      task ←
          generate_task float SsTable.first_key SsTable.last_key table_size
            inner.options.compaction_options inner.state
      elim task [
        | none ↦ some inner
        | some compaction_task ↦ (do
          output_sst ← compact inner compaction_task
          install output_sst.1 compaction_task output_sst.0)
      ]
