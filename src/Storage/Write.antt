-- ===== src/Storage/Write.antt =====
-- The write path of lsm_storage.rs: a batch goes to the memtable, a full memtable is frozen, and the
-- oldest frozen one is flushed to a table.
use tiny_lsm.Common.{
  ℕ, ◌+◌, Bool, true, false, Option, none, some, List, [], ◌∷◌, Bytes, length, map, ◌>>=◌, ◌>>◌,
  guard, ltb, leb, ◌==◌, if◌then◌else◌,
}
use tiny_lsm.Buffer.{u64_mod}
use tiny_lsm.Key.{Key, from_slice}
use tiny_lsm.MemTable
use tiny_lsm.MemTable.{MemTable}
use tiny_lsm.MemTable.Flush.{flush}
use tiny_lsm.Table.Sst.{SsTable}
use tiny_lsm.Table.Builder
use tiny_lsm.Compact.Task.{flush_to_l0}
use tiny_lsm.Storage.State.{insert}
use tiny_lsm.Storage.Inner.{
  Env, LsmStorageInner, WriteBatchRecord, put_record, del_record, flush_record, new_memtable,
  take_sst_id,
}

-- The key and the value of a record; a deletion writes an empty value.
unfoldable pub versioned : ℕ → WriteBatchRecord → Key × Bytes
versioned ts (put_record k v) = (from_slice k ts, v)
versioned ts (del_record k) = (from_slice k ts, [])

-- `MemTable::is_empty`
unfoldable pub no_keys : {A : Type 0} → List A → Bool
no_keys [] = true
no_keys (x ∷ xs) = false

module _ (env : Env) where
  open env use {skip, buf, hasher, crc, hashes, manifest}

  -- The new memtable of `force_freeze_memtable`.
  abbrev pub fresh_memtable : Bool → ℕ → MemTable skip.Map
  fresh_memtable true id = MemTable.create_with_wal skip buf hasher id
  fresh_memtable false id = MemTable.create skip buf hasher id

  unfoldable pub force_freeze_memtable : LsmStorageInner env → Option (LsmStorageInner env)
  unfolding take_sst_id MemTable.create_with_wal MemTable.create
  force_freeze_memtable inner = do
    let (memtable_id, taken) = take_sst_id env inner
    log ← manifest.add_record taken.log (new_memtable memtable_id)
    some (record taken {
      log = log;
      state = record inner.state {
        memtable = fresh_memtable inner.options.enable_wal memtable_id;
        imm_memtables = inner.state.memtable ∷ inner.state.imm_memtables;
      };
    })

  unfoldable pub try_freeze : LsmStorageInner env → Option (LsmStorageInner env)
  unfolding force_freeze_memtable
  try_freeze inner =
      if leb inner.options.target_sst_size inner.state.memtable.approximate_size
      then force_freeze_memtable inner
      else some inner

  -- The batch with its timestamp, in the memtable.
  abbrev pub put_records : LsmStorageInner env → ℕ → List WriteBatchRecord → LsmStorageInner env
  put_records inner ts batch = record inner {
    state = record inner.state {
      memtable = MemTable.put_batch skip buf hasher inner.state.memtable (map (versioned ts) batch);
    };
  }

  -- `write_batch`; the next timestamp does not overflow.
  unfoldable pub write_batch :
      LsmStorageInner env → List WriteBatchRecord → Option (LsmStorageInner env)
  unfolding versioned MemTable.put_batch try_freeze
  write_batch inner batch = do
    let ts = inner.commit_ts + 1
    guard (ltb ts u64_mod)
    frozen ← try_freeze (put_records inner ts batch)
    some (record frozen { commit_ts = ts })

  unfoldable pub put : LsmStorageInner env → Bytes → Bytes → Option (LsmStorageInner env)
  unfolding write_batch
  put inner key value = write_batch inner (put_record key value ∷ [])

  unfoldable pub delete : LsmStorageInner env → Bytes → Option (LsmStorageInner env)
  unfolding write_batch
  delete inner key = write_batch inner (del_record key ∷ [])

  -- The first half of `force_flush_next_imm_memtable`, without a lock: the oldest frozen memtable is
  -- written to a table with its id.
  unfoldable pub build_flush : LsmStorageInner env → MemTable skip.Map → Option SsTable
  unfolding flush Builder.new_table Builder.build
  build_flush inner memtable = do
    builder ← flush buf crc hashes skip hasher memtable (Builder.new_table inner.options.block_size)
    Builder.build buf crc hashes builder memtable.id

  -- `pop` and `last` of a vector whose last element is the oldest.
  abbrev pub last_memtable : List (MemTable skip.Map) → Option (MemTable skip.Map)
  last_memtable [] = none
  last_memtable (m ∷ []) = some m
  last_memtable (m ∷ n ∷ ms) = last_memtable (n ∷ ms)

  abbrev pub without_last : List (MemTable skip.Map) → List (MemTable skip.Map)
  without_last [] = []
  without_last (m ∷ []) = []
  without_last (m ∷ n ∷ ms) = m ∷ without_last (n ∷ ms)

  -- The tree with the new table in front, of L0 or of the tiers.
  abbrev pub add_flushed : Bool → LsmStorageInner env → ℕ → LsmStorageInner env
  add_flushed true inner id = record inner {
    state = record inner.state { l0_sstables = id ∷ inner.state.l0_sstables };
  }
  add_flushed false inner id = record inner {
    state = record inner.state { levels = (id, id ∷ []) ∷ inner.state.levels };
  }

  -- The second half, under the locks: the memtable is taken away and the table takes its place. The
  -- assertion fails if another flush has taken that memtable meanwhile.
  unfoldable pub publish_flush : LsmStorageInner env → SsTable → Option (LsmStorageInner env)
  unfolding flush_to_l0
  publish_flush inner table = do
    mem ← last_memtable inner.state.imm_memtables
    guard (mem.id == table.id)
    let added = add_flushed (flush_to_l0 inner.options.compaction_options) inner table.id
    log ← manifest.add_record inner.log (flush_record table.id)
    some (record added {
      log = log;
      state = record added.state {
        imm_memtables = without_last inner.state.imm_memtables;
        sstables = insert table.id table inner.state.sstables;
      };
    })

  -- `force_flush_next_imm_memtable`, with nothing in between.
  unfoldable pub force_flush_next_imm_memtable : LsmStorageInner env → Option (LsmStorageInner env)
  unfolding build_flush publish_flush
  force_flush_next_imm_memtable inner = elim (last_memtable inner.state.imm_memtables) [
    | none ↦ some inner
    | some memtable ↦ (build_flush inner memtable >>= λ table. publish_flush inner table)
  ]

  -- `trigger_flush` of compact.rs, one round of the flush thread
  unfoldable pub trigger_flush : LsmStorageInner env → Option (LsmStorageInner env)
  unfolding force_flush_next_imm_memtable
  trigger_flush inner =
      if ltb inner.options.num_memtable_limit (1 + length inner.state.imm_memtables)
      then force_flush_next_imm_memtable inner
      else some inner

  -- `MiniLsm::force_flush`
  unfoldable pub force_flush : LsmStorageInner env → Option (LsmStorageInner env)
  unfolding force_freeze_memtable force_flush_next_imm_memtable no_keys
  force_flush inner = do
    frozen ←
        (if no_keys (skip.iter inner.state.memtable.map)
          then some inner
          else force_freeze_memtable inner)
    if no_keys frozen.state.imm_memtables then some frozen else force_flush_next_imm_memtable frozen
