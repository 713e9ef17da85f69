-- ===== src/Storage/Open.antt =====
-- `LsmStorageInner::open` of lsm_storage.rs: a new store, or one that is recovered from its files.
use tiny_lsm.Common.{
  ℕ, zero, suc, ◌+◌, max, true, not, Option, none, some, List, [], ◌∷◌, ◌++◌, Bytes, filter,
  contains, length, ◌>>=◌, if◌then◌else◌,
}
use tiny_lsm.MemTable
use tiny_lsm.MemTable.{MemTable, MemTableIterator, unbounded}
use tiny_lsm.Table.Sst.{SsTable, open_table}
use tiny_lsm.Compact.Task.{apply_result}
use tiny_lsm.Storage.State.{Level, insert}
use tiny_lsm.Storage.Inner.{
  Env, Tree, LsmStorageOptions, LsmStorageInner, ManifestRecord, flush_record, new_memtable,
  compaction_record, create_state,
}
use tiny_lsm.Storage.Read.{collect_all}

-- What the directory of the store holds: the manifest, if there is one, and the files of the logs and
-- of the tables by their ids.
pub record Directory (Log : Type 0) : Type 0 where
  pub manifest_file : Option Log
  pub wal_file : ℕ → Option Bytes
  pub sst_file : ℕ → Option Bytes

-- `max` of the output of a compaction, 0 if it is empty
unfoldable pub max_id : List ℕ → ℕ
max_id [] = 0
max_id (id ∷ ids) = max id (max_id ids)

module _ (env : Env) where
  open env use {skip, buf, hasher, crc, manifest}

  -- What the loop over the records keeps.
  pub record Replay : Type 0 where
    pub state : Tree env
    pub next_sst_id : ℕ
    pub flushed_memtables : List ℕ
    pub all_memtables : List ℕ

  -- One round of the loop.
  unfoldable pub replay_record : LsmStorageOptions → Replay → ManifestRecord → Option Replay
  unfolding apply_result max_id
  replay_record options r (new_memtable new_sst_id) = some (record r {
    next_sst_id = max r.next_sst_id (new_sst_id + 1);
    all_memtables = new_sst_id ∷ r.all_memtables;
  })
  replay_record options r (flush_record new_sst_id) = some (record r {
    next_sst_id = max r.next_sst_id (new_sst_id + 1);
    state = record r.state { l0_sstables = new_sst_id ∷ r.state.l0_sstables };
    flushed_memtables = new_sst_id ∷ r.flushed_memtables;
  })
  replay_record options r (compaction_record task output) = do
    applied ← apply_result SsTable.first_key options.compaction_options r.state task output true
    some (record r { next_sst_id = max r.next_sst_id (max_id output + 1); state = applied.0 })

  unfoldable pub replay : LsmStorageOptions → Replay → List ManifestRecord → Option Replay
  unfolding replay_record
  replay options r [] = some r
  replay options r (m ∷ ms) = do r' ← replay_record options r m; replay options r' ms

  unfoldable pub recover_memtable : (ℕ → Option Bytes) → ℕ → Option (MemTable skip.Map)
  unfolding MemTable.recover_from_wal
  recover_memtable wal_file id = do
    file ← wal_file id
    MemTable.recover_from_wal skip buf hasher id file

  -- The memtables that were not flushed, the newest of which is the active one.
  unfoldable pub recover_memtables : (ℕ → Option Bytes) → Tree env → List ℕ → Option (Tree env)
  unfolding recover_memtable
  recover_memtables wal_file state [] = some state
  recover_memtables wal_file state (active_id ∷ ids) = do
    active ← recover_memtable wal_file active_id
    imms ← collect_all (recover_memtable wal_file) ids
    some (record state { memtable = active; imm_memtables = state.imm_memtables ++ imms })

  -- The tables of L0, or of a level, are opened.
  unfoldable pub open_tables :
      (ℕ → Option Bytes) → List ℕ → List (ℕ × SsTable) → Option (List (ℕ × SsTable))
  unfolding open_table
  open_tables sst_file [] sstables = some sstables
  open_tables sst_file (id ∷ ids) sstables = do
    file ← sst_file id
    sst ← open_table buf crc id file
    open_tables sst_file ids (insert id sst sstables)

  unfoldable pub open_levels :
      (ℕ → Option Bytes) → List Level → List (ℕ × SsTable) → Option (List (ℕ × SsTable))
  unfolding open_tables
  open_levels sst_file [] sstables = some sstables
  open_levels sst_file (level ∷ levels) sstables = do
    opened ← open_tables sst_file level.1 sstables
    open_levels sst_file levels opened

  unfoldable pub max_ts_of_tables : List (ℕ × SsTable) → ℕ
  max_ts_of_tables [] = 0
  max_ts_of_tables (e ∷ es) = max e.1.max_ts (max_ts_of_tables es)

  -- The loop over the scan of a memtable; its fuel is a round for each entry that is left.
  unfoldable pub max_ts_of_scan : ℕ → MemTableIterator → ℕ → ℕ
  max_ts_of_scan zero iter max_ts = max_ts
  max_ts_of_scan (suc fuel) iter max_ts =
      if MemTable.is_valid iter
      then max_ts_of_scan fuel (MemTable.next iter) (max max_ts iter.item.0.ts)
      else max_ts

  unfoldable pub max_ts_of_memtables : List (MemTable skip.Map) → ℕ → ℕ
  unfolding max_ts_of_scan MemTable.scan
  max_ts_of_memtables [] max_ts = max_ts
  max_ts_of_memtables (m ∷ ms) max_ts =
      let iter = MemTable.scan skip buf hasher m unbounded unbounded in
      max_ts_of_memtables ms (max_ts_of_scan (length iter.rest + 2) iter max_ts)

  -- The branch of `open` for a directory with a manifest.
  unfoldable pub recover_store :
      Directory manifest.Log → LsmStorageOptions → manifest.Log → Option (LsmStorageInner env)
  unfolding replay recover_memtables open_tables open_levels max_ts_of_tables max_ts_of_memtables
      create_state
  recover_store dir options log = do
    records ← manifest.recover_log log
    r ←
        replay options
          (record {
            state = create_state env options;
            next_sst_id = 0;
            flushed_memtables = [];
            all_memtables = [];
          })
          records
    let live = filter (λ id. not (contains r.flushed_memtables id)) r.all_memtables
    with_memtables ←
        (if options.enable_wal then recover_memtables dir.wal_file r.state live else some r.state)
    l0_opened ← open_tables dir.sst_file with_memtables.l0_sstables with_memtables.sstables
    opened ← open_levels dir.sst_file with_memtables.levels l0_opened
    some (record {
      state = record with_memtables { sstables = opened };
      next_sst_id = r.next_sst_id;
      options = options;
      log = log;
      commit_ts =
          max_ts_of_memtables (with_memtables.memtable ∷ with_memtables.imm_memtables)
            (max_ts_of_tables opened);
      compaction_filters = [];
    })

  -- The branch for a directory without one.
  unfoldable pub create_store : LsmStorageOptions → Option (LsmStorageInner env)
  unfolding create_state MemTable.create_with_wal
  create_store options = do
    log ← manifest.create_log
    let state = create_state env options
    logged ← (if options.enable_wal then manifest.add_record log (new_memtable 0) else some log)
    some (record {
      state =
          (if options.enable_wal
            then record state { memtable = MemTable.create_with_wal skip buf hasher 0 }
            else state);
      next_sst_id = 1;
      options = options;
      log = logged;
      commit_ts = 0;
      compaction_filters = [];
    })

  unfoldable pub open_store :
      Directory manifest.Log → LsmStorageOptions → Option (LsmStorageInner env)
  unfolding recover_store create_store
  open_store dir options = elim dir.manifest_file [
    | none ↦ create_store options
    | some log ↦ recover_store dir options log
  ]
