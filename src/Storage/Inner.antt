-- ===== src/Storage/Inner.antt =====
-- `LsmStorageInner` of lsm_storage.rs with its options, and the crates that it works with.
use tiny_lsm.Common.{ℕ, zero, suc, ◌+◌, ◌%◌, Bool, Option, none, List, [], ◌∷◌, Bytes, ◌++◌}
use tiny_lsm.Buffer.{u64_mod, BufCrate, Hasher, Crc}
use tiny_lsm.MemTable
use tiny_lsm.MemTable.{SkipMap, MemTable}
use tiny_lsm.Table.Sst.{SsTable}
use tiny_lsm.Table.Builder.{Hashes}
use tiny_lsm.Compact.Float.{Float}
use tiny_lsm.Compact.Task.{
  CompactionTask, CompactionOptions, leveled_options, tiered_options, simple_options, no_compaction,
}
use tiny_lsm.Storage.State.{LsmStorageState, Level}

-- `ManifestRecord`
pub data ManifestRecord : Type 0 where
  flush_record : ℕ → ManifestRecord
  new_memtable : ℕ → ManifestRecord
  compaction_record : CompactionTask → List ℕ → ManifestRecord

-- `Manifest`: its functions are `unimplemented!()` in the source (`source_manifest`), so that the
-- store takes them as an interface. A record that cannot be added is an error.
pub record Manifest : Type 1 where
  pub Log : Type 0
  pub create_log : Option Log
  pub recover_log : Log → Option (List ManifestRecord)
  pub add_record : Log → ManifestRecord → Option Log

-- The functions of manifest.rs as they stand: each of them panics.
abbrev pub source_manifest : Type 0 → Manifest
source_manifest File = record {
  Log = File;
  create_log = none;
  recover_log = λ log. none;
  add_record = λ log r. none;
}

-- The crates of the store and its manifest.
pub record Env : Type 1 where
  pub skip : SkipMap
  pub buf : BufCrate
  pub hasher : Hasher
  pub crc : Crc
  pub hashes : Hashes
  pub float : Float
  pub manifest : Manifest

pub record LsmStorageOptions : Type 0 where
  pub block_size : ℕ
  pub target_sst_size : ℕ
  pub num_memtable_limit : ℕ
  pub compaction_options : CompactionOptions
  pub enable_wal : Bool
  pub serializable : Bool

pub data WriteBatchRecord : Type 0 where
  put_record : Bytes → Bytes → WriteBatchRecord
  del_record : Bytes → WriteBatchRecord

-- `CompactionFilter::Prefix`
pub data CompactionFilter : Type 0 where
  prefix : Bytes → CompactionFilter

-- `(1..=max_levels).map(|level| (level, Vec::new()))`, from `n` on
unfoldable pub empty_levels : ℕ → ℕ → List Level
empty_levels n zero = []
empty_levels n (suc count) = (n, []) ∷ empty_levels (n + 1) count

-- The levels of `LsmStorageState::create`
unfoldable pub first_levels : CompactionOptions → List Level
unfolding empty_levels
first_levels (leveled_options o) = empty_levels 1 o.max_levels
first_levels (simple_options o) = empty_levels 1 o.max_levels
first_levels (tiered_options o) = []
first_levels no_compaction = (1, []) ∷ []

module _ (env : Env) where
  -- The state over memtables and tables.
  abbrev pub Tree : Type 0
  Tree = LsmStorageState (MemTable env.skip.Map) SsTable

  -- `LsmStorageState::create`
  unfoldable pub create_state : LsmStorageOptions → Tree
  unfolding first_levels MemTable.create
  create_state options = record {
    memtable = MemTable.create env.skip env.buf env.hasher 0;
    imm_memtables = [];
    l0_sstables = [];
    levels = first_levels options.compaction_options;
    sstables = [];
  }

  -- `LsmStorageInner`. The path, the locks and the block cache are left out; `commit_ts` is the
  -- timestamp of `mvcc`.
  pub record LsmStorageInner : Type 0 where
    pub state : Tree
    pub next_sst_id : ℕ
    pub options : LsmStorageOptions
    pub log : env.manifest.Log
    pub commit_ts : ℕ
    pub compaction_filters : List CompactionFilter

  -- `next_sst_id`: the id, and the store with the next one; `fetch_add` wraps around.
  unfoldable pub take_sst_id : LsmStorageInner → ℕ × LsmStorageInner
  take_sst_id inner =
      (inner.next_sst_id, record inner { next_sst_id = (inner.next_sst_id + 1) % u64_mod })

  -- `add_compaction_filter`
  unfoldable pub add_compaction_filter : LsmStorageInner → CompactionFilter → LsmStorageInner
  add_compaction_filter inner compaction_filter = record inner {
    compaction_filters = inner.compaction_filters ++ compaction_filter ∷ [];
  }
