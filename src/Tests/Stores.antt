-- ===== src/Tests/Stores.antt =====
-- A store at concrete inputs: writes, a freeze, a flush, reads and transactions.
use tiny_lsm.Common.{
  ◌≡◌, refl, max, true, false, Option, none, some, List, [], ◌∷◌, ◌++◌, Bytes, arith, length,
  if◌then◌else◌,
}
use tiny_lsm.Key.{from_slice, bytes_eq}
use tiny_lsm.Table.Builder.{Hashes}
use tiny_lsm.Table.Sst.{SsTable, table_size}
use tiny_lsm.Compact.Task.{
  CompactionTask, CompactionOptions, simple_options, tiered_options, flush_to_l0, generate_task,
}
use tiny_lsm.Storage.Inner.{
  Env, Manifest, ManifestRecord, flush_record, LsmStorageOptions, LsmStorageInner, WriteBatchRecord,
  put_record, del_record,
}
use tiny_lsm.Compact.Simple.{SimpleLeveledCompactionOptions}
use tiny_lsm.Compact.Tiered.{TieredCompactionOptions}
use tiny_lsm.Storage.Write.{write_batch, force_freeze_memtable, publish_flush}
use tiny_lsm.Storage.Open.{create_store, Replay, replay_record}
use tiny_lsm.Storage.WellFormed.{IsWellFormed}
use tiny_lsm.Storage.Steps.{wrote, froze, flushed, Reach, start, later}
use tiny_lsm.Storage.Invariant.{Reach-IsWellFormed}
use tiny_lsm.Storage.Safety.{
  table_ids, tables_of-Reach, publish_flush_twice, replay-publish_flush,
  replay-publish_flush_tiered,
}
use tiny_lsm.Storage.Read.{tables_of}
use tiny_lsm.Mvcc.{LocalMap}
use tiny_lsm.Tests.{test_buf, test_crc, test_hasher, test_float}
use tiny_lsm.Tests.Logs.{test_skip}

abbrev test_hashes : Hashes
test_hashes = record {
  fingerprint32 = λ key. length key;
  hash32 = λ key. length key;
  bits_per_key = λ n. 10;
  scaled = λ n. n;
}

-- A manifest that keeps its records.
abbrev test_manifest : Manifest
test_manifest = record {
  Log = List ManifestRecord;
  create_log = some [];
  recover_log = λ log. some log;
  add_record = λ log r. some (log ++ r ∷ []);
}

abbrev pub test_env : Env
test_env = record {
  skip = test_skip;
  buf = test_buf;
  hasher = test_hasher;
  crc = test_crc;
  hashes = test_hashes;
  float = test_float;
  manifest = test_manifest;
}

abbrev options_of : CompactionOptions → LsmStorageOptions
options_of o = record {
  block_size = 4096;
  target_sst_size = 1000;
  num_memtable_limit = 2;
  compaction_options = o;
  enable_wal = false;
  serializable = true;
}

abbrev pub two_levels : SimpleLeveledCompactionOptions
two_levels = record {
  size_ratio_percent = 200;
  level0_file_num_compaction_trigger = 2;
  max_levels = 2;
}

abbrev pub simple_store : LsmStorageOptions
simple_store = options_of (simple_options two_levels)

abbrev pub empty_store : LsmStorageOptions → LsmStorageInner test_env
empty_store options = record {
  state = record {
    memtable = record { map = []; wal = none; id = 0; approximate_size = 0 };
    imm_memtables = [];
    l0_sstables = [];
    levels = (1, []) ∷ (2, []) ∷ [];
    sstables = [];
  };
  next_sst_id = 1;
  options = options;
  log = [];
  commit_ts = 0;
  compaction_filters = [];
}

-- The store after an operation, or an empty one.
abbrev pub or_empty : Option (LsmStorageInner test_env) → LsmStorageInner test_env
or_empty none = empty_store simple_store
or_empty (some inner) = inner

created : create_store test_env simple_store ≡ some (empty_store simple_store)
unfolding create_store
created = refl

abbrev pub test_local : LocalMap
test_local = record {
  Map = List (Bytes × Bytes);
  new_map = [];
  insert = λ m k v. (k, v) ∷ m;
  get_value = find_local;
  get_value-new_map = λ k. refl;
  get_value-insert = λ m k v j. refl;
}
  where
    find_local : List (Bytes × Bytes) → Bytes → Option Bytes
    find_local [] k = none
    find_local ((j, v) ∷ m) k = if bytes_eq j k then some v else find_local m k

-- A write, a freeze and a flush.
abbrev test_batch : List WriteBatchRecord
test_batch = put_record (1 ∷ []) (9 ∷ []) ∷ del_record (2 ∷ []) ∷ []

abbrev pub written : LsmStorageInner test_env
written = or_empty (write_batch test_env (empty_store simple_store) test_batch)

abbrev pub frozen_store : LsmStorageInner test_env
frozen_store = or_empty (force_freeze_memtable test_env written)

abbrev pub first_table : SsTable
first_table = record {
  file = [];
  block_meta = [];
  block_meta_offset = 0;
  id = 0;
  first_key = from_slice (1 ∷ []) 1;
  last_key = from_slice (2 ∷ []) 1;
  bloom = none;
  max_ts = 1;
}

abbrev pub flushed_store : LsmStorageInner test_env
flushed_store = or_empty (publish_flush test_env frozen_store first_table)

published : publish_flush test_env frozen_store first_table ≡ some flushed_store
unfolding publish_flush force_freeze_memtable write_batch
published = refl

frozen-Reach : Reach test_env frozen_store
unfolding force_freeze_memtable write_batch
frozen-Reach =
    later written frozen_store
      (later (empty_store simple_store) written
        (start simple_store (empty_store simple_store) created)
        (wrote test_batch written (omega arith) refl))
      (froze frozen_store (omega arith) refl)

pub flushed-Reach : Reach test_env flushed_store
flushed-Reach =
    later frozen_store flushed_store frozen-Reach (flushed first_table flushed_store published)

Reach-IsWellFormed_example : IsWellFormed flushed_store.state flushed_store.next_sst_id
Reach-IsWellFormed_example = Reach-IsWellFormed test_env flushed_store flushed-Reach

tables_of-Reach_example :
    ((l0 : List SsTable) × (tables_of test_env 4 flushed_store.state flushed_store.state.l0_sstables
        ≡ some l0)
      × (table_ids l0 ≡ flushed_store.state.l0_sstables))
    × ((tables : List SsTable) × (tables_of test_env 4 flushed_store.state [] ≡ some tables)
        × (table_ids tables ≡ []))
unfolding publish_flush force_freeze_memtable write_batch
tables_of-Reach_example = tables_of-Reach test_env 4 flushed_store 0 (1, []) flushed-Reach refl

publish_flush_twice_example : publish_flush test_env flushed_store first_table ≡ none
publish_flush_twice_example =
    publish_flush_twice test_env frozen_store flushed_store first_table first_table frozen-Reach
      published refl

empty_replay : Replay test_env
empty_replay = record {
  state = frozen_store.state;
  next_sst_id = 2;
  flushed_memtables = [];
  all_memtables = 1 ∷ 0 ∷ [];
}

replay-publish_flush_example :
    (r : Replay test_env) × (replay_record test_env frozen_store.options empty_replay
        (flush_record 0)
      ≡ some r)
    × (r.state.l0_sstables ≡ flushed_store.state.l0_sstables)
    × (r.state.levels ≡ flushed_store.state.levels)
    × (r.next_sst_id ≡ max 2 1)
    × (r.flushed_memtables ≡ 0 ∷ [])
unfolding empty_replay publish_flush force_freeze_memtable write_batch flush_to_l0
replay-publish_flush_example =
    replay-publish_flush test_env frozen_store flushed_store first_table empty_replay refl published
      refl refl

abbrev tiered : TieredCompactionOptions
tiered = record {
  num_tiers = 3;
  max_size_amplification_percent = 200;
  size_ratio = 1;
  min_merge_width = 2;
  max_merge_width = none;
}

abbrev tiered_store : LsmStorageInner test_env
tiered_store = or_empty (
    force_freeze_memtable test_env (record (empty_store (options_of (tiered_options tiered))) {
      state = record (empty_store simple_store).state { levels = [] };
    }))

abbrev tiered_flushed : LsmStorageInner test_env
tiered_flushed = or_empty (publish_flush test_env tiered_store first_table)

tiered_published : publish_flush test_env tiered_store first_table ≡ some tiered_flushed
unfolding publish_flush force_freeze_memtable flush_to_l0
tiered_published = refl

-- What the manifest's records give of that store: a memtable, no files.
tiered_replay : Replay test_env
tiered_replay = record {
  state = tiered_store.state;
  next_sst_id = 2;
  flushed_memtables = [];
  all_memtables = 1 ∷ 0 ∷ [];
}

replay-publish_flush_tiered_example :
    (tiered_flushed.state.l0_sstables ≡ [])
    × (tiered_flushed.state.levels ≡ (0, 0 ∷ []) ∷ tiered_store.state.levels)
    × (task : Option CompactionTask) × (generate_task test_float SsTable.first_key SsTable.last_key
          table_size
          (tiered_options tiered)
          tiered_flushed.state
        ≡ some task)
    × (r : Replay test_env) × (replay_record test_env tiered_store.options tiered_replay
          (flush_record 0)
        ≡ some r)
    × (r.state.l0_sstables ≡ 0 ∷ [])
    × (r.state.levels ≡ tiered_store.state.levels)
    × (generate_task test_float SsTable.first_key SsTable.last_key table_size
          (tiered_options tiered)
          r.state
        ≡ none)
unfolding force_freeze_memtable tiered_replay
replay-publish_flush_tiered_example =
    replay-publish_flush_tiered test_env tiered_store tiered_flushed first_table tiered_replay
      tiered refl refl tiered_published refl refl
