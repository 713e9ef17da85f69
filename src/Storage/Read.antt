-- ===== src/Storage/Read.antt =====
-- The read path of lsm_storage.rs: a merge over the memtables, the tables of L0 and the levels.
use tiny_lsm.Common.{
  ℕ, zero, suc, Bool, true, false, not, ◌&&◌, Option, none, some, List, [], ◌∷◌, Bytes, map, ◌>>=◌,
  ltb, if◌then◌else◌,
}
use tiny_lsm.Key.{from_slice, bytes_eq, is_empty_bytes, ts_range_begin}
use tiny_lsm.MemTable
use tiny_lsm.MemTable.{MemTable, MemTableIterator, Bound, included, excluded, unbounded}
use tiny_lsm.Table.Bloom.{may_contain}
use tiny_lsm.Table.Sst.{SsTable}
use tiny_lsm.Table.Iterator
use tiny_lsm.Table.Iterator.{SsTableIterator}
use tiny_lsm.Iterators.{StorageIterator}
use tiny_lsm.Iterators.Merge
use tiny_lsm.Iterators.Merge.{MergeIterator, merge_storage}
use tiny_lsm.Iterators.TwoMerge
use tiny_lsm.Iterators.TwoMerge.{TwoMergeIterator}
use tiny_lsm.Iterators.Concat
use tiny_lsm.Iterators.Concat.{SstConcatIterator}
use tiny_lsm.Iterators.Cursors.{mem_table_storage, table_storage, concat_storage}
use tiny_lsm.LsmIterator
use tiny_lsm.LsmIterator.{LsmIterator}
use tiny_lsm.Storage.State.{lookup}
use tiny_lsm.Storage.Ranges.{range_overlap, key_within}
use tiny_lsm.Storage.Inner.{Env, Tree, LsmStorageInner}

-- `LsmIteratorInner` of lsm_iterator.rs
abbrev pub LsmIteratorInner : Type 0
LsmIteratorInner =
    TwoMergeIterator
      (TwoMergeIterator (MergeIterator MemTableIterator) (MergeIterator SsTableIterator))
      (MergeIterator SstConcatIterator)

-- A loop that stops at the first panic or error.
abbrev pub collect_all {ℓ κ} : {A : Type ℓ} {B : Type κ} → (A → Option B) → List A → Option (List B)
collect_all f [] = some []
collect_all f (x ∷ xs) = do y ← f x; ys ← collect_all f xs; some (y ∷ ys)

-- The tables that a test keeps.
unfoldable pub keep_tables : (SsTable → Option Bool) → List SsTable → Option (List SsTable)
keep_tables keep [] = some []
keep_tables keep (table ∷ tables) = do
  kept ← keep table
  rest ← keep_tables keep tables
  some (if kept then table ∷ rest else rest)

module _ (env : Env) (fuel : ℕ) where
  open env use {skip, buf, hasher, crc, hashes}

  abbrev pub mem_merge : StorageIterator (MergeIterator MemTableIterator)
  mem_merge = merge_storage mem_table_storage fuel

  abbrev pub l0_merge : StorageIterator (MergeIterator SsTableIterator)
  l0_merge = merge_storage (table_storage buf crc) fuel

  abbrev pub level_merge : StorageIterator (MergeIterator SstConcatIterator)
  level_merge = merge_storage (concat_storage buf crc) fuel

  abbrev pub inner_storage : StorageIterator LsmIteratorInner
  inner_storage = TwoMerge.storage (TwoMerge.storage mem_merge l0_merge) level_merge

  -- The two merges that `get_with_ts` and `scan_with_ts` both make of their iterators.
  unfoldable pub merge_all :
      List MemTableIterator
      → List SsTableIterator
      → List SstConcatIterator
      → Option LsmIteratorInner
  unfolding Merge.create TwoMerge.create
  merge_all memtable_iters table_iters level_iters = do
    memtable_iter ← Merge.create mem_table_storage memtable_iters
    l0_iter ← Merge.create (table_storage buf crc) table_iters
    levels ← Merge.create (concat_storage buf crc) level_iters
    some (
        TwoMerge.create (TwoMerge.storage mem_merge l0_merge) level_merge
          (TwoMerge.create mem_merge l0_merge memtable_iter l0_iter) levels)

  -- The scans of the memtable and of the frozen ones, from the newest.
  abbrev pub memtable_scans : Tree env → Bound Bytes → Bound Bytes → List MemTableIterator
  memtable_scans snapshot lower upper =
      map (λ memtable. MemTable.scan skip buf hasher memtable lower upper)
        (snapshot.memtable ∷ snapshot.imm_memtables)

  -- `snapshot.sstables[id]`
  abbrev pub tables_of : Tree env → List ℕ → Option (List SsTable)
  tables_of snapshot ids = collect_all (λ id. lookup id snapshot.sstables) ids

  -- `keep_table` of `get_with_ts`
  unfoldable pub keep_table : Bytes → SsTable → Option Bool
  unfolding key_within may_contain
  keep_table key table =
      if key_within key table.first_key table.last_key
      then elim table.bloom [
        | none ↦ some true
        | some bloom ↦ may_contain bloom (hashes.fingerprint32 key)
      ]
      else some false

  -- `while iter.is_valid() && iter.key().key_ref() == key && iter.key().ts() > read_ts`
  unfoldable pub skip_too_new : ℕ → Bytes → ℕ → LsmIteratorInner → Option LsmIteratorInner
  skip_too_new zero key read_ts iter = none
  skip_too_new (suc rounds) key read_ts iter =
      if not (inner_storage.is_valid iter) then some iter else (do
        k ← inner_storage.key iter
        if bytes_eq k.bytes key && ltb read_ts k.ts
            then (inner_storage.next iter >>= λ iter'. skip_too_new rounds key read_ts iter')
            else some iter)

  -- The end of `get_with_ts`: the value that the iterator stands on, if it is one of the key and is no
  -- tombstone.
  unfoldable pub value_of : Bytes → LsmIteratorInner → Option (Option Bytes)
  value_of key iter = if not (inner_storage.is_valid iter) then some none else (do
    k ← inner_storage.key iter
    if bytes_eq k.bytes key
        then (inner_storage.value iter >>= λ v. some (if is_empty_bytes v then none else some v))
        else some none)

  -- The iterator of `get_with_ts`
  unfoldable pub get_iter : LsmStorageInner env → Bytes → Option LsmIteratorInner
  unfolding keep_table keep_tables merge_all MemTable.scan Iterator.open_at_key Concat.open_at_key
  get_iter inner key = do
    let snapshot = inner.state
    let ks = from_slice key ts_range_begin
    l0 ← tables_of snapshot snapshot.l0_sstables
    l0_kept ← keep_tables (keep_table key) l0
    l0_iters ← collect_all (λ table. Iterator.open_at_key buf crc table ks) l0_kept
    level_iters ←
        collect_all
          (λ level. do
            tables ← tables_of snapshot level.1
            level_ssts ← keep_tables (keep_table key) tables
            Concat.open_at_key buf crc level_ssts ks)
          snapshot.levels
    merge_all (memtable_scans snapshot (included key) (included key)) l0_iters level_iters

  unfoldable pub get_with_ts : LsmStorageInner env → Bytes → ℕ → Option (Option Bytes)
  unfolding get_iter skip_too_new value_of
  get_with_ts inner key read_ts = do
    iter ← get_iter inner key
    visible ← skip_too_new fuel key read_ts iter
    value_of key visible

  unfoldable pub get : LsmStorageInner env → Bytes → Option (Option Bytes)
  unfolding get_with_ts
  get inner key = get_with_ts inner key inner.commit_ts

  -- `while iter.is_valid() && iter.key().key_ref() == key`, for an excluded lower bound
  unfoldable pub skip_key : {I : Type 0} → StorageIterator I → ℕ → Bytes → I → Option I
  skip_key storage zero key iter = none
  skip_key storage (suc rounds) key iter = if not (storage.is_valid iter) then some iter else (do
    k ← storage.key iter
    if bytes_eq k.bytes key
        then (storage.next iter >>= λ iter'. skip_key storage rounds key iter')
        else some iter)

  -- An iterator over a table of L0, from the lower bound.
  unfoldable pub seek_table : Bound Bytes → SsTable → Option SsTableIterator
  unfolding skip_key Iterator.open_at_key Iterator.open_first
  seek_table (included key) table =
      Iterator.open_at_key buf crc table (from_slice key ts_range_begin)
  seek_table (excluded key) table = do
    iter ← Iterator.open_at_key buf crc table (from_slice key ts_range_begin)
    skip_key (table_storage buf crc) fuel key iter
  seek_table unbounded table = Iterator.open_first buf crc table

  -- An iterator over the tables of a level, from the lower bound.
  unfoldable pub seek_level : Bound Bytes → List SsTable → Option SstConcatIterator
  unfolding skip_key Concat.open_at_key Concat.open_first
  seek_level (included key) tables =
      Concat.open_at_key buf crc tables (from_slice key ts_range_begin)
  seek_level (excluded key) tables = do
    iter ← Concat.open_at_key buf crc tables (from_slice key ts_range_begin)
    skip_key (concat_storage buf crc) fuel key iter
  seek_level unbounded tables = Concat.open_first buf crc tables

  unfoldable pub overlapping : Bound Bytes → Bound Bytes → SsTable → Option Bool
  unfolding range_overlap
  overlapping lower upper table = some (range_overlap lower upper table.first_key table.last_key)

  -- `scan_with_ts`, without the `FusedIterator` round it
  unfoldable pub scan_with_ts :
      LsmStorageInner env → Bound Bytes → Bound Bytes → ℕ → Option (LsmIterator LsmIteratorInner)
  unfolding seek_table seek_level overlapping keep_tables merge_all MemTable.scan LsmIterator.new
  scan_with_ts inner lower upper read_ts = do
    let snapshot = inner.state
    l0 ← tables_of snapshot snapshot.l0_sstables
    l0_kept ← keep_tables (overlapping lower upper) l0
    table_iters ← collect_all (seek_table lower) l0_kept
    level_iters ←
        collect_all
          (λ level. do
            tables ← tables_of snapshot level.1
            level_ssts ← keep_tables (overlapping lower upper) tables
            seek_level lower level_ssts)
          snapshot.levels
    iter ← merge_all (memtable_scans snapshot lower upper) table_iters level_iters
    LsmIterator.new inner_storage fuel iter upper read_ts

  unfoldable pub scan :
      LsmStorageInner env → Bound Bytes → Bound Bytes → Option (LsmIterator LsmIteratorInner)
  unfolding scan_with_ts
  scan inner lower upper = scan_with_ts inner lower upper inner.commit_ts
