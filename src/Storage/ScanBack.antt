-- ===== src/Storage/ScanBack.antt =====
-- lsm_storage.rs: a scan after a write.
use tiny_lsm.Common.{
  ℕ, ◌+◌, ◌≤◌, ◌<◌, ◌≡◌, refl, ◌∙◌, true, none, some, List, ◌∷◌, Bytes, arith, length,
  if◌then◌else◌,
}
use tiny_lsm.Key.{from_slice, is_empty_bytes}
use tiny_lsm.MemTable.{Bound}
use tiny_lsm.MemTable.Bounds.{user_within}
use tiny_lsm.Table.Iterator.{SsTableIterator}
use tiny_lsm.Iterators.Streams.{total}
use tiny_lsm.Iterators.Concat.{SstConcatIterator}
use tiny_lsm.LsmIterator.{LsmIterator}
use tiny_lsm.LsmIterator.Scan.{collect}
use tiny_lsm.LsmIterator.Shown.{new-collect}
use tiny_lsm.LsmIterator.Lookup.{lookup_user}
use tiny_lsm.LsmIterator.End.{before_of_within, lookup_user-take_while}
use tiny_lsm.Storage.Inner.{Env, LsmStorageInner, WriteBatchRecord}
use tiny_lsm.Storage.Write.{write_batch}
use tiny_lsm.Storage.Read.{LsmIteratorInner, inner_storage, scan}
use tiny_lsm.Storage.Snapshots.{entries_in}
use tiny_lsm.Storage.Merged.{Sources, snapshot_merge, l0_sought, levels_sought, scan_steps}
use tiny_lsm.Storage.GetsAt.{find_key-version_at}
use tiny_lsm.Storage.ReadBack.{batch_value, write_batch-in_memtables}

module _ (env : Env) (fuel : ℕ) where
  -- A scan right after a batch is created and read to its end, and shows for a key of its range that the
  -- batch writes the value of the batch's last record for it, and does not show it where that is a
  -- deletion or an empty value, whatever older versions the memtables, the tables of L0 and the levels
  -- have. This is where the scan opens its iterators, which yield entries with growing keys; where the
  -- maps of the memtables iterate in the order of their keys, which are not empty; and where the fuel is
  -- more than all entries, as many rounds being enough to read it.
  pub scan-write_batch :
      (inner inner' : LsmStorageInner env) (batch : List WriteBatchRecord)
      (lower upper : Bound Bytes) (key v : Bytes) (l0_iters : List SsTableIterator)
      (level_iters : List SstConcatIterator)
      → write_batch env inner batch ≡ some inner'
      → batch_value key batch ≡ some v
      → user_within lower upper key ≡ true
      → l0_sought env fuel inner' lower upper ≡ some l0_iters
      → levels_sought env fuel inner' lower upper ≡ some level_iters
      → (src : Sources env fuel inner'.state l0_iters level_iters)
      → entries_in env (inner'.state.memtable ∷ inner'.state.imm_memtables)
          + total src.l0
          + total src.levels
        < fuel
      → (iter : LsmIterator LsmIteratorInner) × (rounds : ℕ) × (shown : List (Bytes × Bytes))
        × (scan env fuel inner' lower upper ≡ some iter)
        × (rounds ≤ fuel)
        × (collect (inner_storage env fuel) fuel rounds iter ≡ some shown)
        × (lookup_user key shown ≡ (if is_empty_bytes v then none else some v))
  unfolding scan
  scan-write_batch inner inner' batch lower upper key v l0_iters level_iters h wrote inside o0 o1
        src enough =
      let (it, es, merged, yields, up, few, finds) =
        snapshot_merge env fuel inner'.state lower upper l0_iters level_iters src in
      let (iter, newest, made, read, growing, looks) =
        new-collect (inner_storage env fuel) fuel es it upper inner'.commit_ts
          (omega (arith, few, enough)) yields up in
      (
        iter,
        length es + 1,
        _,
        scan_steps env fuel inner' lower upper inner'.commit_ts l0_iters level_iters it o0 o1 merged
            ∙ made,
        omega (arith, few, enough),
        read,
        lookup_user-take_while upper key newest growing (before_of_within lower upper key inside)
            ∙ looks key
            ∙ find_key-version_at inner'.commit_ts key v es up (
                finds (from_slice key inner'.commit_ts)
                ∙ rw inside
                    (rw (write_batch-in_memtables env inner inner' batch key v h wrote) refl)),
      )
