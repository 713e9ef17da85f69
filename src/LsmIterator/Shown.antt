-- ===== src/LsmIterator/Shown.antt =====
-- What a scan shows of the entries it goes through, and of a user key.
use tiny_lsm.Common.{ℕ, ◌+◌, ◌<◌, ◌≡◌, none, some, List, Bytes, length}
use tiny_lsm.MemTable.{Bound}
use tiny_lsm.Iterators.{StorageIterator, Yields}
use tiny_lsm.Iterators.Ascend.{Ascends}
use tiny_lsm.LsmIterator.{LsmIterator, new}
use tiny_lsm.LsmIterator.Skips.{Entries, visible}
use tiny_lsm.LsmIterator.Scan.{take_while, before_end, collect, new-visible}
use tiny_lsm.LsmIterator.Order.{UsersAscend, visible-UsersAscend}
use tiny_lsm.LsmIterator.Lookup.{lookup_user, version_at, lookup_user-visible}

module _ {I : Type 0} (storage : StorageIterator I) (fuel : ℕ) where
  -- A scan of entries whose keys grow is created and read to its end without a failure. It shows the
  -- part up to the end of the scan of a list in which the user keys grow, so that none comes twice, and
  -- a user key stands exactly with the value of its newest version at the read timestamp, or not at all
  -- where that is a tombstone or there is no such version. One more round of fuel than there are entries
  -- is enough.
  pub new-collect :
      (es : Entries) (it : I) (end_bound : Bound Bytes) (read_ts : ℕ)
      → length es < fuel
      → Yields storage es it
      → Ascends es
      → (scan : LsmIterator I) × (newest : List (Bytes × Bytes)) × (new storage fuel it end_bound
            read_ts
          ≡ some scan)
        × (collect storage fuel (length es + 1) scan
            ≡ some (take_while (before_end end_bound) newest))
        × UsersAscend newest
        × ((key : Bytes) → lookup_user key newest ≡ version_at read_ts key es)
  new-collect es it end_bound read_ts enough y up =
      let (scan, made, read) = new-visible storage fuel es it end_bound read_ts enough y in
      (
        scan,
        visible read_ts none es,
        made,
        read,
        visible-UsersAscend read_ts none es up,
        λ key. lookup_user-visible read_ts key es up,
      )
