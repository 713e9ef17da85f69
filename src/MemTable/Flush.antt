-- ===== src/MemTable/Flush.antt =====
-- mem_table.rs: a memtable written to a table.
use tiny_lsm.Common.{ℕ, zero, suc, ◌+◌, Option, none, some, length, ◌>>=◌, if◌then◌else◌}
use tiny_lsm.Buffer.{BufCrate, Hasher, Crc}
use tiny_lsm.MemTable.{SkipMap, MemTable, MemTableIterator, unbounded, scan, is_valid, next}
use tiny_lsm.Table.Builder.{SsTableBuilder, Hashes, add}

module _ (buf : BufCrate) (crc : Crc) (hashes : Hashes) where
  -- The loop of `flush`.
  unfoldable pub flush_loop : ℕ → MemTableIterator → SsTableBuilder → Option SsTableBuilder
  flush_loop zero iter builder = none
  flush_loop (suc fuel) iter builder =
      if is_valid iter
      then (add buf crc hashes builder iter.item.0 iter.item.1 >>= λ builder'.
          flush_loop fuel (next iter) builder')
      else some builder

  -- `MemTable::flush`: a round for each entry that the scan has left, and two more.
  unfoldable pub flush :
      (skip : SkipMap) → Hasher → MemTable skip.Map → SsTableBuilder → Option SsTableBuilder
  unfolding flush_loop
  flush skip hasher table builder =
      let iter = scan skip buf hasher table unbounded unbounded in
      flush_loop (length iter.rest + 2) iter builder
