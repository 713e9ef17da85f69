-- ===== src/Iterators/Cursors.antt =====
-- The implementations of `StorageIterator` for the iterators over memtables, tables and runs of
-- tables (mem_table.rs, table/iterator.rs, iterators/concat_iterator.rs).
use tiny_lsm.Common.{true, false, none, some}
use tiny_lsm.Buffer.{BufCrate, Crc}
use tiny_lsm.MemTable
use tiny_lsm.MemTable.{MemTableIterator}
use tiny_lsm.Table.Iterator
use tiny_lsm.Table.Iterator.{SsTableIterator}
use tiny_lsm.Iterators.{StorageIterator}
use tiny_lsm.Iterators.Concat
use tiny_lsm.Iterators.Concat.{SstConcatIterator}

unfoldable pub mem_table_storage : StorageIterator MemTableIterator
mem_table_storage = record {
  value = λ it. some it.item.1;
  key = λ it. some it.item.0;
  is_valid = MemTable.is_valid;
  next = λ it. some (MemTable.next it);
  num_active_iterators = λ it. 1;
}

module _ (buf : BufCrate) (crc : Crc) where
  unfoldable pub table_storage : StorageIterator SsTableIterator
  table_storage = record {
    value = Iterator.value;
    key = Iterator.key;
    is_valid = Iterator.is_valid;
    next = Iterator.next buf crc;
    num_active_iterators = λ it. 1;
  }

  -- `is_valid` asserts that the current iterator is valid; the iterator keeps that (ConcatLoop).
  unfoldable pub concat_storage : StorageIterator SstConcatIterator
  concat_storage = record {
    value = Concat.value;
    key = Concat.key;
    is_valid = λ it. elim it.current [ none ↦ false | some current ↦ true ];
    next = Concat.next buf crc;
    num_active_iterators = λ it. 1;
  }
