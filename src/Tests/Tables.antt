-- ===== src/Tests/Tables.antt =====
-- A table that is built from a memtable, and read.
use tiny_lsm.Common.{◌≡◌, refl, true, Option, none, some, [], ◌∷◌}
use tiny_lsm.Key.{cmp, bytes_cmp, new}
use tiny_lsm.MemTable
use tiny_lsm.Block.{get_first_key}
use tiny_lsm.Block.Iterator as BlockCursor
use tiny_lsm.Table.Builder
use tiny_lsm.Table.Iterator
use tiny_lsm.Table.Sst.{SsTable, read_block}
use tiny_lsm.Iterators.Concat.{SstConcatIterator, open_first, next, is_valid}
use tiny_lsm.Iterators.Cursors.{concat_storage}
use tiny_lsm.Table.Iterator.{SsTableIterator}
use tiny_lsm.Iterators.ConcatLoop.{AllOpen, opened_first, is_valid-Made, next-ends}
use tiny_lsm.Storage.Write.{build_flush, write_batch}
use tiny_lsm.Tests.{sum, test_buf, test_crc}
use tiny_lsm.Tests.Stores.{test_env, written, first_table}

abbrev or_first : Option SsTable → SsTable
or_first none = first_table
or_first (some table) = table

abbrev built_table : SsTable
built_table = or_first (build_flush test_env written written.state.memtable)

abbrev or_end : Option SstConcatIterator → SstConcatIterator
or_end none = record { current = none; next_sst_idx = 0; sstables = [] }
or_end (some it) = it

abbrev over_built : SstConcatIterator
over_built = or_end (open_first test_buf test_crc (built_table ∷ []))

built : build_flush test_env written written.state.memtable ≡ some built_table
unfolding build_flush write_batch MemTable.scan MemTable.upsert cmp bytes_cmp MemTable.within
    MemTable.is_valid Builder.add
built = refl

opened : open_first test_buf test_crc (built_table ∷ []) ≡ some over_built
unfolding open_first build_flush write_batch MemTable.scan MemTable.upsert cmp bytes_cmp
    MemTable.within MemTable.is_valid Builder.add Iterator.open_first read_block sum
    BlockCursor.create_and_seek_to_first BlockCursor.create get_first_key BlockCursor.seek_to_first
    BlockCursor.seek_to Iterator.is_valid BlockCursor.is_valid
opened = refl

is_valid-Made_example :
    is_valid over_built ≡ some ((concat_storage test_buf test_crc).is_valid over_built)
is_valid-Made_example =
    is_valid-Made test_buf test_crc over_built (opened_first (built_table ∷ []) over_built opened)

-- An iterator over that table, at its first and at its second entry.
abbrev or_none : Option SsTableIterator → SsTableIterator
or_none none = record {
  table = first_table;
  blk_iter = record {
    block = record { bytes = []; offsets = [] };
    key = new;
    value_start = 0;
    value_end = 0;
    idx = 0;
    first_key = new;
  };
  blk_idx = 0;
}
or_none (some it) = it

abbrev at_first : SsTableIterator
at_first = or_none (Iterator.open_first test_buf test_crc built_table)

abbrev at_second : SsTableIterator
at_second = or_none (Iterator.next test_buf test_crc at_first)

built-AllOpen : AllOpen test_buf test_crc (built_table ∷ [])
unfolding build_flush write_batch MemTable.scan MemTable.upsert cmp bytes_cmp MemTable.within
    MemTable.is_valid Builder.add Iterator.open_first read_block sum
    BlockCursor.create_and_seek_to_first BlockCursor.create get_first_key BlockCursor.seek_to_first
    BlockCursor.seek_to Iterator.is_valid BlockCursor.is_valid
built-AllOpen = ((at_first, refl), tt)

at_first_current : over_built.current ≡ some at_first
unfolding open_first build_flush write_batch MemTable.scan MemTable.upsert cmp bytes_cmp
    MemTable.within MemTable.is_valid Builder.add Iterator.open_first read_block sum
    BlockCursor.create_and_seek_to_first BlockCursor.create get_first_key BlockCursor.seek_to_first
    BlockCursor.seek_to Iterator.is_valid BlockCursor.is_valid
at_first_current = refl

moved_on : Iterator.next test_buf test_crc at_first ≡ some at_second
unfolding Iterator.next BlockCursor.next build_flush write_batch MemTable.scan MemTable.upsert cmp
    bytes_cmp MemTable.within MemTable.is_valid Builder.add Iterator.open_first read_block sum
    BlockCursor.create_and_seek_to_first BlockCursor.create get_first_key BlockCursor.seek_to_first
    BlockCursor.seek_to Iterator.is_valid BlockCursor.is_valid
moved_on = refl

next-ends_example :
    (is_valid over_built ≡ some true)
    × (it : SstConcatIterator) × (next test_buf test_crc over_built ≡ some it)
    × (is_valid it ≡ some ((concat_storage test_buf test_crc).is_valid it))
unfolding open_first build_flush write_batch MemTable.scan MemTable.upsert cmp bytes_cmp
    MemTable.within MemTable.is_valid Builder.add Iterator.open_first read_block sum
    BlockCursor.create_and_seek_to_first BlockCursor.create get_first_key BlockCursor.seek_to_first
    BlockCursor.seek_to Iterator.is_valid BlockCursor.is_valid
next-ends_example =
    next-ends test_buf test_crc over_built at_first at_second
      (opened_first (built_table ∷ []) over_built opened) at_first_current moved_on built-AllOpen
