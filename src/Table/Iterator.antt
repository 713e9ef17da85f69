-- ===== src/Table/Iterator.antt =====
-- table/iterator.rs: the iterator over a table.
use tiny_lsm.Common.{ℕ, ◌+◌, Bool, not, Option, some, Bytes, ◌>>=◌, if◌then◌else◌, ltb}
use tiny_lsm.Buffer.{BufCrate, Crc}
use tiny_lsm.Key.{Key}
use tiny_lsm.Block.Iterator
use tiny_lsm.Block.Iterator.{BlockIterator, create_and_seek_to_first, create_and_seek_to_key}
use tiny_lsm.Table.Sst.{SsTable, num_of_blocks, read_block, find_block_idx}

pub record SsTableIterator : Type 0 where
  pub table : SsTable
  pub blk_iter : BlockIterator
  pub blk_idx : ℕ

-- A read through the block cache gives what `read_block` gave: the cache is left out.
module _ (buf : BufCrate) (crc : Crc) where
  unfoldable pub seek_to_first_inner : SsTable → Option (ℕ × BlockIterator)
  seek_to_first_inner table = do
    block ← read_block crc table 0
    blk_iter ← create_and_seek_to_first buf block
    some (0, blk_iter)

  unfoldable pub open_first : SsTable → Option SsTableIterator
  unfolding seek_to_first_inner
  open_first table = do
    found ← seek_to_first_inner table
    some (record { table = table; blk_iter = found.1; blk_idx = found.0 })

  unfoldable pub seek_to_first : SsTableIterator → Option SsTableIterator
  unfolding seek_to_first_inner
  seek_to_first it = do
    found ← seek_to_first_inner it.table
    some (record it { blk_idx = found.0; blk_iter = found.1 })

  -- To the first entry of the next block where the iterator of the block has ended; past the last
  -- block that iterator stays, ended.
  unfoldable pub next_block : SsTable → ℕ → BlockIterator → Option (ℕ × BlockIterator)
  next_block table blk_idx blk_iter =
      if not (Iterator.is_valid blk_iter)
      then (if ltb (blk_idx + 1) (num_of_blocks table)
          then (do
            block ← read_block crc table (blk_idx + 1)
            first ← create_and_seek_to_first buf block
            some (blk_idx + 1, first))
          else some (blk_idx + 1, blk_iter))
      else some (blk_idx, blk_iter)

  unfoldable pub seek_to_key_inner : SsTable → Key → Option (ℕ × BlockIterator)
  unfolding next_block
  seek_to_key_inner table key = do
    block ← read_block crc table (find_block_idx table key)
    blk_iter ← create_and_seek_to_key buf block key
    next_block table (find_block_idx table key) blk_iter

  unfoldable pub open_at_key : SsTable → Key → Option SsTableIterator
  unfolding seek_to_key_inner
  open_at_key table key = do
    found ← seek_to_key_inner table key
    some (record { table = table; blk_iter = found.1; blk_idx = found.0 })

  unfoldable pub seek_to_key : SsTableIterator → Key → Option SsTableIterator
  unfolding seek_to_key_inner
  seek_to_key it key = do
    found ← seek_to_key_inner it.table key
    some (record it { blk_iter = found.1; blk_idx = found.0 })

  unfoldable pub next : SsTableIterator → Option SsTableIterator
  unfolding next_block
  next it = do
    moved ← Iterator.next buf it.blk_iter
    found ← next_block it.table it.blk_idx moved
    some (record it { blk_idx = found.0; blk_iter = found.1 })

unfoldable pub key : SsTableIterator → Option Key
key it = Iterator.key it.blk_iter

unfoldable pub value : SsTableIterator → Option Bytes
value it = Iterator.value it.blk_iter

unfoldable pub is_valid : SsTableIterator → Bool
is_valid it = Iterator.is_valid it.blk_iter
