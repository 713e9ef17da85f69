-- ===== src/Block/Iterator.antt =====
-- block/iterator.rs: a cursor over the entries of a block.
use tiny_lsm.Common.{
  ℕ, zero, suc, ◌+◌, ◌/◌, Bool, true, false, not, Option, none, some, Bytes, length, drop,
  get_elem?, ◌>>=◌, ◌>>◌, guard, slice, ltb, Ordering,
}
use tiny_lsm.Buffer.{sizeof_u16, BufCrate}
use tiny_lsm.Key.{Key, new, is_empty, clear, append, set_ts, sizeof_u64, cmp}
use tiny_lsm.Block.{Block, get_first_key}

pub record BlockIterator : Type 0 where
  pub block : Block
  pub key : Key
  pub value_start : ℕ
  pub value_end : ℕ
  pub idx : ℕ
  pub first_key : Key

-- `key`, `value` and `is_valid`; the first two assert that the iterator is valid.
unfoldable pub is_valid : BlockIterator → Bool
is_valid it = not (is_empty it.key)

unfoldable pub key : BlockIterator → Option Key
unfolding is_valid
key it = do guard (is_valid it); some it.key

unfoldable pub value : BlockIterator → Option Bytes
unfolding is_valid
value it = do guard (is_valid it); slice it.block.bytes it.value_start it.value_end

module _ (buf : BufCrate) where
  open buf use {get_u16, get_u64}

  -- `BlockIterator::new`
  unfoldable pub create : Block → Option BlockIterator
  create block = do
    first_key ← get_first_key buf block
    some (record {
      block = block;
      key = new;
      value_start = 0;
      value_end = 0;
      idx = 0;
      first_key = first_key;
    })

  unfoldable pub seek_to_offset : BlockIterator → ℕ → Option BlockIterator
  seek_to_offset it offset = do
    entry ← slice it.block.bytes offset (length it.block.bytes)
    overlap_len ← get_u16 entry
    key_suffix_len ← get_u16 overlap_len.1
    key_suffix ← slice key_suffix_len.1 0 key_suffix_len.0
    prefix ← slice it.first_key.bytes 0 overlap_len.0
    ts ← get_u64 (drop key_suffix_len.0 key_suffix_len.1)
    value_len ← get_u16 ts.1
    let value_offset_begin =
        offset + sizeof_u16 + sizeof_u16 + key_suffix_len.0 + sizeof_u64 + sizeof_u16
    some (record it {
      key = set_ts (append (append (clear it.key) prefix) key_suffix) ts.0;
      value_start = value_offset_begin;
      value_end = value_offset_begin + value_len.0;
    })

  -- Past the last entry the key is cleared, and `idx` stays.
  unfoldable pub seek_to : BlockIterator → ℕ → Option BlockIterator
  unfolding seek_to_offset
  seek_to it idx = elim (get_elem? it.block.offsets idx) [
    | none ↦ some (record it { key = clear it.key; value_start = 0; value_end = 0 })
    | some offset ↦ (do moved ← seek_to_offset it offset; some (record moved { idx = idx }))
  ]

  unfoldable pub seek_to_first : BlockIterator → Option BlockIterator
  seek_to_first it = seek_to it 0

  unfoldable pub next : BlockIterator → Option BlockIterator
  next it = seek_to (record it { idx = it.idx + 1 }) (it.idx + 1)

  -- The `while` of `seek_to_key`, which halves the range from `start` to `end`.
  unfoldable pub seek_loop : ℕ → BlockIterator → Key → ℕ → ℕ → Option BlockIterator
  seek_loop zero it target start end = none
  seek_loop (suc fuel) it target start end = elim (ltb start end) [
    | true ↦ (do
      let mid = (start + end) / 2
      at_mid ← seek_to it mid
      mid_key ← key at_mid
      elim (cmp mid_key target) [
        | Ordering.lt ↦ seek_loop fuel at_mid target (mid + 1) end
        | Ordering.gt ↦ seek_loop fuel at_mid target start mid
        | Ordering.eq ↦ some at_mid
      ])
    | false ↦ seek_to it start
  ]

  -- A round for each entry is more than enough.
  unfoldable pub seek_to_key : BlockIterator → Key → Option BlockIterator
  seek_to_key it target =
      seek_loop (suc (length it.block.offsets)) it target 0 (length it.block.offsets)

  unfoldable pub create_and_seek_to_first : Block → Option BlockIterator
  create_and_seek_to_first block = do it ← create block; seek_to_first it

  unfoldable pub create_and_seek_to_key : Block → Key → Option BlockIterator
  create_and_seek_to_key block target = do it ← create block; seek_to_key it target
