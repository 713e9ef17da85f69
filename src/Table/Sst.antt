-- ===== src/Table/Sst.antt =====
-- table.rs: the metadata of the blocks of a table, and reading a block from its file.
use tiny_lsm.Common.{
  ℕ, zero, suc, ◌+◌, ◌%◌, Option, some, List, [], ◌∷◌, ◌++◌, Bytes, length, drop, get_elem?, ◌>>=◌,
  ◌>>◌, guard, slice, checked_sub, ◌==◌, if◌then◌else◌, ltb, ◌-◌, max, none,
}
use tiny_lsm.Buffer.{u16_mod, u32_mod, to_be16, to_be32, to_be64, split_be32, BufCrate, Crc}
use tiny_lsm.Key.{Key, from_slice, cmp, is_le}
use tiny_lsm.Block
use tiny_lsm.Block.{Block}
use tiny_lsm.Table.Bloom
use tiny_lsm.Table.Bloom.{Bloom, Decoded, decoded, checksum_mismatch}

pub record BlockMeta : Type 0 where
  pub offset : ℕ
  pub first_key : Key
  pub last_key : Key

-- What `encode_block_meta` writes for one block.
unfoldable pub meta_bytes : BlockMeta → Bytes
meta_bytes bm =
    to_be32 (bm.offset % u32_mod)
    ++ (to_be16 (length bm.first_key.bytes % u16_mod)
        ++ (bm.first_key.bytes
            ++ (to_be64 bm.first_key.ts
                ++ (to_be16 (length bm.last_key.bytes % u16_mod)
                    ++ (bm.last_key.bytes ++ to_be64 bm.last_key.ts)))))

unfoldable pub metas_bytes : List BlockMeta → Bytes
unfolding meta_bytes
metas_bytes [] = []
metas_bytes (bm ∷ block_meta) = meta_bytes bm ++ metas_bytes block_meta

-- `encode_block_meta`: the bytes that it appends.
unfoldable pub encode_block_meta : Crc → List BlockMeta → Bytes
unfolding metas_bytes
encode_block_meta crc block_meta =
    let body = to_be32 (length block_meta % u32_mod) ++ metas_bytes block_meta in
    body ++ to_be32 (crc.hash body)

module _ (buf : BufCrate) where
  open buf use {get_u16, get_u32, get_u64}

  -- One round of the loop of `decode_block_meta`.
  unfoldable pub decode_meta : Bytes → Option (BlockMeta × Bytes)
  decode_meta reader = do
    block_offset ← get_u32 reader
    first_key_len ← get_u16 block_offset.1
    first_key ← slice first_key_len.1 0 first_key_len.0
    first_ts ← get_u64 (drop first_key_len.0 first_key_len.1)
    last_key_len ← get_u16 first_ts.1
    last_key ← slice last_key_len.1 0 last_key_len.0
    last_ts ← get_u64 (drop last_key_len.0 last_key_len.1)
    some (
      record {
        offset = block_offset.0;
        first_key = from_slice first_key first_ts.0;
        last_key = from_slice last_key last_ts.0;
      },
      last_ts.1,
    )

  unfoldable pub decode_metas : ℕ → Bytes → Option (List BlockMeta)
  unfolding decode_meta
  decode_metas zero reader = some []
  decode_metas (suc num_blocks) reader = do
    bm ← decode_meta reader
    rest ← decode_metas num_blocks bm.1
    some (bm.0 ∷ rest)

  -- `decode_block_meta`; a checksum that differs is an error.
  unfoldable pub decode_block_meta : Crc → Bytes → Option (List BlockMeta)
  unfolding decode_metas
  decode_block_meta crc bytes = do
    data_len ← checked_sub (length bytes) 4
    body ← slice bytes 0 data_len
    sum_bytes ← slice bytes data_len (length bytes)
    actual ← split_be32 sum_bytes
    guard (crc.hash body == actual.0)
    num_blocks ← get_u32 body
    decode_metas num_blocks.0 num_blocks.1

-- `SsTable`; the file is its bytes. The block cache is left out.
pub record SsTable : Type 0 where
  pub file : Bytes
  pub block_meta : List BlockMeta
  pub block_meta_offset : ℕ
  pub id : ℕ
  pub first_key : Key
  pub last_key : Key
  pub bloom : Option Bloom
  pub max_ts : ℕ

abbrev pub table_size : SsTable → ℕ
table_size table = length table.file

abbrev pub num_of_blocks : SsTable → ℕ
num_of_blocks table = length table.block_meta

-- Where a block ends: at the next block, or at the metadata.
unfoldable pub block_end : SsTable → ℕ → Option ℕ
block_end table block_idx =
    if ltb (block_idx + 1) (length table.block_meta)
    then (get_elem? table.block_meta (block_idx + 1) >>= λ bm. some bm.offset)
    else some table.block_meta_offset

-- `SsTable::read_block`
unfoldable pub read_block : Crc → SsTable → ℕ → Option Block
unfolding block_end Block.decode
read_block crc table block_idx = do
  bm ← get_elem? table.block_meta block_idx
  end ← block_end table block_idx
  block_len_with_checksum ← checked_sub end bm.offset
  block_len ← checked_sub block_len_with_checksum 4
  raw ← slice table.file bm.offset (bm.offset + block_len_with_checksum)
  body ← slice raw 0 block_len
  sum_bytes ← slice raw block_len (length raw)
  actual ← split_be32 sum_bytes
  guard (crc.hash body == actual.0)
  Block.decode body

-- `partition_point`, by binary search; where the keys of the blocks grow, it is the number of blocks
-- at the front whose first key is not above the key.
unfoldable pub count_front : Key → List BlockMeta → ℕ
count_front key [] = 0
count_front key (bm ∷ block_meta) =
    let rest = count_front key block_meta in if is_le (cmp bm.first_key key) then suc rest else 0

-- `SsTable::find_block_idx`
unfoldable pub find_block_idx : SsTable → Key → ℕ
unfolding count_front
find_block_idx table key = count_front key table.block_meta - 1

-- `max_ts` of `open`: of the first and the last keys of the blocks.
unfoldable pub max_of_keys : List BlockMeta → ℕ
max_of_keys [] = 0
max_of_keys (bm ∷ block_meta) = max (max bm.first_key.ts bm.last_key.ts) (max_of_keys block_meta)

-- The filter, where its checksum is right.
abbrev pub filter_of : Decoded → Option Bloom
filter_of (decoded bloom) = some bloom
filter_of checksum_mismatch = none

-- A `u32` at an offset, as `u32::from_be_bytes(bytes[at..at + 4])`
abbrev pub read_u32 : Bytes → ℕ → Option ℕ
read_u32 bytes at = do four ← slice bytes at (at + 4); n ← split_be32 four; some n.0

-- `SsTable::open`
unfoldable pub open_table : BufCrate → Crc → ℕ → Bytes → Option SsTable
unfolding decode_block_meta max_of_keys Bloom.decode
open_table buf crc id file = do
  offset_at ← checked_sub (length file) 4
  bloom_section_start ← read_u32 file offset_at
  meta_end ← checked_sub bloom_section_start 4
  block_meta_offset ← read_u32 file meta_end
  meta_part ← slice file block_meta_offset meta_end
  block_meta ← decode_block_meta buf crc meta_part
  bloom_blob ← slice file bloom_section_start offset_at
  bloom_payload_len ← read_u32 bloom_blob 0
  payload ← slice bloom_blob 4 (4 + bloom_payload_len)
  found ← Bloom.decode crc payload
  bloom ← filter_of found
  first ← get_elem? block_meta 0
  last_idx ← checked_sub (length block_meta) 1
  last ← get_elem? block_meta last_idx
  some (record {
    file = file;
    block_meta = block_meta;
    block_meta_offset = block_meta_offset;
    id = id;
    first_key = first.first_key;
    last_key = last.last_key;
    bloom = some bloom;
    max_ts = max_of_keys block_meta;
  })
