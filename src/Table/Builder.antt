-- ===== src/Table/Builder.antt =====
-- table/builder.rs: a table is built from entries in the order of their keys.
use tiny_lsm.Common.{
  ℕ, ◌%◌, max, Option, some, List, [], ◌∷◌, ◌++◌, Bytes, length, ◌>>=◌, if◌then◌else◌,
}
use tiny_lsm.Buffer.{u32_mod, to_be32, BufCrate, Crc}
use tiny_lsm.Key.{Key, new, is_empty}
use tiny_lsm.Block
use tiny_lsm.Block.Builder
use tiny_lsm.Block.Builder.{BlockBuilder, new_builder, no_entries}
use tiny_lsm.Table.Bloom
use tiny_lsm.Table.Bloom.{Bloom, build_from_key_hashes}
use tiny_lsm.Table.Sst.{BlockMeta, SsTable, encode_block_meta}

-- The hash functions of the crate `farmhash`, and the two computations on `f64` of the Bloom filter:
-- `bloom_bits_per_key(entries, 0.01)` and the number of probes before it is clamped.
pub record Hashes : Type 0 where
  pub fingerprint32 : Bytes → ℕ
  pub hash32 : Bytes → ℕ
  pub bits_per_key : ℕ → ℕ
  pub scaled : ℕ → ℕ

pub record SsTableBuilder : Type 0 where
  pub builder : BlockBuilder
  pub first_key : Key
  pub last_key : Key
  pub data_bytes : Bytes
  pub meta : List BlockMeta
  pub block_size : ℕ
  pub key_hashes : List ℕ
  pub max_ts : ℕ

-- `SsTableBuilder::new`
unfoldable pub new_table : ℕ → SsTableBuilder
new_table block_size = record {
  builder = new_builder block_size;
  first_key = new;
  last_key = new;
  data_bytes = [];
  meta = [];
  block_size = block_size;
  key_hashes = [];
  max_ts = 0;
}

abbrev pub estimated_size : SsTableBuilder → ℕ
estimated_size b = length b.data_bytes

module _ (buf : BufCrate) (crc : Crc) (hashes : Hashes) where
  open hashes use {fingerprint32, bits_per_key, scaled}

  -- The block under construction goes to the data with its checksum, and its keys to the metadata.
  unfoldable pub finish_block : SsTableBuilder → BlockBuilder → SsTableBuilder
  unfolding Block.encode
  finish_block b old =
      let encoded_block = Block.encode buf crc (Builder.build old) in
      record b {
        meta =
            b.meta
            ++ (record {
              offset = length b.data_bytes;
              first_key = old.first_key;
              last_key = b.last_key;
            })
              ∷ [];
        data_bytes = (b.data_bytes ++ encoded_block) ++ to_be32 (crc.hash encoded_block);
      }

  -- The fields that `add` sets before the block takes the entry.
  unfoldable pub note_key : SsTableBuilder → Key → SsTableBuilder
  note_key b key = record b {
    max_ts = max b.max_ts key.ts;
    key_hashes = b.key_hashes ++ fingerprint32 key.bytes ∷ [];
    first_key = if is_empty b.first_key then key else b.first_key;
  }

  -- `SsTableBuilder::add`: a full block is finished, and the entry goes to a new one.
  unfoldable pub add : SsTableBuilder → Key → Bytes → Option SsTableBuilder
  unfolding finish_block note_key Builder.add
  add b key value = do
    added ← Builder.add buf b.builder key value
    if added.1 then some (record (note_key b key) { builder = added.0; last_key = key }) else (do
      first ← Builder.add buf (new_builder b.block_size) key value
      some (record (finish_block (note_key b key) b.builder) { builder = first.0; last_key = key }))

  -- The block under construction, if it has an entry.
  abbrev pub finish_last : SsTableBuilder → SsTableBuilder
  finish_last b = if no_entries b.builder.offsets then b else finish_block b b.builder

  -- What follows the blocks: the metadata, its offset, the filter with its length, and its offset.
  unfoldable pub tail_bytes : Bytes → List BlockMeta → Bloom → Bytes
  unfolding encode_block_meta Bloom.encode
  tail_bytes blocks meta bloom =
      let with_meta = (blocks ++ encode_block_meta crc meta) ++ to_be32 (length blocks % u32_mod) in
      let encoded_bloom = Bloom.encode buf crc bloom in
      ((with_meta ++ to_be32 (length encoded_bloom % u32_mod)) ++ encoded_bloom)
      ++ to_be32 (length with_meta % u32_mod)

  -- `SsTableBuilder::build`
  unfoldable pub build : SsTableBuilder → ℕ → Option SsTable
  unfolding tail_bytes finish_block build_from_key_hashes
  build b id = do
    let done = finish_last b
    bloom ← build_from_key_hashes scaled b.key_hashes (bits_per_key (length b.key_hashes))
    some (record {
      file = tail_bytes done.data_bytes done.meta bloom;
      block_meta = done.meta;
      block_meta_offset = length done.data_bytes;
      id = id;
      first_key = b.first_key;
      last_key = b.last_key;
      bloom = some bloom;
      max_ts = b.max_ts;
    })
