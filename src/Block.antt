-- ===== src/Block.antt =====
-- block.rs: a block of entries and its encoding. `Builder` is block/builder.rs, `Iterator` is
-- block/iterator.rs; the proofs are in `Codec`, `Entries` and `Seek`.
pub mod Builder
pub mod Iterator
pub mod Codec
pub mod Entries
pub mod Seek
pub mod Scan
pub mod Bounds
pub mod Persist
pub mod Search
use tiny_lsm.Common.{
  ℕ, ◌+◌, ◌*◌, ◌-◌, ◌%◌, Option, none, some, List, [], ◌∷◌, ◌++◌, Bytes, length, take, drop, ◌>>=◌,
  ◌>>◌, checked_sub, slice,
}
use tiny_lsm.Buffer.{u16_mod, sizeof_u16, sizeof_u32, split_be16, split_be32, BufCrate, Crc}
use tiny_lsm.Key.{Key, from_slice}

-- `data` and `offsets`
pub record Block : Type 0 where
  pub bytes : Bytes
  pub offsets : List ℕ

-- The bytes of `tmp` as pairs. `tmp[i + 1]` panics on a single byte.
unfoldable pub decode_offsets : Bytes → Option (List ℕ)
decode_offsets [] = some []
decode_offsets (a ∷ []) = none
decode_offsets (a ∷ b ∷ rest) = do offsets ← decode_offsets rest; some ((a * 0x100 + b) ∷ offsets)

-- `Block::decode`. The checksum in the encoding is read and not compared.
unfoldable pub decode : Bytes → Option Block
unfolding decode_offsets
decode encoded = do
  offset_end ← checked_sub (length encoded) sizeof_u16
  count_word ← slice encoded offset_end (length encoded)
  num_entries ← split_be16 count_word
  offset_start ← checked_sub offset_end (2 * num_entries.0)
  tmp ← slice encoded offset_start offset_end
  offsets ← decode_offsets tmp
  checksum_start ← checked_sub offset_start sizeof_u32
  checksum_word ← slice encoded checksum_start offset_start
  checksum ← split_be32 checksum_word
  body ← slice encoded 0 checksum_start
  some (record { bytes = body; offsets = offsets })

module _ (buf : BufCrate) where
  open buf use {put_u16, put_u32, get_u16, get_u64}

  unfoldable pub put_offsets : List ℕ → Bytes
  put_offsets [] = []
  put_offsets (offset ∷ offsets) = put_u16 offset ++ put_offsets offsets

  -- `Block::encode`: the data, its checksum, the offsets and their number.
  unfoldable pub encode : Crc → Block → Bytes
  unfolding put_offsets
  encode crc b =
      b.bytes
      ++ (put_u32 (crc.hash b.bytes)
          ++ (put_offsets b.offsets ++ put_u16 (length b.offsets % u16_mod)))

  -- `Block::get_first_key`: the first two bytes are the overlap of the first entry, which is skipped.
  unfoldable pub get_first_key : Block → Option Key
  get_first_key b = do
    overlap ← get_u16 b.bytes
    key_len ← get_u16 overlap.1
    key ← slice key_len.1 0 key_len.0
    ts ← get_u64 (drop key_len.0 key_len.1)
    some (from_slice key ts.0)
