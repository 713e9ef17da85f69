-- ===== src/Block/Builder.antt =====
-- block/builder.rs: entries are appended with the length of the prefix that their key shares with
-- the first key of the block, the rest of the key, the timestamp and the value.
use tiny_lsm.Common.{
  ℕ, suc, ◌+◌, ◌-◌, ◌*◌, ◌%◌, Bool, true, false, not, ◌&&◌, Option, some, List, [], ◌∷◌, ◌++◌,
  Bytes, length, drop, ◌>>◌, guard, ltb, ◌==◌, if◌then◌else◌,
}
use tiny_lsm.Buffer.{u16_mod, sizeof_u16, BufCrate}
use tiny_lsm.Key.{Key, new, is_empty, key_len, raw_len}
use tiny_lsm.Block.{Block}

pub record BlockBuilder : Type 0 where
  pub offsets : List ℕ
  pub bytes : Bytes
  pub block_size : ℕ
  pub first_key : Key

-- `zip`, `take_while` and `count` over the two keys.
unfoldable pub compute_overlap : Bytes → Bytes → ℕ
compute_overlap [] key = 0
compute_overlap (a ∷ first) [] = 0
compute_overlap (a ∷ first) (b ∷ key) = if a == b then suc (compute_overlap first key) else 0

-- `BlockBuilder::new`
abbrev pub new_builder : ℕ → BlockBuilder
new_builder block_size = record {
  offsets = [];
  bytes = [];
  block_size = block_size;
  first_key = new;
}

-- `BlockBuilder::is_empty`
abbrev pub no_entries : List ℕ → Bool
no_entries [] = true
no_entries (o ∷ os) = false

unfoldable pub estimated_size : BlockBuilder → ℕ
estimated_size b = sizeof_u16 + length b.offsets * sizeof_u16 + length b.bytes

-- The test by which `add` refuses an entry.
unfoldable pub is_full : BlockBuilder → Key → Bytes → Bool
unfolding estimated_size
is_full b key value =
    ltb b.block_size (estimated_size b + raw_len key + length value + sizeof_u16 * 3)
    && not (no_entries b.offsets)

abbrev pub build : BlockBuilder → Block
build b = record { bytes = b.bytes; offsets = b.offsets }

module _ (buf : BufCrate) where
  open buf use {put_u16, put_u64}

  -- What `add` appends for an entry with this overlap.
  unfoldable pub put_entry : ℕ → Key → Bytes → Bytes
  put_entry overlap key value =
      put_u16 (overlap % u16_mod)
      ++ (put_u16 ((key_len key - overlap) % u16_mod)
          ++ (drop overlap key.bytes
              ++ (put_u64 key.ts ++ (put_u16 (length value % u16_mod) ++ value))))

  -- The builder after an entry that is not refused.
  unfoldable pub push_entry : BlockBuilder → Key → Bytes → BlockBuilder
  unfolding compute_overlap put_entry
  push_entry b key value = record b {
    offsets = b.offsets ++ (length b.bytes % u16_mod) ∷ [];
    bytes = b.bytes ++ put_entry (compute_overlap b.first_key.bytes key.bytes) key value;
    first_key = if is_empty b.first_key then key else b.first_key;
  }

  -- `BlockBuilder::add`: false is a full block. An empty key panics.
  unfoldable pub add : BlockBuilder → Key → Bytes → Option (BlockBuilder × Bool)
  unfolding is_full push_entry
  add b key value = do
    guard (not (is_empty key))
    some (if is_full b key value then (b, false) else (push_entry b key value, true))
