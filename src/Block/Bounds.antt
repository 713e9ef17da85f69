-- ===== src/Block/Bounds.antt =====
-- The size of a block under construction.
use tiny_lsm.Common.{
  ℕ, ◌+◌, ◌-◌, ◌%◌, ◌≤◌, ◌<◌, ◌≡◌, true, false, some, [], ◌∷◌, ◌++◌, Bytes, length, drop, arith,
  length-append, length-drop,
}
use tiny_lsm.Buffer.{u16_mod, u64_mod, BufCrate}
use tiny_lsm.Buffer.Words.{length-put_u16, length-put_u64}
use tiny_lsm.Key.{Key, raw_len}
use tiny_lsm.Block.Builder.{
  BlockBuilder, compute_overlap, put_entry, push_entry, add, is_full, no_entries, estimated_size,
}
use tiny_lsm.Block.Entries.{compute_overlap-le_key}

module _ (buf : BufCrate) where
  open buf use {put_u16, put_u64}

  length-put_entry :
      (overlap : ℕ) (k : Key) (v : Bytes)
      → overlap ≤ length k.bytes
      → k.ts < u64_mod
      → length (put_entry buf overlap k v) + overlap ≡ 14 + length k.bytes + length v
  unfolding put_entry
  length-put_entry overlap k v within small = omega (
    arith,
    length-append (put_u16 (overlap % u16_mod)) (
        put_u16 ((length k.bytes - overlap) % u16_mod)
        ++ (drop overlap k.bytes ++ (put_u64 k.ts ++ (put_u16 (length v % u16_mod) ++ v)))),
    length-append (put_u16 ((length k.bytes - overlap) % u16_mod))
        (drop overlap k.bytes ++ (put_u64 k.ts ++ (put_u16 (length v % u16_mod) ++ v))),
    length-append (drop overlap k.bytes) (put_u64 k.ts ++ (put_u16 (length v % u16_mod) ++ v)),
    length-append (put_u64 k.ts) (put_u16 (length v % u16_mod) ++ v),
    length-append (put_u16 (length v % u16_mod)) v,
    length-put_u16 buf (overlap % u16_mod) (omega arith),
    length-put_u16 buf ((length k.bytes - overlap) % u16_mod) (omega arith),
    length-put_u16 buf (length v % u16_mod) (omega arith),
    length-put_u64 buf k.ts small,
    length-drop overlap k.bytes,
  )

  -- The estimate grows by what the entry takes: its overlap is not written.
  pub estimated_size-push_entry :
      (b : BlockBuilder) (k : Key) (v : Bytes)
      → k.ts < u64_mod
      → estimated_size (push_entry buf b k v) + compute_overlap b.first_key.bytes k.bytes
        ≡ estimated_size b + raw_len k + length v + 8
  unfolding estimated_size push_entry
  estimated_size-push_entry b k v small = omega (
    arith,
    length-append b.offsets ((length b.bytes % u16_mod) ∷ []),
    length-append b.bytes (put_entry buf (compute_overlap b.first_key.bytes k.bytes) k v),
    length-put_entry (compute_overlap b.first_key.bytes k.bytes) k v
        (compute_overlap-le_key b.first_key.bytes k.bytes) small,
  )

  within_of_not_full :
      (b : BlockBuilder) (k : Key) (v : Bytes)
      → no_entries b.offsets ≡ false
      → is_full b k v ≡ false
      → estimated_size b + raw_len k + length v + 6 ≤ b.block_size
  unfolding is_full
  within_of_not_full b k v more h = ground arith

  add_accepted :
      (b c : BlockBuilder) (k : Key) (v : Bytes)
      → add buf b k v ≡ some (c, true)
      → (is_full b k v ≡ false) × (c ≡ push_entry buf b k v)
  unfolding add
  add_accepted b c k v h = ground arith

  -- An entry that is accepted by a block which holds one already keeps the estimated size within two
  -- bytes of the block size: the guard counts three of the four `u16` that an entry adds.
  pub add_bound :
      (b c : BlockBuilder) (k : Key) (v : Bytes)
      → k.ts < u64_mod
      → no_entries b.offsets ≡ false
      → add buf b k v ≡ some (c, true)
      → estimated_size c ≤ b.block_size + 2
  add_bound b c k v small more h =
      let (room, same) = add_accepted b c k v h in
      rw same
        (omega (arith, estimated_size-push_entry b k v small, within_of_not_full b k v more room))
