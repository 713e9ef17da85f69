-- ===== src/Wal.antt =====
-- wal.rs: the write-ahead log, as the bytes of its file.
pub mod Recovery
use tiny_lsm.Common.{
  ℕ, zero, suc, ◌+◌, ◌%◌, ◌≡◌, Bool, true, false, Option, none, some, List, [], ◌∷◌, ◌++◌, Bytes,
  length, drop, ◌>>=◌, ◌>>◌, guard, slice, ◌==◌,
}
use tiny_lsm.Buffer.{u16_mod, BufCrate, Hasher}
use tiny_lsm.Key.{Key, from_slice}

module _ (buf : BufCrate) (hasher : Hasher) where
  open buf use {put_u16, put_u32, put_u64, get_u16, get_u32, get_u64}
  open hasher use {State, init, write, write_u16, write_u64, finalize}

  -- The checksum of a record, over the writes that `put` and `recover` both make.
  unfoldable pub checksum : ℕ → Bytes → ℕ → ℕ → Bytes → ℕ
  checksum key_len key ts value_len value =
      finalize
        (write (write_u16 (write_u64 (write (write_u16 init key_len) key) ts) value_len) value)

  -- The buffer that `Wal::put` writes.
  unfoldable pub put_record : Key → Bytes → Bytes
  unfolding checksum
  put_record key value =
      put_u16 (length key.bytes % u16_mod)
      ++ (key.bytes
          ++ (put_u64 key.ts
              ++ (put_u16 (length value % u16_mod)
                  ++ (value
                      ++ put_u32 (
                          checksum (length key.bytes % u16_mod) key.bytes key.ts
                            (length value % u16_mod) value)))))

  -- `Wal::put`: the record goes to the end of the file.
  unfoldable pub put : Bytes → Key → Bytes → Bytes
  unfolding put_record
  put file key value = file ++ put_record key value

  module _ (M : Type 0) (insert : M → Key → Bytes → M) where
    -- One round of `Wal::recover`: a record is read, checked and inserted. A record that is cut
    -- short and a checksum that differs panic.
    unfoldable pub recover_record : Bytes → M → Option (Bytes × M)
    unfolding checksum
    recover_record bytes map = do
      key_len ← get_u16 bytes
      key ← slice key_len.1 0 key_len.0
      ts ← get_u64 (drop key_len.0 key_len.1)
      value_len ← get_u16 ts.1
      value ← slice value_len.1 0 value_len.0
      sum ← get_u32 (drop value_len.0 value_len.1)
      guard (checksum key_len.0 key ts.0 value_len.0 value == sum.0)
      some (sum.1, insert map (from_slice key ts.0) value)

    -- The loop of `Wal::recover`, `while !data.is_empty()`.
    unfoldable pub recover_loop : ℕ → Bytes → M → Option M
    unfolding recover_record
    recover_loop fuel [] map = some map
    recover_loop zero (b ∷ bytes) map = none
    recover_loop (suc fuel) (b ∷ bytes) map = do
      rest ← recover_record (b ∷ bytes) map
      recover_loop fuel rest.0 rest.1

    -- `Wal::recover`. A record takes at least one byte, so the length of the file is enough fuel.
    unfoldable pub recover : Bytes → M → Option M
    unfolding recover_loop
    recover file map = recover_loop (length file) file map
