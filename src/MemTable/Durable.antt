-- ===== src/MemTable/Durable.antt =====
-- A memtable is rebuilt from its log.
use tiny_lsm.Common.{ℕ, ◌≡◌, refl, some, Bytes, List, [], ◌∷◌}
use tiny_lsm.Buffer.{BufCrate, Hasher}
use tiny_lsm.Key.{Key}
use tiny_lsm.Wal
use tiny_lsm.Wal.Recovery.{AllFitLog, put_all, insert_all, recover-put_all}
use tiny_lsm.MemTable.{
  MemTable, SkipMap, create_with_wal, put, put_batch, recover_from_wal, sum_sizes,
}

module _ (skip : SkipMap) (buf : BufCrate) (hasher : Hasher) where
  open skip use {Map, new_map, insert, iter}

  put_batch-wal :
      (table : MemTable Map) (file : Bytes) (es : List (Key × Bytes))
      → table.wal ≡ some file
      → (put_batch skip buf hasher table es).wal ≡ some (put_all buf hasher file es)
  unfolding put_batch put put_all
  put_batch-wal table file [] h = h
  put_batch-wal table file ((k, v) ∷ es) h =
      put_batch-wal (put skip buf hasher table k v) (Wal.put buf hasher file k v) es (rw h refl)

  put_batch-map :
      (table : MemTable Map) (es : List (Key × Bytes))
      → (put_batch skip buf hasher table es).map ≡ insert_all buf hasher Map insert table.map es
  unfolding put_batch put insert_all
  put_batch-map table [] = refl
  put_batch-map table ((k, v) ∷ es) = put_batch-map (put skip buf hasher table k v) es

  -- A memtable that was made with a log and filled by `put` has a log from which `recover_from_wal`
  -- gives, without a panic, a memtable with the same id, the same map and the same log, whose size is
  -- that of the entries of the map, where each key and value has less than 65536 bytes and each
  -- timestamp fits in 64 bits.
  pub recover_from_wal-put_batch :
      (id : ℕ) (es : List (Key × Bytes))
      → AllFitLog es
      → let table = put_batch skip buf hasher (create_with_wal skip buf hasher id) es in
        (file : Bytes) × (table.wal ≡ some file)
        × (recover_from_wal skip buf hasher id file
            ≡ some (record {
              map = table.map;
              wal = table.wal;
              id = id;
              approximate_size = sum_sizes (iter table.map);
            }))
  unfolding recover_from_wal create_with_wal
  recover_from_wal-put_batch id es fits = (
    put_all buf hasher [] es,
    put_batch-wal (create_with_wal skip buf hasher id) [] es refl,
    rw
        (
          recover-put_all buf hasher Map insert es new_map fits,
          put_batch-wal (create_with_wal skip buf hasher id) [] es refl,
          put_batch-map (create_with_wal skip buf hasher id) es,
        )
        refl,
  )
