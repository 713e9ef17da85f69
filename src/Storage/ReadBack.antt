-- ===== src/Storage/ReadBack.antt =====
-- lsm_storage.rs: a get after a write.
use tiny_lsm.Common.{
  ℕ, ◌+◌, ◌<◌, ◌≡◌, inl, inr, refl, ◌∙◌, sym, subst, ap, Bool, true, false, Option, none, some,
  List, [], ◌∷◌, Bytes, arith, map, leb, ltb, guard, Bool-cases, if◌then◌else◌, some-injective,
  >>=-eq-some,
}
use tiny_lsm.Buffer.{u64_mod}
use tiny_lsm.Key.{Key, from_slice, eq, bytes_eq, is_empty_bytes}
use tiny_lsm.Key.Order.{bytes_cmp_refl}
use tiny_lsm.MemTable
use tiny_lsm.MemTable.{SkipMap, MemTable, included, find_key}
use tiny_lsm.MemTable.Bounds.{user_within}
use tiny_lsm.MemTable.Scan.{find_key-upsert}
use tiny_lsm.Table.Iterator.{SsTableIterator}
use tiny_lsm.Iterators.Streams.{total}
use tiny_lsm.Iterators.TwoMergePresents.{or_else}
use tiny_lsm.Iterators.Concat.{SstConcatIterator}
use tiny_lsm.Storage.Inner.{Env, Tree, LsmStorageInner, WriteBatchRecord, put_record, del_record}
use tiny_lsm.Storage.Write.{versioned, try_freeze, put_records, write_batch, fresh_memtable}
use tiny_lsm.Storage.Steps.{freeze-state}
use tiny_lsm.Storage.Read.{get, get_with_ts}
use tiny_lsm.Storage.Snapshots.{first_value, entries_in}
use tiny_lsm.Storage.Merged.{
  Sources, snapshot_value, snapshot_merge, l0_opened, levels_opened, get_iter_steps,
}
use tiny_lsm.Storage.Finds.{AllNoneBelow, snapshot_value-NoneBelow, NoneBelow_of_found}
use tiny_lsm.Storage.GetsAt.{get_with_ts-find_key}

-- What a record writes to a key; a deletion writes an empty value.
abbrev pub record_value : Bytes → WriteBatchRecord → Option Bytes
record_value key (put_record k v) = if bytes_eq k key then some v else none
record_value key (del_record k) = if bytes_eq k key then some [] else none

-- What a batch, the oldest record first, writes to a key in the end.
abbrev pub batch_value : Bytes → List WriteBatchRecord → Option Bytes
batch_value key [] = none
batch_value key (r ∷ batch) = or_else (batch_value key batch) (record_value key r)

or_else_assoc : (a b c : Option Bytes) → or_else (or_else a b) c ≡ or_else a (or_else b c)
or_else_assoc none b c = refl
or_else_assoc (some v) b c = refl

or_else-left : (a b c : Option Bytes) (v : Bytes) → a ≡ some v → or_else (or_else a b) c ≡ some v
or_else-left a b c v h = rw h refl

eq_at : (k key : Bytes) (ts : ℕ) → eq (from_slice k ts) (from_slice key ts) ≡ bytes_eq k key
unfolding eq
eq_at k key ts = ground arith

module _ (env : Env) where
  open env use {skip, buf, hasher}
  open skip use {iter}

  found-put :
      (m : MemTable skip.Map) (r : WriteBatchRecord) (key : Bytes) (ts : ℕ)
      → find_key
          (from_slice key ts)
          (iter (skip.insert m.map (versioned ts r).0 (versioned ts r).1))
        ≡ or_else (record_value key r) (find_key (from_slice key ts) (iter m.map))
  unfolding versioned
  found-put m (put_record k v) key ts = rw (skip.iter-insert m.map (from_slice k ts) v) (
      find_key-upsert (from_slice k ts) (from_slice key ts) v (iter m.map)
      ∙ rw (eq_at k key ts) (ground arith))
  found-put m (del_record k) key ts = rw (skip.iter-insert m.map (from_slice k ts) []) (
      find_key-upsert (from_slice k ts) (from_slice key ts) [] (iter m.map)
      ∙ rw (eq_at k key ts) (ground arith))

  -- The batch is in the memtable.
  found-put_batch :
      (m : MemTable skip.Map) (batch : List WriteBatchRecord) (key : Bytes) (ts : ℕ)
      → find_key
          (from_slice key ts)
          (iter (MemTable.put_batch skip buf hasher m (map (versioned ts) batch)).map)
        ≡ or_else (batch_value key batch) (find_key (from_slice key ts) (iter m.map))
  unfolding MemTable.put_batch MemTable.put
  found-put_batch m [] key ts = refl
  found-put_batch m (r ∷ batch) key ts =
      found-put_batch (MemTable.put skip buf hasher m (versioned ts r).0 (versioned ts r).1) batch
        key ts
      ∙ ap (or_else (batch_value key batch)) (found-put m r key ts)
      ∙ sym (or_else_assoc (batch_value key batch) (record_value key r) _)

  -- What the memtable, or else the frozen ones, have for a key.
  abbrev in_memtables : Tree env → Key → Option Bytes
  in_memtables s k = first_value env k (s.memtable ∷ s.imm_memtables)

  fresh-none :
      (wal : Bool) (id : ℕ) (k : Key) → find_key k (iter (fresh_memtable env wal id).map) ≡ none
  unfolding MemTable.create_with_wal MemTable.create find_key
  fresh-none true id k = rw skip.iter-new_map refl
  fresh-none false id k = rw skip.iter-new_map refl

  -- A freeze keeps it.
  try_freeze-in_memtables :
      (inner inner' : LsmStorageInner env) (k : Key)
      → try_freeze env inner ≡ some inner'
      → in_memtables inner'.state k ≡ in_memtables inner.state k
  unfolding try_freeze
  try_freeze-in_memtables inner inner' k h =
      elim (Bool-cases (leb inner.options.target_sst_size inner.state.memtable.approximate_size)) [
        | inl full ↦
            ap (λ s. in_memtables s k) (freeze-state env inner inner' (rw full at h))
            ∙ ap (λ v. or_else v (in_memtables inner.state k))
                (fresh-none inner.options.enable_wal inner.next_sst_id k)
        | inr room ↦
            ap (λ (x : LsmStorageInner env). in_memtables x.state k)
              (sym (some-injective _ _ (rw room at h)))
      ]

  -- After a batch the memtables have at the new timestamp what it wrote.
  pub write_batch-in_memtables :
      (inner inner' : LsmStorageInner env) (batch : List WriteBatchRecord) (key v : Bytes)
      → write_batch env inner batch ≡ some inner'
      → batch_value key batch ≡ some v
      → in_memtables inner'.state (from_slice key inner'.commit_ts) ≡ some v
  unfolding write_batch
  write_batch-in_memtables inner inner' batch key v h wrote =
      let ts = inner.commit_ts + 1 in
      let (u, g, rest) = >>=-eq-some (guard (ltb ts u64_mod)) _ h in
      let (frozen, tried, made) =
        >>=-eq-some (try_freeze env (put_records env inner ts batch)) _ rest in
      subst
        (λ (x : LsmStorageInner env). in_memtables x.state (from_slice key x.commit_ts) ≡ some v)
        (some-injective _ _ made)
        (try_freeze-in_memtables (put_records env inner ts batch) frozen (from_slice key ts) tried
          ∙ ap (λ w. or_else w (first_value env (from_slice key ts) inner.state.imm_memtables))
              (found-put_batch inner.state.memtable batch key ts)
          ∙ or_else-left (batch_value key batch) _ _ v wrote)

  module _ (fuel : ℕ) where
    -- A get at a timestamp at which the snapshot has a version gives its value.
    get_with_ts-snapshot_value :
        (inner : LsmStorageInner env) (key : Bytes) (ts : ℕ) (v : Bytes)
        (l0_iters : List SsTableIterator) (level_iters : List SstConcatIterator)
        → l0_opened env fuel inner key ≡ some l0_iters
        → levels_opened env fuel inner key ≡ some level_iters
        → (src : Sources env fuel inner.state l0_iters level_iters) → AllNoneBelow key src.l0
        → AllNoneBelow key src.levels
        → entries_in env (inner.state.memtable ∷ inner.state.imm_memtables)
            + total src.l0
            + total src.levels
          < fuel
        → snapshot_value env fuel inner.state src.l0 src.levels
            (included key)
            (included key)
            (from_slice key ts)
          ≡ some v
        → get_with_ts env fuel inner key ts ≡ some (if is_empty_bytes v then none else some v)
    get_with_ts-snapshot_value inner key ts v l0_iters level_iters h g src from_l0 from_levels
          enough has =
        let (iter, es, made, yields, up, few, finds) =
          snapshot_merge env fuel inner.state (included key) (included key) l0_iters level_iters
            src in
        get_with_ts-find_key ts key env fuel inner iter es v
          (get_iter_steps env fuel inner key l0_iters level_iters h g ∙ made)
          (omega (arith, few, enough)) yields up
          (NoneBelow_of_found key es up (λ k w at.
            snapshot_value-NoneBelow key env fuel inner.state src.l0 src.levels k w from_l0
              from_levels (sym (finds k) ∙ at)))
          (finds (from_slice key ts) ∙ has)

    user_within_same : (key : Bytes) → user_within (included key) (included key) key ≡ true
    unfolding user_within
    user_within_same key = rw (bytes_cmp_refl key) refl

    -- A get of a key right after a batch that writes it gives the value of the batch's last record for the
    -- key, and no value where that is a deletion or an empty value, whether the batch has filled the
    -- memtable and it was frozen or not, and whatever older versions the memtables, the tables of L0 and
    -- the levels have. This is where the get opens its iterators, which yield entries with growing keys,
    -- those of the tables none of a user key below; where the maps of the memtables iterate in the order
    -- of their keys, which are not empty; and where the fuel is more than all entries.
    pub get-write_batch :
        (inner inner' : LsmStorageInner env) (batch : List WriteBatchRecord) (key v : Bytes)
        (l0_iters : List SsTableIterator) (level_iters : List SstConcatIterator)
        → write_batch env inner batch ≡ some inner'
        → batch_value key batch ≡ some v
        → l0_opened env fuel inner' key ≡ some l0_iters
        → levels_opened env fuel inner' key ≡ some level_iters
        → (src : Sources env fuel inner'.state l0_iters level_iters) → AllNoneBelow key src.l0
        → AllNoneBelow key src.levels
        → entries_in env (inner'.state.memtable ∷ inner'.state.imm_memtables)
            + total src.l0
            + total src.levels
          < fuel
        → get env fuel inner' key ≡ some (if is_empty_bytes v then none else some v)
    unfolding get
    get-write_batch inner inner' batch key v l0_iters level_iters h wrote o0 o1 src from_l0
          from_levels enough =
        get_with_ts-snapshot_value inner' key inner'.commit_ts v l0_iters level_iters o0 o1 src
          from_l0 from_levels enough
          (rw (user_within_same key)
            (rw (write_batch-in_memtables inner inner' batch key v h wrote) refl))
