-- ===== src/Storage/Steps.antt =====
-- What the threads of a store do to its tree, as steps: writes, freezes and flushes.
use tiny_lsm.Common.{
  ℕ, ◌+◌, ◌%◌, ◌≤◌, ◌<◌, ◌≡◌, inl, inr, refl, ◌∙◌, sym, subst, ap, Bool, true, false, some, List,
  [], ◌∷◌, Bytes, map, arith, count, count-append, Bool-cases, >>=-eq-some, ==_iff, ◌==◌,
  if◌then◌else◌, some-injective, guard, ltb, leb,
}
use tiny_lsm.Buffer.{u64_mod, BufCrate, Hasher}
use tiny_lsm.Key.{Key}
use tiny_lsm.MemTable
use tiny_lsm.MemTable.{SkipMap, MemTable}
use tiny_lsm.Table.Sst.{SsTable}
use tiny_lsm.Compact.Task.{flush_to_l0}
use tiny_lsm.Storage.State.{insert, files, level_files}
use tiny_lsm.Storage.Inner.{
  Env, Tree, LsmStorageOptions, LsmStorageInner, WriteBatchRecord, take_sst_id, new_memtable,
  flush_record,
}
use tiny_lsm.Storage.Write.{
  versioned, fresh_memtable, force_freeze_memtable, try_freeze, put_records, write_batch,
  last_memtable, without_last, add_flushed, publish_flush,
}
use tiny_lsm.Storage.Open.{create_store}
use tiny_lsm.Storage.WellFormed.{memtable_ids, live_ids, IsWellFormed}

put_batch-id :
    (skip : SkipMap) (buf : BufCrate) (hasher : Hasher) (m : MemTable skip.Map)
    (batch : List (Key × Bytes))
    → (MemTable.put_batch skip buf hasher m batch).id ≡ m.id
unfolding MemTable.put_batch MemTable.put
put_batch-id skip buf hasher m [] = refl
put_batch-id skip buf hasher m ((k, v) ∷ batch) =
    put_batch-id skip buf hasher (MemTable.put skip buf hasher m k v) batch

module _ (env : Env) where
  -- The steps. The counter of ids has not reached its end; a flush writes a table for the memtable that
  -- was the oldest when it began, whatever has happened since.
  pub data Step (inner : LsmStorageInner env) : LsmStorageInner env → Type 0 where
    wrote :
        (batch : List WriteBatchRecord) (inner' : LsmStorageInner env)
        → inner.next_sst_id + 1 < u64_mod
        → write_batch env inner batch ≡ some inner'
        → Step inner inner'
    froze :
        (inner' : LsmStorageInner env)
        → inner.next_sst_id + 1 < u64_mod
        → force_freeze_memtable env inner ≡ some inner'
        → Step inner inner'
    flushed :
        (table : SsTable) (inner' : LsmStorageInner env)
        → publish_flush env inner table ≡ some inner'
        → Step inner inner'

  -- The stores that come from a new one.
  pub data Reach : LsmStorageInner env → Type 0 where
    start :
        (options : LsmStorageOptions) (inner : LsmStorageInner env)
        → create_store env options ≡ some inner
        → Reach inner
    later : (inner inner' : LsmStorageInner env) → Reach inner → Step inner inner' → Reach inner'

  mod_small : (n : ℕ) → n < u64_mod → n % u64_mod ≡ n
  mod_small n h = omega arith

  -- The state after a freeze
  abbrev pub frozen_state : LsmStorageInner env → Tree env
  frozen_state inner = record inner.state {
    memtable = fresh_memtable env inner.options.enable_wal inner.next_sst_id;
    imm_memtables = inner.state.memtable ∷ inner.state.imm_memtables;
  }

  pub freeze-state :
      (inner inner' : LsmStorageInner env)
      → force_freeze_memtable env inner ≡ some inner'
      → inner'.state ≡ frozen_state inner
  unfolding force_freeze_memtable take_sst_id
  freeze-state inner inner' h =
      let (log, logged, made) =
        >>=-eq-some (env.manifest.add_record inner.log (new_memtable inner.next_sst_id)) _ h in
      ap (λ (x : LsmStorageInner env). x.state) (sym (some-injective _ _ made))

  freeze_lem :
      (inner inner' : LsmStorageInner env)
      → inner.next_sst_id + 1 < u64_mod
      → force_freeze_memtable env inner ≡ some inner'
      → (inner'.state ≡ frozen_state inner) × (inner'.next_sst_id ≡ inner.next_sst_id + 1)
  unfolding force_freeze_memtable take_sst_id
  freeze_lem inner inner' small h =
      let (log, logged, made) =
        >>=-eq-some (env.manifest.add_record inner.log (new_memtable inner.next_sst_id)) _ h in
      (
        freeze-state inner inner' h,
        ap (λ (x : LsmStorageInner env). x.next_sst_id) (sym (some-injective _ _ made))
            ∙ mod_small (inner.next_sst_id + 1) small,
      )

  fresh-id : (wal : Bool) (id : ℕ) → (fresh_memtable env wal id).id ≡ id
  unfolding MemTable.create_with_wal MemTable.create
  fresh-id true id = refl
  fresh-id false id = refl

  frozen-IsWellFormed :
      (inner : LsmStorageInner env)
      → IsWellFormed inner.state inner.next_sst_id
      → IsWellFormed (frozen_state inner) (inner.next_sst_id + 1)
  frozen-IsWellFormed inner w = record {
    owned = w.owned;
    once = λ id.
        rw (fresh-id inner.options.enable_wal inner.next_sst_id)
          (ground (arith, w.once id, w.below id, ==_iff inner.next_sst_id id));
    below = λ id h. ground (arith, ==_iff inner.next_sst_id id, w.below id, new_one id h);
  }
    where
      new_one :
          (id : ℕ)
          → 1 ≤ count id (files inner.state) + count id (live_ids (frozen_state inner))
          → 1
            ≤ count id (files inner.state)
              + ((if inner.next_sst_id == id then 1 else 0) + count id (live_ids inner.state))
      new_one id h =
          subst
            (λ x.
              1
              ≤ count id (files inner.state)
                + ((if x == id then 1 else 0) + count id (live_ids inner.state)))
            (fresh-id inner.options.enable_wal inner.next_sst_id) h

  pub force_freeze-IsWellFormed :
      (inner inner' : LsmStorageInner env)
      → IsWellFormed inner.state inner.next_sst_id
      → inner.next_sst_id + 1 < u64_mod
      → force_freeze_memtable env inner ≡ some inner'
      → IsWellFormed inner'.state inner'.next_sst_id
  force_freeze-IsWellFormed inner inner' w small h =
      let (state_is, next_is) = freeze_lem inner inner' small h in
      subst (λ n. IsWellFormed inner'.state n) (sym next_is)
        (subst (λ s. IsWellFormed s (inner.next_sst_id + 1)) (sym state_is)
          (frozen-IsWellFormed inner w))

  put_records-IsWellFormed :
      (inner : LsmStorageInner env) (ts : ℕ) (batch : List WriteBatchRecord)
      → IsWellFormed inner.state inner.next_sst_id
      → IsWellFormed (put_records env inner ts batch).state inner.next_sst_id
  put_records-IsWellFormed inner ts batch w = record {
    owned = w.owned;
    once = λ id.
        subst
          (λ x.
            count id (files inner.state)
              + ((if x == id then 1 else 0) + count id (memtable_ids inner.state.imm_memtables))
            ≤ 1)
          same (w.once id);
    below = λ id.
        subst
          (λ x.
            1
              ≤ count id (files inner.state)
                + ((if x == id then 1 else 0) + count id (memtable_ids inner.state.imm_memtables))
            → id < inner.next_sst_id)
          same (w.below id);
  }
    where
      same : inner.state.memtable.id ≡ (put_records env inner ts batch).state.memtable.id
      same =
          sym (
            put_batch-id env.skip env.buf env.hasher inner.state.memtable
              (map (versioned ts) batch))

  try_freeze-IsWellFormed :
      (inner inner' : LsmStorageInner env)
      → IsWellFormed inner.state inner.next_sst_id
      → inner.next_sst_id + 1 < u64_mod
      → try_freeze env inner ≡ some inner'
      → IsWellFormed inner'.state inner'.next_sst_id
  unfolding try_freeze
  try_freeze-IsWellFormed inner inner' w small h =
      elim (Bool-cases (leb inner.options.target_sst_size inner.state.memtable.approximate_size)) [
        | inl full ↦ force_freeze-IsWellFormed inner inner' w small (rw full at h)
        | inr room ↦
            subst (λ (x : LsmStorageInner env). IsWellFormed x.state x.next_sst_id)
              (some-injective _ _ (rw room at h)) w
      ]

  pub write_batch-IsWellFormed :
      (inner inner' : LsmStorageInner env) (batch : List WriteBatchRecord)
      → IsWellFormed inner.state inner.next_sst_id
      → inner.next_sst_id + 1 < u64_mod
      → write_batch env inner batch ≡ some inner'
      → IsWellFormed inner'.state inner'.next_sst_id
  unfolding write_batch
  write_batch-IsWellFormed inner inner' batch w small h =
      let (u, g, rest) = >>=-eq-some (guard (ltb (inner.commit_ts + 1) u64_mod)) _ h in
      let (frozen, tried, made) =
        >>=-eq-some (try_freeze env (put_records env inner (inner.commit_ts + 1) batch)) _ rest in
      subst (λ (x : LsmStorageInner env). IsWellFormed x.state x.next_sst_id)
        (some-injective _ _ made)
        (try_freeze-IsWellFormed (put_records env inner (inner.commit_ts + 1) batch) frozen
          (put_records-IsWellFormed inner (inner.commit_ts + 1) batch w) small tried)

  -- The oldest memtable leaves the others.
  pub count-last :
      (id : ℕ) (ms : List (MemTable env.skip.Map)) (m : MemTable env.skip.Map)
      → last_memtable env ms ≡ some m
      → count id (memtable_ids (without_last env ms)) + (if m.id == id then 1 else 0)
        ≡ count id (memtable_ids ms)
  count-last id [] m h = cc
  count-last id (x ∷ []) m h = let same : x ≡ m = some-injective _ _ h in rw same (omega arith)
  count-last id (x ∷ y ∷ ms) m h = omega (arith, count-last id (y ∷ ms) m h)

  count-files :
      (id : ℕ) (inner : LsmStorageInner env) (new : ℕ) (to_l0 : Bool)
      → count id (files (add_flushed env to_l0 inner new).state)
        ≡ (if new == id then 1 else 0) + count id (files inner.state)
  count-files id inner new true = refl
  count-files id inner new false = omega (
    arith,
    count-append id inner.state.l0_sstables (new ∷ level_files inner.state.levels),
    count-append id inner.state.l0_sstables (level_files inner.state.levels),
  )

  add_flushed-same :
      (inner : LsmStorageInner env) (new : ℕ) (to_l0 : Bool)
      → ((add_flushed env to_l0 inner new).state.memtable ≡ inner.state.memtable)
        × ((add_flushed env to_l0 inner new).next_sst_id ≡ inner.next_sst_id)
  add_flushed-same inner new true = (refl, refl)
  add_flushed-same inner new false = (refl, refl)

  -- The store after the second half of a flush
  pub record Published (inner inner' : LsmStorageInner env) (table : SsTable) : Type 0 where
    pub mem : MemTable env.skip.Map
    pub oldest : last_memtable env inner.state.imm_memtables ≡ some mem
    pub its_id : mem.id ≡ table.id
    pub active : inner'.state.memtable ≡ inner.state.memtable
    pub frozen : inner'.state.imm_memtables ≡ without_last env inner.state.imm_memtables
    pub tables : inner'.state.sstables ≡ insert table.id table inner.state.sstables
    pub tree :
        (id : ℕ)
        → count id (files inner'.state)
          ≡ (if table.id == id then 1 else 0) + count id (files inner.state)
    pub next_id : inner'.next_sst_id ≡ inner.next_sst_id

  pub publish_flush-Published :
      (inner inner' : LsmStorageInner env) (table : SsTable)
      → publish_flush env inner table ≡ some inner'
      → Published inner inner' table
  unfolding publish_flush
  publish_flush-Published inner inner' table h =
      let (mem, oldest, h1) = >>=-eq-some (last_memtable env inner.state.imm_memtables) _ h in
      let (u, g, h2) = >>=-eq-some (guard (mem.id == table.id)) _ h1 in
      let (log, logged, made) =
        >>=-eq-some (env.manifest.add_record inner.log (flush_record table.id)) _ h2 in
      let same = some-injective _ _ made in
      let to_l0 = flush_to_l0 inner.options.compaction_options in
      record {
        mem = mem;
        oldest = oldest;
        its_id = (==_iff mem.id table.id).0 (ground arith);
        active =
            ap (λ (x : LsmStorageInner env). x.state.memtable) (sym same)
            ∙ (add_flushed-same inner table.id to_l0).0;
        frozen = ap (λ (x : LsmStorageInner env). x.state.imm_memtables) (sym same);
        tables = ap (λ (x : LsmStorageInner env). x.state.sstables) (sym same);
        tree = λ id.
            ap (λ (x : LsmStorageInner env). count id (files x.state)) (sym same)
            ∙ count-files id inner table.id to_l0;
        next_id =
            ap (λ (x : LsmStorageInner env). x.next_sst_id) (sym same)
            ∙ (add_flushed-same inner table.id to_l0).1;
      }
