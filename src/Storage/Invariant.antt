-- ===== src/Storage/Invariant.antt =====
-- The invariant holds in every store that is reached by writes, freezes and flushes.
use tiny_lsm.Common.{
  ℕ, zero, suc, ◌+◌, ◌≤◌, ◌<◌, ◌≡◌, ◌⊎◌, inl, inr, refl, sym, subst, some, [], arith, count,
  Bool-cases, >>=-eq-some, ==_iff, ◌==◌, if◌then◌else◌, some-injective,
}
use tiny_lsm.MemTable
use tiny_lsm.MemTable.{MemTable}
use tiny_lsm.Table.Sst.{SsTable}
use tiny_lsm.Compact.Task.{
  CompactionOptions, leveled_options, tiered_options, simple_options, no_compaction,
}
use tiny_lsm.Storage.State.{files, level_files}
use tiny_lsm.Storage.Inner.{
  Env, Tree, LsmStorageOptions, LsmStorageInner, create_state, first_levels, empty_levels,
  new_memtable,
}
use tiny_lsm.Storage.Write.{without_last}
use tiny_lsm.Storage.Open.{create_store}
use tiny_lsm.Storage.WellFormed.{Owned, Owned-insert, memtable_ids, live_ids, IsWellFormed}
use tiny_lsm.Storage.Steps.{
  Step, wrote, froze, flushed, Reach, start, later, force_freeze-IsWellFormed,
  write_batch-IsWellFormed, count-last, Published, publish_flush-Published,
}

empty_levels-files : (n k : ℕ) → level_files (empty_levels n k) ≡ []
unfolding empty_levels
empty_levels-files n zero = refl
empty_levels-files n (suc k) = empty_levels-files (n + 1) k

first_levels-files : (o : CompactionOptions) → level_files (first_levels o) ≡ []
unfolding first_levels
first_levels-files (leveled_options o) = empty_levels-files 1 o.max_levels
first_levels-files (simple_options o) = empty_levels-files 1 o.max_levels
first_levels-files (tiered_options o) = refl
first_levels-files no_compaction = refl

module _ (env : Env) where
  -- A tree without files, over one memtable.
  one_memtable-IsWellFormed :
      (s : Tree env) → files s ≡ [] → s.memtable.id ≡ 0 → s.imm_memtables ≡ [] → IsWellFormed s 1
  one_memtable-IsWellFormed s no_files first alone = record {
    owned = λ id h. absurd (no_zero (subst (λ fs. 1 ≤ count id fs) no_files h));
    once = λ id. rw no_files (rw first (rw alone (ground (arith, ==_iff 0 id))));
    below = λ id h. below_at id (rw no_files at (rw first at (rw alone at h)));
  }
    where
      no_zero : 1 ≤ 0 → ⊥
      no_zero h = omega arith

      below_at : (id : ℕ) → 1 ≤ 0 + ((if 0 == id then 1 else 0) + 0) → id < 1
      below_at id h = ground (arith, ==_iff 0 id)

  create_store-IsWellFormed :
      (options : LsmStorageOptions) (inner : LsmStorageInner env)
      → create_store env options ≡ some inner
      → IsWellFormed inner.state inner.next_sst_id
  unfolding create_store create_state MemTable.create MemTable.create_with_wal
  create_store-IsWellFormed options inner h =
      let (log, made, h1) = >>=-eq-some env.manifest.create_log _ h in
      let (logged, added, h2) =
        >>=-eq-some
          (if options.enable_wal then env.manifest.add_record log (new_memtable 0) else some log) _
          h1 in
      subst (λ (x : LsmStorageInner env). IsWellFormed x.state x.next_sst_id)
        (some-injective _ _ h2)
        (elim (Bool-cases options.enable_wal) [
          | inl wal ↦ rw wal (
              one_memtable-IsWellFormed _ (first_levels-files options.compaction_options) refl refl)
          | inr no_wal ↦ rw no_wal (
              one_memtable-IsWellFormed _ (first_levels-files options.compaction_options) refl refl)
        ])

  Published-IsWellFormed :
      (inner inner' : LsmStorageInner env) (table : SsTable)
      → IsWellFormed inner.state inner.next_sst_id
      → Published env inner inner' table
      → IsWellFormed inner'.state inner'.next_sst_id
  Published-IsWellFormed inner inner' table w p = record {
    owned = λ id h.
        subst (λ m. Owned id m) (sym p.tables)
          (Owned-insert id table inner.state.sstables (held id h));
    once = λ id. omega (arith, w.once id, together id);
    below =
        λ id h. subst (λ n. id < n) (sym p.next_id) (w.below id (omega (arith, h, together id)));
  }
    where
      moved :
          (id : ℕ)
          → count id (memtable_ids inner'.state.imm_memtables) + (if table.id == id then 1 else 0)
            ≡ count id (memtable_ids inner.state.imm_memtables)
      moved id = rw p.frozen (
          subst
            (λ x.
              count id (memtable_ids (without_last env inner.state.imm_memtables))
                + (if x == id then 1 else 0)
              ≡ count id (memtable_ids inner.state.imm_memtables))
            p.its_id (count-last env id inner.state.imm_memtables p.mem p.oldest))

      same_active :
          (id : ℕ)
          → ◌≡◌ {A = ℕ}
              (if inner'.state.memtable.id == id then 1 else 0)
              (if inner.state.memtable.id == id then 1 else 0)
      same_active id = rw p.active refl

      together :
          (id : ℕ)
          → count id (files inner'.state) + count id (live_ids inner'.state)
            ≡ count id (files inner.state) + count id (live_ids inner.state)
      together id = omega (arith, p.tree id, moved id, same_active id)

      held :
          (id : ℕ)
          → 1 ≤ count id (files inner'.state)
          → (id ≡ table.id) ⊎ Owned id inner.state.sstables
      held id h = elim (Bool-cases (table.id == id)) [
        | inl same ↦ inl (sym ((==_iff table.id id).0 same))
        | inr other ↦ inr (w.owned id (ground (arith, p.tree id, h, other)))
      ]

  Step-IsWellFormed :
      (inner inner' : LsmStorageInner env)
      → IsWellFormed inner.state inner.next_sst_id
      → Step env inner inner'
      → IsWellFormed inner'.state inner'.next_sst_id
  Step-IsWellFormed inner _ w (wrote batch inner' small h) =
      write_batch-IsWellFormed env inner inner' batch w small h
  Step-IsWellFormed inner _ w (froze inner' small h) =
      force_freeze-IsWellFormed env inner inner' w small h
  Step-IsWellFormed inner _ w (flushed table inner' h) =
      Published-IsWellFormed inner inner' table w (publish_flush-Published env inner inner' table h)

  -- In a store that comes from a new one by batches of writes, freezes of the memtable and flushes,
  -- whose tables are built at any time before, every file of L0 and of the levels has a table of that id
  -- in the map of the tables; no id is that of two files, two memtables or of a file and a memtable; and
  -- the ids in use have been handed out. The counter of the ids does not reach the end of a `u64`.
  pub Reach-IsWellFormed :
      (inner : LsmStorageInner env) → Reach env inner → IsWellFormed inner.state inner.next_sst_id
  Reach-IsWellFormed _ (start options inner h) = create_store-IsWellFormed options inner h
  Reach-IsWellFormed _ (later before inner r step) =
      Step-IsWellFormed before inner (Reach-IsWellFormed before r) step
