-- ===== src/Storage/Safety.antt =====
-- What follows from the invariant of the store for its readers, its flushes and its recovery.
use tiny_lsm.Common.{
  Option, Bool-cases, ltb, length, checked_sub, ℕ, zero, suc, ◌+◌, ◌≤◌, ◌≡◌, inl, inr, refl, ◌∙◌,
  sym, subst, ap, true, none, some, List, [], ◌∷◌, ◌++◌, arith, count, count-append, Option-cases,
  >>=-eq-some, ==_iff, ◌==◌, if◌then◌else◌, some-injective, guard, get_elem?, max,
}
use tiny_lsm.MemTable.{MemTable}
use tiny_lsm.Table.Sst.{SsTable, table_size}
use tiny_lsm.Compact.Task.{CompactionTask, tiered, tiered_options, flush_to_l0, generate_task}
use tiny_lsm.Compact.Tiered
use tiny_lsm.Compact.Tiered.{TieredCompactionOptions}
use tiny_lsm.Storage.State.{Level, level_files}
use tiny_lsm.Storage.Inner.{Env, Tree, LsmStorageInner, flush_record}
use tiny_lsm.Storage.Read.{tables_of}
use tiny_lsm.Storage.Write.{last_memtable, without_last, publish_flush, add_flushed}
use tiny_lsm.Storage.Open.{Replay, replay_record}
use tiny_lsm.Storage.WellFormed.{Owned, memtable_ids, IsWellFormed}
use tiny_lsm.Storage.Steps.{Reach, count-last, Published, publish_flush-Published}
use tiny_lsm.Storage.Invariant.{Reach-IsWellFormed}

-- The ids of some tables.
abbrev pub table_ids : List SsTable → List ℕ
table_ids [] = []
table_ids (t ∷ ts) = t.id ∷ table_ids ts

module _ (env : Env) (fuel : ℕ) where
  tables_of-Owned :
      (s : Tree env) (ids : List ℕ)
      → ((id : ℕ) → 1 ≤ count id ids → Owned id s.sstables)
      → (tables : List SsTable) × (tables_of env fuel s ids ≡ some tables)
        × (table_ids tables ≡ ids)
  tables_of-Owned s [] held = ([], refl, refl)
  tables_of-Owned s (id ∷ ids) held =
      let (t, found, named) = held id (rw ((==_iff id id).1 refl) (omega arith)) in
      let (ts, rest, are) = tables_of-Owned s ids (λ j h. held j (omega (arith, h))) in
      (t ∷ ts, rw found (rw rest refl), rw (named, are) refl)

  count-level :
      (id i : ℕ) (levels : List Level) (level : Level)
      → get_elem? levels i ≡ some level
      → count id level.1 ≤ count id (level_files levels)
  count-level id i [] level h = cc
  count-level id zero (x ∷ levels) level h =
      let same : x ≡ level = some-injective _ _ h in
      subst (λ (l : Level). count id l.1 ≤ count id (x.1 ++ level_files levels)) same
        (omega (arith, count-append id x.1 (level_files levels)))
  count-level id (suc i) (x ∷ levels) level h =
      omega (arith, count-level id i levels level h, count-append id x.1 (level_files levels))

  -- In every store that comes from a new one by writes, freezes and flushes, a read finds all its
  -- tables: the map of the tables has, under each id of L0 and of each level, the table of that id, so
  -- that the lookups `sstables[id]` do not panic.
  pub tables_of-Reach :
      (inner : LsmStorageInner env) (i : ℕ) (level : Level)
      → Reach env inner
      → get_elem? inner.state.levels i ≡ some level
      → ((l0 : List SsTable) × (tables_of env fuel inner.state inner.state.l0_sstables ≡ some l0)
          × (table_ids l0 ≡ inner.state.l0_sstables))
        × ((tables : List SsTable) × (tables_of env fuel inner.state level.1 ≡ some tables)
            × (table_ids tables ≡ level.1))
  tables_of-Reach inner i level r at =
      let w = Reach-IsWellFormed env inner r in
      (
        tables_of-Owned inner.state inner.state.l0_sstables (λ id h. w.owned id (
            omega (
              arith,
              h,
              count-append id inner.state.l0_sstables (level_files inner.state.levels),
            ))),
        tables_of-Owned inner.state level.1 (λ id h. w.owned id (
            omega (
              arith,
              h,
              count-level id i inner.state.levels level at,
              count-append id inner.state.l0_sstables (level_files inner.state.levels),
            ))),
      )

module _ (env : Env) where
  last-count :
      (ms : List (MemTable env.skip.Map)) (m : MemTable env.skip.Map)
      → last_memtable env ms ≡ some m
      → 1 ≤ count m.id (memtable_ids ms)
  last-count ms m h = omega (arith, count-last env m.id ms m h, hit)
    where
      hit : ◌≡◌ {A = ℕ} (if m.id == m.id then 1 else 0) 1
      hit = rw ((==_iff m.id m.id).1 refl) refl

  -- Two threads that have both written the oldest memtable to a table cannot both publish it: in every
  -- store that is reached, when a table has been published, the publication of another table of the
  -- same memtable fails at the assertion on the ids, or on the empty list of the frozen memtables.
  pub publish_flush_twice :
      (inner inner' : LsmStorageInner env) (table other : SsTable)
      → Reach env inner
      → publish_flush env inner table ≡ some inner'
      → other.id ≡ table.id
      → publish_flush env inner' other ≡ none
  unfolding publish_flush
  publish_flush_twice inner inner' table other r h same =
      elim (Option-cases (publish_flush env inner' other)) [
        | inl failed ↦ failed
        | inr (again, ran) ↦
            let p = publish_flush-Published env inner inner' table h in
            let q = publish_flush-Published env inner' again other ran in
            let w = Reach-IsWellFormed env inner r in absurd (twice p q w)
      ]
    where
      twice :
          {again : LsmStorageInner env}
          → Published env inner inner' table
          → Published env inner' again other
          → IsWellFormed inner.state inner.next_sst_id
          → ⊥
      twice p q w =
          let left : 1
              ≤ count table.id (memtable_ids (without_last env inner.state.imm_memtables)) =
            subst (λ x. 1 ≤ count x (memtable_ids (without_last env inner.state.imm_memtables)))
              (q.its_id ∙ same)
              (subst (λ ms. 1 ≤ count q.mem.id (memtable_ids ms)) p.frozen
                (last-count inner'.state.imm_memtables q.mem q.oldest)) in
          let hit : ◌≡◌ {A = ℕ} (if p.mem.id == table.id then 1 else 0) 1 =
            rw ((==_iff p.mem.id table.id).1 p.its_id) refl in
          omega (
            arith,
            w.once table.id,
            left,
            hit,
            count-last env table.id inner.state.imm_memtables p.mem p.oldest,
          )

  published-tree :
      (inner inner' : LsmStorageInner env) (table : SsTable)
      → publish_flush env inner table ≡ some inner'
      → (inner'.state.l0_sstables
          ≡ (add_flushed env
              (flush_to_l0 inner.options.compaction_options)
              inner
              table.id).state.l0_sstables)
        × (inner'.state.levels
            ≡ (add_flushed env
                (flush_to_l0 inner.options.compaction_options)
                inner
                table.id).state.levels)
  unfolding publish_flush
  published-tree inner inner' table h =
      let (mem, oldest, h1) = >>=-eq-some (last_memtable env inner.state.imm_memtables) _ h in
      let (u, g, h2) = >>=-eq-some (guard (mem.id == table.id)) _ h1 in
      let (log, logged, made) =
        >>=-eq-some (env.manifest.add_record inner.log (flush_record table.id)) _ h2 in
      let same = some-injective _ _ made in
      (
        ap (λ (x : LsmStorageInner env). x.state.l0_sstables) (sym same),
        ap (λ (x : LsmStorageInner env). x.state.levels) (sym same),
      )

  -- Where flushes go to L0, replaying the record of a flush on the tree that it began with gives the
  -- tree that it left, with the id counted as handed out and the memtable as flushed.
  pub replay-publish_flush :
      (inner inner' : LsmStorageInner env) (table : SsTable) (r : Replay env)
      → flush_to_l0 inner.options.compaction_options ≡ true
      → publish_flush env inner table ≡ some inner'
      → r.state.l0_sstables ≡ inner.state.l0_sstables
      → r.state.levels ≡ inner.state.levels
      → (r' : Replay env) × (replay_record env inner.options r (flush_record table.id) ≡ some r')
        × (r'.state.l0_sstables ≡ inner'.state.l0_sstables)
        × (r'.state.levels ≡ inner'.state.levels)
        × (r'.next_sst_id ≡ max r.next_sst_id (table.id + 1))
        × (r'.flushed_memtables ≡ table.id ∷ r.flushed_memtables)
  unfolding replay_record
  replay-publish_flush inner inner' table r to_l0 h l0 levels =
      let (l0', levels') = published-tree inner inner' table h in
      let l0_is : inner'.state.l0_sstables ≡ table.id ∷ inner.state.l0_sstables =
        l0' ∙ rw to_l0 refl in
      let levels_is : inner'.state.levels ≡ inner.state.levels = levels' ∙ rw to_l0 refl in
      (_, refl, ap (λ ids. table.id ∷ ids) l0 ∙ sym l0_is, levels ∙ sym levels_is, refl, refl)

  -- With tiers and no table in L0, a search for a compaction finds out whether there is one.
  search_tiers :
      (o : TieredCompactionOptions) (s : Tree env) (tier : Level) (tiers : List Level)
      → s.l0_sstables ≡ []
      → s.levels ≡ tier ∷ tiers
      → (task : Option CompactionTask) × (generate_task env.float SsTable.first_key SsTable.last_key
            table_size
            (tiered_options o)
            s
          ≡ some task)
  unfolding generate_task Tiered.generate_compaction_task
  search_tiers o s tier tiers empty levels = elim (Bool-cases (ltb (length s.levels) o.num_tiers)) [
    | inl few ↦ (none, rw empty (rw few refl))
    | inr many ↦ (
      some (tiered (Tiered.choose_task env.float o s.levels)),
      rw empty (rw many (rw (some_tiers s.levels levels) refl)),
    )
  ]
    where
      some_tiers :
          (ls : List Level) → ls ≡ tier ∷ tiers → checked_sub (length ls) 1 ≡ some (length tiers)
      some_tiers ls h = rw h (ground arith)

  -- A store with tiers has no table in L0, and a flush adds its table as the newest tier, after which
  -- the search for a compaction does not panic. But on a recovered tree that has the same tables as the
  -- store before the flush, replaying the record of the flush leaves the tiers as they were and puts the
  -- id of the table in front of L0, so that the next search for a compaction panics.
  pub replay-publish_flush_tiered :
      (inner inner' : LsmStorageInner env) (table : SsTable) (r : Replay env)
      (o : TieredCompactionOptions)
      → inner.options.compaction_options ≡ tiered_options o
      → inner.state.l0_sstables ≡ []
      → publish_flush env inner table ≡ some inner'
      → r.state.l0_sstables ≡ inner.state.l0_sstables
      → r.state.levels ≡ inner.state.levels
      → (inner'.state.l0_sstables ≡ [])
        × (inner'.state.levels ≡ (table.id, table.id ∷ []) ∷ inner.state.levels)
        × (task : Option CompactionTask) × (generate_task env.float SsTable.first_key
              SsTable.last_key table_size
              (tiered_options o)
              inner'.state
            ≡ some task)
        × (r' : Replay env) × (replay_record env inner.options r (flush_record table.id) ≡ some r')
        × (r'.state.l0_sstables ≡ table.id ∷ [])
        × (r'.state.levels ≡ inner.state.levels)
        × (generate_task env.float SsTable.first_key SsTable.last_key table_size
              (tiered_options o)
              r'.state
            ≡ none)
  unfolding replay_record generate_task Tiered.generate_compaction_task flush_to_l0
  replay-publish_flush_tiered inner inner' table r o with_tiers empty h l0 levels =
      let (l0', levels') = published-tree inner inner' table h in
      let l0_is : inner'.state.l0_sstables ≡ [] = l0' ∙ rw with_tiers empty in
      let levels_is : inner'.state.levels ≡ (table.id, table.id ∷ []) ∷ inner.state.levels =
        levels' ∙ rw with_tiers refl in
      let (task, found) =
        search_tiers o inner'.state (table.id, table.id ∷ []) inner.state.levels l0_is levels_is in
      (
        l0_is,
        levels_is,
        task,
        found,
        _,
        refl,
        ap (λ ids. table.id ∷ ids) (l0 ∙ empty),
        levels,
        refl,
      )
