-- ===== src/Storage/Installs.antt =====
-- The invariant of the tree when the result of a compaction is installed.
use tiny_lsm.Common.{
  ℕ, zero, suc, ◌+◌, ◌≤◌, ◌<◌, ◌≡◌, ◌⊎◌, inl, inr, refl, ◌∙◌, sym, subst, ap, true, Option, none,
  some, List, [], ◌∷◌, ◌++◌, map, not, filter, contains, arith, count, count-append, Bool-cases,
  >>=-eq-some, ==_iff, ◌==◌, some-injective, checked_sub,
}
use tiny_lsm.Table.Sst.{SsTable}
use tiny_lsm.Compact.Simple.{
  SimpleLeveledCompactionOptions, SimpleLeveledCompactionTask, l0_task, generate_compaction_task,
  apply_levels, apply_compaction_result,
}
use tiny_lsm.Compact.Simple.Conserve.{flushed, Conserves, apply-generate}
use tiny_lsm.Compact.Task.{simple_options, simple, apply_result}
use tiny_lsm.Storage.State.{Level, remove, insert, set_checked, files, level_files, NumberedFrom}
use tiny_lsm.Storage.Inner.{Env, Tree, LsmStorageInner}
use tiny_lsm.Storage.Compaction.{remove_tables, insert_tables, install}
use tiny_lsm.Storage.WellFormed.{Owned, Owned-insert, Owned-remove, live_ids, IsWellFormed}

-- New tables have ids of their own, which have been handed out and are not in use.
pub record IsFresh {env : Env} (inner : LsmStorageInner env) (output : List SsTable) : Type 0 where
  pub distinct : (id : ℕ) → count id (map (λ (t : SsTable). t.id) output) ≤ 1
  pub unused :
      (id : ℕ)
      → 1 ≤ count id (map (λ (t : SsTable). t.id) output)
      → count id (files inner.state) + count id (live_ids inner.state) ≡ 0
  pub handed_out :
      (id : ℕ) → 1 ≤ count id (map (λ (t : SsTable). t.id) output) → id < inner.next_sst_id

count-contains_of : (a : ℕ) (ids : List ℕ) → contains ids a ≡ true → 1 ≤ count a ids
count-contains_of a [] h = cc
count-contains_of a (x ∷ ids) h = ground (arith, count-contains_of a ids)

zero_or_more : (n : ℕ) → (n ≡ 0) ⊎ (1 ≤ n)
zero_or_more zero = inl refl
zero_or_more (suc n) = inr (omega arith)

module _ (env : Env) (fuel : ℕ) where
  Owned-insert_tables :
      (id : ℕ) (output : List SsTable) (m : List (ℕ × SsTable))
      → (1 ≤ count id (map (λ (t : SsTable). t.id) output)) ⊎ Owned id m
      → Owned id (insert_tables env fuel output m)
  Owned-insert_tables id [] m (inl h) = absurd (omega arith)
  Owned-insert_tables id [] m (inr o) = o
  Owned-insert_tables id (t ∷ ts) m (inr o) =
      Owned-insert_tables id ts (insert t.id t m) (inr (Owned-insert id t m (inr o)))
  Owned-insert_tables id (t ∷ ts) m (inl h) = elim (Bool-cases (t.id == id)) [
    | inl same ↦
        Owned-insert_tables id ts (insert t.id t m)
          (inr (Owned-insert id t m (inl (sym ((==_iff t.id id).0 same)))))
    | inr other ↦ Owned-insert_tables id ts (insert t.id t m) (inl (ground (arith, h, other)))
  ]

  Owned-remove_tables :
      (id : ℕ) (removed : List ℕ) (m : List (ℕ × SsTable))
      → count id removed ≡ 0
      → Owned id m
      → Owned id (remove_tables env fuel removed m)
  Owned-remove_tables id [] m h o = o
  Owned-remove_tables id (x ∷ xs) m h o =
      Owned-remove_tables id xs (remove x m) (omega (arith, h))
        (Owned-remove id x m (ground arith) o)

  generate-same :
      (o : SimpleLeveledCompactionOptions) (s t : Tree env)
      → s.l0_sstables ≡ t.l0_sstables
      → s.levels ≡ t.levels
      → generate_compaction_task o s ≡ generate_compaction_task o t
  unfolding generate_compaction_task l0_task
  generate-same o s t h g = rw (h, g) refl

  -- The controller changes neither the memtables nor the map of the tables.
  record Keeps (s t : Tree env) : Type 0 where
    memtable : t.memtable ≡ s.memtable
    imm_memtables : t.imm_memtables ≡ s.imm_memtables
    sstables : t.sstables ≡ s.sstables

  Keeps-ids :
      (s t : Tree env) (l0 : List ℕ) (levels : List Level)
      → record s { l0_sstables = l0; levels = levels } ≡ t
      → Keeps s t
  Keeps-ids s t l0 levels h = record {
    memtable = ap (λ (x : Tree env). x.memtable) (sym h);
    imm_memtables = ap (λ (x : Tree env). x.imm_memtables) (sym h);
    sstables = ap (λ (x : Tree env). x.sstables) (sym h);
  }

  apply_levels-Keeps :
      (u : Option ℕ) (s t : Tree env) (task : SimpleLeveledCompactionTask) (output : List ℕ)
      → apply_levels u s task output ≡ some t
      → Keeps s t
  unfolding apply_levels
  apply_levels-Keeps none s t task output h =
      let (levels, at, made) = >>=-eq-some (set_checked s.levels 0 (1, output)) _ h in
      Keeps-ids s t (filter (λ id. not (contains task.upper_level_sst_ids id)) s.l0_sstables) levels
        (some-injective _ _ made)
  apply_levels-Keeps (some u) s t task output h =
      let (i, i_is, h1) = >>=-eq-some (checked_sub u 1) _ h in
      let (cleared, c_is, h2) = >>=-eq-some (set_checked s.levels i (u, [])) _ h1 in
      let (j, j_is, h3) = >>=-eq-some (checked_sub task.lower_level 1) _ h2 in
      let (levels, at, made) =
        >>=-eq-some (set_checked cleared j (task.lower_level, output)) _ h3 in
      Keeps-ids s t s.l0_sstables levels (some-injective _ _ made)

  apply-Keeps :
      (s : Tree env) (r : Tree env × List ℕ) (task : SimpleLeveledCompactionTask) (output : List ℕ)
      → apply_compaction_result s task output ≡ some r
      → Keeps s r.0
  unfolding apply_compaction_result
  apply-Keeps s r task output h =
      let (t, at, made) = >>=-eq-some (apply_levels task.upper_level s task output) _ h in
      apply_levels-Keeps task.upper_level s r.0 task output
        (at ∙ ap (λ (x : Tree env × List ℕ). some x.0) (some-injective _ _ made))

  -- The store with the new tables, before the old ones are removed.
  abbrev with_output : LsmStorageInner env → List SsTable → Tree env
  with_output inner output = record inner.state {
    sstables = insert_tables env fuel output inner.state.sstables;
  }

  install_lem :
      (inner : LsmStorageInner env) (o : SimpleLeveledCompactionOptions)
      (task : SimpleLeveledCompactionTask) (output : List SsTable) (r : Tree env × List ℕ)
      → inner.options.compaction_options ≡ simple_options o
      → apply_compaction_result (with_output inner output) task (map (λ (t : SsTable). t.id) output)
        ≡ some r
      → install env fuel inner (simple task) output
        ≡ some (record inner {
          state = record r.0 { sstables = remove_tables env fuel r.1 r.0.sstables };
        })
  unfolding install apply_result
  install_lem inner o task output r is_simple h = rw is_simple (rw h refl)

  -- What the result of the controller makes of a store that is well-formed.
  replaced-IsWellFormed :
      (inner : LsmStorageInner env) (output : List SsTable) (r : Tree env × List ℕ)
      → IsWellFormed inner.state inner.next_sst_id
      → IsFresh inner output
      → Keeps (with_output inner output) r.0
      → ((a : ℕ)
          → count a (files r.0) + count a r.1
            ≡ count a (files inner.state) + count a (map (λ (t : SsTable). t.id) output))
      → IsWellFormed
          (record r.0 { sstables = remove_tables env fuel r.1 r.0.sstables })
          inner.next_sst_id
  replaced-IsWellFormed inner output r w fresh k moved = record {
    owned = λ id h. Owned-remove_tables id r.1 r.0.sstables (gone id h) (
        subst (Owned id) (sym k.sstables)
          (Owned-insert_tables id output inner.state.sstables (held id h)));
    once = λ id. subst (λ x. count id (files r.0) + x ≤ 1) (sym (same_live id)) (alone id);
    below = λ id h. under id (subst (λ x. 1 ≤ count id (files r.0) + x) (same_live id) h);
  }
    where
      same_live : (id : ℕ) → count id (live_ids r.0) ≡ count id (live_ids inner.state)
      same_live id = rw (k.memtable, k.imm_memtables) refl

      either :
          (id : ℕ)
          → (count id (map (λ (t : SsTable). t.id) output) ≡ 0)
            ⊎ (1 ≤ count id (map (λ (t : SsTable). t.id) output))
      either id = zero_or_more (count id (map (λ (t : SsTable). t.id) output))

      alone : (id : ℕ) → count id (files r.0) + count id (live_ids inner.state) ≤ 1
      alone id = elim (either id) [
        | inl none_new ↦ omega (arith, moved id, w.once id, none_new)
        | inr new ↦ omega (arith, moved id, fresh.distinct id, fresh.unused id new)
      ]

      gone : (id : ℕ) → 1 ≤ count id (files r.0) → count id r.1 ≡ 0
      gone id h = elim (either id) [
        | inl none_new ↦ omega (arith, moved id, w.once id, none_new, h)
        | inr new ↦ omega (arith, moved id, fresh.distinct id, fresh.unused id new, h)
      ]

      held :
          (id : ℕ)
          → 1 ≤ count id (files r.0)
          → (1 ≤ count id (map (λ (t : SsTable). t.id) output)) ⊎ Owned id inner.state.sstables
      held id h = elim (either id) [
        | inl none_new ↦ inr (w.owned id (omega (arith, moved id, none_new, h)))
        | inr new ↦ inl new
      ]

      under :
          (id : ℕ)
          → 1 ≤ count id (files r.0) + count id (live_ids inner.state)
          → id < inner.next_sst_id
      under id h = elim (either id) [
        | inl none_new ↦ w.below id (omega (arith, moved id, none_new, h))
        | inr new ↦ fresh.handed_out id new
      ]

  -- The result of a simple leveled compaction is installed without a panic, and the store stays
  -- well-formed: where the store is well-formed, the task was generated from a state with numbered
  -- levels, of which the present one differs by flushes to L0, and the new tables have ids of their own,
  -- which have been handed out and are not in use.
  pub install-IsWellFormed :
      (inner : LsmStorageInner env) (o : SimpleLeveledCompactionOptions) (before : Tree env)
      (newer : List ℕ) (task : SimpleLeveledCompactionTask) (output : List SsTable)
      → inner.options.compaction_options ≡ simple_options o
      → NumberedFrom 1 before.levels
      → generate_compaction_task o before ≡ some (some task)
      → inner.state.l0_sstables ≡ newer ++ before.l0_sstables
      → inner.state.levels ≡ before.levels
      → IsWellFormed inner.state inner.next_sst_id
      → IsFresh inner output
      → (inner' : LsmStorageInner env) × (install env fuel inner (simple task) output ≡ some inner')
        × IsWellFormed inner'.state inner'.next_sst_id
  install-IsWellFormed inner o before newer task output is_simple numbered made l0 levels w fresh =
      let (r, applied, conserves) = result in
      (
        record inner { state = record r.0 { sstables = remove_tables env fuel r.1 r.0.sstables } },
        install_lem inner o task output r is_simple applied,
        replaced-IsWellFormed inner output r w fresh
            (apply-Keeps (with_output inner output) r task (map (λ (t : SsTable). t.id) output)
              applied)
            conserves.0,
      )
    where
      old : Tree env
      old = record (with_output inner output) {
        l0_sstables = before.l0_sstables;
        levels = before.levels;
      }

      same_tree : flushed newer old ≡ with_output inner output
      same_tree =
          ap
            (λ (ids : List ℕ). record (with_output inner output) {
              l0_sstables = ids;
              levels = before.levels;
            })
            (sym l0)
          ∙ ap (λ (ls : List Level). record (with_output inner output) { levels = ls }) (sym levels)

      newer_fresh : (a : ℕ) → contains old.l0_sstables a ≡ true → count a newer ≡ 0
      newer_fresh a h =
          let l0_count : count a inner.state.l0_sstables
              ≡ count a newer + count a before.l0_sstables =
            ap (count a) l0 ∙ count-append a newer before.l0_sstables in
          omega (
            arith,
            l0_count,
            count-contains_of a before.l0_sstables h,
            w.once a,
            count-append a inner.state.l0_sstables (level_files inner.state.levels),
          )

      result :
          (r : Tree env × List ℕ) × (apply_compaction_result
              (with_output inner output)
              task
              (map (λ (t : SsTable). t.id) output)
            ≡ some r)
          × Conserves (with_output inner output) (map (λ (t : SsTable). t.id) output) r
      result =
          subst
            (λ (s : Tree env).
              (r : Tree env × List ℕ) × (apply_compaction_result s task
                  (map (λ (t : SsTable). t.id) output)
                ≡ some r)
              × Conserves s (map (λ (t : SsTable). t.id) output) r)
            same_tree
            (apply-generate o old task newer (map (λ (t : SsTable). t.id) output) numbered
              (generate-same o old before refl refl ∙ made) newer_fresh)
