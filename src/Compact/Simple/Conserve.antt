-- ===== src/Compact/Simple/Conserve.antt =====
-- A task that was generated can be applied, and no file is lost or kept twice.
use tiny_lsm.Common.{
  ℕ, ◌+◌, ◌<◌, ◌≡◌, ◌≢◌, ◌⊎◌, inl, inr, ap, sym, ◌∙◌, subst, true, not, none, some, some-injective,
  List, [], ◌∷◌, ◌++◌, length, get_elem?, set, filter, contains, arith, >>=-eq-some, leb,
  checked_sub, checked_sub-add, count, count-append, Bool-cases, lt→ltb, get_elem?-lt, length-set,
  get_elem?-set_ne,
}
use tiny_lsm.Storage.State.{LsmStorageState, Level, set_checked, files, level_files, NumberedFrom}
use tiny_lsm.Storage.Files.{count-set, NumberedFrom-set, count-retain, count-contains}
use tiny_lsm.Compact.Simple.{
  SimpleLeveledCompactionOptions, SimpleLeveledCompactionTask, compaction_required, find_level,
  l0_task, generate_compaction_task, apply_levels, apply_compaction_result,
}

-- What a task found at the `i`-th of the levels from number `n` on says.
record IsTaskAt (n : ℕ) (levels : List Level) (task : SimpleLeveledCompactionTask) (i : ℕ)
    : Type 0 where
  upper : get_elem? levels i ≡ some (n + i, task.upper_level_sst_ids)
  lower : get_elem? levels (i + 1) ≡ some (n + i + 1, task.lower_level_sst_ids)
  upper_number : task.upper_level ≡ some (n + i)
  lower_number : task.lower_level ≡ n + i + 1

find_level-IsTaskAt :
    (o : SimpleLeveledCompactionOptions) (max_level n : ℕ) (levels : List Level)
    (task : SimpleLeveledCompactionTask)
    → NumberedFrom n levels
    → find_level o max_level levels ≡ some task
    → (i : ℕ) × IsTaskAt n levels task i
unfolding find_level
find_level-IsTaskAt o max_level n [] task w h = cc
find_level-IsTaskAt o max_level n (upper ∷ []) task w h = cc
find_level-IsTaskAt o max_level n ((upper_l, upper_ssts) ∷ (lower_l, lower_ssts) ∷ rest) task w h =
    elim (Bool-cases (compaction_required o (length upper_ssts) (length lower_ssts))) [
      | inl needed ↦ (
        0,
        record {
          upper = ground arith;
          lower = ground arith;
          upper_number = ground arith;
          lower_number = ground arith;
        },
      )
      | inr fine ↦
          let later : find_level o max_level ((lower_l, lower_ssts) ∷ rest) ≡ some task =
            ground arith in
          let (i, at) =
            find_level-IsTaskAt o max_level (n + 1) ((lower_l, lower_ssts) ∷ rest) task w.1 later in
          (
            i + 1,
            record {
              upper = ground (arith, at.upper);
              lower = ground (arith, at.lower);
              upper_number = ground (arith, at.upper_number);
              lower_number = ground (arith, at.lower_number);
            },
          )
    ]

-- The tree after the flushes that ran while the task was carried out.
abbrev pub flushed : {Mem Sst : Type 0} → List ℕ → LsmStorageState Mem Sst → LsmStorageState Mem Sst
flushed newer s = record s { l0_sstables = newer ++ s.l0_sstables }

-- The result holds the files that were there, less the removed ones, and the output; its levels are
-- numbered from 1.
abbrev pub Conserves :
    {Mem Sst : Type 0}
    → LsmStorageState Mem Sst
    → List ℕ
    → LsmStorageState Mem Sst × List ℕ
    → Type 0
Conserves s output (s', removed) =
    ((a : ℕ) → count a (files s') + count a removed ≡ count a (files s) + count a output)
    × NumberedFrom 1 s'.levels

set_checked-lt :
    (levels : List Level) (i : ℕ) (l : Level)
    → i < length levels
    → set_checked levels i l ≡ some (set levels i l)
set_checked-lt levels i l h = rw (lt→ltb i (length levels) h)

-- `retain` leaves what was flushed meanwhile.
count-kept :
    (a : ℕ) (ids l0 newer : List ℕ)
    → ids ≡ l0
    → (contains l0 a ≡ true → count a newer ≡ 0)
    → count a (filter (λ id. not (contains ids id)) (newer ++ l0)) + count a ids
      ≡ count a (newer ++ l0)
count-kept a ids l0 newer same fresh = rw same (elim (Bool-cases (contains l0 a)) [
  | inl old ↦
      omega (arith, rw old at (count-retain a l0 (newer ++ l0)), count-append a newer l0, fresh old)
  | inr not_old ↦ omega (
    arith,
    rw not_old at (count-retain a l0 (newer ++ l0)),
    count-append a newer l0,
    count-contains a l0 not_old,
  )
])

module _ {Mem Sst : Type 0} where
  -- `apply_levels` when each of its steps succeeds.
  apply_levels_steps :
      (s : LsmStorageState Mem Sst) (task : SimpleLeveledCompactionTask) (output : List ℕ)
      (u ui li : ℕ) (cleared levels : List Level)
      → checked_sub u 1 ≡ some ui
      → set_checked s.levels ui (u, []) ≡ some cleared
      → checked_sub task.lower_level 1 ≡ some li
      → set_checked cleared li (task.lower_level, output) ≡ some levels
      → apply_levels (some u) s task output ≡ some (record s { levels = levels })
  unfolding apply_levels
  apply_levels_steps s task output u ui li cleared levels h1 h2 h3 h4 =
      rw h1 (rw h2 (rw h3 (rw h4)))

  apply_l0_steps :
      (s : LsmStorageState Mem Sst) (task : SimpleLeveledCompactionTask) (output : List ℕ)
      (levels : List Level)
      → set_checked s.levels 0 (1, output) ≡ some levels
      → apply_levels none s task output
        ≡ some (record s {
          l0_sstables = filter (λ id. not (contains task.upper_level_sst_ids id)) s.l0_sstables;
          levels = levels;
        })
  unfolding apply_levels
  apply_l0_steps s task output levels h = rw h

  apply_steps :
      (s s' : LsmStorageState Mem Sst) (task : SimpleLeveledCompactionTask) (output : List ℕ)
      → apply_levels task.upper_level s task output ≡ some s'
      → apply_compaction_result s task output
        ≡ some (s', task.upper_level_sst_ids ++ task.lower_level_sst_ids)
  unfolding apply_compaction_result
  apply_steps s s' task output h = rw h

  -- A task between two levels.
  conserve_upper :
      (s : LsmStorageState Mem Sst) (task : SimpleLeveledCompactionTask) (output : List ℕ) (i : ℕ)
      → NumberedFrom 1 s.levels
      → IsTaskAt 1 s.levels task i
      → (r : LsmStorageState Mem Sst × List ℕ) × (apply_compaction_result s task output ≡ some r)
        × Conserves s output r
  conserve_upper s task output i numbered at = (
    (record s { levels = filled }, task.upper_level_sst_ids ++ task.lower_level_sst_ids),
    apply_steps s (record s { levels = filled }) task output
        (subst (λ u. apply_levels u s task output ≡ some (record s { levels = filled }))
          (sym at.upper_number)
          (apply_levels_steps s task output (1 + i) i (i + 1) cleared filled
            (ap (λ (n : ℕ). checked_sub n 1) one_more ∙ checked_sub-add i 1)
            (set_checked-lt s.levels i (1 + i, [])
              (omega (arith, get_elem?-lt s.levels (i + 1) _ at.lower)))
            (ap (λ (n : ℕ). checked_sub n 1) lower_number ∙ checked_sub-add (i + 1) 1)
            (set_checked-lt cleared (i + 1) (task.lower_level, output)
              (omega (
                arith,
                length-set s.levels i (1 + i, []),
                get_elem?-lt s.levels (i + 1) _ at.lower,
              ))))),
    (
      λ a. omega (
        arith,
        count-append a s.l0_sstables (level_files filled),
        count-append a s.l0_sstables (level_files s.levels),
        count-append a task.upper_level_sst_ids task.lower_level_sst_ids,
        count-set a i (1 + i) (1 + i) s.levels task.upper_level_sst_ids [] at.upper,
        count-set a (i + 1) (1 + i + 1) task.lower_level cleared task.lower_level_sst_ids output
            still_there,
      ),
      subst (λ (n : ℕ). NumberedFrom 1 (set cleared (i + 1) (n, output))) lower_is
          (NumberedFrom-set 1 (i + 1) cleared output (NumberedFrom-set 1 i s.levels [] numbered)),
    ),
  )
    where
      cleared : List Level
      cleared = set s.levels i (1 + i, [])

      filled : List Level
      filled = set cleared (i + 1) (task.lower_level, output)

      one_more : 1 + i ≡ i + 1
      one_more = omega arith

      lower_number : task.lower_level ≡ i + 1 + 1
      lower_number = omega (arith, at.lower_number)

      lower_is : 1 + (i + 1) ≡ task.lower_level
      lower_is = omega (arith, at.lower_number)

      apart : i ≢ i + 1
      apart = omega arith

      still_there : get_elem? cleared (i + 1) ≡ some (1 + i + 1, task.lower_level_sst_ids)
      still_there = get_elem?-set_ne s.levels i (i + 1) (1 + i, []) apart ∙ at.lower

  -- What a task for L0 says.
  record IsL0Task (s : LsmStorageState Mem Sst) (task : SimpleLeveledCompactionTask) : Type 0 where
    l1_number : ℕ
    l1 : get_elem? s.levels 0 ≡ some (l1_number, task.lower_level_sst_ids)
    no_upper : task.upper_level ≡ none
    upper_ids : task.upper_level_sst_ids ≡ s.l0_sstables

  l0_task-IsL0Task :
      (s : LsmStorageState Mem Sst) (task : SimpleLeveledCompactionTask)
      → l0_task s ≡ some task
      → IsL0Task s task
  unfolding l0_task
  l0_task-IsL0Task s task h =
      let (l1, at, made) = >>=-eq-some (get_elem? s.levels 0) _ h in
      let same = some-injective _ _ made in
      record {
        l1_number = l1.0;
        l1 = at ∙ ap (λ (t : SimpleLeveledCompactionTask). some (l1.0, t.lower_level_sst_ids)) same;
        no_upper = sym (ap (λ (t : SimpleLeveledCompactionTask). t.upper_level) same);
        upper_ids = sym (ap (λ (t : SimpleLeveledCompactionTask). t.upper_level_sst_ids) same);
      }

  -- A task for L0, applied to a tree that also holds what was flushed meanwhile.
  conserve_l0 :
      (s : LsmStorageState Mem Sst) (task : SimpleLeveledCompactionTask) (newer output : List ℕ)
      → NumberedFrom 1 s.levels
      → IsL0Task s task
      → ((a : ℕ) → contains s.l0_sstables a ≡ true → count a newer ≡ 0)
      → (r : LsmStorageState Mem Sst × List ℕ) × (apply_compaction_result
            (flushed newer s)
            task
            output
          ≡ some r)
        × Conserves (flushed newer s) output r
  conserve_l0 s task newer output numbered at fresh = (
    (s', task.upper_level_sst_ids ++ task.lower_level_sst_ids),
    apply_steps (flushed newer s) s' task output (
        subst (λ u. apply_levels u (flushed newer s) task output ≡ some s') (sym at.no_upper)
          (apply_l0_steps (flushed newer s) task output (set s.levels 0 (1, output))
            (set_checked-lt s.levels 0 (1, output) (get_elem?-lt s.levels 0 _ at.l1)))),
    (
      λ a. omega (
        arith,
        count-kept a task.upper_level_sst_ids s.l0_sstables newer at.upper_ids (fresh a),
        count-append a kept (level_files (set s.levels 0 (1, output))),
        count-append a (newer ++ s.l0_sstables) (level_files s.levels),
        count-append a task.upper_level_sst_ids task.lower_level_sst_ids,
        count-set a 0 at.l1_number 1 s.levels task.lower_level_sst_ids output at.l1,
      ),
      NumberedFrom-set 1 0 s.levels output numbered,
    ),
  )
    where
      kept : List ℕ
      kept = filter (λ id. not (contains task.upper_level_sst_ids id)) (newer ++ s.l0_sstables)

      s' : LsmStorageState Mem Sst
      s' = record (flushed newer s) { l0_sstables = kept; levels = set s.levels 0 (1, output) }

  generate-cases :
      (o : SimpleLeveledCompactionOptions) (s : LsmStorageState Mem Sst)
      (task : SimpleLeveledCompactionTask)
      → generate_compaction_task o s ≡ some (some task)
      → (l0_task s ≡ some task) ⊎ (find_level o (length s.levels) s.levels ≡ some task)
  unfolding generate_compaction_task
  generate-cases o s task h =
      elim (Bool-cases (leb o.level0_file_num_compaction_trigger (length s.l0_sstables))) [
        | inl many ↦
            let (t, made, same) = >>=-eq-some (l0_task s) (λ t. some (some t)) (rw many at h) in
            inl (made ∙ some-injective _ _ same)
        | inr few ↦
            let (n, made, same) =
              >>=-eq-some (checked_sub (length s.levels) 1)
                (λ n. some (find_level o (length s.levels) s.levels)) (rw few at h) in
            inr (some-injective _ _ same)
      ]

  -- A task that was generated can be applied after further flushes to L0, of tables with ids that L0
  -- had not: every file is then in the tree as often as it was, less the files that are removed, plus
  -- the output, and the levels stay numbered from 1.
  pub apply-generate :
      (o : SimpleLeveledCompactionOptions) (s : LsmStorageState Mem Sst)
      (task : SimpleLeveledCompactionTask) (newer output : List ℕ)
      → NumberedFrom 1 s.levels
      → generate_compaction_task o s ≡ some (some task)
      → ((a : ℕ) → contains s.l0_sstables a ≡ true → count a newer ≡ 0)
      → (r : LsmStorageState Mem Sst × List ℕ) × (apply_compaction_result
            (flushed newer s)
            task
            output
          ≡ some r)
        × Conserves (flushed newer s) output r
  apply-generate o s task newer output numbered made fresh = elim (generate-cases o s task made) [
    | inl l0 ↦ conserve_l0 s task newer output numbered (l0_task-IsL0Task s task l0) fresh
    | inr between ↦
        let (i, at) = find_level-IsTaskAt o (length s.levels) 1 s.levels task numbered between in
        conserve_upper (flushed newer s) task output i numbered (record {
          upper = at.upper;
          lower = at.lower;
          upper_number = at.upper_number;
          lower_number = at.lower_number;
        })
  ]
