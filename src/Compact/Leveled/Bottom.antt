-- ===== src/Compact/Leveled/Bottom.antt =====
-- A leveled compaction goes to a level that the tree has.
use mathlib.Core.Bool.{false≢true}
use native.Mathlib.Decide.{ℕ_discrete}
use tiny_lsm.Common.{
  ℕ, suc, ◌+◌, ◌≤◌, ◌<◌, ◌≡◌, inl, inr, refl, ap, sym, ◌∙◌, subst, true, none, some, some-injective,
  List, [], ◌∷◌, length, get_elem?, arith, guard, >>=-eq-some, ltb, ◌==◌, checked_sub, Bool-cases,
  if-cases, get_elem?-lt,
}
use tiny_lsm.Key.{Key}
use tiny_lsm.Storage.State.{LsmStorageState}
use tiny_lsm.Compact.Float.{Float}
use tiny_lsm.Compact.Leveled.{
  LeveledCompactionOptions, LeveledCompactionTask, Targets, target_sizes, priorities, comes_first,
  insert_priority, sort_priorities, l0_task, level_task, priority_task, generate_compaction_task,
  real_sizes, find_overlapping_ssts, min_id,
}
use tiny_lsm.Compact.Leveled.Sizes.{target_sizes-bottom}

abbrev All {ℓ} : {A : Type ℓ} → (A → Type 0) → List A → Type 0
All P [] = Unit
All P (x ∷ xs) = P x × All P xs

module _ (float : Float) where
  open float use {F, of_usize, div, lt, div-not-above_one}

  -- What a priority says of the level with its number.
  record IsAbove (k : ℕ) (real target : List ℕ) (x : F × ℕ) : Type 0 where
    i : ℕ
    r : ℕ
    v : ℕ
    number : x.1 ≡ k + i + 1
    real_at : get_elem? real i ≡ some r
    target_at : get_elem? target i ≡ some v
    pos : 0 < v
    above : lt (of_usize 1) (div (of_usize r) (of_usize v)) ≡ true

  weaken :
      (k r t : ℕ) (rs ts : List ℕ) (xs : List (F × ℕ))
      → All (IsAbove (k + 1) rs ts) xs
      → All (IsAbove k (r ∷ rs) (t ∷ ts)) xs
  weaken k r t rs ts [] h = tt
  weaken k r t rs ts (x ∷ xs) (a, h) = (
    record {
      i = suc a.i;
      r = a.r;
      v = a.v;
      number = omega (arith, a.number);
      real_at = a.real_at;
      target_at = a.target_at;
      pos = a.pos;
      above = a.above;
    },
    weaken k r t rs ts xs h,
  )

  no_real :
      (k t : ℕ) (ts : List ℕ) (xs : List (F × ℕ))
      → All (IsAbove (k + 1) [] ts) xs
      → All (IsAbove k [] (t ∷ ts)) xs
  no_real k t ts [] h = tt
  no_real k t ts (x ∷ xs) (a, h) = absurd (cc (a.real_at))

  priorities-IsAbove :
      (k : ℕ) (real target : List ℕ) (xs : List (F × ℕ))
      → priorities float k real target ≡ some xs
      → All (IsAbove k real target) xs
  unfolding priorities
  priorities-IsAbove k real [] xs h = subst (All (IsAbove k real [])) (some-injective _ _ h) tt
  priorities-IsAbove k [] (t ∷ ts) xs h =
      let (u, g, rest) = >>=-eq-some (guard (t == 0)) _ h in
      no_real k t ts xs (priorities-IsAbove (k + 1) [] ts xs rest)
  priorities-IsAbove k (r ∷ rs) (t ∷ ts) xs h =
      let (ys, ran, made) = >>=-eq-some (priorities float (k + 1) rs ts) _ h in
      let later = weaken k r t rs ts ys (priorities-IsAbove (k + 1) rs ts ys ran) in
      subst (All (IsAbove k (r ∷ rs) (t ∷ ts))) (some-injective _ _ made)
        (elim (Bool-cases (t == 0)) [
          | inl none_yet ↦ rw none_yet later
          | inr some_size ↦
              rw some_size (elim (Bool-cases (lt (of_usize 1) (div (of_usize r) (of_usize t)))) [
                | inl high ↦ rw high (
                  record {
                    i = 0;
                    r = r;
                    v = t;
                    number = omega arith;
                    real_at = refl;
                    target_at = refl;
                    pos = ground arith;
                    above = high;
                  },
                  later,
                )
                | inr low ↦ rw low later
              ])
        ])

  All-insert :
      (P : F × ℕ → Type 0) (x : F × ℕ) (ys : List (F × ℕ))
      → P x
      → All P ys
      → All P (insert_priority float x ys)
  unfolding insert_priority
  All-insert P x [] h k = (h, tt)
  All-insert P x (y ∷ ys) h k = elim (Bool-cases (comes_first float x y)) [
    | inl before ↦ rw before (h, k)
    | inr behind ↦ rw behind (k.0, All-insert P x ys h k.1)
  ]

  All-sort : (P : F × ℕ → Type 0) (xs : List (F × ℕ)) → All P xs → All P (sort_priorities float xs)
  unfolding sort_priorities
  All-sort P [] h = tt
  All-sort P (x ∷ xs) h = All-insert P x (sort_priorities float xs) h.0 (All-sort P xs h.1)

module _ (float : Float) where
  open float use {F, of_usize, div, lt, div-not-above_one}

  -- A level above its target is not the bottom one.
  level_below_bottom :
      (o : LeveledCompactionOptions) (real : List ℕ) (t : Targets) (x : F × ℕ)
      → target_sizes o real ≡ some t
      → IsAbove float 0 real t.sizes x
      → (1 ≤ x.1) × (x.1 + 1 ≤ o.max_levels)
  level_below_bottom o real t x made above =
      let (bottom, r, v, whole, real_at, target_at, le, low, high, len) =
        target_sizes-bottom o real t made in
      let inside = get_elem?-lt t.sizes above.i above.v above.target_at in
      elim (ℕ_discrete above.i bottom) [
        | yes same ↦
            let real_same : above.r ≡ r =
              some-injective _ _ (sym above.real_at ∙ ap (get_elem? real) same ∙ real_at) in
            let target_same : above.v ≡ v =
              some-injective _ _ (sym above.target_at ∙ ap (get_elem? t.sizes) same ∙ target_at) in
            absurd (
              false≢true
                (sym (div-not-above_one above.r above.v above.pos (omega arith)) ∙ above.above))
        | no other ↦ (omega (arith, above.number), omega (arith, above.number))
      ]

module _ {Mem Sst : Type 0} (first_key last_key : Sst → Key) (o : LeveledCompactionOptions)
    (s : LsmStorageState Mem Sst) (task : LeveledCompactionTask) where
  l0_task_fields :
      (base : ℕ)
      → l0_task first_key last_key o s base ≡ some task
      → (task.upper_level ≡ none) × (task.lower_level ≡ base)
  unfolding l0_task
  l0_task_fields base h =
      let (lower, ran, made) =
        >>=-eq-some (find_overlapping_ssts first_key last_key s s.l0_sstables base) _ h in
      let same = some-injective _ _ made in
      (
        sym (ap (λ (t : LeveledCompactionTask). t.upper_level) same),
        sym (ap (λ (t : LeveledCompactionTask). t.lower_level) same),
      )

  level_task_fields :
      (level : ℕ)
      → level_task first_key last_key o s level ≡ some task
      → (task.upper_level ≡ some level) × (task.lower_level ≡ level + 1)
  unfolding level_task
  level_task_fields level h =
      let (idx, a, h1) = >>=-eq-some (checked_sub level 1) _ h in
      let (upper, b, h2) = >>=-eq-some (get_elem? s.levels idx) _ h1 in
      let (selected, c, h3) = >>=-eq-some (min_id upper.1) _ h2 in
      let (lower, d, made) =
        >>=-eq-some (find_overlapping_ssts first_key last_key s (selected ∷ []) (level + 1)) _ h3 in
      let same = some-injective _ _ made in
      (
        sym (ap (λ (t : LeveledCompactionTask). t.upper_level) same),
        sym (ap (λ (t : LeveledCompactionTask). t.lower_level) same),
      )

-- The task goes to a level between 1 and the number of levels, and from a level to the next one.
abbrev pub GoesDown : LeveledCompactionOptions → LeveledCompactionTask → Type 0
GoesDown o task =
    (1 ≤ task.lower_level)
    × (task.lower_level ≤ o.max_levels)
    × (elim task.upper_level [ none ↦ Unit | some u ↦ (1 ≤ u) × (task.lower_level ≡ u + 1) ])

module _ (float : Float) {Mem Sst : Type 0} (first_key last_key : Sst → Key)
    (table_size : Sst → ℕ) where
  open float use {F, of_usize, div, lt, div-not-above_one}

  priority_task-first :
      (o : LeveledCompactionOptions) (s : LsmStorageState Mem Sst) (task : LeveledCompactionTask)
      (ps : List (F × ℕ)) (P : F × ℕ → Type 0)
      → All P ps
      → priority_task float first_key last_key table_size o s ps ≡ some (some task)
      → (x : F × ℕ) × P x × (level_task first_key last_key o s x.1 ≡ some task)
  unfolding priority_task
  priority_task-first o s task [] P h e = absurd (cc (some-injective _ _ e))
  priority_task-first o s task (x ∷ ps) P h e =
      let (t, ran, made) =
        >>=-eq-some (level_task first_key last_key o s x.1) (λ t. some (some t)) e in
      (x, h.0, ran ∙ some-injective _ _ made)

  l0-GoesDown :
      (o : LeveledCompactionOptions) (s : LsmStorageState Mem Sst) (task : LeveledCompactionTask)
      (real : List ℕ) (t : Targets)
      → target_sizes o real ≡ some t
      → l0_task first_key last_key o s t.base_level ≡ some task
      → GoesDown o task
  l0-GoesDown o s task real t made ran =
      let (bottom, r, v, whole, real_at, target_at, le, low, high, len) =
        target_sizes-bottom o real t made in
      let (none_up, lower) = l0_task_fields first_key last_key o s task t.base_level ran in
      (omega arith, omega arith, rw none_up tt)

  level-GoesDown :
      (o : LeveledCompactionOptions) (s : LsmStorageState Mem Sst) (task : LeveledCompactionTask)
      (real : List ℕ) (t : Targets) (ps : List (F × ℕ))
      → target_sizes o real ≡ some t
      → priorities float 0 real t.sizes ≡ some ps
      → priority_task float first_key last_key table_size o s (sort_priorities float ps)
        ≡ some (some task)
      → GoesDown o task
  level-GoesDown o s task real t ps made found ran =
      let (x, above, ran') =
        priority_task-first o s task (sort_priorities float ps) (IsAbove float 0 real t.sizes)
          (All-sort float (IsAbove float 0 real t.sizes) ps
            (priorities-IsAbove float 0 real t.sizes ps found))
          ran in
      let (up, lower) = level_task_fields first_key last_key o s task x.1 ran' in
      let range = level_below_bottom float o real t x made above in
      (omega arith, omega arith, rw up (omega arith, omega arith))

  -- Every task that is generated goes to a level that the tree has, and a level is compacted into the
  -- next one: the bottom level, whose target is at least its size, is never the upper level.
  pub generate-GoesDown :
      (o : LeveledCompactionOptions) (s : LsmStorageState Mem Sst) (task : LeveledCompactionTask)
      → generate_compaction_task float first_key last_key table_size o s ≡ some (some task)
      → GoesDown o task
  unfolding generate_compaction_task
  generate-GoesDown o s task h =
      let (real, a, h1) = >>=-eq-some (real_sizes table_size s.sstables s.levels) _ h in
      let (t, b, h2) = >>=-eq-some (target_sizes o real) _ h1 in
      elim (if-cases (ltb o.level0_file_num_compaction_trigger (length s.l0_sstables)) _ _ _ h2) [
        | inl (many, e) ↦
            let (l0, c, made) = >>=-eq-some (l0_task first_key last_key o s t.base_level) _ e in
            l0-GoesDown o s task real t b (c ∙ some-injective _ _ made)
        | inr (few, e) ↦
            let (ps, c, made) = >>=-eq-some (priorities float 0 real t.sizes) _ e in
            level-GoesDown o s task real t ps b c made
      ]
