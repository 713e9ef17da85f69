-- ===== src/Compact/Leveled.antt =====
-- compact/leveled.rs: levels with target sizes, and compaction of one table at a time.
pub mod Apply
pub mod Sizes
pub mod Bottom
use tiny_lsm.Common.{
  ℕ, zero, suc, ◌+◌, ◌-◌, ◌*◌, ◌/◌, Bool, true, false, not, ◌&&◌, ◌||◌, Option, none, some, List,
  [], ◌∷◌, ◌++◌, length, get_elem?, set, replicate, contains, ◌>>=◌, ◌>>◌, guard, ltb, leb, ◌==◌,
  if◌then◌else◌, checked_sub, max, min,
}
use tiny_lsm.Key.{Key, cmp, is_lt, is_le}
use tiny_lsm.Storage.State.{LsmStorageState, Level, lookup, set_checked}
use tiny_lsm.Compact.Float.{Float}

-- `upper_level` is `none` for a compaction of L0.
pub record LeveledCompactionTask : Type 0 where
  pub upper_level : Option ℕ
  pub upper_level_sst_ids : List ℕ
  pub lower_level : ℕ
  pub lower_level_sst_ids : List ℕ
  pub is_lower_level_bottom_level : Bool

pub record LeveledCompactionOptions : Type 0 where
  pub level_size_multiplier : ℕ
  pub level0_file_num_compaction_trigger : ℕ
  pub max_levels : ℕ
  pub base_level_size_mb : ℕ

-- `a / b` on `usize`, which panics at 0.
abbrev pub checked_div : ℕ → ℕ → Option ℕ
checked_div a zero = none
checked_div a (suc b) = some (a / suc b)

-- The target sizes and the base level.
pub record Targets : Type 0 where
  pub sizes : List ℕ
  pub base_level : ℕ

-- One round of the loop over the levels above the bottom, at index `i`.
unfoldable pub target_round : LeveledCompactionOptions → ℕ → Targets → Option Targets
target_round o i t = do
  next_level_size ← get_elem? t.sizes (i + 1)
  this_level_size ← checked_div next_level_size o.level_size_multiplier
  sizes ←
      (if ltb (o.base_level_size_mb * 1024 * 1024) next_level_size
        then set_checked t.sizes i this_level_size
        else some t.sizes)
  size ← get_elem? sizes i
  some (record { sizes = sizes; base_level = if ltb 0 size then i + 1 else t.base_level })

-- `for i in (0..n).rev()`
unfoldable pub target_loop : LeveledCompactionOptions → ℕ → Targets → Option Targets
unfolding target_round
target_loop o zero t = some t
target_loop o (suc i) t = do t' ← target_round o i t; target_loop o i t'

-- The target sizes: the bottom level has its real size or the base size, a level above it a fraction
-- of the next.
unfoldable pub target_sizes : LeveledCompactionOptions → List ℕ → Option Targets
unfolding target_loop
target_sizes o real_level_size = do
  bottom ← checked_sub o.max_levels 1
  real ← get_elem? real_level_size bottom
  sizes ←
      set_checked (replicate o.max_levels 0) bottom (max real (o.base_level_size_mb * 1024 * 1024))
  target_loop o bottom (record { sizes = sizes; base_level = o.max_levels })

-- `min` and `max` over ids, by the order of keys; an empty range panics at its `unwrap`.
unfoldable pub min_key : List Key → Option Key
min_key [] = none
min_key (k ∷ ks) = elim (min_key ks) [
  | none ↦ some k
  | some m ↦ some (if is_le (cmp k m) then k else m)
]

unfoldable pub max_key : List Key → Option Key
max_key [] = none
max_key (k ∷ ks) = elim (max_key ks) [
  | none ↦ some k
  | some m ↦ some (if is_le (cmp k m) then m else k)
]

unfoldable pub min_id : List ℕ → Option ℕ
min_id [] = none
min_id (a ∷ as') = elim (min_id as') [ none ↦ some a | some m ↦ some (min a m) ]

unfoldable pub keys_of : {Sst : Type 0} → (Sst → Key) → List (ℕ × Sst) → List ℕ → Option (List Key)
keys_of get sstables [] = some []
keys_of get sstables (id ∷ ids) = do
  sst ← lookup id sstables
  rest ← keys_of get sstables ids
  some (get sst ∷ rest)

unfoldable pub sum_sizes : {Sst : Type 0} → (Sst → ℕ) → List (ℕ × Sst) → List ℕ → Option ℕ
sum_sizes table_size sstables [] = some 0
sum_sizes table_size sstables (id ∷ ids) = do
  sst ← lookup id sstables
  rest ← sum_sizes table_size sstables ids
  some (table_size sst + rest)

unfoldable pub real_sizes :
    {Sst : Type 0} → (Sst → ℕ) → List (ℕ × Sst) → List Level → Option (List ℕ)
unfolding sum_sizes
real_sizes table_size sstables [] = some []
real_sizes table_size sstables (level ∷ levels) = do
  size ← sum_sizes table_size sstables level.1
  rest ← real_sizes table_size sstables levels
  some (size ∷ rest)

-- The ids whose key ranges meet the range from `begin_key` to `end_key`.
unfoldable pub overlapping :
    {Sst : Type 0}
    → (Sst → Key)
    → (Sst → Key)
    → List (ℕ × Sst)
    → Key
    → Key
    → List ℕ
    → Option (List ℕ)
overlapping first_key last_key sstables begin_key end_key [] = some []
overlapping first_key last_key sstables begin_key end_key (id ∷ ids) = do
  sst ← lookup id sstables
  rest ← overlapping first_key last_key sstables begin_key end_key ids
  some (
      if is_lt (cmp (last_key sst) begin_key) || is_lt (cmp end_key (first_key sst))
      then rest
      else id ∷ rest)

module _ {Mem Sst : Type 0} (first_key last_key : Sst → Key) where
  unfoldable pub find_overlapping_ssts : LsmStorageState Mem Sst → List ℕ → ℕ → Option (List ℕ)
  unfolding keys_of overlapping min_key max_key
  find_overlapping_ssts snapshot sst_ids in_level = do
    firsts ← keys_of first_key snapshot.sstables sst_ids
    begin_key ← min_key firsts
    lasts ← keys_of last_key snapshot.sstables sst_ids
    end_key ← max_key lasts
    idx ← checked_sub in_level 1
    level ← get_elem? snapshot.levels idx
    overlapping first_key last_key snapshot.sstables begin_key end_key level.1

  -- The task for L0, to the base level.
  unfoldable pub l0_task :
      LeveledCompactionOptions → LsmStorageState Mem Sst → ℕ → Option LeveledCompactionTask
  unfolding find_overlapping_ssts
  l0_task o snapshot base_level = do
    lower ← find_overlapping_ssts snapshot snapshot.l0_sstables base_level
    some (record {
      upper_level = none;
      upper_level_sst_ids = snapshot.l0_sstables;
      lower_level = base_level;
      lower_level_sst_ids = lower;
      is_lower_level_bottom_level = base_level == o.max_levels;
    })

  -- The task for a level, with its oldest table.
  unfoldable pub level_task :
      LeveledCompactionOptions → LsmStorageState Mem Sst → ℕ → Option LeveledCompactionTask
  unfolding find_overlapping_ssts min_id
  level_task o snapshot level = do
    idx ← checked_sub level 1
    upper ← get_elem? snapshot.levels idx
    selected_sst ← min_id upper.1
    lower ← find_overlapping_ssts snapshot (selected_sst ∷ []) (level + 1)
    some (record {
      upper_level = some level;
      upper_level_sst_ids = selected_sst ∷ [];
      lower_level = level + 1;
      lower_level_sst_ids = lower;
      is_lower_level_bottom_level = level + 1 == o.max_levels;
    })

module _ (float : Float) where
  open float use {F, of_usize, div, lt}

  -- The levels above their target, with their priorities; `level` counts from 0.
  unfoldable pub priorities : ℕ → List ℕ → List ℕ → Option (List (F × ℕ))
  priorities level real [] = some []
  priorities level [] (t ∷ ts) = do guard (t == 0); priorities (level + 1) [] ts
  priorities level (r ∷ rs) (t ∷ ts) = do
    rest ← priorities (level + 1) rs ts
    some (
        if t == 0
        then rest
        else if lt (of_usize 1) (div (of_usize r) (of_usize t))
        then (div (of_usize r) (of_usize t), level + 1) ∷ rest
        else rest)

  -- `a` comes before `b` in the order from the largest pair to the smallest.
  unfoldable pub comes_first : F × ℕ → F × ℕ → Bool
  comes_first (p, i) (q, j) = lt q p || (not (lt p q) && leb j i)

  unfoldable pub insert_priority : F × ℕ → List (F × ℕ) → List (F × ℕ)
  unfolding comes_first
  insert_priority x [] = x ∷ []
  insert_priority x (y ∷ ys) =
      let later = insert_priority x ys in if comes_first x y then x ∷ y ∷ ys else y ∷ later

  unfoldable pub sort_priorities : List (F × ℕ) → List (F × ℕ)
  unfolding insert_priority
  sort_priorities [] = []
  sort_priorities (x ∷ xs) = insert_priority x (sort_priorities xs)

  module _ {Mem Sst : Type 0} (first_key last_key : Sst → Key) (table_size : Sst → ℕ) where
    -- The task for the level of the first priority, if there is one.
    unfoldable pub priority_task :
        LeveledCompactionOptions
        → LsmStorageState Mem Sst
        → List (F × ℕ)
        → Option (Option LeveledCompactionTask)
    unfolding level_task
    priority_task o snapshot [] = some none
    priority_task o snapshot ((p, level) ∷ ps) = do
      task ← level_task first_key last_key o snapshot level
      some (some task)

    -- `generate_compaction_task`: the outer `none` is a panic, the inner one is no task.
    unfoldable pub generate_compaction_task :
        LeveledCompactionOptions → LsmStorageState Mem Sst → Option (Option LeveledCompactionTask)
    unfolding real_sizes target_sizes l0_task priorities sort_priorities priority_task
    generate_compaction_task o snapshot = do
      real_level_size ← real_sizes table_size snapshot.sstables snapshot.levels
      t ← target_sizes o real_level_size
      if ltb o.level0_file_num_compaction_trigger (length snapshot.l0_sstables)
          then (l0_task first_key last_key o snapshot t.base_level >>= λ task. some (some task))
          else (priorities 0 real_level_size t.sizes >>= λ ps.
              priority_task o snapshot (sort_priorities ps))
