-- ===== src/Compact/Leveled/Apply.antt =====
-- `apply_compaction_result` of compact/leveled.rs.
use tiny_lsm.Common.{
  ℕ, Bool, true, false, Option, none, some, List, [], ◌∷◌, ◌++◌, get_elem?, contains, ◌>>=◌, ◌>>◌,
  guard, ◌==◌, if◌then◌else◌, checked_sub,
}
use tiny_lsm.Key.{Key, cmp, is_le}
use tiny_lsm.Storage.State.{LsmStorageState, lookup, set_checked}
use tiny_lsm.Compact.Leveled.{LeveledCompactionTask}

-- `collect` into a set of ids.
unfoldable pub id_set : List ℕ → List ℕ
id_set [] = []
id_set (a ∷ as') = let rest = id_set as' in if contains rest a then rest else a ∷ rest

-- `HashSet::remove`
unfoldable pub remove_id : ℕ → List ℕ → List ℕ
remove_id a [] = []
remove_id a (b ∷ bs) = let rest = remove_id a bs in if b == a then bs else b ∷ rest

-- `filter_map` with `remove`: what is kept of the ids, and what is left of the set.
unfoldable pub take_out : List ℕ → List ℕ → List ℕ × List ℕ
unfolding remove_id
take_out [] set = ([], set)
take_out (x ∷ xs) set =
    let rest = take_out xs (if contains set x then remove_id x set else set) in
    if contains set x then rest else (x ∷ rest.0, rest.1)

module _ {Sst : Type 0} (first_key : Sst → Key) where
  -- Whether one table comes before another in the sort of the lower level; an unknown id panics.
  unfoldable pub sorts_before : List (ℕ × Sst) → ℕ → ℕ → Option Bool
  sorts_before sstables x y = do
    a ← lookup x sstables
    b ← lookup y sstables
    some (is_le (cmp (first_key a) (first_key b)))

  unfoldable pub insert_sst : List (ℕ × Sst) → ℕ → List ℕ → Option (List ℕ)
  unfolding sorts_before
  insert_sst sstables x [] = some (x ∷ [])
  insert_sst sstables x (y ∷ ys) = do
    first ← sorts_before sstables x y
    later ← insert_sst sstables x ys
    some (if first then x ∷ y ∷ ys else y ∷ later)

  -- The stable `sort_by` of ids by the first keys of their tables.
  unfoldable pub sort_ssts : List (ℕ × Sst) → List ℕ → Option (List ℕ)
  unfolding insert_sst
  sort_ssts sstables [] = some []
  sort_ssts sstables (x ∷ xs) = do sorted ← sort_ssts sstables xs; insert_sst sstables x sorted

abbrev is_empty_ids : List ℕ → Bool
is_empty_ids [] = true
is_empty_ids (x ∷ xs) = false

-- The ids without those of the set, each of which must be among them.
unfoldable pub without_all : List ℕ → List ℕ → Option (List ℕ)
unfolding take_out id_set
without_all xs ids = do
  guard (is_empty_ids (take_out xs (id_set ids)).1)
  some (take_out xs (id_set ids)).0

module _ {Mem Sst : Type 0} where
  -- The tables of the upper level, or of L0, are taken out.
  unfoldable pub remove_upper :
      LsmStorageState Mem Sst → Option ℕ → List ℕ → Option (LsmStorageState Mem Sst)
  unfolding without_all
  remove_upper snapshot none ids = do
    kept ← without_all snapshot.l0_sstables ids
    some (record snapshot { l0_sstables = kept })
  remove_upper snapshot (some upper_level) ids = do
    idx ← checked_sub upper_level 1
    level ← get_elem? snapshot.levels idx
    kept ← without_all level.1 ids
    levels ← set_checked snapshot.levels idx (level.0, kept)
    some (record snapshot { levels = levels })

  -- The tables of the lower level are replaced by the output.
  unfoldable pub replace_lower :
      (Sst → Key)
      → LsmStorageState Mem Sst
      → LeveledCompactionTask
      → List ℕ
      → Bool
      → Option (LsmStorageState Mem Sst)
  unfolding without_all sort_ssts
  replace_lower first_key snapshot task output in_recovery = do
    idx ← checked_sub task.lower_level 1
    level ← get_elem? snapshot.levels idx
    kept ← without_all level.1 task.lower_level_sst_ids
    ids ←
        (if in_recovery
          then some (kept ++ output)
          else sort_ssts first_key snapshot.sstables (kept ++ output))
    levels ← set_checked snapshot.levels idx (level.0, ids)
    some (record snapshot { levels = levels })

  -- `apply_compaction_result`: the new state, and the ids of the removed tables.
  unfoldable pub apply_compaction_result :
      (Sst → Key)
      → LsmStorageState Mem Sst
      → LeveledCompactionTask
      → List ℕ
      → Bool
      → Option (LsmStorageState Mem Sst × List ℕ)
  unfolding remove_upper replace_lower
  apply_compaction_result first_key snapshot task output in_recovery = do
    upper_removed ← remove_upper snapshot task.upper_level task.upper_level_sst_ids
    state ← replace_lower first_key upper_removed task output in_recovery
    some (state, task.upper_level_sst_ids ++ task.lower_level_sst_ids)
