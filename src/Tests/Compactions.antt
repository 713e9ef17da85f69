-- ===== src/Tests/Compactions.antt =====
-- The compaction controllers at concrete trees.
use tiny_lsm.Common.{
  ℕ, ◌+◌, ◌≤◌, ◌≡◌, refl, true, false, none, some, List, [], ◌∷◌, length, contains, count,
  get_elem?, arith,
}
use tiny_lsm.Key.{Key, from_slice, cmp, bytes_cmp}
use tiny_lsm.Storage.State.{LsmStorageState, Level}
use tiny_lsm.Compact.Simple
use tiny_lsm.Compact.Simple.{SimpleLeveledCompactionOptions, SimpleLeveledCompactionTask}
use tiny_lsm.Compact.Simple.Conserve.{Conserves, flushed, apply-generate}
use tiny_lsm.Compact.Tiered
use tiny_lsm.Compact.Tiered.{
  TieredCompactionOptions, TieredCompactionTask, choose_task, amplification_trigger, ratio_loop,
}
use tiny_lsm.Compact.Tiered.Conserve.{apply-tiers}
use tiny_lsm.Compact.Tiered.Choose.{TakesTop, choose_task-TakesTop}
use tiny_lsm.Compact.Leveled
use tiny_lsm.Compact.Leveled.{LeveledCompactionOptions, LeveledCompactionTask, Targets}
use tiny_lsm.Compact.Leveled.Bottom.{GoesDown, generate-GoesDown}
use tiny_lsm.Compact.Leveled.Sizes.{target_sizes-bottom}
use tiny_lsm.Tests.{test_float}

-- Memtables and tables are numbers here.
abbrev tree : List ℕ → List Level → LsmStorageState ℕ ℕ
tree l0 levels = record {
  memtable = 0;
  imm_memtables = [];
  l0_sstables = l0;
  levels = levels;
  sstables = [];
}

abbrev simple_options : SimpleLeveledCompactionOptions
simple_options = record {
  size_ratio_percent = 200;
  level0_file_num_compaction_trigger = 2;
  max_levels = 2;
}

abbrev simple_tree : LsmStorageState ℕ ℕ
simple_tree = tree (12 ∷ 11 ∷ []) ((1, 3 ∷ 4 ∷ []) ∷ (2, 5 ∷ []) ∷ [])

abbrev simple_task : SimpleLeveledCompactionTask
simple_task = record {
  upper_level = none;
  upper_level_sst_ids = 12 ∷ 11 ∷ [];
  lower_level = 1;
  lower_level_sst_ids = 3 ∷ 4 ∷ [];
  is_lower_level_bottom_level = false;
}

simple_generated :
    Simple.generate_compaction_task simple_options simple_tree ≡ some (some simple_task)
unfolding Simple.generate_compaction_task Simple.l0_task
simple_generated = refl

-- A table that was flushed meanwhile.
thirteen_fresh : (a : ℕ) → contains (12 ∷ 11 ∷ []) a ≡ true → count a (13 ∷ []) ≡ 0
thirteen_fresh a h = ground arith

apply-generate_example :
    (r : LsmStorageState ℕ ℕ × List ℕ) × (Simple.apply_compaction_result
        (flushed (13 ∷ []) simple_tree)
        simple_task
        (20 ∷ 21 ∷ [])
      ≡ some r)
    × Conserves (flushed (13 ∷ []) simple_tree) (20 ∷ 21 ∷ []) r
apply-generate_example =
    apply-generate simple_options simple_tree simple_task (13 ∷ []) (20 ∷ 21 ∷ [])
      (refl, (refl, tt)) simple_generated thirteen_fresh

abbrev tiered_options : TieredCompactionOptions
tiered_options = record {
  num_tiers = 2;
  max_size_amplification_percent = 10000;
  size_ratio = 10000;
  min_merge_width = 2;
  max_merge_width = some 2;
}

abbrev three_tiers : List Level
three_tiers = (9, 9 ∷ []) ∷ (8, 8 ∷ []) ∷ (7, 7 ∷ []) ∷ []

apply-tiers_example :
    Tiered.apply_compaction_result
      (tree [] ((10, 10 ∷ []) ∷ three_tiers))
      (record { tiers = (9, 9 ∷ []) ∷ (8, 8 ∷ []) ∷ []; bottom_tier_included = false })
      (30 ∷ 31 ∷ [])
    ≡ some (tree [] ((10, 10 ∷ []) ∷ (30, 30 ∷ 31 ∷ []) ∷ (7, 7 ∷ []) ∷ []), 9 ∷ 8 ∷ [])
apply-tiers_example =
    apply-tiers (tree [] ((10, 10 ∷ []) ∷ three_tiers))
      (record { tiers = (9, 9 ∷ []) ∷ (8, 8 ∷ []) ∷ []; bottom_tier_included = false })
      ((10, 10 ∷ []) ∷ []) ((7, 7 ∷ []) ∷ []) ((8, 8 ∷ []) ∷ []) (9, 9 ∷ []) (30 ∷ 31 ∷ []) 30 refl
      refl refl (refl, (refl, tt)) (refl, tt) refl

choose_task-TakesTop_example :
    TakesTop test_float (choose_task test_float tiered_options three_tiers) three_tiers
choose_task-TakesTop_example = choose_task-TakesTop test_float tiered_options three_tiers

abbrev leveled_options : LeveledCompactionOptions
leveled_options = record {
  level_size_multiplier = 2;
  level0_file_num_compaction_trigger = 0;
  max_levels = 2;
  base_level_size_mb = 1;
}

abbrev leveled_tree : LsmStorageState ℕ ℕ
leveled_tree = record {
  memtable = 0;
  imm_memtables = [];
  l0_sstables = 3 ∷ [];
  levels = (1, []) ∷ (2, 5 ∷ []) ∷ [];
  sstables = (3, 3) ∷ (5, 5) ∷ [];
}

abbrev key_of : ℕ → Key
key_of n = from_slice (n ∷ []) 0

abbrev leveled_task : LeveledCompactionTask
leveled_task = record {
  upper_level = none;
  upper_level_sst_ids = 3 ∷ [];
  lower_level = 2;
  lower_level_sst_ids = [];
  is_lower_level_bottom_level = true;
}

leveled_generated :
    Leveled.generate_compaction_task test_float key_of key_of
      (λ n. 100)
      leveled_options
      leveled_tree
    ≡ some (some leveled_task)
unfolding Leveled.generate_compaction_task cmp bytes_cmp
leveled_generated = refl

generate-GoesDown_example : GoesDown leveled_options leveled_task
generate-GoesDown_example =
    generate-GoesDown test_float key_of key_of (λ n. 100) leveled_options leveled_tree leveled_task
      leveled_generated

abbrev two_reals : List ℕ
two_reals = 0 ∷ 3000000 ∷ []

abbrev two_sizes : List ℕ
two_sizes = 1500000 ∷ 3000000 ∷ []

two_targets :
    Leveled.target_sizes leveled_options two_reals
    ≡ some (record { sizes = two_sizes; base_level = 1 })
unfolding Leveled.target_sizes
two_targets = refl

target_sizes-bottom_example :
    (bottom r v : ℕ) × (bottom + 1 ≡ 2)
    × (get_elem? two_reals bottom ≡ some r)
    × (get_elem? two_sizes bottom ≡ some v)
    × (r ≤ v)
    × (1 ≤ 1)
    × (1 ≤ 2)
    × (length two_sizes ≡ 2)
target_sizes-bottom_example =
    target_sizes-bottom leveled_options two_reals (record { sizes = two_sizes; base_level = 1 })
      two_targets
