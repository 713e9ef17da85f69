-- ===== src/Compact/Tiered.antt =====
-- compact/tiered.rs: the tree is a list of tiers, and neighbouring tiers are merged.
pub mod Conserve
pub mod Choose
use tiny_lsm.Common.{
  ℕ, zero, suc, ◌+◌, ◌-◌, ◌^◌, Bool, true, false, not, ◌&&◌, Option, none, some, List, [], ◌∷◌,
  ◌++◌, length, get_elem?, take, min, ◌>>=◌, ◌>>◌, guard, ltb, leb, ◌==◌, if◌then◌else◌,
  checked_sub,
}
use tiny_lsm.Key.{u64_max}
use tiny_lsm.Storage.State.{LsmStorageState, Level, lookup, remove, insert}
use tiny_lsm.Compact.Float.{Float}

pub record TieredCompactionOptions : Type 0 where
  pub num_tiers : ℕ
  pub max_size_amplification_percent : ℕ
  pub size_ratio : ℕ
  pub min_merge_width : ℕ
  pub max_merge_width : Option ℕ

pub record TieredCompactionTask : Type 0 where
  pub tiers : List Level
  pub bottom_tier_included : Bool

abbrev pub is_empty {ℓ} : {A : Type ℓ} → List A → Bool
is_empty [] = true
is_empty (x ∷ xs) = false

-- The files of all tiers but the last, and those of the last.
unfoldable pub size_of_upper : List Level → ℕ
size_of_upper [] = 0
size_of_upper (tier ∷ []) = 0
size_of_upper (tier ∷ next ∷ tiers) = length tier.1 + size_of_upper (next ∷ tiers)

unfoldable pub size_of_last : List Level → ℕ
size_of_last [] = 0
size_of_last (tier ∷ []) = length tier.1
size_of_last (tier ∷ next ∷ tiers) = size_of_last (next ∷ tiers)

-- `max_merge_width.unwrap_or(usize::MAX)`
abbrev pub width_or_max : Option ℕ → ℕ
width_or_max none = u64_max
width_or_max (some w) = w

module _ (float : Float) where
  open float use {F, of_usize, add, mul, div, lt, le}

  unfoldable pub amplification_trigger : TieredCompactionOptions → List Level → Bool
  unfolding size_of_upper size_of_last
  amplification_trigger o tiers =
      le (of_usize o.max_size_amplification_percent)
        (mul (div (of_usize (size_of_upper tiers)) (of_usize (size_of_last tiers))) (of_usize 100))

  -- The loop of the size ratio: `id` is the place of the tier, `size` the files before it. It gives
  -- the number of tiers to take.
  unfoldable pub ratio_loop : TieredCompactionOptions → ℕ → ℕ → List Level → Option ℕ
  ratio_loop o id size [] = none
  ratio_loop o id size (tier ∷ []) = none
  ratio_loop o id size (tier ∷ next ∷ tiers) =
      let size' = size + length tier.1 in
      let later = ratio_loop o (id + 1) size' (next ∷ tiers) in
      if lt (div (add (of_usize 100) (of_usize o.size_ratio)) (of_usize 100))
          (div (of_usize (length next.1)) (of_usize size'))
        && leb o.min_merge_width (id + 1)
      then some (id + 1)
      else later

  -- The last branch: the number of sorted runs is reduced.
  unfoldable pub reduce_task : TieredCompactionOptions → List Level → TieredCompactionTask
  reduce_task o levels =
      let num_tiers_to_take = min (length levels) (width_or_max o.max_merge_width) in
      record {
        tiers = take num_tiers_to_take levels;
        bottom_tier_included = leb num_tiers_to_take (length levels);
      }

  unfoldable pub choose_task : TieredCompactionOptions → List Level → TieredCompactionTask
  unfolding amplification_trigger ratio_loop reduce_task
  choose_task o levels =
      if amplification_trigger o levels
      then record { tiers = levels; bottom_tier_included = true }
      else elim (ratio_loop o 0 0 levels) [
        | some n ↦ record { tiers = take n levels; bottom_tier_included = false }
        | none ↦ reduce_task o levels
      ]

  module _ {Mem Sst : Type 0} where
    -- `generate_compaction_task`. It panics on a table in L0, and where there is no tier at all and
    -- `num_tiers` is 0.
    unfoldable pub generate_compaction_task :
        TieredCompactionOptions → LsmStorageState Mem Sst → Option (Option TieredCompactionTask)
    unfolding choose_task
    generate_compaction_task o snapshot = do
      guard (is_empty snapshot.l0_sstables)
      if ltb (length snapshot.levels) o.num_tiers
          then some none
          else (checked_sub (length snapshot.levels) 1 >>= λ _.
              some (some (choose_task o snapshot.levels)))

-- `collect` into a map from tier numbers: a later tier replaces an earlier one of its number.
unfoldable pub tier_map : List Level → List Level
tier_map [] = []
tier_map ((n, ids) ∷ tiers) =
    let rest = tier_map tiers in elim (lookup n rest) [ none ↦ (n, ids) ∷ rest | some later ↦ rest ]

-- `==` of two lists of ids
unfoldable pub same_ids : List ℕ → List ℕ → Bool
same_ids [] [] = true
same_ids [] (b ∷ bs) = false
same_ids (a ∷ as') [] = false
same_ids (a ∷ as') (b ∷ bs) = a == b && same_ids as' bs

pub record Pass : Type 0 where
  pub tier_to_remove : List Level
  pub levels : List Level
  pub new_tier_added : Bool
  pub files_to_remove : List ℕ

-- One round of the loop of `apply_compaction_result`: the tier is removed or kept.
unfoldable pub visit_tier : Pass → Level → Option Pass
unfolding same_ids
visit_tier p (tier_id, files) = elim (lookup tier_id p.tier_to_remove) [
  | some ffiles ↦ (do
    guard (same_ids ffiles files)
    some (record p {
      tier_to_remove = remove tier_id p.tier_to_remove;
      files_to_remove = p.files_to_remove ++ ffiles;
    }))
  | none ↦ some (record p { levels = p.levels ++ (tier_id, files) ∷ [] })
]

-- The end of the round: the new tier is added once, when all old ones were met.
unfoldable pub add_new_tier : List ℕ → Pass → Option Pass
add_new_tier output p =
    if is_empty p.tier_to_remove && not p.new_tier_added
    then (do
      first ← get_elem? output 0
      some (record p { new_tier_added = true; levels = p.levels ++ (first, output) ∷ [] }))
    else some p

unfoldable pub visit_tiers : List ℕ → List Level → Pass → Option Pass
unfolding visit_tier add_new_tier
visit_tiers output [] p = some p
visit_tiers output (tier ∷ tiers) p = do
  visited ← visit_tier p tier
  added ← add_new_tier output visited
  visit_tiers output tiers added

module _ {Mem Sst : Type 0} where
  -- `apply_compaction_result`: a tier of the task that is not found panics.
  unfoldable pub apply_compaction_result :
      LsmStorageState Mem Sst
      → TieredCompactionTask
      → List ℕ
      → Option (LsmStorageState Mem Sst × List ℕ)
  unfolding tier_map visit_tiers
  apply_compaction_result snapshot task output = do
    guard (is_empty snapshot.l0_sstables)
    p ← visit_tiers output snapshot.levels (record {
      tier_to_remove = tier_map task.tiers;
      levels = [];
      new_tier_added = false;
      files_to_remove = [];
    })
    guard (is_empty p.tier_to_remove)
    some (record snapshot { levels = p.levels }, p.files_to_remove)
