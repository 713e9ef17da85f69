-- ===== src/Compact/Tiered/Conserve.antt =====
-- What a tiered compaction does to the tiers, and which tiers a task takes.
use tiny_lsm.Common.{
  ℕ, ◌≡◌, refl, ap, sym, ◌∙◌, Bool, true, false, none, some, List, [], ◌∷◌, ◌++◌, get_elem?,
  append_assoc, append-nil, arith, ==_iff,
}
use tiny_lsm.Storage.State.{LsmStorageState, Level, lookup, remove, level_files}
use tiny_lsm.Compact.Tiered.{
  TieredCompactionTask, tier_map, same_ids, Pass, visit_tier, add_new_tier, visit_tiers,
  apply_compaction_result,
}

-- No two tiers have one number.
abbrev pub AreDistinct : List Level → Type 0
AreDistinct [] = Unit
AreDistinct ((n, ids) ∷ tiers) = (lookup n tiers ≡ none) × AreDistinct tiers

-- No tier of the first list has its number in the second.
abbrev pub AllAbsent : List Level → List Level → Type 0
AllAbsent [] tiers = Unit
AllAbsent ((n, ids) ∷ before) tiers = (lookup n tiers ≡ none) × AllAbsent before tiers

same_ids_refl : (ids : List ℕ) → same_ids ids ids ≡ true
unfolding same_ids
same_ids_refl [] = refl
same_ids_refl (a ∷ ids) = ground (arith, same_ids_refl ids)

remove-absent : (n : ℕ) (tiers : List Level) → lookup n tiers ≡ none → remove n tiers ≡ tiers
remove-absent n [] h = refl
remove-absent n ((m, ids) ∷ tiers) h = ground (arith, remove-absent n tiers)

tier_map-AreDistinct : (tiers : List Level) → AreDistinct tiers → tier_map tiers ≡ tiers
unfolding tier_map
tier_map-AreDistinct [] d = refl
tier_map-AreDistinct ((n, ids) ∷ tiers) d = ground (arith, tier_map-AreDistinct tiers d.1)

visit_tiers-cons :
    (output : List ℕ) (tier : Level) (tiers : List Level) (p q r : Pass)
    → visit_tier p tier ≡ some q
    → add_new_tier output q ≡ some r
    → visit_tiers output (tier ∷ tiers) p ≡ visit_tiers output tiers r
unfolding visit_tiers
visit_tiers-cons output tier tiers p q r h k = rw h (rw k)

-- The state of the loop.
abbrev pass : List Level → List Level → Bool → List ℕ → Pass
pass todo levels added files = record {
  tier_to_remove = todo;
  levels = levels;
  new_tier_added = added;
  files_to_remove = files;
}

visit_found :
    (n : ℕ) (ids : List ℕ) (todo levels : List Level) (added : Bool) (files : List ℕ)
    → lookup n todo ≡ none
    → visit_tier (pass ((n, ids) ∷ todo) levels added files) (n, ids)
      ≡ some (pass todo levels added (files ++ ids))
unfolding visit_tier
visit_found n ids todo levels added files h =
    ground (arith, same_ids_refl ids, remove-absent n todo h, ==_iff n n)

visit_kept :
    (n : ℕ) (ids : List ℕ) (todo levels : List Level) (added : Bool) (files : List ℕ)
    → lookup n todo ≡ none
    → visit_tier (pass todo levels added files) (n, ids)
      ≡ some (pass todo (levels ++ (n, ids) ∷ []) added files)
unfolding visit_tier
visit_kept n ids todo levels added files h = rw (h, visit_tier)

module _ (output : List ℕ) where
  -- The pass over the tiers before those of the task, which it keeps.
  pass_before :
      (before rest todo : List Level) (t : Level) (levels : List Level) (files : List ℕ)
      → AllAbsent before (t ∷ todo)
      → visit_tiers output (before ++ rest) (pass (t ∷ todo) levels false files)
        ≡ visit_tiers output rest (pass (t ∷ todo) (levels ++ before) false files)
  unfolding add_new_tier
  pass_before [] rest todo t levels files absent = rw (append-nil levels)
  pass_before ((n, ids) ∷ before) rest todo t levels files absent =
      visit_tiers-cons output (n, ids) (before ++ rest) (pass (t ∷ todo) levels false files)
        (pass (t ∷ todo) (levels ++ (n, ids) ∷ []) false files)
        (pass (t ∷ todo) (levels ++ (n, ids) ∷ []) false files)
        (visit_kept n ids (t ∷ todo) levels false files absent.0) refl
      ∙ pass_before before rest todo t (levels ++ (n, ids) ∷ []) files absent.1
      ∙ ap (λ (ls : List Level). visit_tiers output rest (pass (t ∷ todo) ls false files))
          (append_assoc levels ((n, ids) ∷ []) before)

  -- The pass over the tiers behind those of the task, which it keeps too.
  pass_after :
      (after levels : List Level) (files : List ℕ)
      → visit_tiers output after (pass [] levels true files)
        ≡ some (pass [] (levels ++ after) true files)
  unfolding visit_tiers
  pass_after [] levels files = rw (append-nil levels)
  pass_after ((n, ids) ∷ after) levels files =
      pass_after after (levels ++ (n, ids) ∷ []) files
      ∙ ap (λ (ls : List Level). some (pass [] ls true files))
          (append_assoc levels ((n, ids) ∷ []) after)

  -- The pass over the tiers of the task: they are removed, and the new one takes their place.
  pass_task :
      (tier : Level) (tiers after levels : List Level) (files : List ℕ) (first : ℕ)
      → get_elem? output 0 ≡ some first
      → AreDistinct (tier ∷ tiers)
      → visit_tiers output ((tier ∷ tiers) ++ after) (pass (tier ∷ tiers) levels false files)
        ≡ visit_tiers output after
            (pass [] (levels ++ (first, output) ∷ []) true (files ++ level_files (tier ∷ tiers)))
  unfolding add_new_tier
  pass_task (n, ids) [] after levels files first at d =
      visit_tiers-cons output (n, ids) after (pass ((n, ids) ∷ []) levels false files)
        (pass [] levels false (files ++ ids))
        (pass [] (levels ++ (first, output) ∷ []) true (files ++ ids))
        (visit_found n ids [] levels false files refl) (rw at)
      ∙ ap
          (λ (l : List ℕ).
            visit_tiers output after (pass [] (levels ++ (first, output) ∷ []) true (files ++ l)))
          (sym (append-nil ids))
  pass_task (n, ids) (next ∷ tiers) after levels files first at d =
      visit_tiers-cons output (n, ids) ((next ∷ tiers) ++ after)
        (pass ((n, ids) ∷ next ∷ tiers) levels false files)
        (pass (next ∷ tiers) levels false (files ++ ids))
        (pass (next ∷ tiers) levels false (files ++ ids))
        (visit_found n ids (next ∷ tiers) levels false files d.0) refl
      ∙ pass_task next tiers after levels (files ++ ids) first at d.1
      ∙ ap
          (λ (l : List ℕ).
            visit_tiers output after (pass [] (levels ++ (first, output) ∷ []) true l))
          (append_assoc files ids (level_files (next ∷ tiers)))

module _ {Mem Sst : Type 0} where
  apply_steps :
      (s : LsmStorageState Mem Sst) (task : TieredCompactionTask) (output : List ℕ)
      (levels : List Level) (removed : List ℕ)
      → s.l0_sstables ≡ []
      → visit_tiers output s.levels (pass (tier_map task.tiers) [] false [])
        ≡ some (pass [] levels true removed)
      → apply_compaction_result s task output ≡ some (record s { levels = levels }, removed)
  unfolding apply_compaction_result
  apply_steps s task output levels removed empty ran = rw empty (rw ran)

  -- A task whose tiers stand side by side in the tree, under numbers of their own, is applied: the
  -- first file of the output numbers a new tier in their place, the tiers before and behind them
  -- (those flushed meanwhile among them) stay as they are, and their files are removed.
  pub apply-tiers :
      (s : LsmStorageState Mem Sst) (task : TieredCompactionTask) (before after tiers : List Level)
      (tier : Level) (output : List ℕ) (first : ℕ)
      → s.l0_sstables ≡ []
      → s.levels ≡ before ++ ((tier ∷ tiers) ++ after)
      → task.tiers ≡ tier ∷ tiers
      → AreDistinct (tier ∷ tiers)
      → AllAbsent before (tier ∷ tiers)
      → get_elem? output 0 ≡ some first
      → apply_compaction_result s task output
        ≡ some (record s { levels = before ++ (first, output) ∷ after }, level_files (tier ∷ tiers))
  apply-tiers s task before after tiers tier output first empty levels same distinct absent at =
      apply_steps s task output (before ++ (first, output) ∷ after) (level_files (tier ∷ tiers))
        empty
        (rw (levels, same, tier_map-AreDistinct (tier ∷ tiers) distinct)
          (pass_before output before ((tier ∷ tiers) ++ after) tiers tier [] [] absent
            ∙ pass_task output tier tiers after before [] first at distinct
            ∙ pass_after output after (before ++ (first, output) ∷ []) (level_files (tier ∷ tiers))
            ∙ ap (λ (ls : List Level). some (pass [] ls true (level_files (tier ∷ tiers))))
                (append_assoc before ((first, output) ∷ []) after)))
