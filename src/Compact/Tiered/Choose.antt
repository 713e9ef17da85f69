-- ===== src/Compact/Tiered/Choose.antt =====
-- Which tiers a task takes.
use tiny_lsm.Common.{
  ℕ, ◌+◌, ◌<◌, ◌≡◌, ◌⊎◌, inl, inr, refl, sym, true, false, none, some, List, [], ◌∷◌, length, take,
  take-length, Bool-cases, Option-cases, arith, leb-eq-true, min,
}
use tiny_lsm.Storage.State.{Level}
use tiny_lsm.Compact.Float.{Float}
use tiny_lsm.Compact.Tiered.{
  TieredCompactionOptions, TieredCompactionTask, amplification_trigger, ratio_loop, reduce_task,
  choose_task,
}

min-of-lt : (n w : ℕ) → w < n → min n w ≡ w
min-of-lt n w h = omega arith

module _ (float : Float) where
  ratio_loop-le :
      (o : TieredCompactionOptions) (id size : ℕ) (levels : List Level) (n : ℕ)
      → ratio_loop float o id size levels ≡ some n
      → (id < n) × (n < id + length levels)
  unfolding ratio_loop
  ratio_loop-le o id size [] n h = cc
  ratio_loop-le o id size (tier ∷ []) n h = cc
  ratio_loop-le o id size (tier ∷ next ∷ tiers) n h =
      ground (arith, ratio_loop-le o (id + 1) (size + length tier.1) (next ∷ tiers) n)

  choose-amplification :
      (o : TieredCompactionOptions) (levels : List Level)
      → amplification_trigger float o levels ≡ true
      → choose_task float o levels ≡ record { tiers = levels; bottom_tier_included = true }
  unfolding choose_task
  choose-amplification o levels h = rw h

  choose-ratio :
      (o : TieredCompactionOptions) (levels : List Level) (n : ℕ)
      → amplification_trigger float o levels ≡ false
      → ratio_loop float o 0 0 levels ≡ some n
      → choose_task float o levels ≡ record { tiers = take n levels; bottom_tier_included = false }
  unfolding choose_task
  choose-ratio o levels n h k = rw h (rw k)

  choose-reduce :
      (o : TieredCompactionOptions) (levels : List Level)
      → amplification_trigger float o levels ≡ false
      → ratio_loop float o 0 0 levels ≡ none
      → choose_task float o levels ≡ reduce_task float o levels
  unfolding choose_task
  choose-reduce o levels h k = rw h (rw k)

  -- The tiers of the task stand at the top of the tree, and the task says that the bottom tier is
  -- included, or leaves at least one out.
  abbrev pub TakesTop : TieredCompactionTask → List Level → Type 0
  TakesTop task levels =
      (n : ℕ) × (task.tiers ≡ take n levels)
      × ((task.bottom_tier_included ≡ true) ⊎ (n < length levels))

  -- The tiers of the task that is chosen are the top ones of the tree, as they stand there, and if the
  -- task says that the bottom tier is not included, then at least one tier is left out.
  pub choose_task-TakesTop :
      (o : TieredCompactionOptions) (levels : List Level)
      → TakesTop (choose_task float o levels) levels
  unfolding reduce_task
  choose_task-TakesTop o levels = elim (Bool-cases (amplification_trigger float o levels)) [
    | inl amplified ↦
        rw (choose-amplification o levels amplified)
          (length levels, sym (take-length levels), inl refl)
    | inr calm ↦ elim (Option-cases (ratio_loop float o 0 0 levels)) [
      | inl balanced ↦
          rw (choose-reduce o levels calm balanced)
            (_, refl, inl (leb-eq-true _ (length levels) (omega arith)))
      | inr (n, found) ↦
          rw (choose-ratio o levels n calm found)
            (n, refl, inr (omega (arith, ratio_loop-le o 0 0 levels n found)))
    ]
  ]
