-- ===== src/Compact/Float.antt =====
-- The floating-point numbers that the controllers compare sizes with. `f64` is a parameter: its
-- operations, and the one fact about a quotient that a property needs.
use tiny_lsm.Common.{ℕ, ◌≤◌, ◌<◌, ◌≡◌, Bool, false}

pub record Float : Type 1 where
  pub F : Type 0
  -- `n as f64`
  pub of_usize : ℕ → F
  pub add : F → F → F
  pub mul : F → F → F
  pub div : F → F → F
  -- `a < b` and `a <= b`
  pub lt : F → F → Bool
  pub le : F → F → Bool
  -- The conversion and the division are rounded monotonically, so that a quotient of a number by one
  -- that is not smaller is not above 1.
  pub div-not-above_one :
      (a b : ℕ) → 0 < b → a ≤ b → lt (of_usize 1) (div (of_usize a) (of_usize b)) ≡ false
