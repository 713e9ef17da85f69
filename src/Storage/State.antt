-- ===== src/Storage/State.antt =====
-- `LsmStorageState` of lsm_storage.rs, over any types of memtables and of tables, and the lookups in
-- its maps. An index out of range and a missing key panic.
use tiny_lsm.Common.{
  ℕ, ◌+◌, ◌≡◌, Option, none, some, List, [], ◌∷◌, ◌++◌, length, set, ltb, ◌==◌, if◌then◌else◌,
}

-- `(usize, Vec<usize>)`: the number of a level or of a tier, and the ids of its tables.
abbrev pub Level : Type 0
Level = ℕ × List ℕ

pub record LsmStorageState (Mem Sst : Type 0) : Type 0 where
  pub memtable : Mem
  pub imm_memtables : List Mem
  pub l0_sstables : List ℕ
  pub levels : List Level
  pub sstables : List (ℕ × Sst)

module _ {ℓ} {A : Type ℓ} where
  -- `HashMap::get` and `remove`, and `insert`, of a map from ids.
  abbrev pub lookup : ℕ → List (ℕ × A) → Option A
  lookup id [] = none
  lookup id ((j, x) ∷ m) = if j == id then some x else lookup id m

  abbrev pub remove : ℕ → List (ℕ × A) → List (ℕ × A)
  remove id [] = []
  remove id ((j, x) ∷ m) = let rest = remove id m in if j == id then rest else (j, x) ∷ rest

  abbrev pub insert : ℕ → A → List (ℕ × A) → List (ℕ × A)
  insert id x m = (id, x) ∷ remove id m

  -- `xs[i] = x`
  abbrev pub set_checked : List A → ℕ → A → Option (List A)
  set_checked xs i x = if ltb i (length xs) then some (set xs i x) else none

-- All table ids of a tree, with L0 first.
abbrev pub level_files : List Level → List ℕ
level_files [] = []
level_files ((n, ids) ∷ levels) = ids ++ level_files levels

abbrev pub files : {Mem Sst : Type 0} → LsmStorageState Mem Sst → List ℕ
files s = s.l0_sstables ++ level_files s.levels

-- The levels are numbered from `n` on.
abbrev pub NumberedFrom : ℕ → List Level → Type 0
NumberedFrom n [] = Unit
NumberedFrom n ((m, ids) ∷ levels) = (m ≡ n) × NumberedFrom (n + 1) levels
