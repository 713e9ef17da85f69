-- ===== src/Iterators/Streams.antt =====
-- Several runs of entries, each in the order of its keys: which of them has the least key, and which
-- value they have together for a key.
use tiny_lsm.Common.{
  ℕ, zero, suc, ◌+◌, ◌<◌, ◌≡◌, refl, subst, true, Option, none, some, List, [], ◌∷◌, Bytes, arith,
  Ordering, length, set,
}
use tiny_lsm.Key.{Key, cmp, is_le}
use tiny_lsm.Key.Order.{cmp_trans, cmp_refl, eq_of_cmp}
use tiny_lsm.MemTable.{find_key}
use tiny_lsm.Iterators.Ascend.{AllAbove, Ascends}

abbrev pub Stream : Type 0
Stream = List (Key × Bytes)

-- The first value that a run has for the key.
unfoldable pub present : Key → List Stream → Option Bytes
present k [] = none
present k (s ∷ ss) =
    let rest = present k ss in elim (find_key k s) [ none ↦ rest | some v ↦ some v ]

abbrev pub AllAscend : List Stream → Type 0
AllAscend [] = Unit
AllAscend (s ∷ ss) = Ascends s × AllAscend ss

abbrev pub AllEmpty : List Stream → Type 0
AllEmpty [] = Unit
AllEmpty (s ∷ ss) = (s ≡ []) × AllEmpty ss

-- No head is below a key; every head is above it.
abbrev pub HeadsFrom : Key → List Stream → Type 0
HeadsFrom k [] = Unit
HeadsFrom k ([] ∷ ss) = HeadsFrom k ss
HeadsFrom k ((e ∷ es) ∷ ss) = (is_le (cmp k e.0) ≡ true) × HeadsFrom k ss

abbrev pub HeadsAbove : Key → List Stream → Type 0
HeadsAbove k [] = Unit
HeadsAbove k ([] ∷ ss) = HeadsAbove k ss
HeadsAbove k ((e ∷ es) ∷ ss) = (cmp k e.0 ≡ Ordering.lt) × HeadsAbove k ss

-- The i-th run has this entry at its head, the runs before it have heads above it, and those after it
-- none below it.
abbrev pub LeastAt : ℕ → Key × Bytes → Stream → List Stream → Type 0
LeastAt i e es [] = ⊥
LeastAt zero e es (s ∷ ss) = (s ≡ e ∷ es) × HeadsFrom e.0 ss
LeastAt (suc i) e es ([] ∷ ss) = LeastAt i e es ss
LeastAt (suc i) e es ((f ∷ fs) ∷ ss) = (cmp e.0 f.0 ≡ Ordering.lt) × LeastAt i e es ss

-- The number of entries
abbrev pub total : List Stream → ℕ
total [] = 0
total (s ∷ ss) = length s + total ss

le_of_lt : (j k : Key) → cmp j k ≡ Ordering.lt → is_le (cmp j k) ≡ true
le_of_lt j k h = rw h refl

le_trans : (j k l : Key) → is_le (cmp j k) ≡ true → is_le (cmp k l) ≡ true → is_le (cmp j l) ≡ true
le_trans j k l h g = ground (arith, cmp_trans j k l, eq_of_cmp j k, eq_of_cmp k l)

lt_le_trans : (j k l : Key) → cmp j k ≡ Ordering.lt → is_le (cmp k l) ≡ true → cmp j l ≡ Ordering.lt
lt_le_trans j k l h g = ground (arith, cmp_trans j k l, eq_of_cmp k l)

pub HeadsFrom-trans :
    (j k : Key) (ss : List Stream) → is_le (cmp j k) ≡ true → HeadsFrom k ss → HeadsFrom j ss
HeadsFrom-trans j k [] h from = tt
HeadsFrom-trans j k ([] ∷ ss) h from = HeadsFrom-trans j k ss h from
HeadsFrom-trans j k ((e ∷ es) ∷ ss) h from =
    (le_trans j k e.0 h from.0, HeadsFrom-trans j k ss h from.1)

pub HeadsAbove-trans :
    (j k : Key) (ss : List Stream) → cmp j k ≡ Ordering.lt → HeadsFrom k ss → HeadsAbove j ss
HeadsAbove-trans j k [] h from = tt
HeadsAbove-trans j k ([] ∷ ss) h from = HeadsAbove-trans j k ss h from
HeadsAbove-trans j k ((e ∷ es) ∷ ss) h from =
    (lt_le_trans j k e.0 h from.0, HeadsAbove-trans j k ss h from.1)

module _ (e : Key × Bytes) (es : Stream) where
  pub LeastAt-HeadsFrom : (i : ℕ) (ss : List Stream) → LeastAt i e es ss → HeadsFrom e.0 ss
  LeastAt-HeadsFrom i [] l = absurd l
  LeastAt-HeadsFrom zero (s ∷ ss) l = rw l.0 (rw (cmp_refl e.0) refl, l.1)
  LeastAt-HeadsFrom (suc i) ([] ∷ ss) l = LeastAt-HeadsFrom i ss l
  LeastAt-HeadsFrom (suc i) ((f ∷ fs) ∷ ss) l = (le_of_lt e.0 f.0 l.0, LeastAt-HeadsFrom i ss l.1)

  -- The least entry is above a key that all heads are above.
  pub LeastAt-above :
      (p : Key) (i : ℕ) (ss : List Stream)
      → LeastAt i e es ss
      → HeadsAbove p ss
      → cmp p e.0 ≡ Ordering.lt
  LeastAt-above p i [] l h = absurd l
  LeastAt-above p zero (s ∷ ss) l h = (subst (λ t. HeadsAbove p (t ∷ ss)) l.0 h).0
  LeastAt-above p (suc i) ([] ∷ ss) l h = LeastAt-above p i ss l h
  LeastAt-above p (suc i) ((f ∷ fs) ∷ ss) l h = LeastAt-above p i ss l.1 h.1

  pub LeastAt-from :
      (p : Key) (i : ℕ) (ss : List Stream)
      → LeastAt i e es ss
      → HeadsFrom p ss
      → is_le (cmp p e.0) ≡ true
  LeastAt-from p i [] l h = absurd l
  LeastAt-from p zero (s ∷ ss) l h = (subst (λ t. HeadsFrom p (t ∷ ss)) l.0 h).0
  LeastAt-from p (suc i) ([] ∷ ss) l h = LeastAt-from p i ss l h
  LeastAt-from p (suc i) ((f ∷ fs) ∷ ss) l h = LeastAt-from p i ss l.1 h.1

  pub LeastAt-lt : (i : ℕ) (ss : List Stream) → LeastAt i e es ss → i < length ss
  LeastAt-lt i [] l = absurd l
  LeastAt-lt zero (s ∷ ss) l = omega arith
  LeastAt-lt (suc i) ([] ∷ ss) l = omega (arith, LeastAt-lt i ss l)
  LeastAt-lt (suc i) ((f ∷ fs) ∷ ss) l = omega (arith, LeastAt-lt i ss l.1)

  pub LeastAt-Ascends :
      (i : ℕ) (ss : List Stream) → LeastAt i e es ss → AllAscend ss → Ascends (e ∷ es)
  LeastAt-Ascends i [] l up = absurd l
  LeastAt-Ascends zero (s ∷ ss) l up = subst Ascends l.0 up.0
  LeastAt-Ascends (suc i) ([] ∷ ss) l up = LeastAt-Ascends i ss l up.1
  LeastAt-Ascends (suc i) ((f ∷ fs) ∷ ss) l up = LeastAt-Ascends i ss l.1 up.1

  -- The run without its least entry
  pub total-set :
      (i : ℕ) (ss : List Stream) → LeastAt i e es ss → total (set ss i es) + 1 ≡ total ss
  total-set i [] l = absurd l
  total-set zero (s ∷ ss) l = rw l.0 (omega arith)
  total-set (suc i) ([] ∷ ss) l = omega (arith, total-set i ss l)
  total-set (suc i) ((f ∷ fs) ∷ ss) l = omega (arith, total-set i ss l.1)

  pub AllAscend-set :
      (i : ℕ) (ss : List Stream) → LeastAt i e es ss → AllAscend ss → AllAscend (set ss i es)
  AllAscend-set i [] l up = absurd l
  AllAscend-set zero (s ∷ ss) l up = ((subst Ascends l.0 up.0).1, up.1)
  AllAscend-set (suc i) ([] ∷ ss) l up = (tt, AllAscend-set i ss l up.1)
  AllAscend-set (suc i) ((f ∷ fs) ∷ ss) l up = (up.0, AllAscend-set i ss l.1 up.1)

  tail_from :
      (tail : Stream) (ss : List Stream)
      → AllAbove e.0 tail
      → HeadsFrom e.0 ss
      → HeadsFrom e.0 (tail ∷ ss)
  tail_from [] ss above from = from
  tail_from (f ∷ fs) ss above from = (le_of_lt e.0 f.0 above.0, from)

  pub HeadsFrom-set :
      (i : ℕ) (ss : List Stream) → LeastAt i e es ss → AllAscend ss → HeadsFrom e.0 (set ss i es)
  HeadsFrom-set i [] l up = absurd l
  HeadsFrom-set zero (s ∷ ss) l up = tail_from es ss (subst Ascends l.0 up.0).0 l.1
  HeadsFrom-set (suc i) ([] ∷ ss) l up = HeadsFrom-set i ss l up.1
  HeadsFrom-set (suc i) ((f ∷ fs) ∷ ss) l up = (le_of_lt e.0 f.0 l.0, HeadsFrom-set i ss l.1 up.1)
