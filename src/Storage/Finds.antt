-- ===== src/Storage/Finds.antt =====
-- lsm_storage.rs: which entries stand in what a get goes through.
use tiny_lsm.Common.{
  ℕ, ◌≡◌, ◌⊎◌, inl, inr, refl, ◌∙◌, sym, subst, Bool, true, false, Option, none, some, List, [],
  ◌∷◌, Bytes, arith, Ordering, Ordering-cases, if◌then◌else◌,
}
use tiny_lsm.Key.{Key, cmp, bytes_cmp, is_le}
use tiny_lsm.Key.Order.{eq_of_cmp}
use tiny_lsm.MemTable.{find_key, included}
use tiny_lsm.MemTable.Bounds.{user_within}
use tiny_lsm.MemTable.Scan.{find_key-here, find_key-past}
use tiny_lsm.Iterators.Ascend.{Ascends, find_key-AllAbove}
use tiny_lsm.Iterators.Streams.{Stream, present}
use tiny_lsm.Iterators.TwoMergePresents.{or_else}
use tiny_lsm.LsmIterator.Skips.{Entries}
use tiny_lsm.LsmIterator.Lookup.{NoneBelow}
use tiny_lsm.Storage.Inner.{Env, Tree}
use tiny_lsm.Storage.Merged.{snapshot_value}

none-some : {v : Bytes} → ◌≡◌ {A = Option Bytes} none (some v) → ⊥
none-some h = cc

or_else-cases :
    (a b : Option Bytes) (v : Bytes) → or_else a b ≡ some v → (a ≡ some v) ⊎ (b ≡ some v)
or_else-cases none b v h = inr h
or_else-cases (some w) b v h = inl h

module _ (key : Bytes) where
  -- No run has an entry of a user key below.
  abbrev pub AllNoneBelow : List Stream → Type 0
  AllNoneBelow [] = Unit
  AllNoneBelow (s ∷ ss) = NoneBelow key s × AllNoneBelow ss

  find_key-NoneBelow :
      (k : Key) (v : Bytes) (es : Entries)
      → NoneBelow key es
      → find_key k es ≡ some v
      → is_le (bytes_cmp key k.bytes) ≡ true
  unfolding find_key
  find_key-NoneBelow k v [] from h = absurd (none-some h)
  find_key-NoneBelow k v (e ∷ es) from h = elim (Ordering-cases (cmp k e.0)) [
    | inl lt ↦
        find_key-NoneBelow k v es from.1
          (sym (find_key-past k e.0 e.1 es (λ s. ground (arith, lt, s))) ∙ h)
    | inr (inl same) ↦
        subst (λ (x : Key). is_le (bytes_cmp key x.bytes) ≡ true) (sym (eq_of_cmp k e.0 same))
          from.0
    | inr (inr gt) ↦
        find_key-NoneBelow k v es from.1
          (sym (find_key-past k e.0 e.1 es (λ s. ground (arith, gt, s))) ∙ h)
  ]

  present_lem :
      (k : Key) (s : Stream) (ss : List Stream)
      → present k (s ∷ ss) ≡ or_else (find_key k s) (present k ss)
  unfolding present
  present_lem k s ss = ground arith

  present-NoneBelow :
      (k : Key) (v : Bytes) (ss : List Stream)
      → AllNoneBelow ss
      → present k ss ≡ some v
      → is_le (bytes_cmp key k.bytes) ≡ true
  unfolding present
  present-NoneBelow k v [] from h = absurd (none-some h)
  present-NoneBelow k v (s ∷ ss) from h =
      elim (or_else-cases (find_key k s) (present k ss) v (sym (present_lem k s ss) ∙ h)) [
        | inl here ↦ find_key-NoneBelow k v s from.0 here
        | inr later ↦ present-NoneBelow k v ss from.1 later
      ]

  within_le :
      (k : Bytes)
      → user_within (included key) (included key) k ≡ true
      → is_le (bytes_cmp key k) ≡ true
  unfolding user_within
  within_le k h = ground arith

  if_some : (b : Bool) (m : Option Bytes) (v : Bytes) → (if b then m else none) ≡ some v → b ≡ true
  if_some true m v h = refl
  if_some false m v h = absurd (none-some h)

  -- A version that a get of the key goes through is not of a user key below.
  pub snapshot_value-NoneBelow :
      (env : Env) (fuel : ℕ) (s : Tree env) (l0 levels : List Stream) (k : Key) (v : Bytes)
      → AllNoneBelow l0
      → AllNoneBelow levels
      → snapshot_value env fuel s l0 levels (included key) (included key) k ≡ some v
      → is_le (bytes_cmp key k.bytes) ≡ true
  snapshot_value-NoneBelow env fuel s l0 levels k v from_l0 from_levels h =
      elim (or_else-cases _ (present k levels) v h) [
        | inl upper ↦ elim (or_else-cases _ (present k l0) v upper) [
          | inl mem ↦ within_le k.bytes (if_some _ _ v mem)
          | inr tables ↦ present-NoneBelow k v l0 from_l0 tables
        ]
        | inr runs ↦ present-NoneBelow k v levels from_levels runs
      ]

  -- It is enough to look at the keys that are found.
  pub NoneBelow_of_found :
      (es : Entries)
      → Ascends es
      → ((k : Key) (v : Bytes) → find_key k es ≡ some v → is_le (bytes_cmp key k.bytes) ≡ true)
      → NoneBelow key es
  NoneBelow_of_found [] up found = tt
  NoneBelow_of_found (e ∷ es) up found =
      (found e.0 e.1 (find_key-here e.0 e.1 es), NoneBelow_of_found es up.1 later)
    where
      later : (k : Key) (v : Bytes) → find_key k es ≡ some v → is_le (bytes_cmp key k.bytes) ≡ true
      later k v h = found k v (find_key-past k e.0 e.1 es other ∙ h)
        where
          other : cmp k e.0 ≡ Ordering.eq → ⊥
          other same = none-some (
              sym (find_key-AllAbove e.0 es up.0)
              ∙ subst (λ x. find_key x es ≡ some v) (eq_of_cmp k e.0 same) h)
