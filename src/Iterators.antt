-- ===== src/Iterators.antt =====
-- iterators.rs: the trait `StorageIterator`, and what it means that an iterator goes through given
-- entries.
pub mod TwoMerge
pub mod Merge
pub mod Concat
pub mod ConcatLoop
pub mod Cursors
pub mod Ascend
pub mod Streams
pub mod Present
pub mod MergeHeap
pub mod MergeYields
pub mod MergePresents
pub mod TwoMergeYields
pub mod TwoMergePresents
use tiny_lsm.Common.{ℕ, ◌≡◌, Bool, true, false, Option, none, some, List, [], ◌∷◌, Bytes}
use tiny_lsm.Key.{Key}

-- The trait, for an iterator type with `KeyType = KeySlice`. A `none` is an error of `next`, or a
-- panic.
pub record StorageIterator (I : Type 0) : Type 0 where
  pub value : I → Option Bytes
  pub key : I → Option Key
  pub is_valid : I → Bool
  pub next : I → Option I
  pub num_active_iterators : I → ℕ

module _ {I : Type 0} (storage : StorageIterator I) where
  open storage use {value, key, is_valid, next}

  -- The iterator shows these entries, one after the other, and is then invalid.
  abbrev pub Yields : List (Key × Bytes) → I → Type 0
  Yields [] it = is_valid it ≡ false
  Yields (e ∷ es) it =
      (is_valid it ≡ true)
      × (key it ≡ some e.0)
      × (value it ≡ some e.1)
      × (it' : I) × (next it ≡ some it')
      × Yields es it'
