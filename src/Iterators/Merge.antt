-- ===== src/Iterators/Merge.antt =====
-- iterators/merge_iterator.rs: many iterators merged into one through a heap.
use tiny_lsm.Common.{
  ℕ, zero, suc, ◌+◌, Bool, true, false, Option, none, some, ◌>>=◌, Bytes, List, [], ◌∷◌, ltb,
  if◌then◌else◌, Ordering, compare,
}
use tiny_lsm.Key.{Key, cmp, eq, from_slice, new, ts_default, reverse, is_lt}
use tiny_lsm.Iterators.{StorageIterator}

-- `HeapWrapper`: an iterator with its index.
pub record HeapWrapper (I : Type 0) : Type 0 where
  pub index : ℕ
  pub iter : I

-- `Ordering::then`
abbrev pub then_cmp : Ordering → Ordering → Ordering
then_cmp Ordering.lt o = Ordering.lt
then_cmp Ordering.eq o = o
then_cmp Ordering.gt o = Ordering.gt

-- The heap, `std::collections::BinaryHeap`, is the list of what it holds, in the order of the
-- indices; `pop` takes the greatest element. The wrappers have different indices, so that no two of
-- them are equal.
pub record MergeIterator (I : Type 0) : Type 0 where
  pub iters : List (HeapWrapper I)
  pub current : Option (HeapWrapper I)
  pub num_iterators : ℕ

module _ {I : Type 0} (storage : StorageIterator I) where
  -- `Ord::cmp` of `HeapWrapper`
  unfoldable pub cmp_wrapper : HeapWrapper I → HeapWrapper I → Option Ordering
  cmp_wrapper x y = do
    x_key ← storage.key x.iter
    y_key ← storage.key y.iter
    some (reverse (then_cmp (cmp x_key y_key) (compare x.index y.index)))

  -- The greatest element and the others.
  unfoldable pub take_greatest :
      HeapWrapper I → List (HeapWrapper I) → Option (HeapWrapper I × List (HeapWrapper I))
  unfolding cmp_wrapper
  take_greatest x [] = some (x, [])
  take_greatest x (y ∷ ys) = do
    best ← take_greatest y ys
    order ← cmp_wrapper x best.0
    some (if is_lt order then (best.0, x ∷ best.1) else (x, y ∷ ys))

  -- `BinaryHeap::pop`
  unfoldable pub pop : List (HeapWrapper I) → Option (Option (HeapWrapper I) × List (HeapWrapper I))
  unfolding take_greatest
  pop [] = some (none, [])
  pop (x ∷ xs) = take_greatest x xs >>= λ best. some (some best.0, best.1)

  -- The loop of `create`: the valid iterators go to the heap with their indices.
  unfoldable pub push_valid : ℕ → List I → List (HeapWrapper I) × ℕ
  push_valid index [] = ([], 0)
  push_valid index (it ∷ its) =
      let rest = push_valid (index + 1) its in
      if storage.is_valid it
      then (record { index = index; iter = it } ∷ rest.0, storage.num_active_iterators it + rest.1)
      else rest

  unfoldable pub create : List I → Option (MergeIterator I)
  unfolding push_valid pop
  create its = do
    let heap = push_valid 0 its
    best ← pop heap.0
    some (record { iters = best.1; current = best.0; num_iterators = heap.1 })

  unfoldable pub key : MergeIterator I → Option Key
  key it = elim it.current [ none ↦ some (from_slice [] ts_default) | some w ↦ storage.key w.iter ]

  unfoldable pub value : MergeIterator I → Option Bytes
  value it = elim it.current [ none ↦ some [] | some w ↦ storage.value w.iter ]

  unfoldable pub is_valid : MergeIterator I → Bool
  is_valid it = elim it.current [ none ↦ false | some w ↦ true ]

  -- `BinaryHeap::push`
  unfoldable pub push : HeapWrapper I → List (HeapWrapper I) → List (HeapWrapper I)
  push w [] = w ∷ []
  push w (x ∷ heap) =
      let rest = push w heap in if ltb w.index x.index then w ∷ x ∷ heap else x ∷ rest

  -- An iterator goes back to the heap if it is valid.
  unfoldable pub push_if_valid : HeapWrapper I → List (HeapWrapper I) → List (HeapWrapper I)
  unfolding push
  push_if_valid w heap = if storage.is_valid w.iter then push w heap else heap

  -- The loop of `next`: the entries with the key before are passed.
  unfoldable pub next_loop : ℕ → Key → ℕ → List (HeapWrapper I) → Option (MergeIterator I)
  unfolding pop push_if_valid
  next_loop zero prev_key num heap = none
  next_loop (suc fuel) prev_key num heap = do
    best ← pop heap
    elim best.0 [
      | none ↦ some (record { iters = best.1; current = none; num_iterators = num })
      | some w ↦ (do
        w_key ← storage.key w.iter
        if eq w_key prev_key
            then (storage.next w.iter >>= λ it.
                next_loop fuel prev_key num (push_if_valid (record w { iter = it }) best.1))
            else if storage.is_valid w.iter
            then some (record { iters = best.1; current = some w; num_iterators = num })
            else next_loop fuel prev_key num best.1)
    ]

  -- `next`, with fuel for the rounds of its loop.
  unfoldable pub next : ℕ → MergeIterator I → Option (MergeIterator I)
  unfolding next_loop push_if_valid
  next fuel it = elim it.current [
    | none ↦ next_loop fuel new it.num_iterators it.iters
    | some w ↦ (do
      prev_key ← storage.key w.iter
      next_iter ← storage.next w.iter
      next_loop fuel prev_key it.num_iterators
          (push_if_valid (record w { iter = next_iter }) it.iters))
  ]

  -- The implementation of the trait, with the fuel of `next`.
  unfoldable pub merge_storage : ℕ → StorageIterator (MergeIterator I)
  unfolding key value is_valid next
  merge_storage fuel = record {
    value = value;
    key = key;
    is_valid = is_valid;
    next = next fuel;
    num_active_iterators = λ it. it.num_iterators;
  }
