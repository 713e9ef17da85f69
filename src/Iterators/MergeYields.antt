-- ===== src/Iterators/MergeYields.antt =====
-- What a `MergeIterator` goes through.
use tiny_lsm.Common.{
  ℕ, zero, suc, ◌≤◌, ◌<◌, ◌≡◌, ◌⊎◌, inl, inr, refl, ◌∙◌, sym, subst, true, false, none, some, List,
  [], ◌∷◌, arith, Ordering, Bool-cases, set,
}
use tiny_lsm.Key.{Key, cmp, eq, is_le}
use tiny_lsm.Key.Order.{eq_iff, eq_of_cmp}
use tiny_lsm.Iterators.{StorageIterator, Yields}
use tiny_lsm.Iterators.Streams.{
  Stream, present, AllAscend, AllEmpty, HeadsFrom, HeadsAbove, total, HeadsAbove-trans,
  LeastAt-HeadsFrom, LeastAt-from, LeastAt-lt, total-set, AllAscend-set, HeadsFrom-set,
}
use tiny_lsm.Iterators.Present.{present-set}
use tiny_lsm.Iterators.MergeHeap.{Rep, Popped, pop-Rep, push_if_valid-Rep}
use tiny_lsm.Iterators.Merge.{HeapWrapper, MergeIterator, pop, push_if_valid, next_loop}

module _ {I : Type 0} (storage : StorageIterator I) where
  -- The current iterator of a merge is that of the least entry, and the heap has the other runs.
  abbrev pub Standing : MergeIterator I → List Stream → Type 0
  Standing it ss =
      ((it.current ≡ none) × AllEmpty ss)
      ⊎ ((w : HeapWrapper I) × (it.current ≡ some w) × Popped storage 0 ss w it.iters)

  -- What the loop of `next` leaves: the entries with keys above one.
  pub record Passed (prev : Key) (ss : List Stream) (it : MergeIterator I) : Type 0 where
    pub left : List Stream
    pub standing : Standing it left
    pub ascend : AllAscend left
    pub above : HeadsAbove prev left
    pub same : (k : Key) → (cmp k prev ≡ Ordering.eq → ⊥) → present k left ≡ present k ss
    pub fewer : total left ≤ total ss

  -- The run of the least entry is moved, and goes back.
  pub Rep-move :
      (ss : List Stream) (w : HeapWrapper I) (heap : List (HeapWrapper I)) (it : I)
      → (p : Popped storage 0 ss w heap) → Yields storage p.es it
      → Rep storage 0 (push_if_valid storage (record w { iter = it }) heap) (set ss p.i p.es)
  Rep-move ss w heap it p y =
      push_if_valid-Rep storage 0 p.i heap ss (record w { iter = it }) p.es
        (LeastAt-lt p.e p.es p.i ss p.least) p.index y p.others

  HeadsAbove-AllEmpty : (k : Key) (ss : List Stream) → AllEmpty ss → HeadsAbove k ss
  HeadsAbove-AllEmpty k [] e = tt
  HeadsAbove-AllEmpty k (s ∷ ss) e = rw e.0 (HeadsAbove-AllEmpty k ss e.1)

  lt_of_other :
      (prev k : Key) → is_le (cmp prev k) ≡ true → eq k prev ≡ false → cmp prev k ≡ Ordering.lt
  lt_of_other prev k h other = ground (arith, eq_of_cmp prev k, (eq_iff k prev).1)

  next_loop_end :
      (fuel num : ℕ) (prev : Key) (heap : List (HeapWrapper I))
      → pop storage heap ≡ some (none, [])
      → next_loop storage (suc fuel) prev num heap
        ≡ some (record { iters = []; current = none; num_iterators = num })
  unfolding next_loop
  next_loop_end fuel num prev heap h = rw h refl

  next_loop_stop :
      (fuel num : ℕ) (prev k : Key) (heap heap' : List (HeapWrapper I)) (w : HeapWrapper I)
      → pop storage heap ≡ some (some w, heap')
      → storage.key w.iter ≡ some k
      → storage.is_valid w.iter ≡ true
      → eq k prev ≡ false
      → next_loop storage (suc fuel) prev num heap
        ≡ some (record { iters = heap'; current = some w; num_iterators = num })
  unfolding next_loop
  next_loop_stop fuel num prev k heap heap' w h at valid other =
      rw h (rw at (rw other (rw valid refl)))

  next_loop_pass :
      (fuel num : ℕ) (prev k : Key) (heap heap' : List (HeapWrapper I)) (w : HeapWrapper I) (it : I)
      → pop storage heap ≡ some (some w, heap')
      → storage.key w.iter ≡ some k
      → storage.next w.iter ≡ some it
      → eq k prev ≡ true
      → next_loop storage (suc fuel) prev num heap
        ≡ next_loop storage fuel prev num (push_if_valid storage (record w { iter = it }) heap')
  unfolding next_loop
  next_loop_pass fuel num prev k heap heap' w it h at ran same =
      rw h (rw at (rw same (rw ran refl)))

  -- With more fuel than there are entries, the loop of `next` ends.
  pub next_loop-Passed :
      (fuel num : ℕ) (prev : Key) (heap : List (HeapWrapper I)) (ss : List Stream)
      → total ss < fuel
      → Rep storage 0 heap ss
      → AllAscend ss
      → HeadsFrom prev ss
      → (it : MergeIterator I) × (next_loop storage fuel prev num heap ≡ some it)
        × Passed prev ss it
  next_loop-Passed zero num prev heap ss enough rep up from = absurd (omega arith)
  next_loop-Passed (suc fuel) num prev heap ss enough rep up from =
      elim (pop-Rep storage 0 heap ss rep) [
        | inl (void, empty) ↦ (
          record { iters = []; current = none; num_iterators = num },
          next_loop_end fuel num prev heap void,
          record {
            left = ss;
            standing = inl (refl, empty);
            ascend = up;
            above = HeadsAbove-AllEmpty prev ss empty;
            same = λ k other. refl;
            fewer = omega arith;
          },
        )
        | inr (w, heap', popped, p) ↦ elim (Bool-cases (eq p.e.0 prev)) [
          | inr other ↦ (
            record { iters = heap'; current = some w; num_iterators = num },
            next_loop_stop fuel num prev p.e.0 heap heap' w popped p.yields.1 p.yields.0 other,
            record {
              left = ss;
              standing = inr (w, refl, p);
              ascend = up;
              above =
                  HeadsAbove-trans prev p.e.0 ss
                    (lt_of_other prev p.e.0 (LeastAt-from p.e p.es prev p.i ss p.least from) other)
                    (LeastAt-HeadsFrom p.e p.es p.i ss p.least);
              same = λ k o. refl;
              fewer = omega arith;
            },
          )
          | inl hit ↦
              let met : p.e.0 ≡ prev = (eq_iff p.e.0 prev).0 hit in
              let less = total-set p.e p.es p.i ss p.least in
              let (it, ran, q) =
                next_loop-Passed fuel num prev _ (set ss p.i p.es) (omega (arith, less))
                  (Rep-move ss w heap' p.yields.3 p p.yields.5)
                  (AllAscend-set p.e p.es p.i ss p.least up)
                  (subst (λ x. HeadsFrom x (set ss p.i p.es)) met
                    (HeadsFrom-set p.e p.es p.i ss p.least up)) in
              (
                it,
                next_loop_pass fuel num prev p.e.0 heap heap' w p.yields.3 popped p.yields.1
                      p.yields.4 hit
                    ∙ ran,
                record {
                  left = q.left;
                  standing = q.standing;
                  ascend = q.ascend;
                  above = q.above;
                  same = λ k o.
                      q.same k o
                      ∙ present-set p.e p.es k p.i ss
                          (subst (λ x. cmp k x ≡ Ordering.eq → ⊥) (sym met) o) p.least;
                  fewer = omega (arith, q.fewer, less);
                },
              )
        ]
      ]
