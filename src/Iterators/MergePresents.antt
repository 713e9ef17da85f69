-- ===== src/Iterators/MergePresents.antt =====
-- What a `MergeIterator` yields.
use tiny_lsm.Common.{
  ℕ, zero, suc, ◌+◌, ◌≤◌, ◌≡◌, ◌⊎◌, inl, inr, refl, ◌∙◌, sym, subst, true, false, Option, none,
  some, List, [], ◌∷◌, Bytes, arith, Ordering, Ordering-cases, set, length,
}
use tiny_lsm.Key.{Key, cmp}
use tiny_lsm.Key.Order.{eq_of_cmp}
use tiny_lsm.MemTable.{find_key}
use tiny_lsm.MemTable.Scan.{find_key-here, find_key-past}
use tiny_lsm.Iterators.{StorageIterator, Yields}
use tiny_lsm.Iterators.Ascend.{AllAbove, Ascends, AllAbove-trans}
use tiny_lsm.Iterators.Streams.{
  Stream, present, AllAscend, AllEmpty, HeadsAbove, LeastAt, total, LeastAt-above, total-set,
  AllAscend-set, HeadsFrom-set,
}
use tiny_lsm.Iterators.Present.{present-AllEmpty, present-LeastAt, present-set}
use tiny_lsm.Iterators.MergeHeap.{Rep, pop-Rep}
use tiny_lsm.Iterators.MergeYields.{Standing, Rep-move, next_loop-Passed}
use tiny_lsm.Iterators.Merge.{
  HeapWrapper, MergeIterator, pop, push_if_valid, push_valid, create, key, value, is_valid, next,
  next_loop, merge_storage,
}

-- The runs, each under an iterator.
abbrev pub YieldsAll : {I : Type 0} → StorageIterator I → List Stream → List I → Type 0
YieldsAll storage [] [] = Unit
YieldsAll storage [] (it ∷ its) = ⊥
YieldsAll storage (s ∷ ss) [] = ⊥
YieldsAll storage (s ∷ ss) (it ∷ its) = Yields storage s it × YieldsAll storage ss its

find_key-empty : (k : Key) → find_key k [] ≡ none
unfolding find_key
find_key-empty k = refl

-- The entries that the runs have together.
pub record Merged (ss : List Stream) (es : Stream) : Type 0 where
  pub ascends : Ascends es
  pub finds : (k : Key) → find_key k es ≡ present k ss
  pub bound : (p : Key) → HeadsAbove p ss → AllAbove p es
  pub few : length es ≤ total ss

Merged-AllEmpty : (ss : List Stream) → AllEmpty ss → Merged ss []
Merged-AllEmpty ss empty = record {
  ascends = tt;
  finds = λ k. find_key-empty k ∙ sym (present-AllEmpty k ss empty);
  bound = λ p h. tt;
  few = omega arith;
}

-- The least entry comes first, then those of the runs past its key.
Merged-LeastAt :
    (e : Key × Bytes) (tail : Stream) (i : ℕ) (ss left : List Stream) (es : Stream)
    → LeastAt i e tail ss
    → AllAscend ss
    → AllAscend left
    → HeadsAbove e.0 left
    → ((k : Key) → (cmp k e.0 ≡ Ordering.eq → ⊥) → present k left ≡ present k (set ss i tail))
    → total left + 1 ≤ total ss
    → Merged left es
    → Merged ss (e ∷ es)
Merged-LeastAt e tail i ss left es least up up' above same fewer m = record {
  ascends = (m.bound e.0 above, m.ascends);
  finds = λ k. finds_at k (Ordering-cases (cmp k e.0));
  bound = λ p h.
      let below = LeastAt-above e tail p i ss least h in
      (below, AllAbove-trans p e.0 es below (m.bound e.0 above));
  few = omega (arith, m.few, fewer);
}
  where
    past : (k : Key) → (cmp k e.0 ≡ Ordering.eq → ⊥) → find_key k (e ∷ es) ≡ present k ss
    past k other =
        find_key-past k e.0 e.1 es other
        ∙ m.finds k
        ∙ same k other
        ∙ present-set e tail k i ss other least

    lt_not_eq : (o : Ordering) → o ≡ Ordering.lt → o ≡ Ordering.eq → ⊥
    lt_not_eq o h g = cc

    gt_not_eq : (o : Ordering) → o ≡ Ordering.gt → o ≡ Ordering.eq → ⊥
    gt_not_eq o h g = cc

    finds_at :
        (k : Key)
        → (cmp k e.0 ≡ Ordering.lt) ⊎ ((cmp k e.0 ≡ Ordering.eq) ⊎ (cmp k e.0 ≡ Ordering.gt))
        → find_key k (e ∷ es) ≡ present k ss
    finds_at k (inl lt) = past k (lt_not_eq _ lt)
    finds_at k (inr (inr gt)) = past k (gt_not_eq _ gt)
    finds_at k (inr (inl same_key)) =
        subst (λ x. find_key x (e ∷ es) ≡ present x ss) (sym (eq_of_cmp k e.0 same_key))
          (find_key-here e.0 e.1 es ∙ sym (present-LeastAt e tail i ss least up))

module _ {I : Type 0} (storage : StorageIterator I) (fuel : ℕ) where
  valid_none : (it : MergeIterator I) → it.current ≡ none → is_valid storage it ≡ false
  unfolding is_valid
  valid_none it h = rw h refl

  valid_some :
      (it : MergeIterator I) (w : HeapWrapper I) → it.current ≡ some w → is_valid storage it ≡ true
  unfolding is_valid
  valid_some it w h = rw h refl

  key_some :
      (it : MergeIterator I) (w : HeapWrapper I)
      → it.current ≡ some w
      → key storage it ≡ storage.key w.iter
  unfolding key
  key_some it w h = rw h refl

  value_some :
      (it : MergeIterator I) (w : HeapWrapper I)
      → it.current ≡ some w
      → value storage it ≡ storage.value w.iter
  unfolding value
  value_some it w h = rw h refl

  next_some :
      (it : MergeIterator I) (w : HeapWrapper I) (k : Key) (moved : I)
      → it.current ≡ some w
      → storage.key w.iter ≡ some k
      → storage.next w.iter ≡ some moved
      → next storage fuel it
        ≡ next_loop storage fuel k it.num_iterators
            (push_if_valid storage (record w { iter = moved }) it.iters)
  unfolding next
  next_some it w k moved h at ran = rw h (rw at (rw ran refl))

  Yields-cons :
      (it it' : MergeIterator I) (e : Key × Bytes) (es : Stream)
      → is_valid storage it ≡ true
      → key storage it ≡ some e.0
      → value storage it ≡ some e.1
      → next storage fuel it ≡ some it'
      → Yields (merge_storage storage fuel) es it'
      → Yields (merge_storage storage fuel) (e ∷ es) it
  unfolding merge_storage
  Yields-cons it it' e es h g v n y = (h, g, v, it', n, y)

  Yields-none :
      (it : MergeIterator I)
      → is_valid storage it ≡ false
      → Yields (merge_storage storage fuel) [] it
  unfolding merge_storage
  Yields-none it h = h

  -- With fuel for the entries, an iterator over the runs yields the entries they have together.
  Standing-Merged :
      (n : ℕ) (it : MergeIterator I) (ss : List Stream)
      → total ss ≤ n
      → n ≤ fuel
      → Standing storage it ss
      → AllAscend ss
      → (es : Stream) × Yields (merge_storage storage fuel) es it × Merged ss es
  Standing-Merged n it ss small enough (inl (void, empty)) up =
      ([], Yields-none it (valid_none it void), Merged-AllEmpty ss empty)
  Standing-Merged zero it ss small enough (inr (w, at, p)) up =
      absurd (omega (arith, total-set p.e p.es p.i ss p.least))
  Standing-Merged (suc n) it ss small enough (inr (w, at, p)) up =
      let less = total-set p.e p.es p.i ss p.least in
      let moved = p.yields.3 in
      let up' = AllAscend-set p.e p.es p.i ss p.least up in
      let (it', ran, q) =
        next_loop-Passed storage fuel it.num_iterators p.e.0 _ (set ss p.i p.es)
          (omega (arith, less)) (Rep-move storage ss w it.iters moved p p.yields.5) up'
          (HeadsFrom-set p.e p.es p.i ss p.least up) in
      let (es, yields, m) =
        Standing-Merged n it' q.left (omega (arith, less, q.fewer)) (omega arith) q.standing
          q.ascend in
      (
        p.e ∷ es,
        Yields-cons it it' p.e es (valid_some it w at) (key_some it w at ∙ p.yields.1)
            (value_some it w at ∙ p.yields.2)
            (next_some it w p.e.0 moved at p.yields.1 p.yields.4 ∙ ran) yields,
        Merged-LeastAt p.e p.es p.i ss q.left es p.least up q.ascend q.above q.same
            (omega (arith, less, q.fewer)) m,
      )

  push_valid-Rep :
      (n : ℕ) (ss : List Stream) (its : List I)
      → YieldsAll storage ss its
      → Rep storage n (push_valid storage n its).0 ss
  unfolding push_valid
  push_valid-Rep n [] [] ys = tt
  push_valid-Rep n [] (it ∷ its) ys = absurd ys
  push_valid-Rep n (s ∷ ss) [] ys = absurd ys
  push_valid-Rep n ([] ∷ ss) (it ∷ its) ys = rw ys.0 (push_valid-Rep (n + 1) ss its ys.1)
  push_valid-Rep n ((e ∷ es) ∷ ss) (it ∷ its) ys =
      let y : Yields storage (e ∷ es) it = ys.0 in
      rw y.0 (refl, y, push_valid-Rep (n + 1) ss its ys.1)

  create_lem :
      (its : List I) (best : Option (HeapWrapper I)) (heap : List (HeapWrapper I))
      → pop storage (push_valid storage 0 its).0 ≡ some (best, heap)
      → create storage its
        ≡ some
            (record { iters = heap; current = best; num_iterators = (push_valid storage 0 its).1 })
  unfolding create
  create_lem its best heap h = rw h refl

  create-Standing :
      (ss : List Stream) (its : List I)
      → YieldsAll storage ss its
      → (it : MergeIterator I) × (create storage its ≡ some it) × Standing storage it ss
  create-Standing ss its ys = elim (pop-Rep storage 0 _ ss (push_valid-Rep 0 ss its ys)) [
    | inl (void, empty) ↦ (_, create_lem its none [] void, inl (refl, empty))
    | inr (w, heap, popped, p) ↦ (_, create_lem its (some w) heap popped, inr (w, refl, p))
  ]

  pub create-Merged :
      (ss : List Stream) (its : List I)
      → total ss ≤ fuel
      → YieldsAll storage ss its
      → AllAscend ss
      → (it : MergeIterator I) × (es : Stream) × (create storage its ≡ some it)
        × Yields (merge_storage storage fuel) es it
        × Merged ss es
  create-Merged ss its enough ys up =
      let (it, made, standing) = create-Standing ss its ys in
      let (es, yields, m) = Standing-Merged (total ss) it ss (omega arith) enough standing up in
      (it, es, made, yields, m)

  -- A merge iterator that is created over iterators that yield runs of entries, each with growing keys,
  -- and that has fuel for at least as many rounds as the runs have entries, yields without a panic or a
  -- failed `next` entries whose keys grow, so that no key comes twice; and a key is found among them
  -- exactly with the value that the first of the runs that has the key gives it.
  pub create-present :
      (ss : List Stream) (its : List I)
      → total ss ≤ fuel
      → YieldsAll storage ss its
      → AllAscend ss
      → (it : MergeIterator I) × (es : Stream) × (create storage its ≡ some it)
        × Yields (merge_storage storage fuel) es it
        × Ascends es
        × ((k : Key) → find_key k es ≡ present k ss)
  create-present ss its enough ys up =
      let (it, es, made, yields, m) = create-Merged ss its enough ys up in
      (it, es, made, yields, m.ascends, m.finds)
