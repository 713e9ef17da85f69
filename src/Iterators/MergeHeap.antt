-- ===== src/Iterators/MergeHeap.antt =====
-- The heap of a `MergeIterator` holds the runs of entries that are not empty, each under its place.
use tiny_lsm.Common.{
  ℕ, zero, suc, ◌+◌, ◌≤◌, ◌<◌, ◌≡◌, ◌⊎◌, inl, inr, refl, subst, true, false, Option, none, some,
  List, [], ◌∷◌, Bytes, arith, Ordering, Ordering-cases, compare, length, set, ltb-eq-false, lt→ltb,
}
use tiny_lsm.Key.{Key, cmp, is_le, is_lt, reverse}
use tiny_lsm.Key.Order.{cmp-reverse}
use tiny_lsm.Iterators.{StorageIterator, Yields}
use tiny_lsm.Iterators.Streams.{
  Stream, AllEmpty, HeadsFrom, HeadsFrom-trans, LeastAt, LeastAt-HeadsFrom,
}
use tiny_lsm.Iterators.Merge.{
  HeapWrapper, cmp_wrapper, take_greatest, pop, then_cmp, push, push_if_valid,
}

module _ {I : Type 0} (storage : StorageIterator I) where
  -- The heap over runs that stand at the places from `n` on.
  abbrev pub Rep : ℕ → List (HeapWrapper I) → List Stream → Type 0
  Rep n [] [] = Unit
  Rep n (w ∷ heap) [] = ⊥
  Rep n heap ([] ∷ ss) = Rep (n + 1) heap ss
  Rep n [] ((e ∷ es) ∷ ss) = ⊥
  Rep n (w ∷ heap) ((e ∷ es) ∷ ss) =
      (w.index ≡ n) × Yields storage (e ∷ es) w.iter × Rep (n + 1) heap ss

  -- The wrapper of the least entry, and the heap without it.
  pub record Popped (n : ℕ) (ss : List Stream) (w : HeapWrapper I) (heap : List (HeapWrapper I))
      : Type 0 where
    pub i : ℕ
    pub e : Key × Bytes
    pub es : Stream
    pub index : w.index ≡ n + i
    pub yields : Yields storage (e ∷ es) w.iter
    pub least : LeastAt i e es ss
    pub others : Rep n heap (set ss i [])

  -- The greatest wrapper of a heap that is not empty, with the others.
  abbrev best_of : List (HeapWrapper I) → Option (HeapWrapper I × List (HeapWrapper I))
  best_of [] = none
  best_of (x ∷ xs) = take_greatest storage x xs

  abbrev Bests : ℕ → List (HeapWrapper I) → List Stream → Type 0
  Bests n heap ss =
      ((heap ≡ []) × AllEmpty ss)
      ⊎ ((w : HeapWrapper I) × (heap' : List (HeapWrapper I)) × (best_of heap ≡ some (w, heap'))
          × Popped n ss w heap')

  -- The order of two wrappers, of which the first has the smaller index.
  before_by_index : (m n : ℕ) → m < n → compare m n ≡ Ordering.lt
  before_by_index m n h = ground arith

  cmp_wrapper_lem :
      (x w : HeapWrapper I) (j k : Key)
      → storage.key x.iter ≡ some j
      → storage.key w.iter ≡ some k
      → x.index < w.index
      → cmp_wrapper storage x w ≡ some (reverse (then_cmp (cmp j k) Ordering.lt))
  unfolding cmp_wrapper
  cmp_wrapper_lem x w j k h g lt = rw h (rw g (rw (before_by_index x.index w.index lt) refl))

  best_of-gt :
      (x w : HeapWrapper I) (heap heap' : List (HeapWrapper I)) (o : Ordering)
      → best_of heap ≡ some (w, heap')
      → cmp_wrapper storage x w ≡ some o
      → is_lt o ≡ true
      → best_of (x ∷ heap) ≡ some (w, x ∷ heap')
  unfolding take_greatest
  best_of-gt x w [] heap' o h g l = cc
  best_of-gt x w (y ∷ ys) heap' o h g l = rw h (rw g (rw l refl))

  best_of-le :
      (x w : HeapWrapper I) (heap heap' : List (HeapWrapper I)) (o : Ordering)
      → best_of heap ≡ some (w, heap')
      → cmp_wrapper storage x w ≡ some o
      → is_lt o ≡ false
      → best_of (x ∷ heap) ≡ some (x, heap)
  unfolding take_greatest
  best_of-le x w [] heap' o h g l = cc
  best_of-le x w (y ∷ ys) heap' o h g l = rw h (rw g (rw l refl))

  best_of-one : (x : HeapWrapper I) → best_of (x ∷ []) ≡ some (x, [])
  unfolding take_greatest
  best_of-one x = refl

  HeadsFrom-AllEmpty : (k : Key) (ss : List Stream) → AllEmpty ss → HeadsFrom k ss
  HeadsFrom-AllEmpty k [] e = tt
  HeadsFrom-AllEmpty k (s ∷ ss) e = rw e.0 (HeadsFrom-AllEmpty k ss e.1)

  first_Popped :
      (n : ℕ) (x : HeapWrapper I) (e : Key × Bytes) (es : Stream)
      (heap heap' : List (HeapWrapper I)) (ss : List Stream) (w : HeapWrapper I)
      → x.index ≡ n
      → Yields storage (e ∷ es) x.iter
      → Rep (n + 1) heap ss
      → (p : Popped (n + 1) ss w heap') → is_le (cmp e.0 p.e.0) ≡ true
      → Popped n ((e ∷ es) ∷ ss) x heap
  first_Popped n x e es heap heap' ss w at y rep p le = record {
    i = zero;
    e = e;
    es = es;
    index = omega (arith, at);
    yields = y;
    least = (refl, HeadsFrom-trans e.0 p.e.0 ss le (LeastAt-HeadsFrom p.e p.es p.i ss p.least));
    others = rep;
  }

  Rep-Bests :
      (n : ℕ) (heap : List (HeapWrapper I)) (ss : List Stream) → Rep n heap ss → Bests n heap ss
  Rep-Bests n [] [] rep = inl (refl, tt)
  Rep-Bests n (w ∷ heap) [] rep = absurd rep
  Rep-Bests n heap ([] ∷ ss) rep = elim (Rep-Bests (n + 1) heap ss rep) [
    | inl (void, empty) ↦ inl (void, (refl, empty))
    | inr (w, heap', found, p) ↦ inr (
      w,
      heap',
      found,
      record {
        i = suc p.i;
        e = p.e;
        es = p.es;
        index = omega (arith, p.index);
        yields = p.yields;
        least = p.least;
        others = p.others;
      },
    )
  ]
  Rep-Bests n [] ((e ∷ es) ∷ ss) rep = absurd rep
  Rep-Bests n (x ∷ heap) ((e ∷ es) ∷ ss) (at, y, rep) = elim (Rep-Bests (n + 1) heap ss rep) [
    | inl (void, empty) ↦ inr (
      x,
      [],
      rw void (best_of-one x),
      record {
        i = zero;
        e = e;
        es = es;
        index = omega (arith, at);
        yields = y;
        least = (refl, HeadsFrom-AllEmpty e.0 ss empty);
        others = subst (λ h. Rep (n + 1) h ss) void rep;
      },
    )
    | inr (w, heap', found, p) ↦
        let order = cmp_wrapper_lem x w e.0 p.e.0 y.1 p.yields.1 (omega (arith, at, p.index)) in
        elim (Ordering-cases (cmp e.0 p.e.0)) [
          | inl lt ↦ inr (
            x,
            heap,
            best_of-le x w heap heap' _ found order (rw lt refl),
            first_Popped n x e es heap heap' ss w at y rep p (rw lt refl),
          )
          | inr (inl same) ↦ inr (
            x,
            heap,
            best_of-le x w heap heap' _ found order (rw same refl),
            first_Popped n x e es heap heap' ss w at y rep p (rw same refl),
          )
          | inr (inr gt) ↦ inr (
            w,
            x ∷ heap',
            best_of-gt x w heap heap' _ found order (rw gt refl),
            record {
              i = suc p.i;
              e = p.e;
              es = p.es;
              index = omega (arith, p.index);
              yields = p.yields;
              least = (rw (cmp-reverse e.0 p.e.0, gt) refl, p.least);
              others = (at, y, p.others);
            },
          )
        ]
  ]

  -- `pop` takes the least entry's run, or finds that all runs are empty.
  pub pop-Rep :
      (n : ℕ) (heap : List (HeapWrapper I)) (ss : List Stream)
      → Rep n heap ss
      → ((pop storage heap ≡ some (none, [])) × AllEmpty ss)
        ⊎ ((w : HeapWrapper I) × (heap' : List (HeapWrapper I)) × (pop storage heap
              ≡ some (some w, heap'))
            × Popped n ss w heap')
  unfolding pop
  pop-Rep n [] ss rep = elim (Rep-Bests n [] ss rep) [
    | inl (void, empty) ↦ inl (refl, empty)
    | inr (w, heap', found, p) ↦ absurd (cc found)
  ]
  pop-Rep n (x ∷ xs) ss rep = elim (Rep-Bests n (x ∷ xs) ss rep) [
    | inl (void, empty) ↦ absurd (cons_not_nil x xs void)
    | inr (w, heap', found, p) ↦ inr (w, heap', rw found refl, p)
  ]
    where
      cons_not_nil : (y : HeapWrapper I) (ys : List (HeapWrapper I)) → y ∷ ys ≡ [] → ⊥
      cons_not_nil y ys e = cc

  Rep-index :
      (n : ℕ) (x : HeapWrapper I) (heap : List (HeapWrapper I)) (ss : List Stream)
      → Rep n (x ∷ heap) ss
      → n ≤ x.index
  Rep-index n x heap [] rep = absurd rep
  Rep-index n x heap ([] ∷ ss) rep = omega (arith, Rep-index (n + 1) x heap ss rep)
  Rep-index n x heap ((e ∷ es) ∷ ss) rep = omega (arith, rep.0)

  push-front :
      (n : ℕ) (w : HeapWrapper I) (heap : List (HeapWrapper I)) (ss : List Stream)
      → w.index ≡ n
      → Rep (n + 1) heap ss
      → push storage w heap ≡ w ∷ heap
  unfolding push
  push-front n w [] ss at rep = refl
  push-front n w (x ∷ heap) ss at rep =
      rw (lt→ltb w.index x.index (omega (arith, at, Rep-index (n + 1) x heap ss rep))) refl

  push-behind :
      (w x : HeapWrapper I) (heap : List (HeapWrapper I))
      → x.index ≤ w.index
      → push storage w (x ∷ heap) ≡ x ∷ push storage w heap
  unfolding push
  push-behind w x heap h = rw (ltb-eq-false w.index x.index h) refl

  -- A run goes back to its place, which is empty.
  push-Rep :
      (n i : ℕ) (heap : List (HeapWrapper I)) (ss : List Stream) (w : HeapWrapper I)
      (e : Key × Bytes) (es : Stream)
      → i < length ss
      → w.index ≡ n + i
      → Yields storage (e ∷ es) w.iter
      → Rep n heap (set ss i [])
      → Rep n (push storage w heap) (set ss i (e ∷ es))
  push-Rep n i heap [] w e es few at y rep = absurd (omega arith)
  push-Rep n zero heap (s ∷ ss) w e es few at y rep =
      let here : w.index ≡ n = omega (arith, at) in
      rw (push-front n w heap ss here (shut heap rep)) (here, y, shut heap rep)
    where
      shut : (h : List (HeapWrapper I)) → Rep n h ([] ∷ ss) → Rep (n + 1) h ss
      shut [] r = r
      shut (x ∷ h) r = r
  push-Rep n (suc i) heap ([] ∷ ss) w e es few at y rep =
      push-Rep (n + 1) i heap ss w e es (omega arith) (omega (arith, at)) y rep
  push-Rep n (suc i) [] ((f ∷ fs) ∷ ss) w e es few at y rep = absurd rep
  push-Rep n (suc i) (x ∷ heap) ((f ∷ fs) ∷ ss) w e es few at y rep =
      rw (push-behind w x heap (omega (arith, at, rep.0)))
        (rep.0, rep.1, push-Rep (n + 1) i heap ss w e es (omega arith) (omega (arith, at)) y rep.2)

  -- An iterator that was moved goes back to the heap where it has entries left.
  pub push_if_valid-Rep :
      (n i : ℕ) (heap : List (HeapWrapper I)) (ss : List Stream) (w : HeapWrapper I) (es : Stream)
      → i < length ss
      → w.index ≡ n + i
      → Yields storage es w.iter
      → Rep n heap (set ss i [])
      → Rep n (push_if_valid storage w heap) (set ss i es)
  unfolding push_if_valid
  push_if_valid-Rep n i heap ss w [] few at y rep = rw y rep
  push_if_valid-Rep n i heap ss w (e ∷ es) few at y rep =
      rw y.0 (push-Rep n i heap ss w e es few at y rep)
