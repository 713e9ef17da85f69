-- ===== src/Iterators/TwoMergeYields.antt =====
-- What a merge of two iterators goes through.
use tiny_lsm.Common.{
  ℕ, zero, suc, ◌+◌, ◌≤◌, ◌≡◌, refl, true, false, some, ◌>>=◌, Bytes, List, [], ◌∷◌, length,
  Ordering, Ordering-cases, inl, inr, arith,
}
use tiny_lsm.Key.{Key, cmp}
use tiny_lsm.Iterators.{StorageIterator, Yields}
use tiny_lsm.Iterators.TwoMerge.{create, key, value, is_valid, next, storage, a_first}

-- The merge of two lists, by the order of the heads; of two entries with one key the first list's
-- stays. The fuel is the sum of the lengths.
unfoldable pub merge : ℕ → List (Key × Bytes) → List (Key × Bytes) → List (Key × Bytes)
merge fuel xs [] = xs
merge fuel [] (y ∷ ys) = y ∷ ys
merge zero (x ∷ xs) (y ∷ ys) = []
merge (suc fuel) (x ∷ xs) (y ∷ ys) =
    let less = merge fuel xs (y ∷ ys) in
    let more = merge fuel (x ∷ xs) ys in
    let both = merge fuel xs ys in
    elim (cmp x.0 y.0) [ Ordering.lt ↦ x ∷ less | Ordering.eq ↦ x ∷ both | Ordering.gt ↦ y ∷ more ]

module _ {A : Type 0} {B : Type 0} (iter_a : StorageIterator A) (iter_b : StorageIterator B) where
  -- One step, with a valid iterator on each side.
  step_lt :
      (a a' : A) (b b' : B) (n : ℕ) (x y : Key × Bytes) (es : List (Key × Bytes))
      → iter_a.is_valid a ≡ true
      → iter_b.is_valid b ≡ true
      → iter_a.key a ≡ some x.0
      → iter_b.key b ≡ some y.0
      → iter_a.value a ≡ some x.1
      → iter_b.value b ≡ some y.1
      → iter_a.next a ≡ some a'
      → iter_b.next b ≡ some b'
      → cmp x.0 y.0 ≡ Ordering.lt
      → Yields (storage iter_a iter_b) es (record { a = a'; b = b; num_iterators = n })
      → Yields (storage iter_a iter_b) (x ∷ es) (record { a = a; b = b; num_iterators = n })
  unfolding storage key value is_valid next a_first
  step_lt a a' b b' n x y es va vb ka kb wa wb na nb o rest = (
    rw va refl,
    rw (vb, va, ka, kb) (rw o refl),
    rw (vb, va, ka, kb) (rw o wa),
    record { a = a'; b = b; num_iterators = n },
    rw (vb, va) (rw ka (rw kb (rw (o, ◌>>=◌) (rw na refl)))),
    rest,
  )

  step_eq :
      (a a' : A) (b b' : B) (n : ℕ) (x y : Key × Bytes) (es : List (Key × Bytes))
      → iter_a.is_valid a ≡ true
      → iter_b.is_valid b ≡ true
      → iter_a.key a ≡ some x.0
      → iter_b.key b ≡ some y.0
      → iter_a.value a ≡ some x.1
      → iter_b.value b ≡ some y.1
      → iter_a.next a ≡ some a'
      → iter_b.next b ≡ some b'
      → cmp x.0 y.0 ≡ Ordering.eq
      → Yields (storage iter_a iter_b) es (record { a = a'; b = b'; num_iterators = n })
      → Yields (storage iter_a iter_b) (x ∷ es) (record { a = a; b = b; num_iterators = n })
  unfolding storage key value is_valid next a_first
  step_eq a a' b b' n x y es va vb ka kb wa wb na nb o rest = (
    rw va refl,
    rw (vb, va, ka, kb) (rw o refl),
    rw (vb, va, ka, kb) (rw o wa),
    record { a = a'; b = b'; num_iterators = n },
    rw (vb, va) (rw ka (rw kb (rw (o, ◌>>=◌) (rw na (rw nb refl))))),
    rest,
  )

  step_gt :
      (a a' : A) (b b' : B) (n : ℕ) (x y : Key × Bytes) (es : List (Key × Bytes))
      → iter_a.is_valid a ≡ true
      → iter_b.is_valid b ≡ true
      → iter_a.key a ≡ some x.0
      → iter_b.key b ≡ some y.0
      → iter_a.value a ≡ some x.1
      → iter_b.value b ≡ some y.1
      → iter_a.next a ≡ some a'
      → iter_b.next b ≡ some b'
      → cmp x.0 y.0 ≡ Ordering.gt
      → Yields (storage iter_a iter_b) es (record { a = a; b = b'; num_iterators = n })
      → Yields (storage iter_a iter_b) (y ∷ es) (record { a = a; b = b; num_iterators = n })
  unfolding storage key value is_valid next a_first
  step_gt a a' b b' n x y es va vb ka kb wa wb na nb o rest = (
    rw va refl,
    rw (vb, va, ka, kb) (rw o refl),
    rw (vb, va, ka, kb) (rw o wb),
    record { a = a; b = b'; num_iterators = n },
    rw (vb, va) (rw ka (rw kb (rw (o, ◌>>=◌) (rw nb refl)))),
    rest,
  )

  -- One side has come to its end.
  only_a :
      (a : A) (b : B) (n : ℕ) (xs : List (Key × Bytes))
      → iter_b.is_valid b ≡ false
      → Yields iter_a xs a
      → Yields (storage iter_a iter_b) xs (record { a = a; b = b; num_iterators = n })
  unfolding storage key value is_valid next a_first
  only_a a b n [] vb ya = rw (ya, vb) refl
  only_a a b n (x ∷ xs) vb (va, ka, wa, a', na, ya) = (
    rw va refl,
    rw vb ka,
    rw vb wa,
    record { a = a'; b = b; num_iterators = n },
    rw vb (rw na refl),
    only_a a' b n xs vb ya,
  )

  only_b :
      (a : A) (b : B) (n : ℕ) (ys : List (Key × Bytes))
      → iter_a.is_valid a ≡ false
      → Yields iter_b ys b
      → Yields (storage iter_a iter_b) ys (record { a = a; b = b; num_iterators = n })
  unfolding storage key value is_valid next a_first
  only_b a b n [] va yb = rw (va, yb) refl
  only_b a b n (y ∷ ys) va (vb, kb, wb, b', nb, yb) = (
    rw (va, vb) refl,
    rw (vb, va) kb,
    rw (vb, va) wb,
    record { a = a; b = b'; num_iterators = n },
    rw (vb, va) (rw nb refl),
    only_b a b' n ys va yb,
  )

  -- Two iterators merged go through the merge of the two lists that they go through, and fail nowhere.
  merge-Yields :
      (fuel : ℕ) (a : A) (b : B) (n : ℕ) (xs ys : List (Key × Bytes))
      → length xs + length ys ≤ fuel
      → Yields iter_a xs a
      → Yields iter_b ys b
      → Yields
          (storage iter_a iter_b)
          (merge fuel xs ys)
          (record { a = a; b = b; num_iterators = n })
  unfolding merge
  merge-Yields fuel a b n [] [] enough ya yb = only_a a b n [] yb ya
  merge-Yields fuel a b n (x ∷ xs) [] enough ya yb = only_a a b n (x ∷ xs) yb ya
  merge-Yields fuel a b n [] (y ∷ ys) enough ya yb = only_b a b n (y ∷ ys) ya yb
  merge-Yields zero a b n (x ∷ xs) (y ∷ ys) enough ya yb = absurd (omega arith)
  merge-Yields (suc fuel) a b n (x ∷ xs) (y ∷ ys) enough (va, ka, wa, a', na, ya)
        (vb, kb, wb, b', nb, yb) =
      elim (Ordering-cases (cmp x.0 y.0)) [
        | inl h ↦
            rw (h, merge)
              (step_lt a a' b b' n x y _ va vb ka kb wa wb na nb h
                (merge-Yields fuel a' b n xs (y ∷ ys) (omega arith) ya (vb, kb, wb, b', nb, yb)))
        | inr (inl h) ↦
            rw (h, merge)
              (step_eq a a' b b' n x y _ va vb ka kb wa wb na nb h
                (merge-Yields fuel a' b' n xs ys (omega arith) ya yb))
        | inr (inr h) ↦
            rw (h, merge)
              (step_gt a a' b b' n x y _ va vb ka kb wa wb na nb h
                (merge-Yields fuel a b' n (x ∷ xs) ys (omega arith) (va, ka, wa, a', na, ya) yb))
      ]

  -- If two iterators go through two lists, then their `TwoMergeIterator` goes through the merge of the
  -- lists, without an error or a panic: the smaller head first, and of two entries with one key only
  -- that of the first iterator.
  pub create-Yields :
      (a : A) (b : B) (xs ys : List (Key × Bytes))
      → Yields iter_a xs a
      → Yields iter_b ys b
      → Yields
          (storage iter_a iter_b)
          (merge (length xs + length ys) xs ys)
          (create iter_a iter_b a b)
  unfolding create
  create-Yields a b xs ys ya yb = merge-Yields _ a b _ xs ys (omega arith) ya yb
