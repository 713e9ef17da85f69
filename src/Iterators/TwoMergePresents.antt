-- ===== src/Iterators/TwoMergePresents.antt =====
-- What a merge of two iterators yields, by its keys.
use tiny_lsm.Common.{
  ℕ, zero, suc, ◌+◌, ◌≤◌, ◌≡◌, inl, inr, refl, ◌∙◌, sym, subst, Option, none, some, List, [], ◌∷◌,
  Bytes, arith, Ordering, Ordering-cases, length,
}
use tiny_lsm.Key.{Key, cmp}
use tiny_lsm.Key.Order.{cmp-reverse, eq_of_cmp}
use tiny_lsm.MemTable.{find_key}
use tiny_lsm.MemTable.Scan.{find_key-here, find_key-past}
use tiny_lsm.Iterators.{StorageIterator, Yields}
use tiny_lsm.Iterators.Ascend.{AllAbove, Ascends, AllAbove-trans, find_key-AllAbove}
use tiny_lsm.Iterators.TwoMerge.{create, storage}
use tiny_lsm.Iterators.TwoMergeYields.{merge, create-Yields}

-- The first of two values that is there.
abbrev pub or_else : Option Bytes → Option Bytes → Option Bytes
or_else none w = w
or_else (some v) w = some v

pub record MergesTo (xs ys es : List (Key × Bytes)) : Type 0 where
  pub ascends : Ascends es
  pub finds : (k : Key) → find_key k es ≡ or_else (find_key k xs) (find_key k ys)
  pub bound : (p : Key) → AllAbove p xs → AllAbove p ys → AllAbove p es
  pub few : length es ≤ length xs + length ys

find_key-empty : (k : Key) → find_key k [] ≡ none
unfolding find_key
find_key-empty k = refl

or_else-none : (v : Option Bytes) → or_else v none ≡ v
or_else-none none = refl
or_else-none (some v) = refl

-- Where an entry comes first whose key has its value, it is enough to look at the other keys.
finds_cons :
    (e : Key × Bytes) (es : List (Key × Bytes)) (value : Key → Option Bytes)
    → value e.0 ≡ some e.1
    → ((k : Key) → (cmp k e.0 ≡ Ordering.eq → ⊥) → find_key k es ≡ value k)
    → (k : Key) → find_key k (e ∷ es) ≡ value k
finds_cons e es value here past k = elim (Ordering-cases (cmp k e.0)) [
  | inl lt ↦ find_key-past k e.0 e.1 es (lt_not_eq _ lt) ∙ past k (lt_not_eq _ lt)
  | inr (inl same) ↦
      subst (λ x. find_key x (e ∷ es) ≡ value x) (sym (eq_of_cmp k e.0 same))
        (find_key-here e.0 e.1 es ∙ sym here)
  | inr (inr gt) ↦ find_key-past k e.0 e.1 es (gt_not_eq _ gt) ∙ past k (gt_not_eq _ gt)
]
  where
    lt_not_eq : (o : Ordering) → o ≡ Ordering.lt → o ≡ Ordering.eq → ⊥
    lt_not_eq o h g = cc

    gt_not_eq : (o : Ordering) → o ≡ Ordering.gt → o ≡ Ordering.eq → ⊥
    gt_not_eq o h g = cc

module _ (x y : Key × Bytes) (xs ys es : List (Key × Bytes)) (up_x : Ascends (x ∷ xs))
    (up_y : Ascends (y ∷ ys)) where
  MergesTo-lt :
      cmp x.0 y.0 ≡ Ordering.lt → MergesTo xs (y ∷ ys) es → MergesTo (x ∷ xs) (y ∷ ys) (x ∷ es)
  MergesTo-lt o m = record {
    ascends = (m.bound x.0 up_x.0 (o, AllAbove-trans x.0 y.0 ys o up_y.0), m.ascends);
    finds =
        finds_cons x es (λ k. or_else (find_key k (x ∷ xs)) (find_key k (y ∷ ys)))
          (rw (find_key-here x.0 x.1 xs) refl)
          (λ k other. m.finds k ∙ rw (find_key-past k x.0 x.1 xs other) refl);
    bound = λ p a b. (a.0, m.bound p a.1 b);
    few = omega (arith, m.few);
  }

  MergesTo-gt :
      cmp x.0 y.0 ≡ Ordering.gt → MergesTo (x ∷ xs) ys es → MergesTo (x ∷ xs) (y ∷ ys) (y ∷ es)
  MergesTo-gt o m =
      let below : cmp y.0 x.0 ≡ Ordering.lt = rw (cmp-reverse x.0 y.0, o) refl in
      let above : AllAbove y.0 (x ∷ xs) = (below, AllAbove-trans y.0 x.0 xs below up_x.0) in
      record {
        ascends = (m.bound y.0 above up_y.0, m.ascends);
        finds =
            finds_cons y es (λ k. or_else (find_key k (x ∷ xs)) (find_key k (y ∷ ys)))
              (rw (find_key-AllAbove y.0 (x ∷ xs) above, find_key-here y.0 y.1 ys) refl)
              (λ k other. m.finds k ∙ rw (find_key-past k y.0 y.1 ys other) refl);
        bound = λ p a b. (b.0, m.bound p a b.1);
        few = omega (arith, m.few);
      }

  MergesTo-eq : cmp x.0 y.0 ≡ Ordering.eq → MergesTo xs ys es → MergesTo (x ∷ xs) (y ∷ ys) (x ∷ es)
  MergesTo-eq o m =
      let same : x.0 ≡ y.0 = eq_of_cmp x.0 y.0 o in
      record {
        ascends = (m.bound x.0 up_x.0 (subst (λ k. AllAbove k ys) (sym same) up_y.0), m.ascends);
        finds =
            finds_cons x es (λ k. or_else (find_key k (x ∷ xs)) (find_key k (y ∷ ys)))
              (rw (find_key-here x.0 x.1 xs) refl)
              (λ k other.
                m.finds k
                ∙ rw (find_key-past k x.0 x.1 xs other) (
                    rw
                      (find_key-past k y.0 y.1 ys
                        (subst (λ j. cmp k j ≡ Ordering.eq → ⊥) same other))
                      refl));
        bound = λ p a b. (a.0, m.bound p a.1 b.1);
        few = omega (arith, m.few);
      }

merge-MergesTo :
    (fuel : ℕ) (xs ys : List (Key × Bytes))
    → length xs + length ys ≤ fuel
    → Ascends xs
    → Ascends ys
    → MergesTo xs ys (merge fuel xs ys)
unfolding merge
merge-MergesTo fuel xs [] enough up_x up_y = record {
  ascends = up_x;
  finds = λ k. rw (find_key-empty k) (sym (or_else-none (find_key k xs)));
  bound = λ p a b. a;
  few = omega arith;
}
merge-MergesTo fuel [] (y ∷ ys) enough up_x up_y = record {
  ascends = up_y;
  finds = λ k. rw (find_key-empty k) refl;
  bound = λ p a b. b;
  few = omega arith;
}
merge-MergesTo zero (x ∷ xs) (y ∷ ys) enough up_x up_y = absurd (omega arith)
merge-MergesTo (suc fuel) (x ∷ xs) (y ∷ ys) enough up_x up_y = elim (Ordering-cases (cmp x.0 y.0)) [
  | inl o ↦
      rw (o, merge)
        (MergesTo-lt x y xs ys _ up_x up_y o
          (merge-MergesTo fuel xs (y ∷ ys) (omega arith) up_x.1 up_y))
  | inr (inl o) ↦
      rw (o, merge)
        (MergesTo-eq x y xs ys _ up_x up_y o
          (merge-MergesTo fuel xs ys (omega arith) up_x.1 up_y.1))
  | inr (inr o) ↦
      rw (o, merge)
        (MergesTo-gt x y xs ys _ up_x up_y o
          (merge-MergesTo fuel (x ∷ xs) ys (omega arith) up_x up_y.1))
]

module _ {A : Type 0} {B : Type 0} (iter_a : StorageIterator A) (iter_b : StorageIterator B) where
  pub create-MergesTo :
      (a : A) (b : B) (xs ys : List (Key × Bytes))
      → Yields iter_a xs a
      → Yields iter_b ys b
      → Ascends xs
      → Ascends ys
      → (es : List (Key × Bytes)) × Yields (storage iter_a iter_b) es (create iter_a iter_b a b)
        × MergesTo xs ys es
  create-MergesTo a b xs ys y_a y_b up_x up_y = (
    merge (length xs + length ys) xs ys,
    create-Yields iter_a iter_b a b xs ys y_a y_b,
    merge-MergesTo (length xs + length ys) xs ys (omega arith) up_x up_y,
  )

  -- A merge of two iterators over entries with growing keys yields entries with growing keys, and a key
  -- has among them the value that the first iterator gives it, or else that of the second.
  pub create-or_else :
      (a : A) (b : B) (xs ys : List (Key × Bytes))
      → Yields iter_a xs a
      → Yields iter_b ys b
      → Ascends xs
      → Ascends ys
      → (es : List (Key × Bytes)) × Yields (storage iter_a iter_b) es (create iter_a iter_b a b)
        × Ascends es
        × ((k : Key) → find_key k es ≡ or_else (find_key k xs) (find_key k ys))
  create-or_else a b xs ys y_a y_b up_x up_y =
      let (es, yields, m) = create-MergesTo a b xs ys y_a y_b up_x up_y in
      (es, yields, m.ascends, m.finds)
