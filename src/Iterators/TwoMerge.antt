-- ===== src/Iterators/TwoMerge.antt =====
-- iterators/two_merge_iterator.rs: two iterators merged into one.
use tiny_lsm.Common.{ℕ, ◌+◌, Bool, not, ◌||◌, Option, some, ◌>>=◌, Bytes, if◌then◌else◌, Ordering}
use tiny_lsm.Key.{Key, cmp, is_le}
use tiny_lsm.Iterators.{StorageIterator}

pub record TwoMergeIterator (A : Type 0) (B : Type 0) : Type 0 where
  pub a : A
  pub b : B
  pub num_iterators : ℕ

module _ {A : Type 0} {B : Type 0} (iter_a : StorageIterator A) (iter_b : StorageIterator B) where
  unfoldable pub create : A → B → TwoMergeIterator A B
  create a b = record {
    a = a;
    b = b;
    num_iterators = iter_a.num_active_iterators a + iter_b.num_active_iterators b;
  }

  -- `self.a.key() <= self.b.key()`
  unfoldable pub a_first : TwoMergeIterator A B → Option Bool
  a_first it = do a_key ← iter_a.key it.a; b_key ← iter_b.key it.b; some (is_le (cmp a_key b_key))

  unfoldable pub key : TwoMergeIterator A B → Option Key
  unfolding a_first
  key it =
      if not (iter_b.is_valid it.b)
      then iter_a.key it.a
      else if not (iter_a.is_valid it.a)
      then iter_b.key it.b
      else (a_first it >>= λ first. if first then iter_a.key it.a else iter_b.key it.b)

  unfoldable pub value : TwoMergeIterator A B → Option Bytes
  unfolding a_first
  value it =
      if not (iter_b.is_valid it.b)
      then iter_a.value it.a
      else if not (iter_a.is_valid it.a)
      then iter_b.value it.b
      else (a_first it >>= λ first. if first then iter_a.value it.a else iter_b.value it.b)

  unfoldable pub is_valid : TwoMergeIterator A B → Bool
  is_valid it = iter_a.is_valid it.a || iter_b.is_valid it.b

  abbrev pub next_a : TwoMergeIterator A B → Option (TwoMergeIterator A B)
  next_a it = iter_a.next it.a >>= λ a. some (record it { a = a })

  abbrev pub next_b : TwoMergeIterator A B → Option (TwoMergeIterator A B)
  next_b it = iter_b.next it.b >>= λ b. some (record it { b = b })

  -- `next`; of two equal keys both are passed.
  unfoldable pub next : TwoMergeIterator A B → Option (TwoMergeIterator A B)
  next it =
      if not (iter_b.is_valid it.b)
      then next_a it
      else if not (iter_a.is_valid it.a)
      then next_b it
      else (do
        a_key ← iter_a.key it.a
        b_key ← iter_b.key it.b
        elim (cmp a_key b_key) [
          | Ordering.lt ↦ next_a it
          | Ordering.gt ↦ next_b it
          | Ordering.eq ↦ next_a it >>= next_b
        ])

  -- The implementation of the trait.
  unfoldable pub storage : StorageIterator (TwoMergeIterator A B)
  unfolding key value is_valid next
  storage = record {
    value = value;
    key = key;
    is_valid = is_valid;
    next = next;
    num_active_iterators = λ it. it.num_iterators;
  }
