-- ===== src/Storage/GetsAt.antt =====
-- A get at the timestamp of a write finds what was written.
use tiny_lsm.Common.{
  ℕ, ◌<◌, ◌≡◌, inl, inr, ◌∙◌, sym, subst, ap, Option, none, some, [], ◌∷◌, Bytes, arith, length,
  Ordering, Ordering-cases, if◌then◌else◌, some-injective,
}
use tiny_lsm.Key.{Key, cmp, from_slice, is_empty_bytes}
use tiny_lsm.Key.Order.{bytes_eq_iff, bytes_cmp_refl, eq_of_cmp}
use tiny_lsm.MemTable.{find_key}
use tiny_lsm.MemTable.Scan.{find_key-here, find_key-past}
use tiny_lsm.Iterators.{Yields}
use tiny_lsm.Iterators.Ascend.{Ascends, AllAbove-trans, find_key-AllAbove}
use tiny_lsm.LsmIterator.Skips.{Entries}
use tiny_lsm.LsmIterator.Lookup.{version_at, NoneBelow}
use tiny_lsm.Storage.Inner.{Env, LsmStorageInner}
use tiny_lsm.Storage.Read.{LsmIteratorInner, inner_storage, get_iter, get_with_ts}
use tiny_lsm.Storage.Gets.{get_with_ts-version_at}

module _ (ts : ℕ) (key : Bytes) where
  version_at_written :
      (v : Bytes) (es : Entries)
      → version_at ts key ((from_slice key ts, v) ∷ es)
        ≡ (if is_empty_bytes v then none else some v)
  unfolding version_at
  version_at_written v es = ground (arith, (bytes_eq_iff key key).1)

  -- An entry before the key at that timestamp is one of another user key, or a newer version.
  version_at_before :
      (k : Key) (w : Bytes) (es : Entries)
      → cmp (from_slice key ts) k ≡ Ordering.gt
      → version_at ts key ((k, w) ∷ es) ≡ version_at ts key es
  unfolding version_at cmp
  version_at_before k w es h = ground (arith, (bytes_eq_iff k.bytes key).0, bytes_cmp_refl key)

  pub find_key-version_at :
      (v : Bytes) (es : Entries)
      → Ascends es
      → find_key (from_slice key ts) es ≡ some v
      → version_at ts key es ≡ (if is_empty_bytes v then none else some v)
  unfolding find_key
  find_key-version_at v [] up found = cc
  find_key-version_at v ((k, w) ∷ es) up found = elim (Ordering-cases (cmp (from_slice key ts) k)) [
    | inl lt ↦ absurd (
        none_some v (
          sym (
            find_key-AllAbove (from_slice key ts) ((k, w) ∷ es)
              (lt, AllAbove-trans (from_slice key ts) k es lt up.0))
          ∙ found))
    | inr (inl same) ↦
        let is : from_slice key ts ≡ k = eq_of_cmp (from_slice key ts) k same in
        let held : w ≡ v =
          some-injective _ _ (
            sym (find_key-here k w es) ∙ subst (λ x. find_key x ((k, w) ∷ es) ≡ some v) is found) in
        subst (λ x. version_at ts key ((x, w) ∷ es) ≡ (if is_empty_bytes v then none else some v))
          is
          (subst
            (λ u.
              version_at ts key ((from_slice key ts, w) ∷ es)
              ≡ (if is_empty_bytes u then none else some u))
            held (version_at_written w es))
    | inr (inr gt) ↦
        version_at_before k w es gt
        ∙ find_key-version_at v es up.1
            (sym (find_key-past (from_slice key ts) k w es (gt_not_eq _ gt)) ∙ found)
  ]
    where
      none_some : (x : Bytes) → ◌≡◌ {A = Option Bytes} none (some x) → ⊥
      none_some x h = cc

      gt_not_eq : (o : Ordering) → o ≡ Ordering.gt → o ≡ Ordering.eq → ⊥
      gt_not_eq o h g = cc

  -- A get at a timestamp at which the key was written gives the value that was written, or no value for
  -- a tombstone, whatever other versions there are; where its merged iterator has that version among
  -- entries with growing keys, none of them of a user key below, and the fuel is more than they are.
  pub get_with_ts-find_key :
      (env : Env) (fuel : ℕ) (inner : LsmStorageInner env) (iter : LsmIteratorInner) (es : Entries)
      (v : Bytes)
      → get_iter env fuel inner key ≡ some iter
      → length es < fuel
      → Yields (inner_storage env fuel) es iter
      → Ascends es
      → NoneBelow key es
      → find_key (from_slice key ts) es ≡ some v
      → get_with_ts env fuel inner key ts ≡ some (if is_empty_bytes v then none else some v)
  get_with_ts-find_key env fuel inner iter es v made enough y up from found =
      get_with_ts-version_at env fuel key ts inner iter es made enough y up from
      ∙ ap some (find_key-version_at v es up found)
