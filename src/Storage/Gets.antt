-- ===== src/Storage/Gets.antt =====
-- What the merges of the read path yield, and what a get finds among it.
use tiny_lsm.Common.{
  ℕ, zero, suc, ◌+◌, ◌≤◌, ◌<◌, ◌≡◌, inl, inr, refl, ◌∙◌, sym, ap, Bool, true, false, ◌&&◌, none,
  some, List, [], ◌∷◌, Bytes, arith, length, ltb, Bool-cases, if◌then◌else◌,
}
use tiny_lsm.Key.{Key, bytes_eq, is_empty_bytes}
use tiny_lsm.Key.Order.{bytes_eq_iff}
use tiny_lsm.MemTable.{MemTableIterator, find_key}
use tiny_lsm.Table.Iterator.{SsTableIterator}
use tiny_lsm.Iterators.{Yields}
use tiny_lsm.Iterators.Ascend.{Ascends}
use tiny_lsm.Iterators.Streams.{Stream, present, AllAscend, total}
use tiny_lsm.Iterators.Merge
use tiny_lsm.Iterators.MergePresents.{YieldsAll, create-Merged}
use tiny_lsm.Iterators.TwoMerge
use tiny_lsm.Iterators.TwoMergePresents.{or_else, create-MergesTo}
use tiny_lsm.Iterators.Concat.{SstConcatIterator}
use tiny_lsm.Iterators.Cursors.{mem_table_storage, table_storage, concat_storage}
use tiny_lsm.LsmIterator.Skips.{Entries}
use tiny_lsm.LsmIterator.Lookup.{version_at, no_version, NoneBelow}
use tiny_lsm.Storage.Inner.{Env, LsmStorageInner}
use tiny_lsm.Storage.Read.{
  LsmIteratorInner, mem_merge, l0_merge, level_merge, inner_storage, merge_all, skip_too_new,
  value_of, get_iter, get_with_ts,
}

module _ (env : Env) (fuel : ℕ) where
  open env use {buf, crc}

  merge_all_steps :
      (mems : List MemTableIterator) (tables : List SsTableIterator)
      (levels : List SstConcatIterator) (m : Merge.MergeIterator MemTableIterator)
      (t : Merge.MergeIterator SsTableIterator) (l : Merge.MergeIterator SstConcatIterator)
      → Merge.create mem_table_storage mems ≡ some m
      → Merge.create (table_storage buf crc) tables ≡ some t
      → Merge.create (concat_storage buf crc) levels ≡ some l
      → merge_all env fuel mems tables levels
        ≡ some (
            TwoMerge.create
              (TwoMerge.storage (mem_merge env fuel) (l0_merge env fuel))
              (level_merge env fuel)
              (TwoMerge.create (mem_merge env fuel) (l0_merge env fuel) m t)
              l)
  unfolding merge_all
  merge_all_steps mems tables levels m t l h1 h2 h3 = rw h1 (rw h2 (rw h3 refl))

  -- The merge of iterators over memtables, over tables and over runs of tables, by the entries that
  -- these yield.
  pub merge_all-present :
      (mem_streams l0_streams level_streams : List Stream) (mems : List MemTableIterator)
      (tables : List SsTableIterator) (levels : List SstConcatIterator)
      → total mem_streams ≤ fuel
      → total l0_streams ≤ fuel
      → total level_streams ≤ fuel
      → YieldsAll mem_table_storage mem_streams mems
      → YieldsAll (table_storage buf crc) l0_streams tables
      → YieldsAll (concat_storage buf crc) level_streams levels
      → AllAscend mem_streams
      → AllAscend l0_streams
      → AllAscend level_streams
      → (iter : LsmIteratorInner) × (es : Entries) × (merge_all env fuel mems tables levels
          ≡ some iter)
        × Yields (inner_storage env fuel) es iter
        × Ascends es
        × (length es ≤ total mem_streams + total l0_streams + total level_streams)
        × ((k : Key)
            → find_key k es
              ≡ or_else
                  (or_else (present k mem_streams) (present k l0_streams))
                  (present k level_streams))
  merge_all-present ms ts ls mems tables levels em et el ym yt yl um ut ul =
      let (m, mes, made_m, yields_m, merged_m) =
        create-Merged mem_table_storage fuel ms mems em ym um in
      let (t, tes, made_t, yields_t, merged_t) =
        create-Merged (table_storage buf crc) fuel ts tables et yt ut in
      let (l, les, made_l, yields_l, merged_l) =
        create-Merged (concat_storage buf crc) fuel ls levels el yl ul in
      let (upper, yields_u, merged_u) =
        create-MergesTo (mem_merge env fuel) (l0_merge env fuel) m t mes tes yields_m yields_t
          merged_m.ascends merged_t.ascends in
      let (es, yields, merged) =
        create-MergesTo (TwoMerge.storage (mem_merge env fuel) (l0_merge env fuel))
          (level_merge env fuel) (TwoMerge.create (mem_merge env fuel) (l0_merge env fuel) m t) l
          upper les yields_u yields_l merged_u.ascends merged_l.ascends in
      (
        _,
        es,
        merge_all_steps mems tables levels m t l made_m made_t made_l,
        yields,
        merged.ascends,
        omega (arith, merged.few, merged_u.few, merged_m.few, merged_t.few, merged_l.few),
        λ k.
            merged.finds k
            ∙ ap (λ v. or_else v (find_key k les)) (merged_u.finds k)
            ∙ ap (λ v. or_else (or_else (find_key k mes) (find_key k tes)) v) (merged_l.finds k)
            ∙ ap (λ v. or_else (or_else (find_key k mes) v) (present k ls)) (merged_t.finds k)
            ∙ ap (λ v. or_else (or_else v (present k ts)) (present k ls)) (merged_m.finds k),
      )

  module _ (key : Bytes) (read_ts : ℕ) where
    abbrev too_new : Key → Bool
    too_new k = bytes_eq k.bytes key && ltb read_ts k.ts

    skip_done :
        (rounds : ℕ) (iter : LsmIteratorInner)
        → (inner_storage env fuel).is_valid iter ≡ false
        → skip_too_new env fuel (suc rounds) key read_ts iter ≡ some iter
    unfolding skip_too_new
    skip_done rounds iter h = rw h refl

    skip_stop :
        (rounds : ℕ) (k : Key) (iter : LsmIteratorInner)
        → (inner_storage env fuel).is_valid iter ≡ true
        → (inner_storage env fuel).key iter ≡ some k
        → too_new k ≡ false
        → skip_too_new env fuel (suc rounds) key read_ts iter ≡ some iter
    unfolding skip_too_new
    skip_stop rounds k iter valid at stop = rw valid (rw at (rw stop refl))

    skip_pass :
        (rounds : ℕ) (k : Key) (iter iter' : LsmIteratorInner)
        → (inner_storage env fuel).is_valid iter ≡ true
        → (inner_storage env fuel).key iter ≡ some k
        → (inner_storage env fuel).next iter ≡ some iter'
        → too_new k ≡ true
        → skip_too_new env fuel (suc rounds) key read_ts iter
          ≡ skip_too_new env fuel rounds key read_ts iter'
    unfolding skip_too_new
    skip_pass rounds k iter iter' valid at ran pass = rw valid (rw at (rw pass (rw ran refl)))

    value_of_end :
        (iter : LsmIteratorInner)
        → (inner_storage env fuel).is_valid iter ≡ false
        → value_of env fuel key iter ≡ some none
    unfolding value_of
    value_of_end iter h = rw h refl

    value_of_lem :
        (k : Key) (v : Bytes) (iter : LsmIteratorInner)
        → (inner_storage env fuel).is_valid iter ≡ true
        → (inner_storage env fuel).key iter ≡ some k
        → (inner_storage env fuel).value iter ≡ some v
        → value_of env fuel key iter
          ≡ some
              (if bytes_eq k.bytes key then (if is_empty_bytes v then none else some v) else none)
    unfolding value_of
    value_of_lem k v iter valid at held = rw valid (
        rw at (elim (Bool-cases (bytes_eq k.bytes key)) [
          | inl h ↦ rw h (rw held refl)
          | inr h ↦ rw h refl
        ]))

    version_at_past :
        (k : Key) (v : Bytes) (es : Entries)
        → too_new k ≡ true
        → version_at read_ts key ((k, v) ∷ es) ≡ version_at read_ts key es
    unfolding version_at
    version_at_past k v es h = ground arith

    version_at_here :
        (k : Key) (v : Bytes) (es : Entries)
        → bytes_eq k.bytes key ≡ true
        → too_new k ≡ false
        → version_at read_ts key ((k, v) ∷ es) ≡ (if is_empty_bytes v then none else some v)
    unfolding version_at
    version_at_here k v es h g = ground arith

    version_at_end : version_at read_ts key [] ≡ none
    unfolding version_at
    version_at_end = refl

    -- The loop of `get_with_ts` stands at the version that it looks for.
    skip_too_new-Yields :
        (rounds : ℕ) (es : Entries) (iter : LsmIteratorInner)
        → length es < rounds
        → Yields (inner_storage env fuel) es iter
        → Ascends es
        → NoneBelow key es
        → (iter' : LsmIteratorInner) × (skip_too_new env fuel rounds key read_ts iter ≡ some iter')
          × (value_of env fuel key iter' ≡ some (version_at read_ts key es))
    skip_too_new-Yields zero es iter enough y up from = absurd (omega arith)
    skip_too_new-Yields (suc rounds) [] iter enough y up from =
        (iter, skip_done rounds iter y, value_of_end iter y ∙ ap some (sym version_at_end))
    skip_too_new-Yields (suc rounds) ((k, v) ∷ es) iter enough (valid, at, held, next_iter, ran, y)
          up from =
        elim (Bool-cases (too_new k)) [
          | inl new ↦
              let (iter', went, found) =
                skip_too_new-Yields rounds es next_iter (omega arith) y up.1 from.1 in
              (
                iter',
                skip_pass rounds k iter next_iter valid at ran new ∙ went,
                found ∙ ap some (sym (version_at_past k v es new)),
              )
          | inr stop ↦ (
            iter,
            skip_stop rounds k iter valid at stop,
            value_of_lem k v iter valid at held
                ∙ ap some (elim (Bool-cases (bytes_eq k.bytes key)) [
                  | inl same ↦ rw same (sym (version_at_here k v es same stop))
                  | inr other ↦
                      rw other
                        (sym (no_version read_ts key k v es up.0 from.0 (eq_flip k.bytes other)))
                ]),
          )
        ]
      where
        eq_flip : (u : Bytes) → bytes_eq u key ≡ false → bytes_eq key u ≡ false
        eq_flip u h = elim (Bool-cases (bytes_eq key u)) [
          | inl same ↦ absurd (cc (h, (bytes_eq_iff u key).1 (sym ((bytes_eq_iff key u).0 same))))
          | inr other ↦ other
        ]

    -- A get at a timestamp gives the value of the newest version of the key that is not newer, and no
    -- value where that is a tombstone or there is no such version; where its merged iterator yields
    -- entries with growing keys, none of them of a user key below, and the fuel is more than they are.
    pub get_with_ts-version_at :
        (inner : LsmStorageInner env) (iter : LsmIteratorInner) (es : Entries)
        → get_iter env fuel inner key ≡ some iter
        → length es < fuel
        → Yields (inner_storage env fuel) es iter
        → Ascends es
        → NoneBelow key es
        → get_with_ts env fuel inner key read_ts ≡ some (version_at read_ts key es)
    unfolding get_with_ts
    get_with_ts-version_at inner iter es made enough y up from =
        let (iter', went, found) = skip_too_new-Yields fuel es iter enough y up from in
        rw made (rw went found)
