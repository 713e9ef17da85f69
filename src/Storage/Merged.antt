-- ===== src/Storage/Merged.antt =====
-- lsm_storage.rs: the iterators of a get and of a scan, over the memtables and the tables.
use tiny_lsm.Common.{
  ℕ, ◌+◌, ◌≤◌, ◌≡◌, refl, ◌∙◌, ap, Option, none, some, List, ◌∷◌, Bytes, arith, length,
  if◌then◌else◌, ◌>>=◌, >>=-eq-some,
}
use tiny_lsm.Key.{Key, from_slice, ts_range_begin}
use tiny_lsm.MemTable.{Bound, included, find_key}
use tiny_lsm.MemTable.Bounds.{user_within}
use tiny_lsm.Table.Iterator
use tiny_lsm.Table.Iterator.{SsTableIterator}
use tiny_lsm.Iterators.{Yields}
use tiny_lsm.Iterators.Ascend.{Ascends}
use tiny_lsm.Iterators.Streams.{Stream, present, AllAscend, total}
use tiny_lsm.Iterators.MergePresents.{YieldsAll}
use tiny_lsm.Iterators.TwoMergePresents.{or_else}
use tiny_lsm.Iterators.Concat
use tiny_lsm.Iterators.Concat.{SstConcatIterator}
use tiny_lsm.Iterators.Cursors.{table_storage, concat_storage}
use tiny_lsm.LsmIterator
use tiny_lsm.LsmIterator.Skips.{Entries}
use tiny_lsm.Storage.State.{Level}
use tiny_lsm.Storage.Inner.{Env, Tree, LsmStorageInner}
use tiny_lsm.Storage.Read.{
  LsmIteratorInner, collect_all, keep_tables, tables_of, keep_table, overlapping, seek_table,
  seek_level, memtable_scans, merge_all, inner_storage, get_iter, scan_with_ts,
}
use tiny_lsm.Storage.Gets.{merge_all-present}
use tiny_lsm.Storage.Snapshots.{
  AllSound, first_value, entries_in, runs, scans-YieldsAll, runs-AllAscend, total-runs,
  present-runs,
}

-- Iterators that yield runs of entries with growing keys, which the fuel is enough for.
pub record Sources (env : Env) (fuel : ℕ) (s : Tree env) (l0_iters : List SsTableIterator)
    (level_iters : List SstConcatIterator) : Type 0 where
  pub sound : AllSound env (s.memtable ∷ s.imm_memtables)
  pub few : entries_in env (s.memtable ∷ s.imm_memtables) ≤ fuel
  pub l0 : List Stream
  pub l0_yields : YieldsAll (table_storage env.buf env.crc) l0 l0_iters
  pub l0_ascend : AllAscend l0
  pub l0_few : total l0 ≤ fuel
  pub levels : List Stream
  pub levels_yields : YieldsAll (concat_storage env.buf env.crc) levels level_iters
  pub levels_ascend : AllAscend levels
  pub levels_few : total levels ≤ fuel

module _ (env : Env) (fuel : ℕ) where
  open env use {buf, crc, hashes}

  -- What a snapshot has for a key in a range: the memtable, the frozen ones, L0 and the levels.
  abbrev pub snapshot_value :
      (s : Tree env) (l0 levels : List Stream) (lower upper : Bound Bytes) → Key → Option Bytes
  snapshot_value s l0 levels lower upper k =
      or_else
        (or_else
          (if user_within lower upper k.bytes
            then or_else (find_key k (env.skip.iter s.memtable.map))
                (first_value env k s.imm_memtables)
            else none)
          (present k l0))
        (present k levels)

  pub snapshot_merge :
      (s : Tree env) (lower upper : Bound Bytes) (l0_iters : List SsTableIterator)
      (level_iters : List SstConcatIterator)
      → (src : Sources env fuel s l0_iters level_iters)
      → (iter : LsmIteratorInner) × (es : Entries) × (merge_all env fuel
            (memtable_scans env fuel s lower upper)
            l0_iters
            level_iters
          ≡ some iter)
        × Yields (inner_storage env fuel) es iter
        × Ascends es
        × (length es
            ≤ entries_in env (s.memtable ∷ s.imm_memtables) + total src.l0 + total src.levels)
        × ((k : Key) → find_key k es ≡ snapshot_value s src.l0 src.levels lower upper k)
  snapshot_merge s lower upper l0_iters level_iters src =
      let mems = s.memtable ∷ s.imm_memtables in
      let (iter, es, made, yields, up, few, finds) =
        merge_all-present env fuel (runs env lower upper mems) src.l0 src.levels
          (memtable_scans env fuel s lower upper) l0_iters level_iters
          (omega (arith, total-runs env lower upper mems, src.few)) src.l0_few src.levels_few
          (scans-YieldsAll env lower upper mems src.sound) src.l0_yields src.levels_yields
          (runs-AllAscend env lower upper mems src.sound) src.l0_ascend src.levels_ascend in
      (
        iter,
        es,
        made,
        yields,
        up,
        omega (arith, few, total-runs env lower upper mems),
        λ k.
            finds k
            ∙ ap (λ v. or_else (or_else v (present k src.l0)) (present k src.levels))
                (present-runs env lower upper k mems),
      )

  -- The iterators that a get opens on the tables of L0 and on the levels.
  abbrev pub l0_opened : LsmStorageInner env → Bytes → Option (List SsTableIterator)
  l0_opened inner key = do
    l0 ← tables_of env fuel inner.state inner.state.l0_sstables
    l0_kept ← keep_tables (keep_table env fuel key) l0
    collect_all (λ table. Iterator.open_at_key buf crc table (from_slice key ts_range_begin))
        l0_kept

  abbrev pub levels_opened : LsmStorageInner env → Bytes → Option (List SstConcatIterator)
  levels_opened inner key =
      collect_all
        (λ (level : Level). do
          tables ← tables_of env fuel inner.state level.1
          level_ssts ← keep_tables (keep_table env fuel key) tables
          Concat.open_at_key buf crc level_ssts (from_slice key ts_range_begin))
        inner.state.levels

  pub get_iter_steps :
      (inner : LsmStorageInner env) (key : Bytes) (l0_iters : List SsTableIterator)
      (level_iters : List SstConcatIterator)
      → l0_opened inner key ≡ some l0_iters
      → levels_opened inner key ≡ some level_iters
      → get_iter env fuel inner key
        ≡ merge_all env fuel
            (memtable_scans env fuel inner.state (included key) (included key))
            l0_iters
            level_iters
  unfolding get_iter
  get_iter_steps inner key l0_iters level_iters h g =
      let (l0, found, h1) =
        >>=-eq-some (tables_of env fuel inner.state inner.state.l0_sstables) _ h in
      let (kept, filtered, h2) = >>=-eq-some (keep_tables (keep_table env fuel key) l0) _ h1 in
      rw found (rw filtered (rw h2 (rw g refl)))

  -- The iterators that a scan opens on the tables of L0 and on the levels.
  abbrev pub l0_sought :
      LsmStorageInner env → Bound Bytes → Bound Bytes → Option (List SsTableIterator)
  l0_sought inner lower upper = do
    l0 ← tables_of env fuel inner.state inner.state.l0_sstables
    l0_kept ← keep_tables (overlapping env fuel lower upper) l0
    collect_all (seek_table env fuel lower) l0_kept

  abbrev pub levels_sought :
      LsmStorageInner env → Bound Bytes → Bound Bytes → Option (List SstConcatIterator)
  levels_sought inner lower upper =
      collect_all
        (λ (level : Level). do
          tables ← tables_of env fuel inner.state level.1
          level_ssts ← keep_tables (overlapping env fuel lower upper) tables
          seek_level env fuel lower level_ssts)
        inner.state.levels

  pub scan_steps :
      (inner : LsmStorageInner env) (lower upper : Bound Bytes) (read_ts : ℕ)
      (l0_iters : List SsTableIterator) (level_iters : List SstConcatIterator)
      (iter : LsmIteratorInner)
      → l0_sought inner lower upper ≡ some l0_iters
      → levels_sought inner lower upper ≡ some level_iters
      → merge_all env fuel (memtable_scans env fuel inner.state lower upper) l0_iters level_iters
        ≡ some iter
      → scan_with_ts env fuel inner lower upper read_ts
        ≡ LsmIterator.new (inner_storage env fuel) fuel iter upper read_ts
  unfolding scan_with_ts
  scan_steps inner lower upper read_ts l0_iters level_iters iter h g m =
      let (l0, found, h1) =
        >>=-eq-some (tables_of env fuel inner.state inner.state.l0_sstables) _ h in
      let (kept, filtered, h2) =
        >>=-eq-some (keep_tables (overlapping env fuel lower upper) l0) _ h1 in
      rw found (rw filtered (rw h2 (rw g (rw m refl))))
