-- ===== src/Tests/Merged.antt =====
-- The iterators of a get and of a scan of a store, and a read after a write, at concrete inputs.
use tiny_lsm.Common.{ℕ, ◌≤◌, ◌≡◌, List, Bytes, true, refl, some, none, [], ◌∷◌, arith}
use tiny_lsm.Key.{Key, cmp, bytes_cmp, bytes_eq}
use tiny_lsm.MemTable
use tiny_lsm.MemTable.{included, excluded}
use tiny_lsm.Iterators.Concat.{SstConcatIterator}
use tiny_lsm.Iterators.Concat
use tiny_lsm.Iterators.Cursors.{concat_storage}
use tiny_lsm.LsmIterator
use tiny_lsm.Storage.Inner.{LsmStorageInner, WriteBatchRecord, put_record, del_record}
use tiny_lsm.Storage.Write.{write_batch, force_freeze_memtable}
use tiny_lsm.Storage.Read.{LsmIteratorInner, inner_storage, seek_level, keep_tables, get, scan}
use tiny_lsm.Storage.Merged.{Sources, levels_opened, levels_sought}
use tiny_lsm.LsmIterator.Scan.{collect}
use tiny_lsm.LsmIterator.Lookup.{lookup_user}
use tiny_lsm.MemTable.Bounds.{user_within}
use tiny_lsm.Storage.ScanBack.{scan-write_batch}
use tiny_lsm.Storage.ReadBack.{batch_value, get-write_batch}
use tiny_lsm.Tests.Stores.{test_env, or_empty, frozen_store}

-- The key 1 is deleted and written again in the memtable and has an older value in the frozen one.
abbrev again : List WriteBatchRecord
again = del_record (1 ∷ []) ∷ put_record (1 ∷ []) (7 ∷ []) ∷ []

abbrev mixed_store : LsmStorageInner test_env
mixed_store = or_empty (write_batch test_env frozen_store again)

abbrev no_tables : SstConcatIterator
no_tables = record { current = none; next_sst_idx = 0; sstables = [] }

mixed-Sources : Sources test_env 4 mixed_store.state [] (no_tables ∷ no_tables ∷ [])
unfolding write_batch force_freeze_memtable MemTable.upsert cmp bytes_cmp concat_storage
mixed-Sources = record {
  sound = (
    ((refl, omega arith, tt), (tt, tt)),
    (((refl, omega arith, (refl, omega arith, tt)), ((refl, tt), (tt, tt))), tt),
  );
  few = omega arith;
  l0 = [];
  l0_yields = tt;
  l0_ascend = tt;
  l0_few = omega arith;
  levels = [] ∷ [] ∷ [];
  levels_yields = (refl, (refl, tt));
  levels_ascend = (tt, (tt, tt));
  levels_few = omega arith;
}

mixed_opened : levels_opened test_env 4 mixed_store (1 ∷ []) ≡ some (no_tables ∷ no_tables ∷ [])
unfolding write_batch force_freeze_memtable keep_tables Concat.open_at_key
mixed_opened = refl

mixed_sought :
    levels_sought test_env 4 mixed_store (included (1 ∷ [])) (excluded (3 ∷ []))
    ≡ some (no_tables ∷ no_tables ∷ [])
unfolding write_batch force_freeze_memtable seek_level keep_tables Concat.open_at_key
mixed_sought = refl

mixed_written : write_batch test_env frozen_store again ≡ some mixed_store
unfolding write_batch force_freeze_memtable
mixed_written = refl

again_value : batch_value (1 ∷ []) again ≡ some (7 ∷ [])
unfolding bytes_eq
again_value = refl

get-write_batch_example : get test_env 4 mixed_store (1 ∷ []) ≡ some (some (7 ∷ []))
unfolding mixed-Sources write_batch force_freeze_memtable MemTable.upsert cmp bytes_cmp keep_tables
get-write_batch_example =
    get-write_batch test_env 4 frozen_store mixed_store again (1 ∷ []) (7 ∷ []) []
      (no_tables ∷ no_tables ∷ []) mixed_written again_value refl mixed_opened mixed-Sources tt
      (tt, (tt, tt)) (omega arith)

one_inside : user_within (included (1 ∷ [])) (excluded (3 ∷ [])) (1 ∷ []) ≡ true
unfolding user_within bytes_cmp
one_inside = refl

scan-write_batch_example :
    (iter : LsmIterator.LsmIterator LsmIteratorInner) × (rounds : ℕ) × (shown : List
      (Bytes × Bytes))
    × (scan test_env 4 mixed_store (included (1 ∷ [])) (excluded (3 ∷ [])) ≡ some iter)
    × (rounds ≤ 4)
    × (collect (inner_storage test_env 4) 4 rounds iter ≡ some shown)
    × (lookup_user (1 ∷ []) shown ≡ some (7 ∷ []))
unfolding mixed-Sources write_batch force_freeze_memtable MemTable.upsert cmp bytes_cmp keep_tables
scan-write_batch_example =
    scan-write_batch test_env 4 frozen_store mixed_store again (included (1 ∷ []))
      (excluded (3 ∷ [])) (1 ∷ []) (7 ∷ []) [] (no_tables ∷ no_tables ∷ []) mixed_written
      again_value one_inside refl mixed_sought mixed-Sources (omega arith)
