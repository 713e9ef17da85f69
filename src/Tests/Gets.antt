-- ===== src/Tests/Gets.antt =====
-- Reads of a store at concrete inputs.
use tiny_lsm.Common.{◌≡◌, refl, Option, none, some, [], ◌∷◌, arith}
use tiny_lsm.Key.{from_slice, cmp, bytes_cmp, bytes_eq, eq}
use tiny_lsm.MemTable
use tiny_lsm.MemTable.{MemTableIterator, find_key, included, unbounded}
use tiny_lsm.Iterators.{Yields}
use tiny_lsm.Iterators.Ascend.{Ascends}
use tiny_lsm.Iterators.Cursors.{mem_table_storage, concat_storage}
use tiny_lsm.Iterators.TwoMerge
use tiny_lsm.Iterators.Merge
use tiny_lsm.LsmIterator.Skips.{Entries}
use tiny_lsm.LsmIterator.Lookup.{version_at, NoneBelow}
use tiny_lsm.Storage.Inner.{LsmStorageInner, del_record}
use tiny_lsm.Storage.Write.{write_batch}
use tiny_lsm.Storage.Read.{LsmIteratorInner, inner_storage, get_iter, get_with_ts, get}
use tiny_lsm.Storage.GetsAt.{get_with_ts-find_key}
use tiny_lsm.Storage.Gets.{get_with_ts-version_at}
use tiny_lsm.Mvcc
use tiny_lsm.Mvcc.{new_txn}
use tiny_lsm.Mvcc.Local.{shown, last_write, after_writes, get-after_writes}
use tiny_lsm.Tests.Stores.{test_local, test_env, or_empty, written}

-- The store with a value of the key 1 that was then deleted.
abbrev deleted : LsmStorageInner test_env
deleted = or_empty (write_batch test_env written (del_record (1 ∷ []) ∷ []))

abbrev two_versions : Entries
two_versions = (from_slice (1 ∷ []) 2, []) ∷ (from_slice (1 ∷ []) 1, 9 ∷ []) ∷ []

read_deleted : get test_env 3 deleted (1 ∷ []) ≡ some none
unfolding write_batch get mem_table_storage MemTable.is_valid MemTable.upsert cmp bytes_cmp
    MemTable.within concat_storage TwoMerge.storage Merge.merge_storage bytes_eq eq
read_deleted = refl

read_before : get_with_ts test_env 3 deleted (1 ∷ []) 1 ≡ some (some (9 ∷ []))
unfolding write_batch get_with_ts mem_table_storage MemTable.is_valid MemTable.upsert cmp bytes_cmp
    MemTable.within concat_storage TwoMerge.storage Merge.merge_storage bytes_eq eq
read_before = refl

-- The iterator of that read, or one without entries.
abbrev or_void : Option LsmIteratorInner → LsmIteratorInner
or_void none = record {
  a = record {
    a = record { iters = []; current = none; num_iterators = 0 };
    b = record { iters = []; current = none; num_iterators = 0 };
    num_iterators = 0;
  };
  b = record { iters = []; current = none; num_iterators = 0 };
  num_iterators = 0;
}
or_void (some iter) = iter

abbrev deleted_iter : LsmIteratorInner
deleted_iter = or_void (get_iter test_env 3 deleted (1 ∷ []))

deleted_made : get_iter test_env 3 deleted (1 ∷ []) ≡ some deleted_iter
unfolding write_batch get_iter mem_table_storage MemTable.is_valid MemTable.upsert cmp bytes_cmp
    MemTable.within concat_storage TwoMerge.storage Merge.merge_storage bytes_eq eq
deleted_made = refl

deleted-Yields : Yields (inner_storage test_env 3) two_versions deleted_iter
unfolding write_batch get_iter Merge.next TwoMerge.next mem_table_storage MemTable.is_valid
    MemTable.upsert cmp bytes_cmp MemTable.within concat_storage TwoMerge.storage
    Merge.merge_storage bytes_eq eq
deleted-Yields = (refl, refl, refl, _, refl, (refl, refl, refl, _, refl, refl))

two_versions-Ascends : Ascends two_versions
unfolding cmp bytes_cmp
two_versions-Ascends = ((refl, tt), (tt, tt))

one-NoneBelow : NoneBelow (1 ∷ []) two_versions
unfolding bytes_cmp
one-NoneBelow = (refl, (refl, tt))

get_with_ts-version_at_example :
    get_with_ts test_env 3 deleted (1 ∷ []) 1 ≡ some (version_at 1 (1 ∷ []) two_versions)
get_with_ts-version_at_example =
    get_with_ts-version_at test_env 3 (1 ∷ []) 1 deleted deleted_iter two_versions deleted_made
      (omega arith) deleted-Yields two_versions-Ascends one-NoneBelow

older_found : find_key (from_slice (1 ∷ []) 1) two_versions ≡ some (9 ∷ [])
unfolding find_key cmp bytes_cmp
older_found = refl

get_with_ts-find_key_example : get_with_ts test_env 3 deleted (1 ∷ []) 1 ≡ some (some (9 ∷ []))
get_with_ts-find_key_example =
    get_with_ts-find_key 1 (1 ∷ []) test_env 3 deleted deleted_iter two_versions (9 ∷ [])
      deleted_made (omega arith) deleted-Yields two_versions-Ascends one-NoneBelow older_found

-- A transaction that was begun before the key 1 was deleted, and has deleted the key 2 itself.
get-after_writes_example :
    (Mvcc.get test_env test_local 3 deleted
      (after_writes test_env test_local
        (new_txn test_env test_local written)
        (del_record (2 ∷ []) ∷ []))
      (1 ∷ [])).0
    ≡ elim (last_write (1 ∷ []) (del_record (2 ∷ []) ∷ [])) [
      | some v ↦ some (shown v)
      | none ↦ get_with_ts test_env 3 deleted (1 ∷ []) written.commit_ts
    ]
get-after_writes_example =
    get-after_writes test_env test_local 3 deleted written (del_record (2 ∷ []) ∷ []) (1 ∷ [])
