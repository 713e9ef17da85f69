-- ===== src/Tests/Logs.antt =====
-- The write-ahead log, the memtable, the Bloom filter and the iterators at concrete inputs.
use tiny_lsm.Common.{
  ℕ, zero, suc, ◌≡◌, refl, Bool, true, false, Option, none, some, List, [], ◌∷◌, Bytes, filter,
  arith, if◌then◌else◌,
}
use tiny_lsm.Key.{bytes_cmp, Key, from_slice, eq, ts_default}
use tiny_lsm.Wal.{recover}
use tiny_lsm.Wal.Recovery.{AllFitLog, put_all, insert_all, recover-put_all}
use tiny_lsm.MemTable.{
  MemTable, SkipMap, included, excluded, unbounded, upsert, find_key, within, create_with_wal, put,
  put_batch, recover_from_wal, sum_sizes, get, scan, map_bound_lower, map_bound_upper,
}
use tiny_lsm.Storage.Ranges.{range_overlap, key_within, range_overlap-keeps}
use tiny_lsm.MemTable.Bounds.{user_within, within-map_bound}
use tiny_lsm.MemTable.Scan.{collect, collect-scan, get-put}
use tiny_lsm.MemTable.Durable.{recover_from_wal-put_batch}
use tiny_lsm.Table.Bloom.{Bloom, build_from_key_hashes, may_contain, encode, decode, decoded}
use tiny_lsm.Table.Bloom.Sound.{build-may_contain}
use tiny_lsm.Table.Bloom.Codec.{decode-encode_filter}
use tiny_lsm.Iterators.{StorageIterator, Yields}
use tiny_lsm.Iterators.TwoMerge.{TwoMergeIterator}
use tiny_lsm.Iterators.TwoMerge
use tiny_lsm.Iterators.TwoMergeYields.{merge, create-Yields}
use tiny_lsm.LsmIterator.Fused.{FusedIterator}
use tiny_lsm.LsmIterator.Fused
use tiny_lsm.Tests.{test_buf, test_crc, test_hasher, second_entry, two_entries}

-- A sorted association list, in place of the skip list.
abbrev pub test_skip : SkipMap
test_skip = record {
  Map = List (Key × Bytes);
  new_map = [];
  insert = λ m k v. upsert k v m;
  get_value = λ m k. find_key k m;
  iter = λ m. m;
  range = λ m lower upper. filter (λ e. within lower upper e.0) m;
  iter-new_map = refl;
  iter-insert = λ m k v. refl;
  get_value-iter = λ m k. refl;
  range-iter = λ m lower upper. refl;
}

two_entries-AllFitLog : AllFitLog two_entries
two_entries-AllFitLog =
    ((omega arith, omega arith, omega arith), ((omega arith, omega arith, omega arith), tt))

recover-put_all_example :
    recover test_buf test_hasher
      (List (Key × Bytes))
      (λ m k v. upsert k v m)
      (put_all test_buf test_hasher [] two_entries)
      []
    ≡ some (
        insert_all test_buf test_hasher (List (Key × Bytes)) (λ m k v. upsert k v m) [] two_entries)
recover-put_all_example =
    recover-put_all test_buf test_hasher (List (Key × Bytes)) (λ m k v. upsert k v m) two_entries []
      two_entries-AllFitLog

test_table : MemTable (List (Key × Bytes))
test_table =
    put_batch test_skip test_buf test_hasher (create_with_wal test_skip test_buf test_hasher 5)
      two_entries

recover_from_wal-put_batch_example :
    (file : Bytes) × (test_table.wal ≡ some file)
    × (recover_from_wal test_skip test_buf test_hasher 5 file
        ≡ some (record {
          map = test_table.map;
          wal = test_table.wal;
          id = 5;
          approximate_size = sum_sizes test_table.map;
        }))
unfolding test_table
recover_from_wal-put_batch_example =
    recover_from_wal-put_batch test_skip test_buf test_hasher 5 two_entries two_entries-AllFitLog

abbrev plain_table : MemTable (List (Key × Bytes))
plain_table = record { map = two_entries; wal = none; id = 1; approximate_size = 21 }

collect-scan_example :
    collect 3 (scan test_skip test_buf test_hasher plain_table (excluded (1 ∷ 2 ∷ [])) unbounded)
    ≡ some (filter (λ e. user_within (excluded (1 ∷ 2 ∷ [])) unbounded e.0.bytes) two_entries)
collect-scan_example =
    collect-scan test_skip test_buf test_hasher plain_table (excluded (1 ∷ 2 ∷ [])) unbounded
      ((refl, omega arith, (refl, omega arith, tt)))

get-put_example :
    get test_skip test_buf test_hasher
      (put test_skip test_buf test_hasher plain_table (from_slice (4 ∷ []) 0) (8 ∷ []))
      (4 ∷ [])
    ≡ (if eq (from_slice (4 ∷ []) 0) (from_slice (4 ∷ []) ts_default)
        then some (8 ∷ [])
        else get test_skip test_buf test_hasher plain_table (4 ∷ []))
get-put_example =
    get-put test_skip test_buf test_hasher plain_table (from_slice (4 ∷ []) 0) (8 ∷ []) (4 ∷ [])

within-map_bound_example :
    within
      (map_bound_lower (included (4 ∷ [])))
      (map_bound_upper (excluded (5 ∷ [])))
      (from_slice (4 ∷ []) 9)
    ≡ user_within (included (4 ∷ [])) (excluded (5 ∷ [])) (4 ∷ [])
within-map_bound_example =
    within-map_bound (included (4 ∷ [])) (excluded (5 ∷ [])) (from_slice (4 ∷ []) 9) (omega arith)

build-may_contain_example :
    (b : Bloom) × (build_from_key_hashes (λ n. n) (17 ∷ 4000000000 ∷ []) 3 ≡ some b)
    × (may_contain b 4000000000 ≡ some true)
build-may_contain_example = build-may_contain (λ n. n) (17 ∷ 4000000000 ∷ []) 3 1 4000000000 refl

decode-encode_filter_example :
    decode test_crc (encode test_buf test_crc (record { filter = 3 ∷ 255 ∷ []; k = 4 }))
    ≡ some (decoded (record { filter = 3 ∷ 255 ∷ []; k = 4 }))
decode-encode_filter_example =
    decode-encode_filter test_buf test_crc (record { filter = 3 ∷ 255 ∷ []; k = 4 })

-- A list as an iterator.
list_is_valid : List (Key × Bytes) → Bool
list_is_valid [] = false
list_is_valid (e ∷ es) = true

list_key : List (Key × Bytes) → Option Key
list_key [] = none
list_key (e ∷ es) = some e.0

list_value : List (Key × Bytes) → Option Bytes
list_value [] = none
list_value (e ∷ es) = some e.1

list_next : List (Key × Bytes) → Option (List (Key × Bytes))
list_next [] = some []
list_next (e ∷ es) = some es

abbrev pub list_storage : StorageIterator (List (Key × Bytes))
unfolding list_value list_key list_is_valid list_next
list_storage = record {
  value = list_value;
  key = list_key;
  is_valid = list_is_valid;
  next = list_next;
  num_active_iterators = λ es. 1;
}

pub list-Yields : (es : List (Key × Bytes)) → Yields list_storage es es
unfolding list_storage list_value list_key list_is_valid list_next
list-Yields [] = refl
list-Yields (e ∷ es) = (refl, refl, refl, es, refl, list-Yields es)

create-Yields_example :
    Yields
      (TwoMerge.storage list_storage list_storage)
      (merge 3 two_entries (second_entry ∷ []))
      (TwoMerge.create list_storage list_storage two_entries (second_entry ∷ []))
create-Yields_example =
    create-Yields list_storage list_storage two_entries (second_entry ∷ []) two_entries
      (second_entry ∷ []) (list-Yields two_entries) (list-Yields (second_entry ∷ []))

-- An iterator whose second call of `next` fails.
failing_next : ℕ → ℕ × Bool
failing_next zero = (1, true)
failing_next (suc n) = (2, false)

next-failed_example :
    (Fused.is_valid
        (λ n. true)
        failing_next
        (Fused.next_times
          (λ n. true)
          failing_next
          3
          (Fused.next (λ n. true) failing_next (record { iter = 1; has_errored = false })).0)
      ≡ false)
    × ((Fused.next
          (λ n. true)
          failing_next
          (Fused.next_times
            (λ n. true)
            failing_next
            3
            (Fused.next (λ n. true) failing_next (record { iter = 1; has_errored = false })).0)).1
        ≡ false)
    × ((Fused.next_times
          (λ n. true)
          failing_next
          3
          (Fused.next (λ n. true) failing_next (record { iter = 1; has_errored = false })).0).iter
        ≡ (Fused.next (λ n. true) failing_next (record { iter = 1; has_errored = false })).0.iter)
unfolding Fused.next failing_next
next-failed_example =
    Fused.next-failed (λ n. true) failing_next (record { iter = 1; has_errored = false }) 3 refl

three_within : key_within (3 ∷ []) (from_slice (1 ∷ []) 3) (from_slice (4 ∷ []) 8) ≡ true
unfolding key_within bytes_cmp
three_within = refl

three_scanned : user_within (included (2 ∷ [])) (excluded (5 ∷ [])) (3 ∷ []) ≡ true
unfolding user_within bytes_cmp
three_scanned = refl

range_overlap-keeps_example :
    range_overlap
      (included (2 ∷ []))
      (excluded (5 ∷ []))
      (from_slice (1 ∷ []) 3)
      (from_slice (4 ∷ []) 8)
    ≡ true
range_overlap-keeps_example =
    range_overlap-keeps (included (2 ∷ [])) (excluded (5 ∷ [])) (from_slice (1 ∷ []) 3)
      (from_slice (4 ∷ []) 8) (3 ∷ []) three_within three_scanned
