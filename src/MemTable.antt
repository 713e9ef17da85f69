-- ===== src/MemTable.antt =====
-- mem_table.rs: the memtable, a skip list of versioned keys with its write-ahead log.
pub mod Bounds
pub mod Scan
pub mod Durable
pub mod Flush
use tiny_lsm.Common.{
  ℕ, zero, suc, ◌+◌, ◌%◌, ◌≡◌, Bool, true, false, not, ◌&&◌, Option, none, some, List, [], ◌∷◌,
  Bytes, length, filter, ◌>>=◌, Ordering,
}
use tiny_lsm.Buffer.{u64_mod, BufCrate, Hasher}
use tiny_lsm.Key.{
  Key, from_slice, new, is_empty, raw_len, cmp, is_lt, is_le, ts_default, ts_range_begin,
  ts_range_end,
}
use tiny_lsm.Wal

-- `std::ops::Bound`
pub data Bound (A : Type 0) : Type 0 where
  included : A → Bound A
  excluded : A → Bound A
  unbounded : Bound A

unfoldable pub is_above : Bound Key → Key → Bool
is_above (included x) k = is_le (cmp x k)
is_above (excluded x) k = is_lt (cmp x k)
is_above unbounded k = true

unfoldable pub is_below : Bound Key → Key → Bool
is_below (included x) k = is_le (cmp k x)
is_below (excluded x) k = is_lt (cmp k x)
is_below unbounded k = true

-- `RangeBounds::contains`, for keys
unfoldable pub within : Bound Key → Bound Key → Key → Bool
unfolding is_above is_below
within lower upper k = is_above lower k && is_below upper k

-- A sorted association list in which a key is inserted, or its value replaced.
unfoldable pub upsert : Key → Bytes → List (Key × Bytes) → List (Key × Bytes)
upsert k v [] = (k, v) ∷ []
upsert k v ((k', v') ∷ es) =
    let rest = upsert k v es in
    elim (cmp k k') [
      | Ordering.lt ↦ (k, v) ∷ (k', v') ∷ es
      | Ordering.eq ↦ (k, v) ∷ es
      | Ordering.gt ↦ (k', v') ∷ rest
    ]

unfoldable pub find_key : Key → List (Key × Bytes) → Option Bytes
find_key k [] = none
find_key k ((k', v') ∷ es) =
    let rest = find_key k es in elim (cmp k k') [ Ordering.eq ↦ some v' | _ ↦ rest ]

-- `SkipMap` of the crate `crossbeam_skiplist`, with `Key` and `Bytes`: an ordered map, whose
-- iterators go through the entries in the order of the keys.
pub record SkipMap : Type 1 where
  pub Map : Type 0
  pub new_map : Map
  pub insert : Map → Key → Bytes → Map
  pub get_value : Map → Key → Option Bytes
  pub iter : Map → List (Key × Bytes)
  pub range : Map → Bound Key → Bound Key → List (Key × Bytes)
  pub iter-new_map : iter new_map ≡ []
  pub iter-insert : (m : Map) (k : Key) (v : Bytes) → iter (insert m k v) ≡ upsert k v (iter m)
  pub get_value-iter : (m : Map) (k : Key) → get_value m k ≡ find_key k (iter m)
  pub range-iter :
      (m : Map) (lower upper : Bound Key)
      → range m lower upper ≡ filter (λ e. within lower upper e.0) (iter m)

unfoldable pub map_bound_lower : Bound Bytes → Bound Key
map_bound_lower (included x) = included (from_slice x ts_range_begin)
map_bound_lower (excluded x) = excluded (from_slice x ts_range_end)
map_bound_lower unbounded = unbounded

unfoldable pub map_bound_upper : Bound Bytes → Bound Key
map_bound_upper (included x) = included (from_slice x ts_range_end)
map_bound_upper (excluded x) = excluded (from_slice x ts_range_begin)
map_bound_upper unbounded = unbounded

-- `MemTableIterator`: the range that is left, and the current item.
pub record MemTableIterator : Type 0 where
  pub rest : List (Key × Bytes)
  pub item : Key × Bytes

unfoldable pub is_valid : MemTableIterator → Bool
is_valid it = not (is_empty it.item.0)

-- `MemTableIterator::next`: at the end of the range the item is an empty key.
unfoldable pub next : MemTableIterator → MemTableIterator
next it = go it.rest
  where
    go : List (Key × Bytes) → MemTableIterator
    go [] = record { rest = []; item = (new, []) }
    go (e ∷ es) = record { rest = es; item = e }

-- `MemTable`; the log is the bytes of its file.
pub record MemTable (Map : Type 0) : Type 0 where
  pub map : Map
  pub wal : Option Bytes
  pub id : ℕ
  pub approximate_size : ℕ

-- `map(|e| e.key().raw_len() + e.value().len()).sum()`
unfoldable pub sum_sizes : List (Key × Bytes) → ℕ
sum_sizes [] = 0
sum_sizes ((k, v) ∷ es) = raw_len k + length v + sum_sizes es

module _ (skip : SkipMap) (buf : BufCrate) (hasher : Hasher) where
  open skip use {Map, new_map, insert, get_value, iter, range}

  unfoldable pub create : ℕ → MemTable Map
  create id = record { map = new_map; wal = none; id = id; approximate_size = 0 }

  -- `Wal::create` makes an empty file.
  unfoldable pub create_with_wal : ℕ → MemTable Map
  create_with_wal id = record { map = new_map; wal = some []; id = id; approximate_size = 0 }

  unfoldable pub recover_from_wal : ℕ → Bytes → Option (MemTable Map)
  unfolding sum_sizes
  recover_from_wal id file = do
    skip_map ← Wal.recover buf hasher Map insert file new_map
    some (record {
      map = skip_map;
      wal = some file;
      id = id;
      approximate_size = sum_sizes (iter skip_map);
    })

  unfoldable pub get : MemTable Map → Bytes → Option Bytes
  get table key = get_value table.map (from_slice key ts_default)

  -- `wal.put`, where the table has a log.
  abbrev pub log_put : Option Bytes → Key → Bytes → Option Bytes
  log_put none key value = none
  log_put (some file) key value = some (Wal.put buf hasher file key value)

  -- `MemTable::put`; `fetch_add` wraps around.
  unfoldable pub put : MemTable Map → Key → Bytes → MemTable Map
  put table key value = record {
    map = insert table.map key value;
    wal = log_put table.wal key value;
    id = table.id;
    approximate_size = (table.approximate_size + (raw_len key + length value)) % u64_mod;
  }

  unfoldable pub put_batch : MemTable Map → List (Key × Bytes) → MemTable Map
  unfolding put
  put_batch table [] = table
  put_batch table ((key, value) ∷ data_rest) = put_batch (put table key value) data_rest

  unfoldable pub scan : MemTable Map → Bound Bytes → Bound Bytes → MemTableIterator
  unfolding map_bound_lower map_bound_upper next
  scan table lower upper = next (record {
    rest = range table.map (map_bound_lower lower) (map_bound_upper upper);
    item = (new, []);
  })
