-- ===== src/Mvcc.antt =====
-- mvcc.rs, mvcc/txn.rs: transactions, which read at a timestamp and keep their writes to themselves.
pub mod Local
use tiny_lsm.Common.{
  ℕ, ◌≡◌, Bool, true, false, not, ◌&&◌, Option, none, some, List, [], ◌∷◌, Bytes, contains, ◌>>=◌,
  if◌then◌else◌,
}
use tiny_lsm.Key.{bytes_cmp, bytes_eq, is_empty_bytes}
use tiny_lsm.MemTable.{Bound, included, excluded, unbounded}
use tiny_lsm.Storage.Inner.{Env, LsmStorageInner}
use tiny_lsm.Storage.Read.{get_with_ts}

-- `SkipMap<Bytes, Bytes>` of a transaction: an ordered map from user keys.
pub record LocalMap : Type 1 where
  pub Map : Type 0
  pub new_map : Map
  pub insert : Map → Bytes → Bytes → Map
  pub get_value : Map → Bytes → Option Bytes
  pub get_value-new_map : (k : Bytes) → get_value new_map k ≡ none
  pub get_value-insert :
      (m : Map) (k v j : Bytes)
      → get_value (insert m k v) j ≡ (if bytes_eq k j then some v else get_value m j)

-- `HashSet::insert`
abbrev pub insert_hash : List ℕ → ℕ → List ℕ
insert_hash hashes h = if contains hashes h then hashes else h ∷ hashes

-- `Transaction`; the sets are there if it is serializable. The store that it reads is an argument of
-- `get`.
pub record Transaction (Map : Type 0) : Type 0 where
  pub read_ts : ℕ
  pub local_storage : Map
  pub committed : Bool
  pub key_hashes : Option (List ℕ × List ℕ)

module _ (env : Env) (local : LocalMap) where
  open env use {hashes}

  -- `LsmMvccInner::new_txn` and `LsmStorageInner::new_txn`
  unfoldable pub new_txn : LsmStorageInner env → Transaction local.Map
  new_txn inner = record {
    read_ts = inner.commit_ts;
    local_storage = local.new_map;
    committed = false;
    key_hashes = (if inner.options.serializable then some ([], []) else none);
  }

  -- The hash of a key goes to the second set.
  unfoldable pub note_key : Transaction local.Map → Bytes → Transaction local.Map
  note_key txn key = record txn {
    key_hashes = elim txn.key_hashes [
      | none ↦ none
      | some sets ↦ some (sets.0, insert_hash sets.1 (hashes.hash32 key))
    ];
  }

  -- `Transaction::get`: what was written locally is seen first, an empty value as no value.
  unfoldable pub get :
      ℕ
      → LsmStorageInner env
      → Transaction local.Map
      → Bytes
      → Option (Option Bytes) × Transaction local.Map
  unfolding note_key get_with_ts
  get fuel inner txn key =
      let noted = note_key txn key in
      (
        elim (local.get_value txn.local_storage key) [
          | some v ↦ some (if is_empty_bytes v then none else some v)
          | none ↦ get_with_ts env fuel inner key txn.read_ts
        ],
        noted,
      )

  unfoldable pub put : Transaction local.Map → Bytes → Bytes → Transaction local.Map
  unfolding note_key
  put txn key value = record (note_key txn key) {
    local_storage = local.insert txn.local_storage key value;
  }

  unfoldable pub delete : Transaction local.Map → Bytes → Transaction local.Map
  unfolding note_key
  delete txn key = record (note_key txn key) {
    local_storage = local.insert txn.local_storage key [];
  }
