-- ===== src/Mvcc/Local.antt =====
-- mvcc/txn.rs: what a transaction reads of its own writes and of the store.
use tiny_lsm.Common.{
  [], ◌∷◌, List, ℕ, ◌≡◌, ◌∙◌, ap, refl, Option, none, some, Bytes, if◌then◌else◌, arith,
}
use tiny_lsm.Key.{bytes_eq, is_empty_bytes}
use tiny_lsm.Storage.Inner.{Env, LsmStorageInner, WriteBatchRecord, put_record, del_record}
use tiny_lsm.Storage.Read.{get_with_ts}
use tiny_lsm.Mvcc.{LocalMap, Transaction, note_key, new_txn, get, put, delete}

-- A value that was read; an empty one is a deletion.
abbrev pub shown : Bytes → Option Bytes
shown v = if is_empty_bytes v then none else some v

-- The value that the last of some writes, the newest first, gave a key; a deletion wrote an empty one.
abbrev pub last_write : Bytes → List WriteBatchRecord → Option Bytes
last_write key [] = none
last_write key (put_record k v ∷ ops) = if bytes_eq k key then some v else last_write key ops
last_write key (del_record k ∷ ops) = if bytes_eq k key then some [] else last_write key ops

module _ (env : Env) (local : LocalMap) where
  -- A transaction after some writes, of which the newest comes first.
  unfoldable pub after_writes :
      Transaction local.Map → List WriteBatchRecord → Transaction local.Map
  unfolding put delete
  after_writes txn [] = txn
  after_writes txn (put_record k v ∷ ops) = put env local (after_writes txn ops) k v
  after_writes txn (del_record k ∷ ops) = delete env local (after_writes txn ops) k

  -- The writes go to the local map; the read timestamp stays.
  local-writes :
      (begin : LsmStorageInner env) (ops : List WriteBatchRecord) (key : Bytes)
      → (local.get_value (after_writes (new_txn env local begin) ops).local_storage key
          ≡ last_write key ops)
        × ((after_writes (new_txn env local begin) ops).read_ts ≡ begin.commit_ts)
  unfolding after_writes new_txn put delete note_key
  local-writes begin [] key = (local.get_value-new_map key, refl)
  local-writes begin (put_record k v ∷ ops) key =
      let (found, ts) = local-writes begin ops key in
      (
        local.get_value-insert (after_writes (new_txn env local begin) ops).local_storage k v key
            ∙ ap (λ (m : Option Bytes). if bytes_eq k key then some v else m) found,
        ts,
      )
  local-writes begin (del_record k ∷ ops) key =
      let (found, ts) = local-writes begin ops key in
      (
        local.get_value-insert (after_writes (new_txn env local begin) ops).local_storage k [] key
            ∙ ap (λ (m : Option Bytes). if bytes_eq k key then some [] else m) found,
        ts,
      )

  module _ (fuel : ℕ) (inner : LsmStorageInner env) where
    -- What is read, from the local value and the read timestamp.
    abbrev pub answer : Bytes → Option Bytes → ℕ → Option (Option Bytes)
    answer key (some v) ts = some (shown v)
    answer key none ts = get_with_ts env fuel inner key ts

    get_lem :
        (txn : Transaction local.Map) (key : Bytes)
        → (get env local fuel inner txn key).0
          ≡ answer key (local.get_value txn.local_storage key) txn.read_ts
    unfolding get
    get_lem txn key = ground arith

    -- A transaction that was begun on a store and has made any writes reads, for a key that it has
    -- written, its last value for it, and no value where that is empty or a deletion; and every other key
    -- it reads from the store as it has become meanwhile, at the timestamp of the last commit before the
    -- transaction was begun.
    pub get-after_writes :
        (begin : LsmStorageInner env) (ops : List WriteBatchRecord) (key : Bytes)
        → (get env local fuel inner (after_writes (new_txn env local begin) ops) key).0
          ≡ elim (last_write key ops) [
            | some v ↦ some (shown v)
            | none ↦ get_with_ts env fuel inner key begin.commit_ts
          ]
    get-after_writes begin ops key =
        let (found, ts) = local-writes begin ops key in
        get_lem (after_writes (new_txn env local begin) ops) key
        ∙ ap (λ m. answer key m (after_writes (new_txn env local begin) ops).read_ts) found
        ∙ ap (answer key (last_write key ops)) ts
        ∙ by_cases (last_write key ops)
      where
        by_cases :
            (m : Option Bytes)
            → answer key m begin.commit_ts ≡ elim m [
              | some v ↦ some (shown v)
              | none ↦ get_with_ts env fuel inner key begin.commit_ts
            ]
        by_cases none = refl
        by_cases (some v) = refl
