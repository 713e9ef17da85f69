-- ===== src/Storage/WellFormed.antt =====
-- The invariant of the tree of a store: which ids are in use, and where.
use tiny_lsm.Common.{
  ℕ, ◌+◌, ◌≤◌, ◌<◌, ◌≡◌, ◌⊎◌, inl, inr, refl, ◌∙◌, subst, false, some, List, [], ◌∷◌, arith, count,
  Bool-cases, ==_iff, ◌==◌,
}
use tiny_lsm.MemTable.{MemTable}
use tiny_lsm.Table.Sst.{SsTable}
use tiny_lsm.Storage.State.{LsmStorageState, lookup, remove, insert, files}

-- A table stands under its id.
abbrev pub Owned : ℕ → List (ℕ × SsTable) → Type 0
Owned id sstables = (table : SsTable) × (lookup id sstables ≡ some table) × (table.id ≡ id)

lookup-remove :
    (id j : ℕ) (m : List (ℕ × SsTable)) → (j == id) ≡ false → lookup id (remove j m) ≡ lookup id m
lookup-remove id j [] h = refl
lookup-remove id j ((k, x) ∷ m) h =
    ground (arith, lookup-remove id j m h, ==_iff k j, ==_iff k id, ==_iff j id)

pub lookup_insert_same :
    (id : ℕ) (x : SsTable) (m : List (ℕ × SsTable)) → lookup id (insert id x m) ≡ some x
lookup_insert_same id x m = rw ((==_iff id id).1 refl) refl

pub lookup_insert_other :
    (id j : ℕ) (x : SsTable) (m : List (ℕ × SsTable))
    → (j == id) ≡ false
    → lookup id (insert j x m) ≡ lookup id m
lookup_insert_other id j x m h = rw h (lookup-remove id j m h)

-- A new table takes its place without harm to the others.
pub Owned-insert :
    (id : ℕ) (table : SsTable) (m : List (ℕ × SsTable))
    → (id ≡ table.id) ⊎ Owned id m
    → Owned id (insert table.id table m)
Owned-insert id table m o = elim (Bool-cases (table.id == id)) [
  | inl same ↦
      let e : table.id ≡ id = (==_iff table.id id).0 same in
      (
        table,
        subst (λ x. lookup x (insert table.id table m) ≡ some table) e
            (lookup_insert_same table.id table m),
        e,
      )
  | inr other ↦ elim o [
    | inl e ↦ absurd (ground (arith, (==_iff table.id id).1, e, other))
    | inr (t, found, named) ↦ (t, lookup_insert_other id table.id table m other ∙ found, named)
  ]
]

pub Owned-remove :
    (id j : ℕ) (m : List (ℕ × SsTable)) → (j == id) ≡ false → Owned id m → Owned id (remove j m)
Owned-remove id j m other o = (o.0, lookup-remove id j m other ∙ o.1, o.2)

-- The ids of the memtable and of the frozen ones
abbrev pub memtable_ids : {Map : Type 0} → List (MemTable Map) → List ℕ
memtable_ids [] = []
memtable_ids (m ∷ ms) = m.id ∷ memtable_ids ms

abbrev pub live_ids : {Map Sst : Type 0} → LsmStorageState (MemTable Map) Sst → List ℕ
live_ids s = memtable_ids (s.memtable ∷ s.imm_memtables)

-- Every file has its table, no id is used twice, neither among the files nor among the memtables, and
-- every id that is used has been handed out.
pub record IsWellFormed {Map : Type 0} (s : LsmStorageState (MemTable Map) SsTable)
    (next_sst_id : ℕ) : Type 0 where
  pub owned : (id : ℕ) → 1 ≤ count id (files s) → Owned id s.sstables
  pub once : (id : ℕ) → count id (files s) + count id (live_ids s) ≤ 1
  pub below : (id : ℕ) → 1 ≤ count id (files s) + count id (live_ids s) → id < next_sst_id
