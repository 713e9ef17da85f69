-- ===== src/Iterators/Concat.antt =====
-- iterators/concat_iterator.rs: an iterator over tables whose key ranges follow one another.
use tiny_lsm.Common.{
  ℕ, zero, suc, ◌+◌, ◌-◌, Bool, true, false, Option, none, some, List, [], ◌∷◌, Bytes, length,
  get_elem?, ◌>>=◌, ◌>>◌, guard, if◌then◌else◌, leb,
}
use tiny_lsm.Buffer.{BufCrate, Crc}
use tiny_lsm.Key.{Key, cmp, is_le, is_lt}
use tiny_lsm.Table.Sst.{SsTable}
use tiny_lsm.Table.Iterator
use tiny_lsm.Table.Iterator.{SsTableIterator}

pub record SstConcatIterator : Type 0 where
  pub current : Option SsTableIterator
  pub next_sst_idx : ℕ
  pub sstables : List SsTable

-- The two loops of `check_sst_valid`.
unfoldable pub check_ranges : List SsTable → Option (Unit {0})
check_ranges [] = some tt
check_ranges (sst ∷ sstables) =
    guard (is_le (cmp sst.first_key sst.last_key)) >> check_ranges sstables

unfoldable pub check_order : List SsTable → Option (Unit {0})
check_order [] = some tt
check_order (sst ∷ []) = some tt
check_order (sst ∷ follower ∷ sstables) =
    guard (is_lt (cmp sst.last_key follower.first_key)) >> check_order (follower ∷ sstables)

unfoldable pub check_sst_valid : List SsTable → Option (Unit {0})
unfolding check_ranges check_order
check_sst_valid sstables = check_ranges sstables >> check_order sstables

-- `partition_point`: of checked tables, those at the front whose first key is not above the key.
unfoldable pub count_tables : Key → List SsTable → ℕ
count_tables key [] = 0
count_tables key (sst ∷ sstables) =
    let rest = count_tables key sstables in if is_le (cmp sst.first_key key) then suc rest else 0

module _ (buf : BufCrate) (crc : Crc) where
  -- `move_until_valid`: a round for each table that is left, and one more.
  unfoldable pub move_until_valid : ℕ → SstConcatIterator → Option SstConcatIterator
  move_until_valid zero it = none
  move_until_valid (suc fuel) it = elim it.current [
    | none ↦ some it
    | some iter ↦
        if Iterator.is_valid iter
        then some it
        else if leb (length it.sstables) it.next_sst_idx
        then some (record it { current = none })
        else (do
          sst ← get_elem? it.sstables it.next_sst_idx
          opened ← Iterator.open_first buf crc sst
          move_until_valid fuel
              (record it { current = some opened; next_sst_idx = it.next_sst_idx + 1 }))
  ]

  unfoldable pub open_first : List SsTable → Option SstConcatIterator
  unfolding check_sst_valid move_until_valid
  open_first [] = some (record { current = none; next_sst_idx = 0; sstables = [] })
  open_first (sst ∷ sstables) = do
    check_sst_valid (sst ∷ sstables)
    opened ← Iterator.open_first buf crc sst
    move_until_valid (length sstables + 2)
        (record { current = some opened; next_sst_idx = 1; sstables = sst ∷ sstables })

  unfoldable pub open_at_key : List SsTable → Key → Option SstConcatIterator
  unfolding check_sst_valid count_tables move_until_valid
  open_at_key sstables key = do
    check_sst_valid sstables
    let idx = count_tables key sstables - 1
    if leb (length sstables) idx
        then some (record { current = none; next_sst_idx = length sstables; sstables = sstables })
        else (do
          sst ← get_elem? sstables idx
          opened ← Iterator.open_at_key buf crc sst key
          move_until_valid (length sstables + 1)
              (record { current = some opened; next_sst_idx = idx + 1; sstables = sstables }))

  unfoldable pub next : SstConcatIterator → Option SstConcatIterator
  unfolding move_until_valid
  next it = elim it.current [
    | none ↦ some it
    | some current ↦ (do
      moved ← Iterator.next buf crc current
      move_until_valid (length it.sstables + 1) (record it { current = some moved }))
  ]

unfoldable pub key : SstConcatIterator → Option Key
key it = it.current >>= λ current. Iterator.key current

unfoldable pub value : SstConcatIterator → Option Bytes
value it = it.current >>= λ current. Iterator.value current

-- It asserts that the current iterator is valid.
unfoldable pub is_valid : SstConcatIterator → Option Bool
is_valid it = elim it.current [
  | none ↦ some false
  | some current ↦ (guard (Iterator.is_valid current) >> some true)
]
