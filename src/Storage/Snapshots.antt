-- ===== src/Storage/Snapshots.antt =====
-- What the scans of the memtables of a snapshot yield, the newest first.
use tiny_lsm.Common.{
  ℕ, ◌+◌, ◌≤◌, ◌≡◌, inl, inr, refl, ◌∙◌, sym, subst, ap, Bool, true, false, Option, none, List, [],
  ◌∷◌, map, Bytes, arith, length, filter, Bool-cases, if◌then◌else◌, Ordering, Ordering-cases,
}
use tiny_lsm.Key.{Key, cmp, new}
use tiny_lsm.Key.Order.{eq_of_cmp}
use tiny_lsm.MemTable
use tiny_lsm.MemTable.{
  MemTable, MemTableIterator, Bound, find_key, map_bound_lower, map_bound_upper,
}
use tiny_lsm.MemTable.Bounds.{user_within}
use tiny_lsm.MemTable.Scan.{
  Visible, filter-within, filter-true, filter-false, length-filter, Visible-filter, find_key-here,
  find_key-past,
}
use tiny_lsm.Iterators.{Yields}
use tiny_lsm.Iterators.Ascend.{AllAbove, Ascends}
use tiny_lsm.Iterators.Streams.{Stream, present, AllAscend, total}
use tiny_lsm.Iterators.MergePresents.{YieldsAll}
use tiny_lsm.Iterators.TwoMergePresents.{or_else}
use tiny_lsm.Iterators.Cursors.{mem_table_storage}
use tiny_lsm.Storage.Inner.{Env}

next-Yields :
    (es : Stream) (e : Key × Bytes)
    → Visible es
    → Yields mem_table_storage es (MemTable.next (record { rest = es; item = e }))
unfolding mem_table_storage MemTable.is_valid MemTable.next
next-Yields [] e seen = refl
next-Yields ((k, v) ∷ es) e seen =
    (rw seen.0 refl, refl, refl, _, refl, next-Yields es (k, v) seen.2)

module _ (lower upper : Bound Bytes) where
  abbrev pub in_range : Key × Bytes → Bool
  in_range e = user_within lower upper e.0.bytes

  filter-AllAbove : (k : Key) (es : Stream) → AllAbove k es → AllAbove k (filter in_range es)
  filter-AllAbove k [] above = tt
  filter-AllAbove k (e ∷ es) above = elim (Bool-cases (in_range e)) [
    | inl h ↦ rw (filter-true in_range e es h) (above.0, filter-AllAbove k es above.1)
    | inr h ↦ rw (filter-false in_range e es h) (filter-AllAbove k es above.1)
  ]

  filter-Ascends : (es : Stream) → Ascends es → Ascends (filter in_range es)
  filter-Ascends [] up = tt
  filter-Ascends (e ∷ es) up = elim (Bool-cases (in_range e)) [
    | inl h ↦ rw (filter-true in_range e es h) (filter-AllAbove e.0 es up.0, filter-Ascends es up.1)
    | inr h ↦ rw (filter-false in_range e es h) (filter-Ascends es up.1)
  ]

  find_key-nil : (k : Key) → find_key k [] ≡ none
  unfolding find_key
  find_key-nil k = refl

  -- A key outside the range is not found, one inside as before.
  find_key-filter_out :
      (k : Key) (es : Stream)
      → user_within lower upper k.bytes ≡ false
      → find_key k (filter in_range es) ≡ none
  find_key-filter_out k [] out = find_key-nil k
  find_key-filter_out k (e ∷ es) out = elim (Bool-cases (in_range e)) [
    | inl h ↦ rw (filter-true in_range e es h) (
        find_key-past k e.0 e.1 (filter in_range es) (λ same. clash (eq_of_cmp k e.0 same) h)
        ∙ find_key-filter_out k es out)
    | inr h ↦ rw (filter-false in_range e es h) (find_key-filter_out k es out)
  ]
    where
      clash : k ≡ e.0 → in_range e ≡ true → ⊥
      clash same h =
          let out' : user_within lower upper e.0.bytes ≡ false =
            subst (λ (x : Key). user_within lower upper x.bytes ≡ false) same out in
          cc (h, out')

  find_key-filter_in :
      (k : Key) (es : Stream)
      → user_within lower upper k.bytes ≡ true
      → find_key k (filter in_range es) ≡ find_key k es
  find_key-filter_in k [] inside = refl
  find_key-filter_in k (e ∷ es) inside =
      let later = find_key-filter_in k es inside in
      elim (Ordering-cases (cmp k e.0)) [
        | inl lt ↦ past later (λ same. ground (arith, lt, same))
        | inr (inl same) ↦
            let k_is : k ≡ e.0 = eq_of_cmp k e.0 same in
            let h : in_range e ≡ true =
              subst (λ (x : Key). user_within lower upper x.bytes ≡ true) k_is inside in
            rw (filter-true in_range e es h) (
              subst (λ x. find_key x (e ∷ filter in_range es) ≡ find_key x (e ∷ es)) (sym k_is)
                (find_key-here e.0 e.1 (filter in_range es) ∙ sym (find_key-here e.0 e.1 es)))
        | inr (inr gt) ↦ past later (λ same. ground (arith, gt, same))
      ]
    where
      past :
          find_key k (filter in_range es) ≡ find_key k es
          → (cmp k e.0 ≡ Ordering.eq → ⊥)
          → find_key k (filter in_range (e ∷ es)) ≡ find_key k (e ∷ es)
      past later other = elim (Bool-cases (in_range e)) [
        | inl h ↦ rw (filter-true in_range e es h) (
            find_key-past k e.0 e.1 (filter in_range es) other
            ∙ later
            ∙ sym (find_key-past k e.0 e.1 es other))
        | inr h ↦ rw (filter-false in_range e es h) (later ∙ sym (find_key-past k e.0 e.1 es other))
      ]

module _ (env : Env) where
  open env use {skip, buf, hasher}
  open skip use {iter}

  -- The limits under which memtables show their entries: a map iterates in the order of its keys, none
  -- of which is empty.
  abbrev pub AllSound : List (MemTable skip.Map) → Type 0
  AllSound [] = Unit
  AllSound (m ∷ ms) = (Visible (iter m.map) × Ascends (iter m.map)) × AllSound ms

  -- The value of a key in the first of some memtables that has it.
  abbrev pub first_value : Key → List (MemTable skip.Map) → Option Bytes
  first_value k [] = none
  first_value k (m ∷ ms) = or_else (find_key k (iter m.map)) (first_value k ms)

  -- The number of entries
  abbrev pub entries_in : List (MemTable skip.Map) → ℕ
  entries_in [] = 0
  entries_in (m ∷ ms) = length (iter m.map) + entries_in ms

  module _ (lower upper : Bound Bytes) where
    abbrev pub runs : List (MemTable skip.Map) → List Stream
    runs ms = map (λ (m : MemTable skip.Map). filter (in_range lower upper) (iter m.map)) ms

    scan-Yields :
        (m : MemTable skip.Map)
        → Visible (iter m.map)
        → Yields mem_table_storage
            (filter (in_range lower upper) (iter m.map))
            (MemTable.scan skip buf hasher m lower upper)
    unfolding MemTable.scan
    scan-Yields m seen =
        rw
          (
            skip.range-iter m.map (map_bound_lower lower) (map_bound_upper upper),
            filter-within lower upper (iter m.map) seen,
          )
          (next-Yields _ (new, []) (Visible-filter (in_range lower upper) (iter m.map) seen))

    pub scans-YieldsAll :
        (ms : List (MemTable skip.Map))
        → AllSound ms
        → YieldsAll mem_table_storage
            (runs ms)
            (map (λ (m : MemTable skip.Map). MemTable.scan skip buf hasher m lower upper) ms)
    scans-YieldsAll [] sound = tt
    scans-YieldsAll (m ∷ ms) sound = (scan-Yields m sound.0.0, scans-YieldsAll ms sound.1)

    pub runs-AllAscend : (ms : List (MemTable skip.Map)) → AllSound ms → AllAscend (runs ms)
    runs-AllAscend [] sound = tt
    runs-AllAscend (m ∷ ms) sound =
        (filter-Ascends lower upper (iter m.map) sound.0.1, runs-AllAscend ms sound.1)

    pub total-runs : (ms : List (MemTable skip.Map)) → total (runs ms) ≤ entries_in ms
    total-runs [] = omega arith
    total-runs (m ∷ ms) =
        omega (arith, total-runs ms, length-filter (in_range lower upper) (iter m.map))

    present_lem :
        (k : Key) (s : Stream) (ss : List Stream)
        → present k (s ∷ ss) ≡ or_else (find_key k s) (present k ss)
    unfolding present
    present_lem k s ss = ground arith

    present-nil : (k : Key) → present k [] ≡ none
    unfolding present
    present-nil k = refl

    present-out :
        (k : Key) (ms : List (MemTable skip.Map))
        → user_within lower upper k.bytes ≡ false
        → present k (runs ms) ≡ none
    present-out k [] out = present-nil k
    present-out k (m ∷ ms) out =
        present_lem k _ (runs ms)
        ∙ rw (find_key-filter_out lower upper k (iter m.map) out) (present-out k ms out)

    present-in :
        (k : Key) (ms : List (MemTable skip.Map))
        → user_within lower upper k.bytes ≡ true
        → present k (runs ms) ≡ first_value k ms
    present-in k [] inside = present-nil k
    present-in k (m ∷ ms) inside =
        present_lem k _ (runs ms)
        ∙ ap (λ v. or_else v (present k (runs ms)))
            (find_key-filter_in lower upper k (iter m.map) inside)
        ∙ ap (or_else (find_key k (iter m.map))) (present-in k ms inside)

    -- The scans of memtables have together the value of the first that has the key, within the range.
    pub present-runs :
        (k : Key) (ms : List (MemTable skip.Map))
        → present k (runs ms) ≡ (if user_within lower upper k.bytes then first_value k ms else none)
    present-runs k ms = elim (Bool-cases (user_within lower upper k.bytes)) [
      | inl inside ↦ rw inside (present-in k ms inside)
      | inr out ↦ rw out (present-out k ms out)
    ]
