-- ===== src/Iterators/ConcatLoop.antt =====
-- The loop `move_until_valid` of `SstConcatIterator`: its rounds, and where it ends.
use tiny_lsm.Common.{
  ℕ, zero, suc, ◌+◌, ◌-◌, ◌≤◌, ◌<◌, ◌≡◌, ◌⊎◌, inl, inr, refl, ◌∙◌, sym, subst, true, false, none,
  some, List, [], ◌∷◌, length, arith, get_elem?, ◌>>=◌, leb, >>=-eq-some, some-injective,
  Bool-cases, Option-cases,
}
use tiny_lsm.Buffer.{BufCrate, Crc}
use tiny_lsm.Key.{Key}
use tiny_lsm.Table.Sst.{SsTable}
use tiny_lsm.Table.Iterator
use tiny_lsm.Table.Iterator.{SsTableIterator}
use tiny_lsm.Iterators.Concat.{
  SstConcatIterator, move_until_valid, open_first, open_at_key, next, is_valid, check_sst_valid,
  count_tables,
}
use tiny_lsm.Iterators.Cursors.{concat_storage}

-- Its iterator over a table is valid, if it has one.
abbrev Settles : SstConcatIterator → Type 0
Settles it =
    (it.current ≡ none)
    ⊎ ((current : SsTableIterator) × (it.current ≡ some current)
        × (Iterator.is_valid current ≡ true))

module _ (buf : BufCrate) (crc : Crc) where
  abbrev over : SstConcatIterator → SsTableIterator → SstConcatIterator
  over it opened = record it { current = some opened; next_sst_idx = it.next_sst_idx + 1 }

  move_none :
      (fuel : ℕ) (it : SstConcatIterator)
      → it.current ≡ none
      → move_until_valid buf crc (suc fuel) it ≡ some it
  unfolding move_until_valid
  move_none fuel it h = rw h refl

  move_valid :
      (fuel : ℕ) (it : SstConcatIterator) (c : SsTableIterator)
      → it.current ≡ some c
      → Iterator.is_valid c ≡ true
      → move_until_valid buf crc (suc fuel) it ≡ some it
  unfolding move_until_valid
  move_valid fuel it c h v = rw h (rw v refl)

  move_end :
      (fuel : ℕ) (it : SstConcatIterator) (c : SsTableIterator)
      → it.current ≡ some c
      → Iterator.is_valid c ≡ false
      → leb (length it.sstables) it.next_sst_idx ≡ true
      → move_until_valid buf crc (suc fuel) it ≡ some (record it { current = none })
  unfolding move_until_valid
  move_end fuel it c h v l = rw h (rw v (rw l refl))

  move_on :
      (fuel : ℕ) (it : SstConcatIterator) (c : SsTableIterator)
      → it.current ≡ some c
      → Iterator.is_valid c ≡ false
      → leb (length it.sstables) it.next_sst_idx ≡ false
      → move_until_valid buf crc (suc fuel) it ≡ (
          get_elem? it.sstables it.next_sst_idx >>= λ sst.
          Iterator.open_first buf crc sst >>= λ opened.
          move_until_valid buf crc fuel (over it opened))
  unfolding move_until_valid
  move_on fuel it c h v l = rw h (rw v (rw l refl))

  move-Settles :
      (fuel : ℕ) (it it' : SstConcatIterator)
      → move_until_valid buf crc fuel it ≡ some it'
      → Settles it'
  unfolding move_until_valid
  move-Settles zero it it' h = cc
  move-Settles (suc fuel) it it' h = elim (Option-cases it.current) [
    | inl void ↦ subst Settles (some-injective _ _ (sym (move_none fuel it void) ∙ h)) (inl void)
    | inr (c, at) ↦ elim (Bool-cases (Iterator.is_valid c)) [
      | inl v ↦
          subst Settles (some-injective _ _ (sym (move_valid fuel it c at v) ∙ h)) (inr (c, at, v))
      | inr v ↦ elim (Bool-cases (leb (length it.sstables) it.next_sst_idx)) [
        | inl l ↦
            subst Settles (some-injective _ _ (sym (move_end fuel it c at v l) ∙ h)) (inl refl)
        | inr l ↦
            let (sst, found, h1) =
              >>=-eq-some (get_elem? it.sstables it.next_sst_idx) _
                (sym (move_on fuel it c at v l) ∙ h) in
            let (opened, made, h2) = >>=-eq-some (Iterator.open_first buf crc sst) _ h1 in
            move-Settles fuel (over it opened) it' h2
      ]
    ]
  ]

  -- The first block of every table can be read.
  abbrev pub AllOpen : List SsTable → Type 0
  AllOpen [] = Unit
  AllOpen (sst ∷ sstables) =
      ((opened : SsTableIterator) × (Iterator.open_first buf crc sst ≡ some opened))
      × AllOpen sstables

  open_at :
      (sstables : List SsTable) (i : ℕ)
      → AllOpen sstables
      → i < length sstables
      → (sst : SsTable) × (opened : SsTableIterator) × (get_elem? sstables i ≡ some sst)
        × (Iterator.open_first buf crc sst ≡ some opened)
  open_at [] i all few = absurd (omega arith)
  open_at (sst ∷ sstables) zero all few = (sst, all.0.0, refl, all.0.1)
  open_at (sst ∷ sstables) (suc i) all few = open_at sstables i all.1 (omega arith)

  below_of_leb : (n m : ℕ) → leb n m ≡ false → m < n
  below_of_leb n m h = ground arith

  -- With a round for each table that is left and one more, the loop ends.
  move-ends :
      (fuel : ℕ) (it : SstConcatIterator)
      → 1 ≤ fuel
      → length it.sstables + 1 ≤ fuel + it.next_sst_idx
      → AllOpen it.sstables
      → (it' : SstConcatIterator) × (move_until_valid buf crc fuel it ≡ some it')
  move-ends zero it some_fuel enough all = absurd (omega arith)
  move-ends (suc fuel) it some_fuel enough all = elim (Option-cases it.current) [
    | inl void ↦ (it, move_none fuel it void)
    | inr (c, at) ↦ elim (Bool-cases (Iterator.is_valid c)) [
      | inl v ↦ (it, move_valid fuel it c at v)
      | inr v ↦ elim (Bool-cases (leb (length it.sstables) it.next_sst_idx)) [
        | inl l ↦ (record it { current = none }, move_end fuel it c at v l)
        | inr l ↦
            let few = below_of_leb (length it.sstables) it.next_sst_idx l in
            let (sst, opened, found, made) = open_at it.sstables it.next_sst_idx all few in
            let (it', ran) =
              move-ends fuel (over it opened) (omega (arith, few)) (omega arith) all in
            (it', move_on fuel it c at v l ∙ rw found (rw made ran))
      ]
    ]
  ]

  -- The iterators that the operations make.
  pub data Made : SstConcatIterator → Type 0 where
    opened_first :
        (sstables : List SsTable) (it : SstConcatIterator)
        → open_first buf crc sstables ≡ some it
        → Made it
    opened_at_key :
        (sstables : List SsTable) (key : Key) (it : SstConcatIterator)
        → open_at_key buf crc sstables key ≡ some it
        → Made it
    moved : (it it' : SstConcatIterator) → Made it → next buf crc it ≡ some it' → Made it'

  open_first-Settles :
      (sstables : List SsTable) (it : SstConcatIterator)
      → open_first buf crc sstables ≡ some it
      → Settles it
  unfolding open_first
  open_first-Settles [] it h = subst Settles (some-injective _ _ h) (inl refl)
  open_first-Settles (sst ∷ sstables) it h =
      let (u, g, h1) = >>=-eq-some (check_sst_valid (sst ∷ sstables)) _ h in
      let (opened, o, h2) = >>=-eq-some (Iterator.open_first buf crc sst) _ h1 in
      move-Settles (length sstables + 2)
        (record { current = some opened; next_sst_idx = 1; sstables = sst ∷ sstables }) it h2

  open_at_key-Settles :
      (sstables : List SsTable) (key : Key) (it : SstConcatIterator)
      → open_at_key buf crc sstables key ≡ some it
      → Settles it
  unfolding open_at_key
  open_at_key-Settles sstables key it h =
      let (u, g, h1) = >>=-eq-some (check_sst_valid sstables) _ h in
      elim (Bool-cases (leb (length sstables) (count_tables key sstables - 1))) [
        | inl l ↦ subst Settles (some-injective _ _ (rw l at h1)) (inl refl)
        | inr l ↦
            let (sst, found, h2) =
              >>=-eq-some (get_elem? sstables (count_tables key sstables - 1)) _ (rw l at h1) in
            let (opened, o, h3) = >>=-eq-some (Iterator.open_at_key buf crc sst key) _ h2 in
            move-Settles (length sstables + 1)
              (record {
                current = some opened;
                next_sst_idx = count_tables key sstables - 1 + 1;
                sstables = sstables;
              })
              it h3
      ]

  next-Settles : (it it' : SstConcatIterator) → next buf crc it ≡ some it' → Settles it'
  unfolding next
  next-Settles it it' h = elim (Option-cases it.current) [
    | inl void ↦ subst Settles (some-injective _ _ (rw void at h)) (inl refl)
    | inr (c, at) ↦
        let (m, ran, h1) = >>=-eq-some (Iterator.next buf crc c) _ (rw at at h) in
        move-Settles (length it.sstables + 1) (record it { current = some m }) it' h1
  ]

  Made-Settles : (it : SstConcatIterator) → Made it → Settles it
  Made-Settles _ (opened_first sstables it h) = open_first-Settles sstables it h
  Made-Settles _ (opened_at_key sstables key it h) = open_at_key-Settles sstables key it h
  Made-Settles _ (moved it it' m h) = next-Settles it it' h

  -- The assertion in `is_valid` never fails: on an iterator that was opened at the first key or at any
  -- key, and moved any number of times, it answers whether there is an iterator over a table left.
  pub is_valid-Made :
      (it : SstConcatIterator) → Made it → is_valid it ≡ some ((concat_storage buf crc).is_valid it)
  unfolding is_valid concat_storage
  is_valid-Made it m = elim (Made-Settles it m) [
    | inl void ↦ rw void refl
    | inr (c, at, v) ↦ rw at (rw v refl)
  ]

  next_lem :
      (it : SstConcatIterator) (c c' : SsTableIterator)
      → it.current ≡ some c
      → Iterator.next buf crc c ≡ some c'
      → next buf crc it
        ≡ move_until_valid buf crc (length it.sstables + 1) (record it { current = some c' })
  unfolding next
  next_lem it c c' h g = rw h (rw g refl)

  -- On an iterator that was opened and moved any number of times and has an iterator over a table,
  -- which moves without an error, `next` gives an iterator that can be asked whether it is valid, where
  -- the first blocks of the tables can be read: the rounds that its loop is given are enough to leave
  -- that table, also past tables without entries, to the end.
  pub next-ends :
      (it : SstConcatIterator) (c c' : SsTableIterator)
      → Made it
      → it.current ≡ some c
      → Iterator.next buf crc c ≡ some c'
      → AllOpen it.sstables
      → (is_valid it ≡ some true)
        × (it' : SstConcatIterator) × (next buf crc it ≡ some it')
        × (is_valid it' ≡ some ((concat_storage buf crc).is_valid it'))
  unfolding concat_storage
  next-ends it c c' m at ran all =
      let (it', went) =
        move-ends (length it.sstables + 1) (record it { current = some c' }) (omega arith)
          (omega arith) all in
      let done = next_lem it c c' at ran ∙ went in
      (is_valid-Made it m ∙ rw at refl, it', done, is_valid-Made it' (moved it it' m done))
