-- ===== src/LsmIterator/Scan.antt =====
-- A client's loop over `LsmIterator` reads the visible entries up to the end of the scan.
use tiny_lsm.Common.{
  ℕ, zero, suc, ◌+◌, ◌≤◌, ◌<◌, ◌≡◌, inl, inr, refl, ◌∙◌, sym, ap, Bool, true, false, Option, none,
  some, List, [], ◌∷◌, Bytes, length, ◌>>=◌, if◌then◌else◌, Bool-cases, arith,
}
use tiny_lsm.Key.{Key}
use tiny_lsm.Key.Order.{bytes_eq_iff}
use tiny_lsm.MemTable.{Bound, included, excluded, unbounded}
use tiny_lsm.MemTable.Bounds.{user_within}
use tiny_lsm.Iterators.{StorageIterator, Yields}
use tiny_lsm.LsmIterator.{LsmIterator, new, is_valid, in_range, key, value, next, remember}
use tiny_lsm.LsmIterator.Skips.{
  Entries, drop_while, drop_while_past, length-drop_while, is_version, visible, visible-decided,
  skip_versions-Yields,
}
use tiny_lsm.LsmIterator.Settle.{Stands, Settled, skip_tompstone-Settled}

-- The entries at the front that pass a test.
unfoldable pub take_while : (Bytes × Bytes → Bool) → List (Bytes × Bytes) → List (Bytes × Bytes)
take_while p [] = []
take_while p (e ∷ es) = let rest = take_while p es in if p e then e ∷ rest else []

-- Up to the end of a scan
abbrev pub before_end : Bound Bytes → Bytes × Bytes → Bool
before_end end_bound e = user_within unbounded end_bound e.0

module _ {I : Type 0} (storage : StorageIterator I) (k : Key) (inner : I)
    (at_key : storage.key inner ≡ some k) (read_ts : ℕ) (prev_key : Option Bytes) where
  in_range_lem :
      (end_bound : Bound Bytes)
      → in_range storage (record {
        inner = inner;
        end_bound = end_bound;
        read_timestamp = read_ts;
        prev_key = prev_key;
      })
        ≡ some (user_within unbounded end_bound k.bytes)
  unfolding in_range user_within
  in_range_lem (included b) = rw at_key refl
  in_range_lem (excluded b) = rw at_key refl
  in_range_lem unbounded = refl

module _ {I : Type 0} (storage : StorageIterator I) (fuel : ℕ) where
  -- A client's loop: read while the iterator is valid.
  unfoldable pub collect : ℕ → LsmIterator I → Option (List (Bytes × Bytes))
  unfolding is_valid key value next
  collect zero it = none
  collect (suc rounds) it = do
    valid ← is_valid storage it
    if valid
        then (do
          k ← key storage it
          v ← value storage it
          it' ← next storage fuel it
          rest ← collect rounds it'
          some ((k, v) ∷ rest))
        else some []

  module _ (end_bound : Bound Bytes) (read_ts : ℕ) where
    abbrev over : I → Option Bytes → LsmIterator I
    over inner prev_key = record {
      inner = inner;
      end_bound = end_bound;
      read_timestamp = read_ts;
      prev_key = prev_key;
    }

    -- `prev_key` is the user key of the first entry.
    abbrev Remembers : Option Bytes → Entries → Type 0
    Remembers prev_key [] = Unit
    Remembers prev_key ((k, v) ∷ es) = prev_key ≡ some k.bytes

    remember-Yields :
        (left : Entries) (inner : I) (prev_key : Option Bytes)
        → Yields storage left inner
        → (prev' : Option Bytes) × (remember storage (over inner prev_key)
            ≡ some (over inner prev'))
          × Remembers prev' left
    remember-Yields [] inner prev_key y = (prev_key, rw y refl, tt)
    remember-Yields ((k, v) ∷ es) inner prev_key (valid, at_key, at_value, it1, ran, y) =
        (some k.bytes, rw (valid, at_key) refl, refl)

    -- `next` from the first of some entries.
    next-Yields :
        (k : Key) (v : Bytes) (es : Entries) (inner : I)
        → length es + 1 < fuel
        → Yields storage ((k, v) ∷ es) inner
        → (it' : I) × (prev' : Option Bytes) × (next storage fuel (over inner (some k.bytes))
            ≡ some (over it' prev'))
          × (s : Settled storage read_ts (drop_while (is_version k.bytes) ((k, v) ∷ es)) it')
          × Remembers prev' s.left
    unfolding next
    next-Yields k v es inner enough y =
        let (past, went, y') =
          skip_versions-Yields storage fuel k.bytes ((k, v) ∷ es) inner (omega arith) y in
        let (it', landed, s) =
          skip_tompstone-Settled storage read_ts fuel _ past
            (omega (arith, length-drop_while (is_version k.bytes) ((k, v) ∷ es))) y' in
        let (prev', noted, remembers) = remember-Yields s.left it' (some k.bytes) s.yields in
        (it', prev', rw went (rw landed noted), s, remembers)

    collect_step :
        (rounds : ℕ) (it it' : LsmIterator I) (k v : Bytes) (rest : List (Bytes × Bytes))
        → is_valid storage it ≡ some true
        → key storage it ≡ some k
        → value storage it ≡ some v
        → next storage fuel it ≡ some it'
        → collect rounds it' ≡ some rest
        → collect (suc rounds) it ≡ some ((k, v) ∷ rest)
    unfolding collect
    collect_step rounds it it' k v rest h1 h2 h3 h4 h5 = rw h1 (rw h2 (rw h3 (rw h4 (rw h5))))

    collect_done :
        (rounds : ℕ) (it : LsmIterator I)
        → is_valid storage it ≡ some false
        → collect (suc rounds) it ≡ some []
    unfolding collect
    collect_done rounds it h = rw h refl

    visible-Stands :
        (k : Key) (v : Bytes) (es : Entries)
        → Stands read_ts ((k, v) ∷ es)
        → visible read_ts none ((k, v) ∷ es)
          ≡ (k.bytes, v) ∷ visible read_ts none (drop_while (is_version k.bytes) ((k, v) ∷ es))
    unfolding visible
    visible-Stands k v es stands =
        rw (drop_while_past (is_version k.bytes) (k, v) es ((bytes_eq_iff k.bytes k.bytes).1 refl))
          (rw stands.0
            (rw stands.1 (ap (λ l. (k.bytes, v) ∷ l) (visible-decided read_ts k.bytes es))))

    ended :
        (inner : I) (prev_key : Option Bytes)
        → storage.is_valid inner ≡ false
        → is_valid storage (over inner prev_key) ≡ some false
    unfolding is_valid
    ended inner prev_key h = rw h refl

    key_lem :
        (k : Key) (inner : I) (prev_key : Option Bytes)
        → storage.key inner ≡ some k
        → key storage (over inner prev_key) ≡ some k.bytes
    unfolding key
    key_lem k inner prev_key h = rw h refl

    value_lem :
        (inner : I) (prev_key : Option Bytes) (v : Bytes)
        → storage.value inner ≡ some v
        → value storage (over inner prev_key) ≡ some v
    unfolding value
    value_lem inner prev_key v h = h

    take_while_in :
        (e : Bytes × Bytes) (es : List (Bytes × Bytes))
        → before_end end_bound e ≡ true
        → take_while (before_end end_bound) (e ∷ es) ≡ e ∷ take_while (before_end end_bound) es
    unfolding take_while
    take_while_in e es h = rw (h, take_while) refl

    take_while_out :
        (e : Bytes × Bytes) (es : List (Bytes × Bytes))
        → before_end end_bound e ≡ false
        → take_while (before_end end_bound) (e ∷ es) ≡ []
    unfolding take_while
    take_while_out e es h = rw (h, take_while) refl

    valid_lem :
        (k : Key) (v : Bytes) (es : Entries) (inner : I) (prev_key : Option Bytes)
        → Yields storage ((k, v) ∷ es) inner
        → is_valid storage (over inner prev_key) ≡ some (before_end end_bound (k.bytes, v))
    unfolding is_valid
    valid_lem k v es inner prev_key y =
        rw (y.0, is_valid) (in_range_lem storage k inner y.1 read_ts prev_key end_bound)

    collect-Yields :
        (rounds : ℕ) (left : Entries) (inner : I) (prev_key : Option Bytes)
        → length left < rounds
        → length left < fuel
        → Yields storage left inner
        → Stands read_ts left
        → Remembers prev_key left
        → collect rounds (over inner prev_key)
          ≡ some (take_while (before_end end_bound) (visible read_ts none left))
    unfolding take_while visible
    collect-Yields zero left inner prev_key more enough y stands remembers = absurd (omega arith)
    collect-Yields (suc rounds) [] inner prev_key more enough y stands remembers =
        collect_done rounds (over inner prev_key) (ended inner prev_key y)
    collect-Yields (suc rounds) ((k, v) ∷ es) inner prev_key more enough y stands remembers =
        let (it', prev', went, s, remembers') = next-Yields k v es inner (omega arith) y in
        let past : length (drop_while (is_version k.bytes) ((k, v) ∷ es)) ≤ length es =
          rw
            (drop_while_past (is_version k.bytes) (k, v) es ((bytes_eq_iff k.bytes k.bytes).1 refl))
            (length-drop_while (is_version k.bytes) es) in
        let later =
          collect-Yields rounds s.left it' prev' (omega (arith, s.shorter, past))
            (omega (arith, s.shorter, past)) s.yields s.stands remembers' in
        let rest = later ∙ ap (λ l. some (take_while (before_end end_bound) l)) (sym s.same) in
        elim (Bool-cases (before_end end_bound (k.bytes, v))) [
          | inl h ↦
              rw (remembers, visible-Stands k v es stands)
                (collect_step rounds (over inner (some k.bytes)) (over it' prev') k.bytes v _
                    (valid_lem k v es inner (some k.bytes) y ∙ ap some h)
                    (key_lem k inner (some k.bytes) y.1) (value_lem inner (some k.bytes) v y.2) went
                    rest
                  ∙ ap some (sym (take_while_in (k.bytes, v) _ h)))
          | inr h ↦ rw (visible-Stands k v es stands) (
              collect_done rounds (over inner prev_key)
                (valid_lem k v es inner prev_key y ∙ ap some h)
              ∙ ap some (sym (take_while_out (k.bytes, v) _ h)))
        ]

  -- A scan of the entries that the inner iterator goes through is created and read to its end, and gives
  -- the entries that `visible` lets through, up to the first one past the end of the scan.
  pub new-visible :
      (es : Entries) (it : I) (end_bound : Bound Bytes) (read_ts : ℕ)
      → length es < fuel
      → Yields storage es it
      → (scan : LsmIterator I) × (new storage fuel it end_bound read_ts ≡ some scan)
        × (collect (length es + 1) scan
            ≡ some (take_while (before_end end_bound) (visible read_ts none es)))
  unfolding new
  new-visible es it end_bound read_ts enough y =
      let (it', landed, s) = skip_tompstone-Settled storage read_ts fuel es it enough y in
      let (prev', noted, remembers) = remember-Yields end_bound read_ts s.left it' none s.yields in
      (
        over end_bound read_ts it' prev',
        rw landed noted,
        collect-Yields end_bound read_ts (length es + 1) s.left it' prev' (omega (arith, s.shorter))
              (omega (arith, s.shorter)) s.yields s.stands remembers
            ∙ ap (λ l. some (take_while (before_end end_bound) l)) (sym s.same),
      )
