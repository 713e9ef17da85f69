-- ===== src/LsmIterator/Order.antt =====
-- The order of what a scan shows.
use tiny_lsm.Common.{
  ℕ, ◌≡◌, ◌⊎◌, inl, inr, refl, sym, subst, true, Option, none, some, List, [], ◌∷◌, Bytes, arith,
  Ordering, ltb, Bool-cases,
}
use tiny_lsm.Key.{Key, bytes_cmp, bytes_eq, is_empty_bytes}
use tiny_lsm.Key.Order.{bytes_cmp_trans, eq_of_bytes_cmp}
use tiny_lsm.Iterators.Ascend.{Ascends}
use tiny_lsm.LsmIterator.Skips.{Entries, visible}
use tiny_lsm.LsmIterator.Lookup.{NoneBelow, AllAbove-NoneBelow, lt_of_other}

-- Every user key is above this one; the user keys grow.
abbrev pub UsersAbove : Bytes → List (Bytes × Bytes) → Type 0
UsersAbove u [] = Unit
UsersAbove u (e ∷ es) = (bytes_cmp u e.0 ≡ Ordering.lt) × UsersAbove u es

abbrev pub UsersAscend : List (Bytes × Bytes) → Type 0
UsersAscend [] = Unit
UsersAscend (e ∷ es) = UsersAbove e.0 es × UsersAscend es

abbrev EntriesAbove : Bytes → Entries → Type 0
EntriesAbove u [] = Unit
EntriesAbove u (e ∷ es) = (bytes_cmp u e.0.bytes ≡ Ordering.lt) × EntriesAbove u es

NoneBelow-EntriesAbove :
    (u w : Bytes) (es : Entries) → bytes_cmp u w ≡ Ordering.lt → NoneBelow w es → EntriesAbove u es
NoneBelow-EntriesAbove u w [] h b = tt
NoneBelow-EntriesAbove u w (e ∷ es) h b = (
  ground (arith, bytes_cmp_trans u w e.0.bytes, eq_of_bytes_cmp w e.0.bytes, b.0),
  NoneBelow-EntriesAbove u w es h b.1,
)

module _ (read_ts : ℕ) where
  -- What `visible` makes of an entry, by whether its user key is decided.
  visible_pass :
      (d : Option Bytes) (k : Key) (v : Bytes) (es : Entries)
      → ((d' : Option Bytes) × (visible read_ts d ((k, v) ∷ es) ≡ visible read_ts d' es))
        ⊎ (visible read_ts d ((k, v) ∷ es) ≡ (k.bytes, v) ∷ visible read_ts (some k.bytes) es)
  unfolding visible
  visible_pass none k v es = elim (Bool-cases (ltb read_ts k.ts)) [
    | inl newer ↦ inl (none, rw (newer, visible) refl)
    | inr not_newer ↦ elim (Bool-cases (is_empty_bytes v)) [
      | inl tomb ↦ inl (some k.bytes, rw (not_newer, tomb, visible) refl)
      | inr live ↦ inr (rw (not_newer, live, visible) refl)
    ]
  ]
  visible_pass (some u) k v es = elim (Bool-cases (bytes_eq u k.bytes)) [
    | inl same ↦ inl (some u, rw (same, visible) refl)
    | inr other ↦ elim (Bool-cases (ltb read_ts k.ts)) [
      | inl newer ↦ inl (none, rw (other, newer, visible) refl)
      | inr not_newer ↦ elim (Bool-cases (is_empty_bytes v)) [
        | inl tomb ↦ inl (some k.bytes, rw (other, not_newer, tomb, visible) refl)
        | inr live ↦ inr (rw (other, not_newer, live, visible) refl)
      ]
    ]
  ]

  visible-UsersAbove :
      (u : Bytes) (d : Option Bytes) (es : Entries)
      → EntriesAbove u es
      → UsersAbove u (visible read_ts d es)
  unfolding visible
  visible-UsersAbove u none [] above = tt
  visible-UsersAbove u (some w) [] above = tt
  visible-UsersAbove u d ((k, v) ∷ es) above = elim (visible_pass d k v es) [
    | inl (d', h) ↦ subst (UsersAbove u) (sym h) (visible-UsersAbove u d' es above.1)
    | inr h ↦ subst (UsersAbove u) (sym h) (above.0, visible-UsersAbove u (some k.bytes) es above.1)
  ]

  visible_same :
      (u : Bytes) (k : Key) (v : Bytes) (es : Entries)
      → bytes_eq u k.bytes ≡ true
      → visible read_ts (some u) ((k, v) ∷ es) ≡ visible read_ts (some u) es
  unfolding visible
  visible_same u k v es same = rw (same, visible) refl

  -- The versions of a decided user key are passed.
  decided-UsersAbove :
      (u : Bytes) (es : Entries)
      → Ascends es
      → NoneBelow u es
      → UsersAbove u (visible read_ts (some u) es)
  unfolding visible
  decided-UsersAbove u [] up b = tt
  decided-UsersAbove u ((k, v) ∷ es) up b = elim (Bool-cases (bytes_eq u k.bytes)) [
    | inl same ↦
        subst (UsersAbove u) (sym (visible_same u k v es same)) (decided-UsersAbove u es up.1 b.1)
    | inr other ↦
        let below = lt_of_other u k.bytes b.0 other in
        visible-UsersAbove u (some u) ((k, v) ∷ es)
          (below, NoneBelow-EntriesAbove u k.bytes es below (AllAbove-NoneBelow k es up.0))
  ]

  pub visible-UsersAscend :
      (d : Option Bytes) (es : Entries) → Ascends es → UsersAscend (visible read_ts d es)
  unfolding visible
  visible-UsersAscend none [] up = tt
  visible-UsersAscend (some u) [] up = tt
  visible-UsersAscend d ((k, v) ∷ es) up = elim (visible_pass d k v es) [
    | inl (d', h) ↦ subst UsersAscend (sym h) (visible-UsersAscend d' es up.1)
    | inr h ↦ subst UsersAscend (sym h) (
      decided-UsersAbove k.bytes es up.1 (AllAbove-NoneBelow k es up.0),
      visible-UsersAscend (some k.bytes) es up.1,
    )
  ]
