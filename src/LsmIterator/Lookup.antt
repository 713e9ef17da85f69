-- ===== src/LsmIterator/Lookup.antt =====
-- What a scan shows of a user key is its newest version at the read timestamp.
use tiny_lsm.Common.{
  ℕ, ◌≡◌, inl, inr, refl, ◌∙◌, sym, subst, true, false, not, ◌&&◌, Option, none, some, List, [],
  ◌∷◌, Bytes, arith, Ordering, if◌then◌else◌, ltb, Bool-cases,
}
use tiny_lsm.Key.{Key, cmp, bytes_cmp, bytes_eq, is_empty_bytes, is_le}
use tiny_lsm.Key.Order.{bytes_eq_iff, bytes_cmp_refl, bytes_cmp_trans, eq_of_bytes_cmp}
use tiny_lsm.Iterators.Ascend.{AllAbove, Ascends}
use tiny_lsm.LsmIterator.Skips.{Entries, visible}

-- The value of a user key among shown entries.
unfoldable pub lookup_user : Bytes → List (Bytes × Bytes) → Option Bytes
lookup_user key [] = none
lookup_user key ((k, v) ∷ shown) =
    let rest = lookup_user key shown in if bytes_eq k key then some v else rest

-- The value of the first version of a user key that is not newer than the read timestamp; a
-- tombstone is no value.
unfoldable pub version_at : ℕ → Bytes → Entries → Option Bytes
version_at read_ts key [] = none
version_at read_ts key ((k, v) ∷ es) =
    let rest = version_at read_ts key es in
    if bytes_eq k.bytes key && not (ltb read_ts k.ts)
    then (if is_empty_bytes v then none else some v)
    else rest

-- No entry has a user key below this one.
abbrev pub NoneBelow : Bytes → Entries → Type 0
NoneBelow u [] = Unit
NoneBelow u (e ∷ es) = (is_le (bytes_cmp u e.0.bytes) ≡ true) × NoneBelow u es

le_of_lt : (j k : Key) → cmp j k ≡ Ordering.lt → is_le (bytes_cmp j.bytes k.bytes) ≡ true
unfolding cmp
le_of_lt j k h = ground arith

pub AllAbove-NoneBelow : (k : Key) (es : Entries) → AllAbove k es → NoneBelow k.bytes es
AllAbove-NoneBelow k [] above = tt
AllAbove-NoneBelow k (e ∷ es) above = (le_of_lt k e.0 above.0, AllAbove-NoneBelow k es above.1)

other_of_lt : (u w : Bytes) → bytes_cmp u w ≡ Ordering.lt → bytes_eq w u ≡ false
other_of_lt u w h = elim (Bool-cases (bytes_eq w u)) [
  | inl same ↦
      let e : u ≡ w = sym ((bytes_eq_iff w u).0 same) in
      absurd (lt-irrefl w (subst (λ x. bytes_cmp x w ≡ Ordering.lt) e h))
  | inr other ↦ other
]
  where
    lt-irrefl : (x : Bytes) → bytes_cmp x x ≡ Ordering.lt → ⊥
    lt-irrefl x l = ground (arith, bytes_cmp_refl x)

-- A user key below all others has no version.
version_at-past :
    (read_ts : ℕ) (u w : Bytes) (es : Entries)
    → bytes_cmp u w ≡ Ordering.lt
    → NoneBelow w es
    → version_at read_ts u es ≡ none
unfolding version_at
version_at-past read_ts u w [] h b = refl
version_at-past read_ts u w ((k, v) ∷ es) h b =
    let below : bytes_cmp u k.bytes ≡ Ordering.lt =
      ground (arith, bytes_cmp_trans u w k.bytes, eq_of_bytes_cmp w k.bytes, b.0) in
    rw (other_of_lt u k.bytes below, version_at) (version_at-past read_ts u w es h b.1)

pub lt_of_other :
    (u w : Bytes)
    → is_le (bytes_cmp u w) ≡ true
    → bytes_eq u w ≡ false
    → bytes_cmp u w ≡ Ordering.lt
lt_of_other u w h other = ground (arith, eq_of_bytes_cmp u w, (bytes_eq_iff u w).1)

-- A user key below the first one has no version.
pub no_version :
    (read_ts : ℕ) (u : Bytes) (k : Key) (v : Bytes) (es : Entries)
    → AllAbove k es
    → is_le (bytes_cmp u k.bytes) ≡ true
    → bytes_eq u k.bytes ≡ false
    → version_at read_ts u ((k, v) ∷ es) ≡ none
no_version read_ts u k v es up h other =
    version_at-past read_ts u k.bytes ((k, v) ∷ es) (lt_of_other u k.bytes h other)
      (rw (bytes_cmp_refl k.bytes) refl, AllAbove-NoneBelow k es up)

pub version_at_other :
    (read_ts : ℕ) (key : Bytes) (k : Key) (v : Bytes) (es : Entries)
    → bytes_eq k.bytes key ≡ false
    → version_at read_ts key ((k, v) ∷ es) ≡ version_at read_ts key es
unfolding version_at
version_at_other read_ts key k v es other = rw (other, version_at) refl

visible_same :
    (read_ts : ℕ) (u : Bytes) (k : Key) (v : Bytes) (es : Entries)
    → bytes_eq u k.bytes ≡ true
    → visible read_ts (some u) ((k, v) ∷ es) ≡ visible read_ts (some u) es
unfolding visible
visible_same read_ts u k v es same = rw (same, visible) refl

visible_next :
    (read_ts : ℕ) (u : Bytes) (k : Key) (v : Bytes) (es : Entries)
    → bytes_eq u k.bytes ≡ false
    → visible read_ts (some u) ((k, v) ∷ es) ≡ visible read_ts none ((k, v) ∷ es)
unfolding visible
visible_next read_ts u k v es other = rw (other, visible) refl

-- Both for a scan that has decided no user key and for one that has.
shown :
    (read_ts : ℕ) (key : Bytes) (es : Entries)
    → Ascends es
    → (lookup_user key (visible read_ts none es) ≡ version_at read_ts key es)
      × ((u : Bytes)
          → NoneBelow u es
          → lookup_user key (visible read_ts (some u) es)
            ≡ (if bytes_eq u key then none else version_at read_ts key es))
unfolding lookup_user visible version_at
shown read_ts key [] up = (refl, λ u b. ground arith)
shown read_ts key ((k, v) ∷ es) up =
    let (fresh, decided) = shown read_ts key es up.1 in
    let after = decided k.bytes (AllAbove-NoneBelow k es up.0) in
    let here : lookup_user key (visible read_ts none ((k, v) ∷ es))
        ≡ version_at read_ts key ((k, v) ∷ es) =
      ground arith in
    (
      here,
      λ u b. elim (Bool-cases (bytes_eq u k.bytes)) [
        | inl same ↦
            let e : u ≡ k.bytes = (bytes_eq_iff u k.bytes).0 same in
            let later = decided u b.1 in
            rw (visible_same read_ts u k v es same) (elim (Bool-cases (bytes_eq u key)) [
              | inl met ↦ later ∙ rw met refl
              | inr not_met ↦
                  later
                  ∙ rw not_met (
                      sym (
                        version_at_other read_ts key k v es
                          (subst (λ x. bytes_eq x key ≡ false) e not_met)))
            ])
        | inr other ↦ rw (visible_next read_ts u k v es other) (elim (Bool-cases (bytes_eq u key)) [
          | inl met ↦
              here
              ∙ rw met (
                  subst (λ x. version_at read_ts x ((k, v) ∷ es) ≡ none)
                    ((bytes_eq_iff u key).0 met) (no_version read_ts u k v es up.0 b.0 other))
          | inr not_met ↦ here ∙ rw not_met refl
        ])
      ],
    )

-- Of entries whose keys grow, the first value that a scan shows for a user key is that of its newest
-- version at the read timestamp, and it shows none where that is a tombstone or there is no such
-- version.
pub lookup_user-visible :
    (read_ts : ℕ) (key : Bytes) (es : Entries)
    → Ascends es
    → lookup_user key (visible read_ts none es) ≡ version_at read_ts key es
lookup_user-visible read_ts key es up = (shown read_ts key es up).0
