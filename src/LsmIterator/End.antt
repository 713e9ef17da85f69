-- ===== src/LsmIterator/End.antt =====
-- lsm_iterator.rs: the end of a scan, and the keys before it.
use tiny_lsm.Common.{
  ◌≡◌, inl, inr, refl, ◌∙◌, sym, subst, true, false, none, some, List, [], ◌∷◌, Bytes, arith,
  Bool-cases, Ordering,
}
use tiny_lsm.Key.{bytes_cmp, bytes_eq}
use tiny_lsm.Key.Order.{bytes_cmp_trans, eq_of_bytes_cmp, bytes_eq_iff}
use tiny_lsm.MemTable.{Bound, included, excluded, unbounded}
use tiny_lsm.MemTable.Bounds.{user_within}
use tiny_lsm.LsmIterator.Lookup.{lookup_user}
use tiny_lsm.LsmIterator.Order.{UsersAbove, UsersAscend}
use tiny_lsm.LsmIterator.Scan.{take_while, before_end}

pub before_of_within :
    (lower upper : Bound Bytes) (k : Bytes)
    → user_within lower upper k ≡ true
    → user_within unbounded upper k ≡ true
unfolding user_within
before_of_within lower upper k h = ground arith

module _ (end_bound : Bound Bytes) where
  -- A key below one before the end is before the end.
  before_below :
      (u w : Bytes)
      → bytes_cmp u w ≡ Ordering.lt
      → user_within unbounded end_bound w ≡ true
      → user_within unbounded end_bound u ≡ true
  unfolding user_within
  before_below u w h g = by_bound end_bound g
    where
      by_bound :
          (b : Bound Bytes) → user_within unbounded b w ≡ true → user_within unbounded b u ≡ true
      by_bound (included x) g = ground (arith, h, g, bytes_cmp_trans u w x, eq_of_bytes_cmp w x)
      by_bound (excluded x) g = ground (arith, h, g, bytes_cmp_trans u w x)
      by_bound unbounded g = refl

  lookup_past :
      (key u v : Bytes) (es : List (Bytes × Bytes))
      → bytes_eq u key ≡ false
      → lookup_user key ((u, v) ∷ es) ≡ lookup_user key es
  unfolding lookup_user
  lookup_past key u v es h = rw h refl

  lookup_here :
      (key u v : Bytes) (es : List (Bytes × Bytes))
      → bytes_eq u key ≡ true
      → lookup_user key ((u, v) ∷ es) ≡ some v
  unfolding lookup_user
  lookup_here key u v es h = rw h refl

  lookup_none : (key : Bytes) → lookup_user key [] ≡ none
  unfolding lookup_user
  lookup_none key = refl

  beyond :
      (key u : Bytes) (es : List (Bytes × Bytes))
      → UsersAbove u es
      → user_within unbounded end_bound u ≡ false
      → user_within unbounded end_bound key ≡ true
      → lookup_user key es ≡ none
  beyond key u [] above out before = lookup_none key
  beyond key u (e ∷ es) above out before = elim (Bool-cases (bytes_eq e.0 key)) [
    | inl same ↦
        let below =
          subst (λ x. bytes_cmp u x ≡ Ordering.lt) ((bytes_eq_iff e.0 key).0 same) above.0 in
        absurd (clash (before_below u key below before))
    | inr other ↦ lookup_past key e.0 e.1 es other ∙ beyond key u es above.1 out before
  ]
    where
      clash : user_within unbounded end_bound u ≡ true → ⊥
      clash g = cc (g, out)

  take_in :
      (e : Bytes × Bytes) (es : List (Bytes × Bytes))
      → before_end end_bound e ≡ true
      → take_while (before_end end_bound) (e ∷ es) ≡ e ∷ take_while (before_end end_bound) es
  unfolding take_while
  take_in e es h = rw (h, take_while) refl

  take_out :
      (e : Bytes × Bytes) (es : List (Bytes × Bytes))
      → before_end end_bound e ≡ false
      → take_while (before_end end_bound) (e ∷ es) ≡ []
  unfolding take_while
  take_out e es h = rw (h, take_while) refl

  -- A key before the end has among what comes before the end the value that it has among all.
  pub lookup_user-take_while :
      (key : Bytes) (es : List (Bytes × Bytes))
      → UsersAscend es
      → user_within unbounded end_bound key ≡ true
      → lookup_user key (take_while (before_end end_bound) es) ≡ lookup_user key es
  unfolding take_while
  lookup_user-take_while key [] up before = refl
  lookup_user-take_while key (e ∷ es) up before = elim (Bool-cases (before_end end_bound e)) [
    | inl inside ↦ elim (Bool-cases (bytes_eq e.0 key)) [
      | inl same ↦
          rw (take_in e es inside)
            (lookup_here key e.0 e.1 _ same ∙ sym (lookup_here key e.0 e.1 es same))
      | inr other ↦ rw (take_in e es inside) (
          lookup_past key e.0 e.1 _ other
          ∙ lookup_user-take_while key es up.1 before
          ∙ sym (lookup_past key e.0 e.1 es other))
    ]
    | inr outside ↦ rw (take_out e es outside) (
        lookup_none key
        ∙ sym (
            lookup_past key e.0 e.1 es (other_than outside)
            ∙ beyond key e.0 es up.0 outside before))
  ]
    where
      other_than : before_end end_bound e ≡ false → bytes_eq e.0 key ≡ false
      other_than outside = elim (Bool-cases (bytes_eq e.0 key)) [
        | inl same ↦
            let g =
              subst (λ x. user_within unbounded end_bound x ≡ false) ((bytes_eq_iff e.0 key).0 same)
                outside in
            absurd (cc (g, before))
        | inr apart ↦ apart
      ]
