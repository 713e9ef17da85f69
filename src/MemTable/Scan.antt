-- ===== src/MemTable/Scan.antt =====
-- What a scan and a lookup of a memtable give.
use tiny_lsm.Common.{
  ℕ, zero, suc, ◌+◌, ◌<◌, ◌≤◌, ◌≡◌, refl, sym, ◌∙◌, ap, subst, Bool, true, false, Option, none,
  some, Bytes, List, [], ◌∷◌, filter, length, ◌>>=◌, arith, Ordering, Ordering-cases, if◌then◌else◌,
  Bool-cases, inl, inr,
}
use tiny_lsm.Buffer.{BufCrate, Hasher}
use tiny_lsm.Key.{Key, from_slice, new, cmp, eq, is_empty, u64_max, ts_default}
use tiny_lsm.Key.Order.{cmp_refl, eq_of_cmp, eq_iff}
use tiny_lsm.MemTable.{
  Bound, MemTable, SkipMap, MemTableIterator, is_valid, next, scan, get, put, within,
  map_bound_lower, map_bound_upper, upsert, find_key,
}
use tiny_lsm.MemTable.Bounds.{user_within, within-map_bound}

-- A client's loop: read while the iterator is valid.
unfoldable pub collect : ℕ → MemTableIterator → Option (List (Key × Bytes))
unfolding is_valid next
collect zero it = none
collect (suc fuel) it =
    let rest = collect fuel (next it) in
    elim (is_valid it) [ true ↦ rest >>= λ es. some (it.item ∷ es) | false ↦ some [] ]

-- The limits under which the iterator shows every entry.
abbrev pub Visible : List (Key × Bytes) → Type 0
Visible [] = Unit
Visible ((k, v) ∷ es) = (is_empty k ≡ false) × (k.ts ≤ u64_max) × Visible es

collect-next :
    (fuel : ℕ) (es : List (Key × Bytes)) (e : Key × Bytes)
    → length es < fuel
    → Visible es
    → collect fuel (next (record { rest = es; item = e })) ≡ some es
unfolding collect is_valid next
collect-next zero es e few seen = elim few [ ]
collect-next (suc fuel) [] e few seen = refl
collect-next (suc fuel) ((k, v) ∷ es) e few seen =
    rw seen.0 (rw (collect-next fuel es (k, v) (omega arith) seen.2))

module _ (p : Key × Bytes → Bool) where
  pub filter-true :
      (e : Key × Bytes) (es : List (Key × Bytes)) → p e ≡ true → filter p (e ∷ es) ≡ e ∷ filter p es
  filter-true e es h = rw (h, filter) refl

  pub filter-false :
      (e : Key × Bytes) (es : List (Key × Bytes)) → p e ≡ false → filter p (e ∷ es) ≡ filter p es
  filter-false e es h = rw (h, filter) refl

  pub length-filter : (es : List (Key × Bytes)) → length (filter p es) ≤ length es
  length-filter [] = omega arith
  length-filter (e ∷ es) = elim (Bool-cases (p e)) [
    | inl h ↦ rw (filter-true e es h) (omega (arith, length-filter es))
    | inr h ↦ rw (filter-false e es h) (omega (arith, length-filter es))
  ]

  pub Visible-filter : (es : List (Key × Bytes)) → Visible es → Visible (filter p es)
  Visible-filter [] seen = tt
  Visible-filter ((k, v) ∷ es) seen = elim (Bool-cases (p (k, v))) [
    | inl h ↦ rw (filter-true (k, v) es h) (seen.0, seen.1, Visible-filter es seen.2)
    | inr h ↦ rw (filter-false (k, v) es h) (Visible-filter es seen.2)
  ]

pub filter-within :
    (lower upper : Bound Bytes) (es : List (Key × Bytes))
    → Visible es
    → filter (λ e. within (map_bound_lower lower) (map_bound_upper upper) e.0) es
      ≡ filter (λ e. user_within lower upper e.0.bytes) es
filter-within lower upper [] seen = refl
filter-within lower upper ((k, v) ∷ es) seen =
    let same = within-map_bound lower upper k seen.1 in
    let rest = filter-within lower upper es seen.2 in
    elim (Bool-cases (user_within lower upper k.bytes)) [
      | inl h ↦
          filter-true _ (k, v) es (same ∙ h)
          ∙ ap (λ xs. (k, v) ∷ xs) rest
          ∙ sym (filter-true (λ e. user_within lower upper e.0.bytes) (k, v) es h)
      | inr h ↦
          filter-false _ (k, v) es (same ∙ h)
          ∙ rest
          ∙ sym (filter-false (λ e. user_within lower upper e.0.bytes) (k, v) es h)
    ]

pub find_key-here :
    (k : Key) (v : Bytes) (es : List (Key × Bytes)) → find_key k ((k, v) ∷ es) ≡ some v
unfolding find_key
find_key-here k v es = rw (cmp_refl k, find_key) refl

pub find_key-past :
    (k' k : Key) (v : Bytes) (es : List (Key × Bytes))
    → (cmp k' k ≡ Ordering.eq → ⊥)
    → find_key k' ((k, v) ∷ es) ≡ find_key k' es
unfolding find_key
find_key-past k' k v es other = ground (arith, other)

upsert-lt :
    (k k1 : Key) (v v1 : Bytes) (es : List (Key × Bytes))
    → cmp k k1 ≡ Ordering.lt
    → upsert k v ((k1, v1) ∷ es) ≡ (k, v) ∷ (k1, v1) ∷ es
unfolding upsert
upsert-lt k k1 v v1 es h = rw (h, upsert) refl

upsert-eq :
    (k k1 : Key) (v v1 : Bytes) (es : List (Key × Bytes))
    → cmp k k1 ≡ Ordering.eq
    → upsert k v ((k1, v1) ∷ es) ≡ (k, v) ∷ es
unfolding upsert
upsert-eq k k1 v v1 es h = rw (h, upsert) refl

upsert-gt :
    (k k1 : Key) (v v1 : Bytes) (es : List (Key × Bytes))
    → cmp k k1 ≡ Ordering.gt
    → upsert k v ((k1, v1) ∷ es) ≡ (k1, v1) ∷ upsert k v es
unfolding upsert
upsert-gt k k1 v v1 es h = rw (h, upsert) refl

find_key-upsert_same :
    (k : Key) (v : Bytes) (es : List (Key × Bytes)) → find_key k (upsert k v es) ≡ some v
unfolding upsert
find_key-upsert_same k v [] = find_key-here k v []
find_key-upsert_same k v ((k1, v1) ∷ es) = elim (Ordering-cases (cmp k k1)) [
  | inl h ↦ rw (upsert-lt k k1 v v1 es h) (find_key-here k v _)
  | inr (inl h) ↦ rw (upsert-eq k k1 v v1 es h) (find_key-here k v _)
  | inr (inr h) ↦
      rw (upsert-gt k k1 v v1 es h)
        (find_key-past k k1 v1 _ (λ e. ground arith) ∙ find_key-upsert_same k v es)
]

find_key-upsert_other :
    (k k' : Key) (v : Bytes) (es : List (Key × Bytes))
    → (cmp k' k ≡ Ordering.eq → ⊥)
    → find_key k' (upsert k v es) ≡ find_key k' es
unfolding upsert find_key
find_key-upsert_other k k' v [] other = find_key-past k' k v [] other
find_key-upsert_other k k' v ((k1, v1) ∷ es) other = elim (Ordering-cases (cmp k k1)) [
  | inl h ↦ rw (upsert-lt k k1 v v1 es h) (find_key-past k' k v ((k1, v1) ∷ es) other)
  | inr (inl h) ↦ rw (upsert-eq k k1 v v1 es h) (
      find_key-past k' k v es other
      ∙ sym (
          find_key-past k' k1 v1 es
            (subst (λ x. cmp k' x ≡ Ordering.eq → ⊥) (eq_of_cmp k k1 h) other)))
  | inr (inr h) ↦
      rw (upsert-gt k k1 v v1 es h) (ground (arith, find_key-upsert_other k k' v es other))
]

pub find_key-upsert :
    (k k' : Key) (v : Bytes) (es : List (Key × Bytes))
    → find_key k' (upsert k v es) ≡ (if eq k k' then some v else find_key k' es)
find_key-upsert k k' v es = elim (Bool-cases (eq k k')) [
  | inl h ↦ rw h (
      subst (λ x. find_key x (upsert k v es) ≡ some v) ((eq_iff k k').0 h)
        (find_key-upsert_same k v es))
  | inr h ↦ rw h (
      find_key-upsert_other k k' v es
        (λ e. ground (arith, (eq_iff k k').1 (sym (eq_of_cmp k' k e)))))
]

module _ (skip : SkipMap) (buf : BufCrate) (hasher : Hasher) where
  open skip use {Map, iter, range-iter, get_value-iter, iter-insert}

  -- A scan of a memtable, read to its end, gives exactly the entries whose user key is within the
  -- bounds, every version of them, in the order of the skip list, where no entry has an empty user
  -- key and the timestamps fit in 64 bits.
  pub collect-scan :
      (table : MemTable Map) (lower upper : Bound Bytes)
      → Visible (iter table.map)
      → collect (length (iter table.map) + 1) (scan skip buf hasher table lower upper)
        ≡ some (filter (λ e. user_within lower upper e.0.bytes) (iter table.map))
  unfolding scan
  collect-scan table lower upper seen =
      rw
        (
          range-iter table.map (map_bound_lower lower) (map_bound_upper upper),
          filter-within lower upper (iter table.map) seen,
        )
        (collect-next _ _ (new, [])
          (omega (arith, length-filter (λ e. user_within lower upper e.0.bytes) (iter table.map)))
          (Visible-filter _ (iter table.map) seen))

  -- A lookup after a put gives the value that was put where the key of the put is the key of the
  -- lookup at the default timestamp, and what it gave before where it is not.
  pub get-put :
      (table : MemTable Map) (key : Key) (value user_key : Bytes)
      → get skip buf hasher (put skip buf hasher table key value) user_key ≡ (
          if eq key (from_slice user_key ts_default)
          then some value
          else get skip buf hasher table user_key)
  unfolding get put
  get-put table key value user_key =
      rw
        (
          get_value-iter (put skip buf hasher table key value).map (from_slice user_key ts_default),
          get_value-iter table.map (from_slice user_key ts_default),
          iter-insert table.map key value,
        )
        (find_key-upsert key (from_slice user_key ts_default) value (iter table.map))
