-- ===== src/LsmIterator/Settle.antt =====
-- Where `skip_tompstone` leaves the inner iterator: at a visible version that is no tombstone, or at
-- the end.
use tiny_lsm.Common.{
  ℕ, zero, suc, ◌≤◌, ◌<◌, ◌≡◌, inl, inr, refl, ◌∙◌, Bool, true, false, not, Option, none, some, [],
  ◌∷◌, Bytes, length, ◌>>=◌, if◌then◌else◌, ltb, Bool-cases, arith,
}
use tiny_lsm.Key.{Key, is_empty_bytes}
use tiny_lsm.Key.Order.{bytes_eq_iff}
use tiny_lsm.Iterators.{StorageIterator, Yields}
use tiny_lsm.LsmIterator.{skip_versions, skip_tompstone}
use tiny_lsm.LsmIterator.Skips.{
  Entries, drop_while, drop_while_past, drop_while_stop, length-drop_while, is_newer, is_version,
  visible, visible-decided, visible-newer, skip_newer-Yields, skip_versions-Yields,
}

-- The first entry fails a test.
abbrev pub HeadFails : (Key × Bytes → Bool) → Entries → Type 0
HeadFails p [] = Unit
HeadFails p (e ∷ es) = p e ≡ false

pub drop_while-HeadFails : (p : Key × Bytes → Bool) (es : Entries) → HeadFails p (drop_while p es)
drop_while-HeadFails p [] = tt
drop_while-HeadFails p (e ∷ es) = elim (Bool-cases (p e)) [
  | inl h ↦ rw (drop_while_past p e es h) (drop_while-HeadFails p es)
  | inr h ↦ rw (drop_while_stop p e es h) h
]

-- The first entry, if there is one, is visible and no tombstone.
abbrev pub Stands : ℕ → Entries → Type 0
Stands read_ts [] = Unit
Stands read_ts ((k, v) ∷ es) = (ltb read_ts k.ts ≡ false) × (is_empty_bytes v ≡ false)

visible_tombstone :
    (read_ts : ℕ) (k : Key) (v : Bytes) (es : Entries)
    → ltb read_ts k.ts ≡ false
    → is_empty_bytes v ≡ true
    → visible read_ts none ((k, v) ∷ es)
      ≡ visible read_ts none (drop_while (is_version k.bytes) ((k, v) ∷ es))
unfolding visible
visible_tombstone read_ts k v es h e =
    rw (drop_while_past (is_version k.bytes) (k, v) es ((bytes_eq_iff k.bytes k.bytes).1 refl))
      (rw (h, e) (visible-decided read_ts k.bytes es))

module _ {I : Type 0} (storage : StorageIterator I) (read_ts : ℕ) where
  -- An iterator that stands at the first of the entries that the ones before come down to.
  pub record Settled (es : Entries) (it : I) : Type 0 where
    pub left : Entries
    pub yields : Yields storage left it
    pub shorter : length left ≤ length es
    pub same : visible read_ts none es ≡ visible read_ts none left
    pub stands : Stands read_ts left

  -- What `skip_tompstone` does after it has passed the versions that are too new.
  after_newer : ℕ → I → Option I
  after_newer fuel it = if not (storage.is_valid it) then some it else (do
    v ← storage.value it
    if not (is_empty_bytes v) then some it else (do
      tomb_key ← storage.key it
      past ← skip_versions storage (suc fuel) tomb_key.bytes it
      skip_tompstone storage fuel read_ts past))

  abbrev Outcome : ℕ → Entries → I → Type 0
  Outcome fuel es it =
      (it' : I) × (skip_tompstone storage fuel read_ts it ≡ some it') × Settled es it'

  after_newer-Settled :
      (fuel : ℕ) (es : Entries) (it : I)
      → length es < suc fuel
      → HeadFails (is_newer read_ts) es
      → Yields storage es it
      → ((es' : Entries) (it' : I)
          → length es' < fuel
          → Yields storage es' it'
          → Outcome fuel es' it')
      → (it' : I) × (after_newer fuel it ≡ some it') × Settled es it'
  unfolding after_newer
  after_newer-Settled fuel [] it enough fails y again = (
    it,
    rw y refl,
    record { left = []; yields = y; shorter = omega arith; same = refl; stands = tt },
  )
  after_newer-Settled fuel ((k, v) ∷ es) it enough fails (valid, at_key, at_value, it1, ran, y)
        again =
      elim (Bool-cases (is_empty_bytes v)) [
        | inr h ↦ (
          it,
          rw (valid, at_value) (rw h refl),
          record {
            left = (k, v) ∷ es;
            yields = (valid, at_key, at_value, it1, ran, y);
            shorter = omega arith;
            same = refl;
            stands = (fails, h);
          },
        )
        | inl h ↦
            let whole : Yields storage ((k, v) ∷ es) it = (valid, at_key, at_value, it1, ran, y) in
            let (past, went, y') =
              skip_versions-Yields storage (suc fuel) k.bytes ((k, v) ∷ es) it enough whole in
            let fewer : length (drop_while (is_version k.bytes) ((k, v) ∷ es)) < fuel =
              rw
                (drop_while_past (is_version k.bytes) (k, v) es
                  ((bytes_eq_iff k.bytes k.bytes).1 refl))
                (omega (arith, length-drop_while (is_version k.bytes) es)) in
            let (it', landed, s) = again _ past fewer y' in
            (
              it',
              rw (valid, at_value) (rw (h, at_key) (rw went landed)),
              record {
                left = s.left;
                yields = s.yields;
                shorter =
                    omega (arith, s.shorter, length-drop_while (is_version k.bytes) ((k, v) ∷ es));
                same = visible_tombstone read_ts k v es fails h ∙ s.same;
                stands = s.stands;
              },
            )
      ]

  -- With more fuel than there are entries, `skip_tompstone` ends, and settles.
  pub skip_tompstone-Settled :
      (fuel : ℕ) (es : Entries) (it : I)
      → length es < fuel
      → Yields storage es it
      → (it' : I) × (skip_tompstone storage fuel read_ts it ≡ some it') × Settled es it'
  unfolding skip_tompstone after_newer
  skip_tompstone-Settled zero es it enough y = absurd (omega arith)
  skip_tompstone-Settled (suc fuel) es it enough y =
      let (it1, went, y1) = skip_newer-Yields storage (suc fuel) read_ts es it enough y in
      let few = length-drop_while (is_newer read_ts) es in
      let (it', landed, s) =
        after_newer-Settled fuel (drop_while (is_newer read_ts) es) it1 (omega (arith, few))
          (drop_while-HeadFails (is_newer read_ts) es) y1
          (λ es' it' e y'. skip_tompstone-Settled fuel es' it' e y') in
      (
        it',
        rw went landed,
        record {
          left = s.left;
          yields = s.yields;
          shorter = omega (arith, few, s.shorter);
          same = visible-newer read_ts es ∙ s.same;
          stands = s.stands;
        },
      )
