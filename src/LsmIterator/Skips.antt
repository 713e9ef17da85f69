-- ===== src/LsmIterator/Skips.antt =====
-- What the loops of `LsmIterator` leave of the entries that the inner iterator goes through.
use tiny_lsm.Common.{
  ℕ, zero, suc, ◌≤◌, ◌<◌, ◌≡◌, inl, inr, refl, Bool, true, false, Option, none, some, List, [], ◌∷◌,
  Bytes, length, if◌then◌else◌, ltb, Bool-cases, arith,
}
use tiny_lsm.Key.{Key, bytes_eq, is_empty_bytes}
use tiny_lsm.Iterators.{StorageIterator, Yields}
use tiny_lsm.LsmIterator.{skip_newer, skip_versions}

abbrev pub Entries : Type 0
Entries = List (Key × Bytes)

-- What is left after the entries at the front that pass a test.
abbrev pub drop_while : (Key × Bytes → Bool) → Entries → Entries
drop_while p [] = []
drop_while p (e ∷ es) = let rest = drop_while p es in if p e then rest else e ∷ es

pub drop_while_past :
    (p : Key × Bytes → Bool) (e : Key × Bytes) (es : Entries)
    → p e ≡ true
    → drop_while p (e ∷ es) ≡ drop_while p es
drop_while_past p e es h = rw (h, drop_while) refl

pub drop_while_stop :
    (p : Key × Bytes → Bool) (e : Key × Bytes) (es : Entries)
    → p e ≡ false
    → drop_while p (e ∷ es) ≡ e ∷ es
drop_while_stop p e es h = rw (h, drop_while) refl

pub length-drop_while :
    (p : Key × Bytes → Bool) (es : Entries) → length (drop_while p es) ≤ length es
length-drop_while p [] = omega arith
length-drop_while p (e ∷ es) = elim (Bool-cases (p e)) [
  | inl h ↦ rw (drop_while_past p e es h) (omega (arith, length-drop_while p es))
  | inr h ↦ rw (drop_while_stop p e es h) (omega arith)
]

abbrev pub is_newer : ℕ → Key × Bytes → Bool
is_newer read_ts e = ltb read_ts e.0.ts

abbrev pub is_version : Bytes → Key × Bytes → Bool
is_version user_key e = bytes_eq user_key e.0.bytes

-- The value of a user key at a timestamp, as the entries from here on show it: `visible` goes through
-- them once. `decided` is a user key of which the newest visible version was met; the versions that
-- follow it are passed.
unfoldable pub visible : ℕ → Option Bytes → Entries → List (Bytes × Bytes)
visible read_ts decided [] = []
visible read_ts none ((k, v) ∷ es) =
    let later = visible read_ts none es in
    let others = visible read_ts (some k.bytes) es in
    if ltb read_ts k.ts then later else if is_empty_bytes v then others else (k.bytes, v) ∷ others
visible read_ts (some user_key) ((k, v) ∷ es) =
    let later = visible read_ts none es in
    let others = visible read_ts (some k.bytes) es in
    let same = visible read_ts (some user_key) es in
    if bytes_eq user_key k.bytes
    then same
    else if ltb read_ts k.ts
    then later
    else if is_empty_bytes v
    then others
    else (k.bytes, v) ∷ others

-- Passing the versions of a decided key, and passing versions that are too new.
pub visible-decided :
    (read_ts : ℕ) (user_key : Bytes) (es : Entries)
    → visible read_ts (some user_key) es
      ≡ visible read_ts none (drop_while (is_version user_key) es)
unfolding visible
visible-decided read_ts user_key [] = refl
visible-decided read_ts user_key ((k, v) ∷ es) = elim (Bool-cases (bytes_eq user_key k.bytes)) [
  | inl h ↦
      rw (drop_while_past (is_version user_key) (k, v) es h)
        (rw (h, visible) (visible-decided read_ts user_key es))
  | inr h ↦ rw (drop_while_stop (is_version user_key) (k, v) es h) (rw (h, visible) refl)
]

pub visible-newer :
    (read_ts : ℕ) (es : Entries)
    → visible read_ts none es ≡ visible read_ts none (drop_while (is_newer read_ts) es)
unfolding visible
visible-newer read_ts [] = refl
visible-newer read_ts ((k, v) ∷ es) = elim (Bool-cases (ltb read_ts k.ts)) [
  | inl h ↦
      rw (drop_while_past (is_newer read_ts) (k, v) es h)
        (rw (h, visible) (visible-newer read_ts es))
  | inr h ↦ rw (drop_while_stop (is_newer read_ts) (k, v) es h) refl
]

module _ {I : Type 0} (storage : StorageIterator I) where
  pub skip_newer-Yields :
      (fuel read_ts : ℕ) (es : Entries) (it : I)
      → length es < fuel
      → Yields storage es it
      → (it' : I) × (skip_newer storage fuel read_ts it ≡ some it')
        × Yields storage (drop_while (is_newer read_ts) es) it'
  unfolding skip_newer
  skip_newer-Yields zero read_ts es it enough y = absurd (omega arith)
  skip_newer-Yields (suc fuel) read_ts [] it enough y = (it, rw y refl, y)
  skip_newer-Yields (suc fuel) read_ts ((k, v) ∷ es) it enough
        (valid, at_key, at_value, it1, ran, y) =
      elim (Bool-cases (ltb read_ts k.ts)) [
        | inl h ↦
            let (it', went, y') = skip_newer-Yields fuel read_ts es it1 (omega arith) y in
            (
              it',
              rw (valid, at_key) (rw (h, ran) went),
              rw (drop_while_past (is_newer read_ts) (k, v) es h) y',
            )
        | inr h ↦ (
          it,
          rw (valid, at_key) (rw h refl),
          rw (drop_while_stop (is_newer read_ts) (k, v) es h)
              (valid, at_key, at_value, it1, ran, y),
        )
      ]

  pub skip_versions-Yields :
      (fuel : ℕ) (user_key : Bytes) (es : Entries) (it : I)
      → length es < fuel
      → Yields storage es it
      → (it' : I) × (skip_versions storage fuel user_key it ≡ some it')
        × Yields storage (drop_while (is_version user_key) es) it'
  unfolding skip_versions
  skip_versions-Yields zero user_key es it enough y = absurd (omega arith)
  skip_versions-Yields (suc fuel) user_key [] it enough y = (it, rw y refl, y)
  skip_versions-Yields (suc fuel) user_key ((k, v) ∷ es) it enough
        (valid, at_key, at_value, it1, ran, y) =
      elim (Bool-cases (bytes_eq user_key k.bytes)) [
        | inl h ↦
            let (it', went, y') = skip_versions-Yields fuel user_key es it1 (omega arith) y in
            (
              it',
              rw (valid, at_key) (rw (h, ran) went),
              rw (drop_while_past (is_version user_key) (k, v) es h) y',
            )
        | inr h ↦ (
          it,
          rw (valid, at_key) (rw h refl),
          rw (drop_while_stop (is_version user_key) (k, v) es h)
              (valid, at_key, at_value, it1, ran, y),
        )
      ]
