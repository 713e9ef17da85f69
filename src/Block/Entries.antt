-- ===== src/Block/Entries.antt =====
-- What the bytes of a block under construction hold: the entries that were added, each at its offset.
pub mod Read
pub mod Build
use native.Mathlib.Nat.{mod-eq_of_lt}
use tiny_lsm.Common.{
  ℕ, zero, suc, ◌+◌, ◌-◌, ◌%◌, ◌≤◌, ◌<◌, ◌≡◌, refl, ap, ◌∙◌, sym, Bool, true, false, Option, none,
  some, List, [], ◌∷◌, ◌++◌, Bytes, length, take, drop, append_assoc, arith, length-append, ==_iff,
  ◌==◌, if◌then◌else◌, get_elem?,
}
use tiny_lsm.Buffer.{u16_mod, u64_mod, BufCrate}
use tiny_lsm.Key.{Key, is_empty, key_len}
use tiny_lsm.Block.Builder.{compute_overlap, put_entry}

abbrev pub Entry : Type 0
Entry = Key × Bytes

-- The limits of the encoding: the lengths are 16 bits, and a key is not empty.
abbrev pub Fits : Entry → Type 0
Fits (k, v) =
    (is_empty k ≡ false) × (length k.bytes < u16_mod) × (k.ts < u64_mod) × (length v < u16_mod)

abbrev pub AllFit : List Entry → Type 0
AllFit [] = Unit
AllFit (e ∷ es) = Fits e × AllFit es

pub compute_overlap-le_first : (first key : Bytes) → compute_overlap first key ≤ length first
unfolding compute_overlap
compute_overlap-le_first [] key = omega arith
compute_overlap-le_first (a ∷ first) [] = omega arith
compute_overlap-le_first (a ∷ first) (b ∷ key) = ground (arith, compute_overlap-le_first first key)

pub compute_overlap-le_key : (first key : Bytes) → compute_overlap first key ≤ length key
unfolding compute_overlap
compute_overlap-le_key [] key = omega arith
compute_overlap-le_key (a ∷ first) [] = omega arith
compute_overlap-le_key (a ∷ first) (b ∷ key) = ground (arith, compute_overlap-le_key first key)

-- The overlap is a common prefix.
pub take-compute_overlap :
    (first key : Bytes)
    → take (compute_overlap first key) first ≡ take (compute_overlap first key) key
unfolding compute_overlap
take-compute_overlap [] key = refl
take-compute_overlap (a ∷ first) [] = refl
take-compute_overlap (a ∷ first) (b ∷ key) = ground (arith, take-compute_overlap first key)

module _ (buf : BufCrate) where
  open buf use {put_u16, put_u64}

  -- An entry followed by the rest of the block, as the iterator reads it.
  abbrev pub laid_out : ℕ → Key → Bytes → Bytes → Bytes
  laid_out overlap k v post =
      put_u16 overlap
      ++ (put_u16 (length k.bytes - overlap)
          ++ (drop overlap k.bytes ++ (put_u64 k.ts ++ (put_u16 (length v) ++ (v ++ post)))))

  pub put_entry-append :
      (overlap : ℕ) (k : Key) (v post : Bytes)
      → overlap ≤ length k.bytes
      → Fits (k, v)
      → put_entry buf overlap k v ++ post ≡ laid_out overlap k v post
  unfolding put_entry
  put_entry-append overlap k v post within fits =
      rw
        (
          mod-eq_of_lt {n = overlap} {m = u16_mod} (omega arith),
          mod-eq_of_lt {n = length k.bytes - overlap} {m = u16_mod} (omega arith),
          mod-eq_of_lt {n = length v} {m = u16_mod} (omega arith),
        )
        (simp append_assoc)

  -- The entry stands at `offset` in the bytes of a block with this first key.
  pub record IsStored (bytes first : Bytes) (offset : ℕ) (e : Entry) : Type 0 where
    pub overlap : ℕ
    pub pre : Bytes
    pub post : Bytes
    pub place : bytes ≡ pre ++ laid_out overlap e.0 e.1 post
    pub start : length pre ≡ offset
    pub within_first : overlap ≤ length first
    pub within_key : overlap ≤ length e.0.bytes
    pub shared : take overlap first ≡ take overlap e.0.bytes
    pub fits : Fits e

  abbrev pub AllStored : Bytes → Bytes → List ℕ → List Entry → Type 0
  AllStored bytes first [] [] = Unit
  AllStored bytes first [] (e ∷ es) = ⊥
  AllStored bytes first (o ∷ os) [] = ⊥
  AllStored bytes first (o ∷ os) (e ∷ es) = IsStored bytes first o e × AllStored bytes first os es
