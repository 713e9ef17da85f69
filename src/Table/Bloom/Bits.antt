-- ===== src/Table/Bloom/Bits.antt =====
-- Setting a bit of a filter sets it, and clears no other.
use Prim.Native.Nat.{bit_and}
use native.Mathlib.Decide.{ℕ_discrete}
use tiny_lsm.Common.{
  ℕ, zero, suc, ◌/◌, ◌%◌, ◌^◌, ◌<◌, ◌≡◌, ◌≢◌, refl, Bool, true, not, ◌&&◌, ◌||◌, some, Bytes,
  length, get_elem?, set, arith, ltb, ◌==◌, get_elem?-set_self, get_elem?-set_ne, get_elem?-some,
  get_elem?-lt, length-set, replicate, subst, ap, sym, ◌∙◌, some-injective,
}
use tiny_lsm.Table.Bloom.{get_bit, set_bit, with_bit, bit_len}

-- A test that holds at every number under a bound.
every : (ℕ → Bool) → ℕ → Bool
every test zero = true
every test (suc bound) = every test bound && test bound

test_of_every :
    (test : ℕ → Bool) (bound n : ℕ) → n < bound → every test bound ≡ true → test n ≡ true
unfolding every
test_of_every test zero n under all = absurd (omega arith)
test_of_every test (suc bound) n under all = ground (arith, test_of_every test bound n)

-- The bit at `offset` of a byte.
abbrev has_bit : ℕ → ℕ → Bool
has_bit byte offset = not (bit_and byte (2 ^ offset) == 0)

-- Over all bytes and offsets: the byte stays a byte, its bit is set, and its other bits stay set.
abbrev byte_test : ℕ → ℕ → ℕ → Bool
byte_test byte o p =
    ltb (with_bit byte o true) 256
    && (has_bit (with_bit byte o true) o
        && (not (has_bit byte p) || has_bit (with_bit byte o true) p))

byte_table : every (λ byte. every (λ o. every (λ p. byte_test byte o p) 8) 8) 256 ≡ true
unfolding every with_bit
byte_table = refl

byte_test_all : (byte o p : ℕ) → byte < 256 → o < 8 → p < 8 → byte_test byte o p ≡ true
byte_test_all byte o p h k l =
    test_of_every _ 8 p l (test_of_every _ 8 o k (test_of_every _ 256 byte h byte_table))

-- Every element is a byte.
abbrev pub AreBytes : Bytes → Type 0
AreBytes bits = (i byte : ℕ) → get_elem? bits i ≡ some byte → byte < 256

abbrev pub IsBitSet : Bytes → ℕ → Type 0
IsBitSet bits idx = get_bit bits idx ≡ some true

-- The table, read at its three parts.
byte_facts :
    (byte o p : ℕ)
    → byte < 256
    → o < 8
    → p < 8
    → (with_bit byte o true < 256)
      × (has_bit (with_bit byte o true) o ≡ true)
      × (has_bit byte p ≡ true → has_bit (with_bit byte o true) p ≡ true)
byte_facts byte o p h k l = split (with_bit byte o true) (byte_test_all byte o p h k l)
  where
    split :
        (w : ℕ)
        → (ltb w 256 && (has_bit w o && (not (has_bit byte p) || has_bit w p))) ≡ true
        → (w < 256) × (has_bit w o ≡ true) × (has_bit byte p ≡ true → has_bit w p ≡ true)
    split w e = (ground arith, ground arith, λ q. ground arith)

IsBitSet-of_byte :
    (bits : Bytes) (byte p : ℕ)
    → get_elem? bits (p / 8) ≡ some byte
    → has_bit byte (p % 8) ≡ true
    → IsBitSet bits p
unfolding get_bit
IsBitSet-of_byte bits byte p at h = rw at (ap some h)

byte_of_IsSet :
    (bits : Bytes) (byte p : ℕ)
    → get_elem? bits (p / 8) ≡ some byte
    → IsBitSet bits p
    → has_bit byte (p % 8) ≡ true
unfolding get_bit
byte_of_IsSet bits byte p at h = some-injective _ _ (rw at at h)

IsBitSet-set_ne :
    (bits : Bytes) (i w p : ℕ) → i ≢ p / 8 → IsBitSet bits p → IsBitSet (set bits i w) p
unfolding get_bit
IsBitSet-set_ne bits i w p h k = rw (get_elem?-set_ne bits i (p / 8) w h) k

module _ (bits : Bytes) (i byte w : ℕ) (at : get_elem? bits i ≡ some byte) where
  AreBytes-set : AreBytes bits → w < 256 → AreBytes (set bits i w)
  AreBytes-set bytes small j b h = elim (ℕ_discrete i j) [
    | yes same ↦
        subst (λ (x : ℕ). x < 256)
          (some-injective _ _ (
            sym (get_elem?-set_self bits i w (get_elem?-lt bits i byte at))
            ∙ ap (get_elem? (set bits i w)) same
            ∙ h))
          small
    | no other ↦ bytes j b (sym (get_elem?-set_ne bits i j w other) ∙ h)
  ]

  IsBitSet-set :
      (p : ℕ)
      → (has_bit byte (p % 8) ≡ true → has_bit w (p % 8) ≡ true)
      → IsBitSet bits p
      → IsBitSet (set bits i w) p
  IsBitSet-set p keep h = elim (ℕ_discrete i (p / 8)) [
    | yes same ↦
        IsBitSet-of_byte (set bits i w) w p
          (ap (get_elem? (set bits i w)) (sym same)
            ∙ get_elem?-set_self bits i w (get_elem?-lt bits i byte at))
          (keep (byte_of_IsSet bits byte p (ap (get_elem? bits) (sym same) ∙ at) h))
    | no other ↦ IsBitSet-set_ne bits i w p other h
  ]

set_bit_at :
    (bits : Bytes) (idx byte : ℕ)
    → get_elem? bits (idx / 8) ≡ some byte
    → set_bit bits idx true ≡ some (set bits (idx / 8) (with_bit byte (idx % 8) true))
unfolding set_bit
set_bit_at bits idx byte at = rw at

-- `set_bit` succeeds inside the filter, keeps its length and its bytes, sets the bit and clears none.
pub set_bit-IsBitSet :
    (bits : Bytes) (idx : ℕ)
    → AreBytes bits
    → idx < bit_len bits
    → (bits' : Bytes) × (set_bit bits idx true ≡ some bits')
      × (length bits' ≡ length bits)
      × AreBytes bits'
      × IsBitSet bits' idx
      × ((p : ℕ) → IsBitSet bits p → IsBitSet bits' p)
set_bit-IsBitSet bits idx bytes inside =
    let (byte, at) = get_elem?-some bits (idx / 8) (omega arith) in
    let facts = λ (p : ℕ).
      byte_facts byte (idx % 8) (p % 8) (bytes (idx / 8) byte at) (omega arith) (omega arith) in
    (
      set bits (idx / 8) (with_bit byte (idx % 8) true),
      set_bit_at bits idx byte at,
      length-set bits (idx / 8) _,
      AreBytes-set bits (idx / 8) byte _ at bytes (facts idx).0,
      IsBitSet-of_byte (set bits (idx / 8) (with_bit byte (idx % 8) true))
          (with_bit byte (idx % 8) true) idx
          (get_elem?-set_self bits (idx / 8) _ (get_elem?-lt bits (idx / 8) byte at)) (facts idx).1,
      λ p h. IsBitSet-set bits (idx / 8) byte _ at p (facts p).2 h,
    )

pub AreBytes-replicate : (n : ℕ) → AreBytes (replicate n 0)
AreBytes-replicate zero i b h = cc
AreBytes-replicate (suc n) zero b h = omega (arith, some-injective _ _ h)
AreBytes-replicate (suc n) (suc i) b h = AreBytes-replicate n i b h
