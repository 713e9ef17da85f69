-- ===== src/Table/Bloom/Sound.antt =====
-- The filter has no false negatives.
use native.Mathlib.Nat.{mod-lt}
use tiny_lsm.Common.{
  ℕ, zero, suc, ◌+◌, ◌*◌, ◌/◌, ◌%◌, ◌<◌, ◌≡◌, refl, true, some, some-injective, List, [], ◌∷◌,
  Bytes, length, get_elem?, arith, length-replicate, replicate, subst, ap, sym, ◌∙◌, max, min,
}
use tiny_lsm.Table.Bloom.{
  Bloom, set_bit, bit_len, checked_mod, rotate_left_15, wrapping_add, set_probes, set_keys,
  build_from_key_hashes, check_probes, may_contain,
}
use tiny_lsm.Table.Bloom.Bits.{AreBytes, IsBitSet, set_bit-IsBitSet, AreBytes-replicate}

-- The bits of all probes of a key are set.
abbrev AllSet : ℕ → ℕ → ℕ → ℕ → Bytes → Type 0
AllSet zero h delta nbits filter = Unit
AllSet (suc k) h delta nbits filter =
    IsBitSet filter (h % nbits) × AllSet k (wrapping_add h delta) delta nbits filter

-- The filter `g` has the length of `f` and every bit that is set in `f`.
record Extends (f g : Bytes) : Type 0 where
  same_length : length g ≡ length f
  bytes : AreBytes g
  keeps : (p : ℕ) → IsBitSet f p → IsBitSet g p

Extends-AllSet :
    (k h delta nbits : ℕ) (f g : Bytes)
    → Extends f g
    → AllSet k h delta nbits f
    → AllSet k h delta nbits g
Extends-AllSet zero h delta nbits f g x s = tt
Extends-AllSet (suc k) h delta nbits f g x s =
    (x.keeps (h % nbits) s.0, Extends-AllSet k (wrapping_add h delta) delta nbits f g x s.1)

Extends-trans : (f g h : Bytes) → Extends f g → Extends g h → Extends f h
Extends-trans f g h x y = record {
  same_length = y.same_length ∙ x.same_length;
  bytes = y.bytes;
  keeps = λ p s. y.keeps p (x.keeps p s);
}

checked_mod_pos : (a b : ℕ) → 0 < b → checked_mod a b ≡ some (a % b)
checked_mod_pos a zero h = elim h [ ]
checked_mod_pos a (suc b) h = refl

set_probes-suc :
    (k h delta nbits : ℕ) (f g : Bytes)
    → 0 < nbits
    → set_bit f (h % nbits) true ≡ some g
    → set_probes (suc k) h delta nbits f ≡ set_probes k (wrapping_add h delta) delta nbits g
unfolding set_probes
set_probes-suc k h delta nbits f g pos ran = rw (checked_mod_pos h nbits pos) (rw ran)

-- After the probes of a key were set, all of them are set, and nothing was cleared.
set_probes-AllSet :
    (k h delta nbits : ℕ) (f : Bytes)
    → 0 < nbits
    → bit_len f ≡ nbits
    → AreBytes f
    → (g : Bytes) × (set_probes k h delta nbits f ≡ some g) × Extends f g × AllSet k h delta nbits g
unfolding set_probes
set_probes-AllSet zero h delta nbits f pos len bytes =
    (f, refl, record { same_length = refl; bytes = bytes; keeps = λ p s. s }, tt)
set_probes-AllSet (suc k) h delta nbits f pos len bytes =
    let (g, ran, same, bytes', set_here, keeps) =
      set_bit-IsBitSet f (h % nbits) bytes
        (subst (λ (n : ℕ). h % nbits < n) (sym len) (mod-lt h pos)) in
    let (g', ran', x, all_set) =
      set_probes-AllSet k (wrapping_add h delta) delta nbits g pos
        (ap (λ (n : ℕ). n * 8) same ∙ len) bytes' in
    (
      g',
      set_probes-suc k h delta nbits f g pos ran ∙ ran',
      Extends-trans f g g' (record { same_length = same; bytes = bytes'; keeps = keeps }) x,
      (x.keeps (h % nbits) set_here, all_set),
    )

set_keys-cons :
    (k h nbits : ℕ) (keys : List ℕ) (f g : Bytes)
    → set_probes k h (rotate_left_15 h) nbits f ≡ some g
    → set_keys k (h ∷ keys) nbits f ≡ set_keys k keys nbits g
unfolding set_keys
set_keys-cons k h nbits keys f g ran = rw ran

-- After the keys were set, the probes of each are set.
set_keys-AllSet :
    (k nbits : ℕ) (keys : List ℕ) (f : Bytes)
    → 0 < nbits
    → bit_len f ≡ nbits
    → AreBytes f
    → (g : Bytes) × (set_keys k keys nbits f ≡ some g)
      × Extends f g
      × ((i h : ℕ) → get_elem? keys i ≡ some h → AllSet k h (rotate_left_15 h) nbits g)
unfolding set_keys
set_keys-AllSet k nbits [] f pos len bytes = (
  f,
  refl,
  record { same_length = refl; bytes = bytes; keeps = λ p s. s },
  λ i h at. absurd (cc at),
)
set_keys-AllSet k nbits (h ∷ keys) f pos len bytes =
    let (g, ran, x, here) = set_probes-AllSet k h (rotate_left_15 h) nbits f pos len bytes in
    let (g', ran', x', rest) =
      set_keys-AllSet k nbits keys g pos (ap (λ (n : ℕ). n * 8) x.same_length ∙ len) x.bytes in
    (
      g',
      set_keys-cons k h nbits keys f g ran ∙ ran',
      Extends-trans f g g' x x',
      each g' h keys (Extends-AllSet k h (rotate_left_15 h) nbits g g' x' here) rest,
    )
  where
    each :
        (g' : Bytes) (h : ℕ) (keys : List ℕ)
        → AllSet k h (rotate_left_15 h) nbits g'
        → ((i h : ℕ) → get_elem? keys i ≡ some h → AllSet k h (rotate_left_15 h) nbits g')
        → (i j : ℕ) → get_elem? (h ∷ keys) i ≡ some j
        → AllSet k j (rotate_left_15 j) nbits g'
    each g' h keys here rest zero j at =
        subst (λ (x : ℕ). AllSet k x (rotate_left_15 x) nbits g') (some-injective _ _ at) here
    each g' h keys here rest (suc i) j at = rest i j at

check_probes-AllSet :
    (k h delta nbits : ℕ) (f : Bytes)
    → 0 < nbits
    → AllSet k h delta nbits f
    → check_probes k h delta nbits f ≡ some true
unfolding check_probes
check_probes-AllSet zero h delta nbits f pos s = refl
check_probes-AllSet (suc k) h delta nbits f pos s =
    rw (checked_mod_pos h nbits pos)
      (rw s.0 (check_probes-AllSet k (wrapping_add h delta) delta nbits f pos s.1))

may_contain-AllSet :
    (b : Bloom) (h : ℕ)
    → 0 < bit_len b.filter
    → AllSet b.k h (rotate_left_15 h) (bit_len b.filter) b.filter
    → may_contain b h ≡ some true
unfolding may_contain
may_contain-AllSet b h pos s =
    ground (arith, check_probes-AllSet b.k h (rotate_left_15 h) (bit_len b.filter) b.filter pos s)

build_all :
    (scaled : ℕ → ℕ) (keys : List ℕ) (bits_per_key : ℕ)
    → (b : Bloom) × (build_from_key_hashes scaled keys bits_per_key ≡ some b)
      × ((i h : ℕ) → get_elem? keys i ≡ some h → may_contain b h ≡ some true)
unfolding build_from_key_hashes
build_all scaled keys bits_per_key =
    let k : ℕ = min 30 (max 1 (scaled bits_per_key)) in
    let nbytes : ℕ = (max (length keys * bits_per_key) 64 + 7) / 8 in
    let len : length (replicate nbytes 0) ≡ nbytes = length-replicate nbytes 0 in
    let (g, ran, x, all_set) =
      set_keys-AllSet k (nbytes * 8) keys (replicate nbytes 0) (omega arith)
        (ap (λ (n : ℕ). n * 8) len) (AreBytes-replicate nbytes) in
    let glen : bit_len g ≡ nbytes * 8 = ap (λ (n : ℕ). n * 8) (x.same_length ∙ len) in
    (
      record { filter = g; k = k },
      rw ran,
      λ i h at.
          may_contain-AllSet (record { filter = g; k = k }) h (omega arith)
            (subst (λ (n : ℕ). AllSet k h (rotate_left_15 h) n g) (sym glen) (all_set i h at)),
    )

-- A filter is always built, and for the hash of a key that it was built from `may_contain` answers
-- true, whatever the rounding of the number of probes: there is no false negative.
pub build-may_contain :
    (scaled : ℕ → ℕ) (keys : List ℕ) (bits_per_key i h : ℕ)
    → get_elem? keys i ≡ some h
    → (b : Bloom) × (build_from_key_hashes scaled keys bits_per_key ≡ some b)
      × (may_contain b h ≡ some true)
build-may_contain scaled keys bits_per_key i h at =
    let (b, built, sound) = build_all scaled keys bits_per_key in (b, built, sound i h at)
