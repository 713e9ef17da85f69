-- ===== src/Table/Bloom.antt =====
-- table/bloom.rs: the Bloom filter over 32-bit hashes of the keys of a table.
pub mod Bits
pub mod Sound
pub mod Codec
use Prim.Native.Nat.{bit_and, bit_or}
use tiny_lsm.Common.{
  ℕ, zero, suc, ◌+◌, ◌-◌, ◌*◌, ◌/◌, ◌%◌, ◌^◌, Bool, true, false, not, Option, none, some, List, [],
  ◌∷◌, ◌++◌, Bytes, length, take, drop, get_elem?, set, replicate, ◌>>=◌, ◌>>◌, checked_sub, slice,
  guard, ltb, ◌==◌, if◌then◌else◌, max, min,
}
use tiny_lsm.Buffer.{u32_mod, u8_mod, sizeof_u32, to_be32, split_be32, BufCrate, Crc}

-- `filter` holds the bits, `k` is the number of probes for a key.
pub record Bloom : Type 0 where
  pub filter : Bytes
  pub k : ℕ

-- `get_bit` of the trait `BitSlice`; an index past the last byte panics.
unfoldable pub get_bit : Bytes → ℕ → Option Bool
get_bit bits idx = do
  byte ← get_elem? bits (idx / 8)
  some (not (bit_and byte (2 ^ (idx % 8)) == 0))

abbrev pub bit_len : Bytes → ℕ
bit_len bits = length bits * 8

-- The byte with the bit at `offset` set or cleared.
unfoldable pub with_bit : ℕ → ℕ → Bool → ℕ
with_bit byte offset val =
    if val then bit_or byte (2 ^ offset) else bit_and byte (u8_mod - 1 - 2 ^ offset)

-- `set_bit` of the trait `BitSliceMut`.
unfoldable pub set_bit : Bytes → ℕ → Bool → Option Bytes
unfolding with_bit
set_bit bits idx val = do
  byte ← get_elem? bits (idx / 8)
  some (set bits (idx / 8) (with_bit byte (idx % 8) val))

-- `u32::rotate_left(15)` and `u32::wrapping_add`
unfoldable pub rotate_left_15 : ℕ → ℕ
rotate_left_15 h = h * 2 ^ 15 % u32_mod + h / 2 ^ 17

unfoldable pub wrapping_add : ℕ → ℕ → ℕ
wrapping_add a b = (a + b) % u32_mod

-- `a % b` on `usize`, which panics at 0.
abbrev pub checked_mod : ℕ → ℕ → Option ℕ
checked_mod a zero = none
checked_mod a (suc b) = some (a % suc b)

-- The `k` probes of one key when the filter is built.
unfoldable pub set_probes : ℕ → ℕ → ℕ → ℕ → Bytes → Option Bytes
unfolding set_bit wrapping_add
set_probes zero h delta nbits filter = some filter
set_probes (suc k) h delta nbits filter = do
  bit_position ← checked_mod h nbits
  filter' ← set_bit filter bit_position true
  set_probes k (wrapping_add h delta) delta nbits filter'

unfoldable pub set_keys : ℕ → List ℕ → ℕ → Bytes → Option Bytes
unfolding set_probes rotate_left_15
set_keys k [] nbits filter = some filter
set_keys k (h ∷ keys) nbits filter = do
  filter' ← set_probes k h (rotate_left_15 h) nbits filter
  set_keys k keys nbits filter'

-- `Bloom::build_from_key_hashes`. `scaled` is `(bits_per_key as f64 * 0.69) as u32`, a rounding of
-- floating point that is left open.
unfoldable pub build_from_key_hashes : (ℕ → ℕ) → List ℕ → ℕ → Option Bloom
unfolding set_keys
build_from_key_hashes scaled keys bits_per_key = do
  let k = min 30 (max 1 (scaled bits_per_key))
  let nbytes = (max (length keys * bits_per_key) 64 + 7) / 8
  filter ← set_keys k keys (nbytes * 8) (replicate nbytes 0)
  some (record { filter = filter; k = k })

-- The loop of `may_contain`: false at the first bit that is not set.
unfoldable pub check_probes : ℕ → ℕ → ℕ → ℕ → Bytes → Option Bool
unfolding get_bit wrapping_add
check_probes zero h delta nbits filter = some true
check_probes (suc k) h delta nbits filter = do
  bit_pos ← checked_mod h nbits
  bit ← get_bit filter bit_pos
  elim bit [ true ↦ check_probes k (wrapping_add h delta) delta nbits filter | false ↦ some false ]

-- `Bloom::may_contain`
unfoldable pub may_contain : Bloom → ℕ → Option Bool
unfolding check_probes rotate_left_15
may_contain b h =
    if ltb 30 b.k
    then some true
    else check_probes b.k h (rotate_left_15 h) (bit_len b.filter) b.filter

-- `Bloom::encode`: what is appended to the buffer.
unfoldable pub encode : BufCrate → Crc → Bloom → Bytes
encode buf crc b = (b.filter ++ b.k ∷ []) ++ buf.put_u32 (crc.hash (b.filter ++ b.k ∷ []))

pub data Decoded : Type 0 where
  decoded : Bloom → Decoded
  checksum_mismatch : Decoded

-- `Bloom::decode`: an error if the checksum differs, a panic if the buffer is too short.
unfoldable pub decode : Crc → Bytes → Option Decoded
decode crc buf = do
  data_len ← checked_sub (length buf) sizeof_u32
  body ← slice buf 0 data_len
  sum_bytes ← slice buf data_len (length buf)
  actual ← split_be32 sum_bytes
  elim (crc.hash body == actual.0) [
    | false ↦ some checksum_mismatch
    | true ↦ (do
      k_at ← checked_sub data_len 1
      k ← get_elem? buf k_at
      filter ← slice buf 0 k_at
      some (decoded (record { filter = filter; k = k })))
  ]
