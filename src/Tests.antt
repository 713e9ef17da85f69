-- ===== src/Tests.antt =====
-- The theorems at concrete inputs, and the instances of the parameters that they take.
pub mod Logs
pub mod Reads
pub mod Stores
pub mod Gets
pub mod Merged
pub mod Tables
pub mod Installs
pub mod Compactions
use tiny_lsm.Common.{
  ℕ, zero, suc, subst, ◌+◌, ◌*◌, ◌/◌, ◌%◌, ◌≤◌, ◌<◌, ◌≡◌, refl, Bool, true, false, Option, none,
  some, List, [], ◌∷◌, ◌++◌, Bytes, length, get_elem?, get_elem?-lt, ltb, leb, arith, ltb-eq-false,
  ◌>>=◌, some-injective, Ordering, filter,
}
use tiny_lsm.Buffer.{
  u16_mod, u32_mod, BufCrate, Crc, Hasher, to_be16, to_be32, to_be64, split_be16, split_be32,
  split_be64,
}
use tiny_lsm.Key.{Key, from_slice, cmp, bytes_cmp, eq, ts_default}
use tiny_lsm.Block.{Block, decode, encode}
use tiny_lsm.Block.Builder.{
  BlockBuilder, new_builder, build, push_entry, put_entry, add, is_full, estimated_size,
  compute_overlap,
}
use tiny_lsm.Block.Iterator.{BlockIterator, create_and_seek_to_key}
use tiny_lsm.Block.Entries.{Entry, AllFit}
use tiny_lsm.Block.Entries.Build.{add_all}
use tiny_lsm.Block.Scan.{scan}
use tiny_lsm.Block.Seek.{IsSorted, Splits, StandsAt}
use tiny_lsm.Block.Search.{create_and_seek_to_key-add_all}
use tiny_lsm.Block.Codec.{decode-encode}
use tiny_lsm.Block.Persist.{scan-decode-encode}
use tiny_lsm.Block.Bounds.{add_bound}
use tiny_lsm.Compact.Float.{Float}

abbrev pub test_buf : BufCrate
test_buf = record {
  put_u16 = to_be16;
  put_u32 = to_be32;
  put_u64 = to_be64;
  get_u16 = split_be16;
  get_u32 = split_be32;
  get_u64 = split_be64;
  put_u16_lem = λ n h. refl;
  put_u32_lem = λ n h. refl;
  put_u64_lem = λ n h. refl;
  get_u16_lem = λ b. refl;
  get_u32_lem = λ b. refl;
  get_u64_lem = λ b. refl;
}

pub sum : Bytes → ℕ
sum [] = 0
sum (b ∷ bs) = b + sum bs

abbrev pub test_crc : Crc
test_crc = record { hash = λ b. sum b % u32_mod; hash-lt = λ b. omega arith }

abbrev pub test_hasher : Hasher
test_hasher = record {
  State = ℕ;
  init = 0;
  write = λ s b. s + sum b;
  write_u16 = λ s n. s + n;
  write_u64 = λ s n. s + n;
  finalize = λ s. s % u32_mod;
  finalize-lt = λ s. omega arith;
}

-- Fractions, in place of the floating-point numbers.
pub fraction_law : (a b : ℕ) → 0 < b → a ≤ b → ltb (1 * (1 * b)) (a * 1 * 1) ≡ false
fraction_law a b pos le = ltb-eq-false (1 * (1 * b)) (a * 1 * 1) (omega arith)

abbrev pub test_float : Float
test_float = record {
  F = ℕ × ℕ;
  of_usize = λ n. (n, 1);
  add = λ x y. (x.0 * y.1 + y.0 * x.1, x.1 * y.1);
  mul = λ x y. (x.0 * y.0, x.1 * y.1);
  div = λ x y. (x.0 * y.1, x.1 * y.0);
  lt = λ x y. ltb (x.0 * y.1) (y.0 * x.1);
  le = λ x y. leb (x.0 * y.1) (y.0 * x.1);
  div-not-above_one = fraction_law;
}

abbrev pub first_entry : Entry
first_entry = (from_slice (1 ∷ 2 ∷ []) 7, 9 ∷ [])

abbrev pub second_entry : Entry
second_entry = (from_slice (1 ∷ 3 ∷ []) 4, [])

abbrev pub two_entries : List Entry
two_entries = first_entry ∷ second_entry ∷ []

two_entries-AllFit : AllFit two_entries
two_entries-AllFit = (
  (refl, omega arith, omega arith, omega arith),
  ((refl, omega arith, omega arith, omega arith), tt),
)

one_entry_block : BlockBuilder
unfolding push_entry put_entry compute_overlap
one_entry_block = push_entry test_buf (new_builder 64) first_entry.0 first_entry.1

two_entry_block : BlockBuilder
unfolding one_entry_block push_entry put_entry compute_overlap
two_entry_block = push_entry test_buf one_entry_block second_entry.0 second_entry.1

two_entries-added : add_all test_buf (new_builder 64) two_entries ≡ some two_entry_block
unfolding add_all add is_full estimated_size push_entry put_entry compute_overlap one_entry_block
    two_entry_block
two_entries-added = refl

first_below_second : cmp first_entry.0 second_entry.0 ≡ Ordering.lt
unfolding cmp bytes_cmp
first_below_second = refl

two_entries-IsSorted : IsSorted two_entries
two_entries-IsSorted zero zero e f lt at_i at_j = absurd (omega arith)
two_entries-IsSorted zero (suc zero) e f lt at_i at_j =
    subst (λ x. cmp x.0 f.0 ≡ Ordering.lt) (some-injective _ _ at_i)
      (subst (λ y. cmp first_entry.0 y.0 ≡ Ordering.lt) (some-injective _ _ at_j)
        first_below_second)
two_entries-IsSorted zero (suc (suc j)) e f lt at_i at_j =
    absurd (omega (arith, get_elem?-lt two_entries (suc (suc j)) f at_j))
two_entries-IsSorted (suc i) j e f lt at_i at_j =
    absurd (omega (arith, get_elem?-lt two_entries j f at_j))

-- A block with two entries.
scan-decode-encode_example :
    (decode (encode test_buf test_crc (build two_entry_block)) >>= scan test_buf 3)
    ≡ some two_entries
scan-decode-encode_example =
    scan-decode-encode test_buf test_crc 64 first_entry (second_entry ∷ []) two_entry_block
      (omega arith) two_entries-AllFit two_entries-added

decode-encode_example :
    decode (encode test_buf test_crc (build one_entry_block)) ≡ some (build one_entry_block)
unfolding one_entry_block
decode-encode_example =
    decode-encode test_buf test_crc (build one_entry_block) (omega arith, tt) (omega arith)

second_added :
    add test_buf one_entry_block second_entry.0 second_entry.1 ≡ some (two_entry_block, true)
unfolding add is_full estimated_size push_entry put_entry compute_overlap one_entry_block
    two_entry_block
second_added = refl

add_bound_example : estimated_size two_entry_block ≤ 66
unfolding one_entry_block
add_bound_example =
    add_bound test_buf one_entry_block two_entry_block second_entry.0 second_entry.1 (omega arith)
      refl second_added

create_and_seek_to_key-add_all_example :
    (it : BlockIterator) × (p : ℕ) × (create_and_seek_to_key test_buf
        (build two_entry_block)
        (from_slice (1 ∷ 3 ∷ []) 5)
      ≡ some it)
    × Splits two_entries (from_slice (1 ∷ 3 ∷ []) 5) p
    × StandsAt it two_entries p
create_and_seek_to_key-add_all_example =
    create_and_seek_to_key-add_all test_buf 64 first_entry (second_entry ∷ []) two_entry_block
      (from_slice (1 ∷ 3 ∷ []) 5) (omega arith) two_entries-AllFit two_entries-IsSorted
      two_entries-added
