-- ===== src/Key.antt =====
-- key.rs: a user key with a timestamp. Keys are compared by their bytes and, among versions of one
-- user key, from the newest timestamp to the oldest (`Reverse(self.1)`).
pub mod Order
use tiny_lsm.Common.{
  ℕ, ◌+◌, ◌^◌, ◌-◌, Bool, true, false, List, [], ◌∷◌, ◌++◌, Bytes, compare, Ordering, length, ◌==◌,
  ◌&&◌,
}

-- `Key<T>`: the three instances `KeySlice`, `KeyVec` and `KeyBytes` differ in who owns the bytes.
pub record Key : Type 0 where
  pub bytes : Bytes
  pub ts : ℕ

-- `u64::MAX`
abbrev pub u64_max : ℕ
u64_max = 2 ^ 64 - 1

abbrev pub ts_default : ℕ
ts_default = 0

abbrev pub ts_range_begin : ℕ
ts_range_begin = u64_max

abbrev pub ts_range_end : ℕ
ts_range_end = 0

-- `size_of::<u64>()`
abbrev pub sizeof_u64 : ℕ
sizeof_u64 = 8

abbrev pub key_len : Key → ℕ
key_len k = length k.bytes

abbrev pub raw_len : Key → ℕ
raw_len k = length k.bytes + sizeof_u64

abbrev pub is_empty_bytes : Bytes → Bool
is_empty_bytes [] = true
is_empty_bytes (b ∷ bs) = false

abbrev pub is_empty : Key → Bool
is_empty k = is_empty_bytes k.bytes

-- `Key::new`
abbrev pub new : Key
new = record { bytes = []; ts = ts_default }

abbrev pub from_slice : Bytes → ℕ → Key
from_slice bytes ts = record { bytes = bytes; ts = ts }

-- The timestamp stays.
abbrev pub clear : Key → Key
clear k = record k { bytes = [] }

abbrev pub append : Key → Bytes → Key
append k more = record k { bytes = k.bytes ++ more }

abbrev pub set_ts : Key → ℕ → Key
set_ts k ts = record k { ts = ts }

abbrev pub set_from_slice : Key → Key → Key
set_from_slice k slice = record k { bytes = slice.bytes; ts = slice.ts }

-- `Ord` of `[u8]`: lexicographic.
unfoldable pub bytes_cmp : Bytes → Bytes → Ordering
bytes_cmp [] [] = Ordering.eq
bytes_cmp [] (b ∷ bs) = Ordering.lt
bytes_cmp (a ∷ as') [] = Ordering.gt
bytes_cmp (a ∷ as') (b ∷ bs) = elim (compare a b) [
  | Ordering.lt ↦ Ordering.lt
  | Ordering.eq ↦ bytes_cmp as' bs
  | Ordering.gt ↦ Ordering.gt
]

-- `==` of `[u8]`
unfoldable pub bytes_eq : Bytes → Bytes → Bool
bytes_eq [] [] = true
bytes_eq [] (b ∷ bs) = false
bytes_eq (a ∷ as') [] = false
bytes_eq (a ∷ as') (b ∷ bs) = a == b && bytes_eq as' bs

-- `Ord::cmp` (and `partial_cmp`) of `Key`
unfoldable pub cmp : Key → Key → Ordering
cmp a b = elim (bytes_cmp a.bytes b.bytes) [
  | Ordering.lt ↦ Ordering.lt
  | Ordering.eq ↦ compare b.ts a.ts
  | Ordering.gt ↦ Ordering.gt
]

-- `PartialEq::eq` of `Key`
unfoldable pub eq : Key → Key → Bool
unfolding bytes_eq
eq a b = bytes_eq a.bytes b.bytes && a.ts == b.ts

-- What the derived comparisons `<` and `<=` test.
abbrev pub is_lt : Ordering → Bool
is_lt Ordering.lt = true
is_lt Ordering.eq = false
is_lt Ordering.gt = false

abbrev pub is_le : Ordering → Bool
is_le Ordering.lt = true
is_le Ordering.eq = true
is_le Ordering.gt = false

abbrev pub reverse : Ordering → Ordering
reverse Ordering.lt = Ordering.gt
reverse Ordering.eq = Ordering.eq
reverse Ordering.gt = Ordering.lt
