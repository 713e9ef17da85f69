-- ===== src/Buffer.antt =====
-- What the code takes from the crates `bytes` and `crc32fast`, as parameters with their documented
-- behaviour, and the big-endian conversions of the integers (`to_be_bytes`, `from_be_bytes`).
pub mod Words
use tiny_lsm.Common.{
  ℕ, ◌+◌, ◌*◌, ◌/◌, ◌%◌, ◌^◌, ◌<◌, ◌≡◌, Option, none, some, List, [], ◌∷◌, ◌++◌, Bytes, length,
}

abbrev pub u8_mod : ℕ
u8_mod = 0x100

abbrev pub u16_mod : ℕ
u16_mod = 0x1_0000

abbrev pub u32_mod : ℕ
u32_mod = 0x1_0000_0000

abbrev pub u64_mod : ℕ
u64_mod = 0x1_0000_0000_0000_0000

-- `SIZEOF_U16`
abbrev pub sizeof_u16 : ℕ
sizeof_u16 = 2

abbrev pub sizeof_u32 : ℕ
sizeof_u32 = 4

-- `u16::to_be_bytes`
abbrev pub to_be16 : ℕ → Bytes
to_be16 n = (n / 0x100 % 0x100) ∷ (n % 0x100) ∷ []

-- `u32::to_be_bytes`
abbrev pub to_be32 : ℕ → Bytes
to_be32 n = to_be16 (n / u16_mod) ++ to_be16 n

-- `u64::to_be_bytes`
abbrev pub to_be64 : ℕ → Bytes
to_be64 n = to_be32 (n / u32_mod) ++ to_be32 n

-- `u16::from_be_bytes` of the first two bytes, and the bytes after them; `none` if there are fewer.
abbrev pub split_be16 : Bytes → Option (ℕ × Bytes)
split_be16 (a ∷ b ∷ rest) = some (a * 0x100 + b, rest)
split_be16 _ = none

abbrev pub split_be32 : Bytes → Option (ℕ × Bytes)
split_be32 (a ∷ b ∷ c ∷ d ∷ rest) = some ((a * 0x100 + b) * u16_mod + (c * 0x100 + d), rest)
split_be32 _ = none

abbrev pub split_be64 : Bytes → Option (ℕ × Bytes)
split_be64 (a ∷ b ∷ c ∷ d ∷ e ∷ f ∷ g ∷ h ∷ rest) = some (
  ((a * 0x100 + b) * u16_mod + (c * 0x100 + d)) * u32_mod
      + ((e * 0x100 + f) * u16_mod + (g * 0x100 + h)),
  rest,
)
split_be64 _ = none

-- The traits `Buf` (over `&[u8]`) and `BufMut` (over `Vec<u8>`). A `put` gives the bytes that it
-- appends. The integers are big-endian, and a `get` panics where too few bytes remain.
pub record BufCrate : Type 0 where
  pub put_u16 : ℕ → Bytes
  pub put_u32 : ℕ → Bytes
  pub put_u64 : ℕ → Bytes
  pub get_u16 : Bytes → Option (ℕ × Bytes)
  pub get_u32 : Bytes → Option (ℕ × Bytes)
  pub get_u64 : Bytes → Option (ℕ × Bytes)
  pub put_u16_lem : (n : ℕ) → n < u16_mod → put_u16 n ≡ to_be16 n
  pub put_u32_lem : (n : ℕ) → n < u32_mod → put_u32 n ≡ to_be32 n
  pub put_u64_lem : (n : ℕ) → n < u64_mod → put_u64 n ≡ to_be64 n
  pub get_u16_lem : (b : Bytes) → get_u16 b ≡ split_be16 b
  pub get_u32_lem : (b : Bytes) → get_u32 b ≡ split_be32 b
  pub get_u64_lem : (b : Bytes) → get_u64 b ≡ split_be64 b

-- `crc32fast::hash`, a checksum of 32 bits.
pub record Crc : Type 0 where
  pub hash : Bytes → ℕ
  pub hash-lt : (b : Bytes) → hash b < u32_mod

-- `crc32fast::Hasher`: the writes of the trait `std::hash::Hasher`, and a checksum of 32 bits.
pub record Hasher : Type 1 where
  pub State : Type 0
  pub init : State
  pub write : State → Bytes → State
  pub write_u16 : State → ℕ → State
  pub write_u64 : State → ℕ → State
  pub finalize : State → ℕ
  pub finalize-lt : (s : State) → finalize s < u32_mod
