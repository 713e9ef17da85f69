-- ===== src/Buffer/Words.antt =====
-- A big-endian integer is read back from the bytes that were written.
use tiny_lsm.Common.{ℕ, ◌<◌, ◌≡◌, some, ◌++◌, Bytes, length, arith}
use tiny_lsm.Buffer.{
  u16_mod, u32_mod, u64_mod, to_be16, to_be32, to_be64, split_be16, split_be32, split_be64,
  BufCrate,
}

pub split_be16-to_be16 :
    (n : ℕ) (rest : Bytes) → n < u16_mod → split_be16 (to_be16 n ++ rest) ≡ some (n, rest)
split_be16-to_be16 n rest h = ground arith

pub split_be32-to_be32 :
    (n : ℕ) (rest : Bytes) → n < u32_mod → split_be32 (to_be32 n ++ rest) ≡ some (n, rest)
split_be32-to_be32 n rest h = ground arith

pub split_be64-to_be64 :
    (n : ℕ) (rest : Bytes) → n < u64_mod → split_be64 (to_be64 n ++ rest) ≡ some (n, rest)
split_be64-to_be64 n rest h = ground arith

module _ (buf : BufCrate) where
  open buf use {
    put_u16, put_u32, put_u64, get_u16, get_u32, get_u64, put_u16_lem, put_u32_lem, put_u64_lem,
    get_u16_lem, get_u32_lem, get_u64_lem,
  }

  pub get_u16-put_u16 :
      (n : ℕ) (rest : Bytes) → n < u16_mod → get_u16 (put_u16 n ++ rest) ≡ some (n, rest)
  get_u16-put_u16 n rest h = rw (put_u16_lem n h, get_u16_lem) (split_be16-to_be16 n rest h)

  pub get_u32-put_u32 :
      (n : ℕ) (rest : Bytes) → n < u32_mod → get_u32 (put_u32 n ++ rest) ≡ some (n, rest)
  get_u32-put_u32 n rest h = rw (put_u32_lem n h, get_u32_lem) (split_be32-to_be32 n rest h)

  pub get_u64-put_u64 :
      (n : ℕ) (rest : Bytes) → n < u64_mod → get_u64 (put_u64 n ++ rest) ≡ some (n, rest)
  get_u64-put_u64 n rest h = rw (put_u64_lem n h, get_u64_lem) (split_be64-to_be64 n rest h)

  pub length-put_u16 : (n : ℕ) → n < u16_mod → length (put_u16 n) ≡ 2
  length-put_u16 n h = rw (put_u16_lem n h)

  pub length-put_u32 : (n : ℕ) → n < u32_mod → length (put_u32 n) ≡ 4
  length-put_u32 n h = rw (put_u32_lem n h)

  pub length-put_u64 : (n : ℕ) → n < u64_mod → length (put_u64 n) ≡ 8
  length-put_u64 n h = rw (put_u64_lem n h)
