-- ===== src/Block/Codec.antt =====
-- A block is decoded from its encoding.
use native.Mathlib.Nat.{mod-eq_of_lt}
use tiny_lsm.Common.{
  ℕ, ◌+◌, ◌*◌, ◌<◌, ◌≡◌, refl, some, List, [], ◌∷◌, ◌++◌, Bytes, length, append_assoc, append-nil,
  arith, checked_sub, checked_sub-add, slice, slice-append, length-append,
}
use tiny_lsm.Buffer.{u16_mod, split_be16, split_be32, BufCrate, Crc}
use tiny_lsm.Buffer.Words.{split_be16-to_be16, split_be32-to_be32, length-put_u16, length-put_u32}
use tiny_lsm.Block.{Block, decode_offsets, decode, put_offsets, encode}

-- Every offset fits in a `u16`.
abbrev pub AreWords : List ℕ → Type 0
AreWords [] = Unit
AreWords (o ∷ os) = (o < u16_mod) × AreWords os

-- `decode` when each of its steps succeeds.
decode_steps :
    (e : Bytes) (offset_end offset_start sum_start n sum : ℕ) (word tmp sum_word body : Bytes)
    (offsets : List ℕ)
    → checked_sub (length e) 2 ≡ some offset_end
    → slice e offset_end (length e) ≡ some word
    → split_be16 word ≡ some (n, [])
    → checked_sub offset_end (2 * n) ≡ some offset_start
    → slice e offset_start offset_end ≡ some tmp
    → decode_offsets tmp ≡ some offsets
    → checked_sub offset_start 4 ≡ some sum_start
    → slice e sum_start offset_start ≡ some sum_word
    → split_be32 sum_word ≡ some (sum, [])
    → slice e 0 sum_start ≡ some body
    → decode e ≡ some (record { bytes = body; offsets = offsets })
unfolding decode
decode_steps e oe os ss n sum word tmp sum_word body offsets h1 h2 h3 h4 h5 h6 h7 h8 h9 h10 =
    rw h1 (rw h2 (rw h3 (rw h4 (rw h5 (rw h6 (rw h7 (rw h8 (rw h9 (rw h10)))))))))

module _ (buf : BufCrate) where
  open buf use {put_u16, put_u32, put_u16_lem, put_u32_lem}

  pub length-put_offsets : (os : List ℕ) → AreWords os → length (put_offsets buf os) ≡ 2 * length os
  unfolding put_offsets
  length-put_offsets [] w = refl
  length-put_offsets (o ∷ os) w = omega (
    arith,
    length-append (put_u16 o) (put_offsets buf os),
    length-put_u16 buf o w.0,
    length-put_offsets os w.1,
  )

  decode_offsets-put_offsets :
      (os : List ℕ) → AreWords os → decode_offsets (put_offsets buf os) ≡ some os
  unfolding put_offsets decode_offsets
  decode_offsets-put_offsets [] w = refl
  decode_offsets-put_offsets (o ∷ os) w =
      rw (put_u16_lem o w.0) (rw (decode_offsets-put_offsets os w.1) (ground arith))

  module _ (crc : Crc) (b : Block) (words : AreWords b.offsets)
      (few : length b.offsets < u16_mod) where
    -- The four parts of an encoding, each between what stands before it and after it.
    abbrev sum_bytes : Bytes
    sum_bytes = put_u32 (crc.hash b.bytes)

    abbrev offset_bytes : Bytes
    offset_bytes = put_offsets buf b.offsets

    abbrev count_bytes : Bytes
    count_bytes = put_u16 (length b.offsets)

    abbrev whole : Bytes
    whole = b.bytes ++ (sum_bytes ++ (offset_bytes ++ count_bytes))

    length-whole : length whole ≡ length b.bytes + 4 + 2 * length b.offsets + 2
    length-whole = omega (
      arith,
      length-append b.bytes (sum_bytes ++ (offset_bytes ++ count_bytes)),
      length-append sum_bytes (offset_bytes ++ count_bytes),
      length-append offset_bytes count_bytes,
      length-put_u32 buf (crc.hash b.bytes) (crc.hash-lt b.bytes),
      length-put_offsets b.offsets words,
      length-put_u16 buf (length b.offsets) few,
    )

    abbrev sum_start : ℕ
    sum_start = length b.bytes

    abbrev offset_start : ℕ
    offset_start = length b.bytes + 4

    abbrev offset_end : ℕ
    offset_end = length b.bytes + 4 + 2 * length b.offsets

    count_slice : slice whole offset_end (length whole) ≡ some count_bytes
    count_slice =
        slice-append whole (b.bytes ++ (sum_bytes ++ offset_bytes)) count_bytes [] offset_end
          (length whole) (simp (append_assoc, append-nil)) parts.0 parts.1
      where
        parts :
            (offset_end ≡ length (b.bytes ++ (sum_bytes ++ offset_bytes)))
            × (length whole ≡ length (b.bytes ++ (sum_bytes ++ offset_bytes)) + length count_bytes)
        parts = omega (
          arith,
          length-whole,
          length-append b.bytes (sum_bytes ++ offset_bytes),
          length-append sum_bytes offset_bytes,
          length-put_u32 buf (crc.hash b.bytes) (crc.hash-lt b.bytes),
          length-put_offsets b.offsets words,
          length-put_u16 buf (length b.offsets) few,
        )

    offset_slice : slice whole offset_start offset_end ≡ some offset_bytes
    offset_slice =
        slice-append whole (b.bytes ++ sum_bytes) offset_bytes count_bytes offset_start offset_end
          (simp append_assoc) parts.0 parts.1
      where
        parts :
            (offset_start ≡ length (b.bytes ++ sum_bytes))
            × (offset_end ≡ length (b.bytes ++ sum_bytes) + length offset_bytes)
        parts = omega (
          arith,
          length-append b.bytes sum_bytes,
          length-put_u32 buf (crc.hash b.bytes) (crc.hash-lt b.bytes),
          length-put_offsets b.offsets words,
        )

    sum_slice : slice whole sum_start offset_start ≡ some sum_bytes
    sum_slice =
        slice-append whole b.bytes sum_bytes (offset_bytes ++ count_bytes) sum_start offset_start
          refl refl (omega (arith, length-put_u32 buf (crc.hash b.bytes) (crc.hash-lt b.bytes)))

    body_slice : slice whole 0 sum_start ≡ some b.bytes
    body_slice =
        slice-append whole [] b.bytes (sum_bytes ++ (offset_bytes ++ count_bytes)) 0 sum_start refl
          refl (omega arith)

    decode-whole : decode whole ≡ some b
    decode-whole =
        decode_steps whole offset_end offset_start sum_start (length b.offsets) (crc.hash b.bytes)
          count_bytes offset_bytes sum_bytes b.bytes b.offsets
          (rw length-whole (checked_sub-add offset_end 2)) count_slice
          (rw (put_u16_lem (length b.offsets) few) (split_be16-to_be16 (length b.offsets) [] few))
          (checked_sub-add offset_start (2 * length b.offsets)) offset_slice
          (decode_offsets-put_offsets b.offsets words) (checked_sub-add sum_start 4) sum_slice
          (rw (put_u32_lem (crc.hash b.bytes) (crc.hash-lt b.bytes))
            (split_be32-to_be32 (crc.hash b.bytes) [] (crc.hash-lt b.bytes)))
          body_slice

-- What `encode` writes, `decode` reads back: the data and the offsets, where the offsets and their
-- number fit in 16 bits. It holds for every checksum function.
pub decode-encode :
    (buf : BufCrate) (crc : Crc) (b : Block)
    → AreWords b.offsets
    → length b.offsets < u16_mod
    → decode (encode buf crc b) ≡ some b
unfolding encode
decode-encode buf crc b words few = rw (mod-eq_of_lt few) (decode-whole buf crc b words few)
