-- ===== src/Table/Bloom/Codec.antt =====
-- A filter is decoded from its encoding.
use tiny_lsm.Common.{
  ℕ, ◌+◌, ◌≡◌, refl, ap, sym, true, some, [], ◌∷◌, ◌++◌, Bytes, length, get_elem?, append_assoc,
  append-nil, arith, ◌>>=◌, ◌==◌, ==_iff, checked_sub, checked_sub-add, slice, slice-append,
  length-append, get_elem?-append,
}
use tiny_lsm.Buffer.{BufCrate, Crc, split_be32}
use tiny_lsm.Buffer.Words.{split_be32-to_be32, length-put_u32}
use tiny_lsm.Table.Bloom.{Bloom, decoded, encode, decode}

decode_steps :
    (crc : Crc) (buf body sum_bytes filter : Bytes) (data_len k_at actual k : ℕ)
    → checked_sub (length buf) 4 ≡ some data_len
    → slice buf 0 data_len ≡ some body
    → slice buf data_len (length buf) ≡ some sum_bytes
    → split_be32 sum_bytes ≡ some (actual, [])
    → (crc.hash body == actual) ≡ true
    → checked_sub data_len 1 ≡ some k_at
    → get_elem? buf k_at ≡ some k
    → slice buf 0 k_at ≡ some filter
    → decode crc buf ≡ some (decoded (record { filter = filter; k = k }))
unfolding decode
decode_steps crc buf body sum_bytes filter data_len k_at actual k h1 h2 h3 h4 h5 h6 h7 h8 =
    rw h1 (rw h2 (rw h3 (rw h4 (rw (h5, ◌>>=◌) (rw h6 (rw h7 (rw h8)))))))

-- What `encode` appends, `decode` reads back, for every checksum function and every filter.
pub decode-encode_filter :
    (buf : BufCrate) (crc : Crc) (b : Bloom) → decode crc (encode buf crc b) ≡ some (decoded b)
unfolding encode
decode-encode_filter buf crc b =
    decode_steps crc whole body sum_bytes b.filter (length b.filter + 1) (length b.filter)
      (crc.hash body) b.k (rw len (checked_sub-add (length b.filter + 1) 4))
      (slice-append whole [] body sum_bytes 0 (length b.filter + 1) refl refl
        (omega (arith, length-append b.filter (b.k ∷ []))))
      (slice-append whole body sum_bytes [] (length b.filter + 1) (length whole)
        (ap (λ t. body ++ t) (sym (append-nil sum_bytes)))
        (omega (arith, length-append b.filter (b.k ∷ []))) (length-append body sum_bytes))
      (rw (buf.put_u32_lem (crc.hash body) (crc.hash-lt body))
        (split_be32-to_be32 (crc.hash body) [] (crc.hash-lt body)))
      ((==_iff (crc.hash body) (crc.hash body)).1 refl) (checked_sub-add (length b.filter) 1)
      (rw (append_assoc b.filter (b.k ∷ []) sum_bytes) (get_elem?-append b.filter sum_bytes b.k))
      (slice-append whole [] b.filter (b.k ∷ sum_bytes) 0 (length b.filter)
        (append_assoc b.filter (b.k ∷ []) sum_bytes) refl (omega arith))
  where
    body : Bytes
    body = b.filter ++ b.k ∷ []

    sum_bytes : Bytes
    sum_bytes = buf.put_u32 (crc.hash body)

    whole : Bytes
    whole = body ++ sum_bytes

    len : length whole ≡ length b.filter + 1 + 4
    len = omega (
      arith,
      length-append body sum_bytes,
      length-append b.filter (b.k ∷ []),
      length-put_u32 buf (crc.hash body) (crc.hash-lt body),
    )
