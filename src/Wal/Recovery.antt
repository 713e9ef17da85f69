-- ===== src/Wal/Recovery.antt =====
-- Recovery inserts what was put, in the order in which it was put.
use native.Mathlib.Nat.{mod-eq_of_lt}
use tiny_lsm.Common.{
  ℕ, zero, suc, ◌%◌, ◌≤◌, ◌<◌, ◌≡◌, refl, sym, ◌∙◌, true, some, List, [], ◌∷◌, ◌++◌, Bytes, length,
  drop, append_assoc, append-nil, arith, slice, slice-append, drop-append, ◌==◌, ==_iff,
  length-append,
}
use tiny_lsm.Buffer.{u16_mod, u64_mod, BufCrate, Hasher}
use tiny_lsm.Buffer.Words.{get_u16-put_u16, get_u32-put_u32, get_u64-put_u64, length-put_u16}
use tiny_lsm.Key.{Key, from_slice}
use tiny_lsm.Wal.{checksum, put_record, put, recover_record, recover_loop, recover}

-- The limits of the format: the lengths are 16 bits.
abbrev pub FitsLog : Key × Bytes → Type 0
FitsLog (k, v) = (length k.bytes < u16_mod) × (k.ts < u64_mod) × (length v < u16_mod)

abbrev pub AllFitLog : List (Key × Bytes) → Type 0
AllFitLog [] = Unit
AllFitLog (e ∷ es) = FitsLog e × AllFitLog es

module _ (buf : BufCrate) (hasher : Hasher) where
  open buf use {put_u16, put_u32, put_u64, get_u16, get_u32, get_u64}

  -- The calls of `put`, one after the other.
  unfoldable pub put_all : Bytes → List (Key × Bytes) → Bytes
  unfolding put
  put_all file [] = file
  put_all file ((k, v) ∷ es) = put_all (put buf hasher file k v) es

  module _ (M : Type 0) (insert : M → Key → Bytes → M) where
    -- The inserts that the same calls make into a map.
    unfoldable pub insert_all : M → List (Key × Bytes) → M
    insert_all map [] = map
    insert_all map ((k, v) ∷ es) = insert_all (insert map k v) es

    record_steps :
        (bytes r1 r2 r3 r4 r5 r6 key value : Bytes) (key_len ts value_len sum : ℕ) (map : M)
        → get_u16 bytes ≡ some (key_len, r1)
        → slice r1 0 key_len ≡ some key
        → drop key_len r1 ≡ r2
        → get_u64 r2 ≡ some (ts, r3)
        → get_u16 r3 ≡ some (value_len, r4)
        → slice r4 0 value_len ≡ some value
        → drop value_len r4 ≡ r5
        → get_u32 r5 ≡ some (sum, r6)
        → (checksum buf hasher key_len key ts value_len value == sum) ≡ true
        → recover_record buf hasher M insert bytes map
          ≡ some (r6, insert map (from_slice key ts) value)
    unfolding recover_record
    record_steps bytes r1 r2 r3 r4 r5 r6 key value key_len ts value_len sum map h1 h2 h3 h4 h5 h6 h7
          h8 h9 =
        rw h1 (rw h2 (rw h3 (rw h4 (rw h5 (rw h6 (rw h7 (rw h8 (rw h9))))))))

    -- A record that was written is read back, whatever follows it.
    recover_record-put_record :
        (k : Key) (v rest : Bytes) (map : M)
        → FitsLog (k, v)
        → recover_record buf hasher M insert (put_record buf hasher k v ++ rest) map
          ≡ some (rest, insert map k v)
    unfolding put_record
    recover_record-put_record k v rest map fits =
        rw
          (
            mod-eq_of_lt {n = length k.bytes} {m = u16_mod} fits.0,
            mod-eq_of_lt {n = length v} {m = u16_mod} fits.2,
          )
          (simp append_assoc (
            record_steps _ (k.bytes ++ after_key) after_key
              (put_u16 (length v) ++ (v ++ (put_u32 sum ++ rest))) (v ++ (put_u32 sum ++ rest))
              (put_u32 sum ++ rest) rest k.bytes v (length k.bytes) k.ts (length v) sum map
              (get_u16-put_u16 buf (length k.bytes) (k.bytes ++ after_key) fits.0)
              (slice-append (k.bytes ++ after_key) [] k.bytes after_key 0 (length k.bytes) refl refl
                (omega arith))
              (drop-append k.bytes after_key) (get_u64-put_u64 buf k.ts _ fits.1)
              (get_u16-put_u16 buf (length v) _ fits.2)
              (slice-append (v ++ (put_u32 sum ++ rest)) [] v (put_u32 sum ++ rest) 0 (length v)
                refl refl (omega arith))
              (drop-append v (put_u32 sum ++ rest))
              (get_u32-put_u32 buf sum rest (hasher.finalize-lt _)) ((==_iff sum sum).1 refl)))
      where
        sum : ℕ
        sum = checksum buf hasher (length k.bytes) k.bytes k.ts (length v) v

        after_key : Bytes
        after_key = put_u64 k.ts ++ (put_u16 (length v) ++ (v ++ (put_u32 sum ++ rest)))

    recover_loop-step :
        (fuel : ℕ) (bytes rest : Bytes) (map map' : M)
        → 0 < length bytes
        → recover_record buf hasher M insert bytes map ≡ some (rest, map')
        → recover_loop buf hasher M insert (suc fuel) bytes map
          ≡ recover_loop buf hasher M insert fuel rest map'
    unfolding recover_loop
    recover_loop-step fuel [] rest map map' h ran = elim h [ ]
    recover_loop-step fuel (b ∷ bytes) rest map map' h ran = rw ran

    recover_loop-end :
        (fuel : ℕ) (map : M) → recover_loop buf hasher M insert fuel [] map ≡ some map
    unfolding recover_loop
    recover_loop-end zero map = refl
    recover_loop-end (suc fuel) map = refl

  -- The log of the calls of `put`.
  log : List (Key × Bytes) → Bytes
  log [] = []
  log ((k, v) ∷ es) = put_record buf hasher k v ++ log es

  put_all-log : (file : Bytes) (es : List (Key × Bytes)) → put_all file es ≡ file ++ log es
  unfolding put_all log
  put_all-log file [] = sym (append-nil file)
  put_all-log file ((k, v) ∷ es) =
      put_all-log (file ++ put_record buf hasher k v) es
      ∙ append_assoc file (put_record buf hasher k v) (log es)

  put_record-pos : (k : Key) (v : Bytes) → 0 < length (put_record buf hasher k v)
  unfolding put_record
  put_record-pos k v = omega (
    arith,
    length-append (put_u16 (length k.bytes % u16_mod)) (
        k.bytes
        ++ (put_u64 k.ts
            ++ (put_u16 (length v % u16_mod)
                ++ (v
                    ++ put_u32 (
                        checksum buf hasher (length k.bytes % u16_mod) k.bytes k.ts
                          (length v % u16_mod) v))))),
    length-put_u16 buf (length k.bytes % u16_mod) (omega arith),
  )

  module _ (M : Type 0) (insert : M → Key → Bytes → M) where
    recover_loop-log :
        (fuel : ℕ) (es : List (Key × Bytes)) (map : M)
        → length (log es) ≤ fuel
        → AllFitLog es
        → recover_loop buf hasher M insert fuel (log es) map ≡ some (insert_all M insert map es)
    unfolding log insert_all
    recover_loop-log fuel [] map few fits = recover_loop-end M insert fuel map
    recover_loop-log zero ((k, v) ∷ es) map few fits =
        absurd
          (omega (arith, put_record-pos k v, length-append (put_record buf hasher k v) (log es)))
    recover_loop-log (suc fuel) ((k, v) ∷ es) map few fits =
        recover_loop-step M insert fuel (put_record buf hasher k v ++ log es) (log es) map
          (insert map k v)
          (omega (arith, put_record-pos k v, length-append (put_record buf hasher k v) (log es)))
          (recover_record-put_record M insert k v (log es) map fits.0)
        ∙ recover_loop-log fuel es (insert map k v)
            (omega (arith, put_record-pos k v, length-append (put_record buf hasher k v) (log es)))
            fits.1

    -- A log that was written by `put` from an empty file is recovered without a panic, and makes the
    -- inserts that go with those calls, in their order, where each key and value has less than 65536
    -- bytes and each timestamp fits in 64 bits.
    pub recover-put_all :
        (es : List (Key × Bytes)) (map : M)
        → AllFitLog es
        → recover buf hasher M insert (put_all [] es) map ≡ some (insert_all M insert map es)
    unfolding recover
    recover-put_all es map fits =
        rw (put_all-log [] es) (recover_loop-log (length (log es)) es map (omega arith) fits)
