-- ===== src/Block/Entries/Read.antt =====
-- The iterator reads a stored entry back.
use tiny_lsm.Common.{
  ℕ, zero, suc, ◌+◌, ◌-◌, ◌≤◌, ◌≡◌, refl, ap, subst, ◌∙◌, sym, false, some, List, [], ◌∷◌, ◌++◌,
  Bytes, length, take, drop, append_assoc, append-nil, arith, length-append, slice, slice-append,
  slice-prefix, some-injective, take-append-drop, get_elem?, get_elem?-none, length-drop,
  drop-append,
}
use tiny_lsm.Buffer.{BufCrate}
use tiny_lsm.Buffer.Words.{get_u16-put_u16, get_u64-put_u64, length-put_u16, length-put_u64}
use tiny_lsm.Key.{Key, clear}
use tiny_lsm.Block.Iterator.{BlockIterator, is_valid, key, value, seek_to_offset, seek_to}
use tiny_lsm.Block.Entries.{Entry, laid_out, IsStored, AllStored}

-- The iterator stands at an entry: it is valid, and shows its key and its value.
pub record Shows (it : BlockIterator) (e : Entry) : Type 0 where
  pub shows_key : key it ≡ some e.0
  pub shows_value : value it ≡ some e.1

module _ (buf : BufCrate) where
  open buf use {put_u16, put_u64, get_u16, get_u64}

  -- The position of the value of an entry at `offset` with this overlap.
  abbrev value_begin : ℕ → ℕ → Key → ℕ
  value_begin offset overlap k = offset + 2 + 2 + (length k.bytes - overlap) + 8 + 2

  -- `seek_to_offset` when each of its reads succeeds.
  seek_steps :
      (it : BlockIterator) (offset overlap suffix_len ts value_len : ℕ)
      (entry r1 r2 r3 r4 suffix prefix : Bytes)
      → slice it.block.bytes offset (length it.block.bytes) ≡ some entry
      → get_u16 entry ≡ some (overlap, r1)
      → get_u16 r1 ≡ some (suffix_len, r2)
      → slice r2 0 suffix_len ≡ some suffix
      → slice it.first_key.bytes 0 overlap ≡ some prefix
      → drop suffix_len r2 ≡ r3
      → get_u64 r3 ≡ some (ts, r4)
      → (r5 : Bytes) → get_u16 r4 ≡ some (value_len, r5)
      → seek_to_offset buf it offset
        ≡ some (record it {
          key = record { bytes = prefix ++ suffix; ts = ts };
          value_start = offset + 2 + 2 + suffix_len + 8 + 2;
          value_end = offset + 2 + 2 + suffix_len + 8 + 2 + value_len;
        })
  unfolding seek_to_offset
  seek_steps it offset overlap suffix_len ts value_len entry r1 r2 r3 r4 suffix prefix h1 h2 h3 h4
        h5 h6 h7 r5 h8 =
      rw h1 (rw h2 (rw h3 (rw h4 (rw h5 (rw h6 (rw h7 (rw h8)))))))

  -- The iterator at an entry.
  abbrev at_entry : BlockIterator → ℕ → ℕ → Entry → BlockIterator
  at_entry it offset overlap (k, v) = record it {
    key = k;
    value_start = value_begin offset overlap k;
    value_end = value_begin offset overlap k + length v;
  }

  module _ (it : BlockIterator) (offset : ℕ) (k : Key) (v : Bytes)
      (s : IsStored buf it.block.bytes it.first_key.bytes offset (k, v)) where
    abbrev tail_bytes : Bytes
    tail_bytes = put_u64 k.ts ++ (put_u16 (length v) ++ (v ++ s.post))

    abbrev suffix_bytes : Bytes
    suffix_bytes = drop s.overlap k.bytes

    length-suffix_bytes : length suffix_bytes ≡ length k.bytes - s.overlap
    length-suffix_bytes = length-drop s.overlap k.bytes

    joined : take s.overlap it.first_key.bytes ++ suffix_bytes ≡ k.bytes
    joined = rw s.shared (take-append-drop s.overlap k.bytes)

    seek_to_offset-IsStored :
        seek_to_offset buf it offset ≡ some (at_entry it offset s.overlap (k, v))
    seek_to_offset-IsStored =
        seek_steps it offset s.overlap (length k.bytes - s.overlap) k.ts (length v)
          (laid_out buf s.overlap k v s.post)
          (put_u16 (length k.bytes - s.overlap) ++ (suffix_bytes ++ tail_bytes))
          (suffix_bytes ++ tail_bytes) tail_bytes (put_u16 (length v) ++ (v ++ s.post)) suffix_bytes
          (take s.overlap it.first_key.bytes)
          (slice-append it.block.bytes s.pre (laid_out buf s.overlap k v s.post) [] offset
            (length it.block.bytes) (s.place ∙ ap (λ t. s.pre ++ t) (sym (append-nil _)))
            (sym s.start)
            (ap length s.place ∙ length-append s.pre (laid_out buf s.overlap k v s.post)))
          (get_u16-put_u16 buf s.overlap _ (omega arith))
          (get_u16-put_u16 buf (length k.bytes - s.overlap) _ (omega arith))
          (slice-append (suffix_bytes ++ tail_bytes) [] suffix_bytes tail_bytes 0
            (length k.bytes - s.overlap) refl refl (omega (arith, length-suffix_bytes)))
          (slice-prefix it.first_key.bytes s.overlap s.within_first)
          (subst (λ (n : ℕ). drop n (suffix_bytes ++ tail_bytes) ≡ tail_bytes) length-suffix_bytes
            (drop-append suffix_bytes tail_bytes))
          (get_u64-put_u64 buf k.ts _ (omega arith)) (v ++ s.post)
          (get_u16-put_u16 buf (length v) _ (omega arith))
        ∙ ap
            (λ (b : Bytes). some (record it {
              key = record { bytes = b; ts = k.ts };
              value_start = value_begin offset s.overlap k;
              value_end = value_begin offset s.overlap k + length v;
            }))
            joined

    -- The value of the entry lies where the iterator says.
    value-IsStored :
        slice it.block.bytes
          (value_begin offset s.overlap k)
          (value_begin offset s.overlap k + length v)
        ≡ some v
    value-IsStored =
        slice-append it.block.bytes before v s.post (value_begin offset s.overlap k)
          (value_begin offset s.overlap k + length v) (s.place ∙ simp append_assoc) length-before
          (ap (λ (n : ℕ). n + length v) length-before)
      where
        header : Bytes
        header =
            put_u16 s.overlap
            ++ (put_u16 (length k.bytes - s.overlap)
                ++ (suffix_bytes ++ (put_u64 k.ts ++ put_u16 (length v))))

        before : Bytes
        before = s.pre ++ header

        length-before : value_begin offset s.overlap k ≡ length before
        length-before = omega (
          arith,
          s.start,
          length-append s.pre header,
          length-append (put_u16 s.overlap) (
              put_u16 (length k.bytes - s.overlap)
              ++ (suffix_bytes ++ (put_u64 k.ts ++ put_u16 (length v)))),
          length-append (put_u16 (length k.bytes - s.overlap))
              (suffix_bytes ++ (put_u64 k.ts ++ put_u16 (length v))),
          length-append suffix_bytes (put_u64 k.ts ++ put_u16 (length v)),
          length-append (put_u64 k.ts) (put_u16 (length v)),
          length-put_u16 buf s.overlap (omega (arith, s.fits, s.within_key)),
          length-put_u16 buf (length k.bytes - s.overlap) (omega (arith, s.fits)),
          length-put_u64 buf k.ts (omega (arith, s.fits)),
          length-put_u16 buf (length v) (omega (arith, s.fits)),
          length-suffix_bytes,
        )

  -- The iterator over a block whose entries are `es`.
  pub record IsOver (it : BlockIterator) (es : List Entry) : Type 0 where
    pub stored : AllStored buf it.block.bytes it.first_key.bytes it.block.offsets es

  AllStored-get_elem? :
      (bytes first : Bytes) (os : List ℕ) (es : List Entry) (i : ℕ) (e : Entry)
      → AllStored buf bytes first os es
      → get_elem? es i ≡ some e
      → (o : ℕ) × (get_elem? os i ≡ some o) × IsStored buf bytes first o e
  AllStored-get_elem? bytes first [] [] i e h p = cc
  AllStored-get_elem? bytes first [] (x ∷ es) i e h p = absurd h
  AllStored-get_elem? bytes first (o ∷ os) [] i e h p = absurd h
  AllStored-get_elem? bytes first (o ∷ os) (x ∷ es) zero e h p =
      (o, refl, subst (IsStored buf bytes first o) (some-injective _ _ p) h.0)
  AllStored-get_elem? bytes first (o ∷ os) (x ∷ es) (suc i) e h p =
      AllStored-get_elem? bytes first os es i e h.1 p

  pub length-AllStored :
      (bytes first : Bytes) (os : List ℕ) (es : List Entry)
      → AllStored buf bytes first os es
      → length os ≡ length es
  length-AllStored bytes first [] [] h = refl
  length-AllStored bytes first [] (x ∷ es) h = absurd h
  length-AllStored bytes first (o ∷ os) [] h = absurd h
  length-AllStored bytes first (o ∷ os) (x ∷ es) h = ap suc (length-AllStored bytes first os es h.1)

  shown :
      (it : BlockIterator) (o : ℕ) (e : Entry)
      (s : IsStored buf it.block.bytes it.first_key.bytes o e) (i : ℕ)
      → Shows (record (at_entry it o s.overlap e) { idx = i }) e
  unfolding key value is_valid
  shown it o e s i = record {
    shows_key = rw s.fits.0;
    shows_value = rw s.fits.0 (value-IsStored it o e.0 e.1 s);
  }

  -- Seeking to the i-th entry shows it, and leaves the block and the first key.
  pub seek_to-IsOver :
      (it : BlockIterator) (es : List Entry) (i : ℕ) (e : Entry)
      → IsOver it es
      → get_elem? es i ≡ some e
      → (it' : BlockIterator) × (seek_to buf it i ≡ some it')
        × Shows it' e
        × IsOver it' es
        × (it'.idx ≡ i)
        × (it'.block ≡ it.block)
  unfolding seek_to
  seek_to-IsOver it es i e over p =
      let (o, at, s) =
        AllStored-get_elem? it.block.bytes it.first_key.bytes it.block.offsets es i e over.stored
          p in
      (
        record (at_entry it o s.overlap e) { idx = i },
        rw (at, seek_to) (rw (seek_to_offset-IsStored it o e.0 e.1 s)),
        shown it o e s i,
        record { stored = over.stored },
        refl,
        refl,
      )

  -- Seeking past the last entry leaves an invalid iterator over the same block.
  pub seek_to_end :
      (it : BlockIterator) (es : List Entry) (i : ℕ)
      → IsOver it es
      → length es ≤ i
      → (it' : BlockIterator) × (seek_to buf it i ≡ some it')
        × (is_valid it' ≡ false)
        × IsOver it' es
        × (it'.idx ≡ it.idx)
        × (it'.block ≡ it.block)
  unfolding seek_to is_valid
  seek_to_end it es i over p = (
    record it { key = clear it.key; value_start = 0; value_end = 0 },
    rw (
      get_elem?-none it.block.offsets i (
          omega (
            arith,
            length-AllStored it.block.bytes it.first_key.bytes it.block.offsets es over.stored,
          )),
      seek_to,
    ),
    refl,
    record { stored = over.stored },
    refl,
    refl,
  )
