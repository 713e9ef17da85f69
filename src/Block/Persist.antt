-- ===== src/Block/Persist.antt =====
-- A block that was built survives its encoding.
use tiny_lsm.Common.{
  ℕ, ◌+◌, ◌%◌, ◌≤◌, ◌<◌, ◌≡◌, ◌⊎◌, inl, inr, refl, subst, false, some, some-injective, List, [],
  ◌∷◌, ◌++◌, Bytes, length, arith, ◌>>=◌, length-append,
}
use tiny_lsm.Buffer.{u16_mod, BufCrate, Crc}
use tiny_lsm.Key.{Key}
use tiny_lsm.Block.{decode, encode}
use tiny_lsm.Block.Builder.{BlockBuilder, new_builder, build, push_entry, is_full, no_entries}
use tiny_lsm.Block.Codec.{AreWords, decode-encode}
use tiny_lsm.Block.Entries.{Entry, AllFit}
use tiny_lsm.Block.Entries.Build.{add_all, add_all-cons}
use tiny_lsm.Block.Scan.{scan, scan-add_all}

AreWords-snoc : (os : List ℕ) (o : ℕ) → AreWords os → o < u16_mod → AreWords (os ++ o ∷ [])
AreWords-snoc [] o w h = (h, tt)
AreWords-snoc (p ∷ os) o w h = (w.0, AreWords-snoc os o w.1 h)

-- The offsets and their number fit in 16 bits.
record IsEncodable (b : BlockBuilder) : Type 0 where
  words : AreWords b.offsets
  few : length b.offsets < u16_mod
  small : b.block_size ≤ u16_mod

no_entries-cases : (os : List ℕ) → (os ≡ []) ⊎ (no_entries os ≡ false)
no_entries-cases [] = inl refl
no_entries-cases (o ∷ os) = inr refl

few_of_not_full :
    (b : BlockBuilder) (k : Key) (v : Bytes)
    → b.block_size ≤ u16_mod
    → is_full b k v ≡ false
    → length b.offsets + 1 < u16_mod
unfolding is_full
few_of_not_full b k v small h = elim (no_entries-cases b.offsets) [
  | inl none_yet ↦ rw none_yet (omega arith)
  | inr more ↦ ground arith
]

module _ (buf : BufCrate) where
  push_entry-IsEncodable :
      (b : BlockBuilder) (k : Key) (v : Bytes)
      → IsEncodable b
      → is_full b k v ≡ false
      → IsEncodable (push_entry buf b k v)
  unfolding push_entry
  push_entry-IsEncodable b k v h room = record {
    words = AreWords-snoc b.offsets (length b.bytes % u16_mod) h.words (omega arith);
    few = omega (
      arith,
      length-append b.offsets ((length b.bytes % u16_mod) ∷ []),
      few_of_not_full b k v h.small room,
    );
    small = h.small;
  }

  add_all-IsEncodable :
      (b c : BlockBuilder) (es : List Entry)
      → IsEncodable b
      → add_all buf b es ≡ some c
      → IsEncodable c
  unfolding add_all
  add_all-IsEncodable b c [] h e = subst IsEncodable (some-injective _ _ e) h
  add_all-IsEncodable b c ((k, v) ∷ es) h e =
      let (room, rest) = add_all-cons buf b c k v es e in
      add_all-IsEncodable (push_entry buf b k v) c es (push_entry-IsEncodable b k v h room) rest

  -- Entries that a builder accepted one after the other are read back from the encoded block, in
  -- order, with their timestamps and values. The block size is at most 65536, and each entry has a
  -- key that is not empty, a key and a value of less than 65536 bytes and a 64-bit timestamp. Two
  -- rounds of the reading loop more than there are entries after the first are enough.
  pub scan-decode-encode :
      (crc : Crc) (block_size : ℕ) (e : Entry) (es : List Entry) (b : BlockBuilder)
      → block_size ≤ u16_mod
      → AllFit (e ∷ es)
      → add_all buf (new_builder block_size) (e ∷ es) ≡ some b
      → (decode (encode buf crc (build b)) >>= scan buf (length es + 2)) ≡ some (e ∷ es)
  scan-decode-encode crc block_size e es b small fits h =
      let safe : IsEncodable b =
        add_all-IsEncodable (new_builder block_size) b (e ∷ es)
          (record { words = tt; few = omega arith; small = small }) h in
      rw (decode-encode buf crc (build b) safe.words safe.few)
        (scan-add_all buf block_size e es b small fits h)
