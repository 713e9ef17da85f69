-- ===== src/Block/Entries/Build.antt =====
-- `BlockBuilder::add` stores the entry and keeps those before it.
use native.Mathlib.Nat.{mod-eq_of_lt}
use tiny_lsm.Common.{
  ℕ, ◌≤◌, ◌<◌, ◌≡◌, refl, ap, subst, ◌∙◌, sym, false, Option, some, List, [], ◌∷◌, ◌++◌, Bytes,
  length, append_assoc, append-nil, arith, ◌>>=◌, ◌>>◌, some-injective, guard,
}
use tiny_lsm.Buffer.{u16_mod, BufCrate}
use tiny_lsm.Key.{Key, is_empty}
use tiny_lsm.Block.Builder.{
  BlockBuilder, new_builder, compute_overlap, put_entry, push_entry, add, is_full, no_entries,
}
use tiny_lsm.Block.Entries.{
  Entry, Fits, AllFit, laid_out, put_entry-append, IsStored, AllStored, compute_overlap-le_first,
  compute_overlap-le_key, take-compute_overlap,
}

module _ (buf : BufCrate) where
  -- More bytes behind those of a block leave its entries where they are.
  IsStored-append :
      (bytes more first : Bytes) (o : ℕ) (e : Entry)
      → IsStored buf bytes first o e
      → IsStored buf (bytes ++ more) first o e
  IsStored-append bytes more first o e s = record {
    overlap = s.overlap;
    pre = s.pre;
    post = s.post ++ more;
    place = rw s.place (simp append_assoc);
    start = s.start;
    within_first = s.within_first;
    within_key = s.within_key;
    shared = s.shared;
    fits = s.fits;
  }

  AllStored-snoc :
      (bytes more first : Bytes) (os : List ℕ) (es : List Entry) (o : ℕ) (e : Entry)
      → AllStored buf bytes first os es
      → IsStored buf (bytes ++ more) first o e
      → AllStored buf (bytes ++ more) first (os ++ o ∷ []) (es ++ e ∷ [])
  AllStored-snoc bytes more first [] [] o e h s = (s, tt)
  AllStored-snoc bytes more first [] (x ∷ es) o e h s = absurd h
  AllStored-snoc bytes more first (p ∷ os) [] o e h s = absurd h
  AllStored-snoc bytes more first (p ∷ os) (x ∷ es) o e h s =
      (IsStored-append bytes more first p x h.0, AllStored-snoc bytes more first os es o e h.1 s)

  -- The entry that is appended behind `bytes` is stored at their length.
  new-IsStored :
      (bytes first : Bytes) (e : Entry)
      → Fits e
      → IsStored buf
          (bytes ++ put_entry buf (compute_overlap first e.0.bytes) e.0 e.1)
          first
          (length bytes)
          e
  new-IsStored bytes first e fits = record {
    overlap = compute_overlap first e.0.bytes;
    pre = bytes;
    post = [];
    place =
        ap (λ (t : Bytes). bytes ++ t)
          (sym (append-nil _)
            ∙ put_entry-append buf (compute_overlap first e.0.bytes) e.0 e.1 []
                (compute_overlap-le_key first e.0.bytes) fits);
    start = refl;
    within_first = compute_overlap-le_first first e.0.bytes;
    within_key = compute_overlap-le_key first e.0.bytes;
    shared = take-compute_overlap first e.0.bytes;
    fits = fits;
  }

  -- The state of a builder after the entries `es` were added.
  abbrev pub IsBuilt : BlockBuilder → List Entry → Type 0
  IsBuilt b [] = (b ≡ new_builder b.block_size) × (b.block_size ≤ u16_mod)
  IsBuilt b ((k, v) ∷ es) =
      ((post : Bytes) × (b.bytes ≡ laid_out buf 0 k v post))
      × (b.first_key ≡ k)
      × Fits (k, v)
      × (b.block_size ≤ u16_mod)
      × AllStored buf b.bytes k.bytes b.offsets ((k, v) ∷ es)

  pub new_builder-IsBuilt :
      (block_size : ℕ) → block_size ≤ u16_mod → IsBuilt (new_builder block_size) []
  new_builder-IsBuilt block_size h = (refl, h)

  AllStored-no_entries :
      (bytes first : Bytes) (os : List ℕ) (e : Entry) (es : List Entry)
      → AllStored buf bytes first os (e ∷ es)
      → no_entries os ≡ false
  AllStored-no_entries bytes first [] e es h = absurd h
  AllStored-no_entries bytes first (o ∷ os) e es h = refl

  first_push :
      (n : ℕ) (k : Key) (v : Bytes)
      → n ≤ u16_mod
      → Fits (k, v)
      → IsBuilt (push_entry buf (new_builder n) k v) ((k, v) ∷ [])
  unfolding push_entry
  first_push n k v small fits = (([], place), refl, fits, small, (stored, tt))
    where
      place : put_entry buf 0 k v ≡ laid_out buf 0 k v []
      place = sym (append-nil _) ∙ put_entry-append buf 0 k v [] (omega arith) fits

      stored : IsStored buf (put_entry buf 0 k v) k.bytes 0 (k, v)
      stored = record {
        overlap = 0;
        pre = [];
        post = [];
        place = place;
        start = refl;
        within_first = omega arith;
        within_key = omega arith;
        shared = refl;
        fits = fits;
      }

  next_push :
      (b : BlockBuilder) (e : Entry) (es : List Entry) (k : Key) (v : Bytes)
      → IsBuilt b (e ∷ es)
      → Fits (k, v)
      → length b.bytes < u16_mod
      → IsBuilt (push_entry buf b k v) ((e ∷ es) ++ (k, v) ∷ [])
  unfolding push_entry
  next_push b e es k v ((post, place), first, fits0, small, stored) fits room = (
    (post ++ more, rw place (simp append_assoc)),
    rw (ap is_empty first ∙ fits0.0) first,
    fits0,
    small,
    rw (mod-eq_of_lt room) (
        AllStored-snoc b.bytes more e.0.bytes b.offsets (e ∷ es) (length b.bytes) (k, v) stored
          added),
  )
    where
      more : Bytes
      more = put_entry buf (compute_overlap b.first_key.bytes k.bytes) k v

      added : IsStored buf (b.bytes ++ more) e.0.bytes (length b.bytes) (k, v)
      added =
          subst (λ f. IsStored buf (b.bytes ++ more) f (length b.bytes) (k, v))
            (ap (λ (f : Key). f.bytes) first) (new-IsStored b.bytes b.first_key.bytes (k, v) fits)

  room_of_not_full :
      (b : BlockBuilder) (k : Key) (v : Bytes)
      → is_full b k v ≡ false
      → no_entries b.offsets ≡ false
      → length b.bytes < b.block_size
  unfolding is_full
  room_of_not_full b k v h n = ground arith

  -- An entry that is not refused is stored behind those before it.
  pub push_entry-IsBuilt :
      (b : BlockBuilder) (es : List Entry) (k : Key) (v : Bytes)
      → IsBuilt b es
      → Fits (k, v)
      → is_full b k v ≡ false
      → IsBuilt (push_entry buf b k v) (es ++ (k, v) ∷ [])
  push_entry-IsBuilt b [] k v h fits room =
      subst (λ c. IsBuilt (push_entry buf c k v) ((k, v) ∷ [])) (sym h.0)
        (first_push b.block_size k v h.1 fits)
  push_entry-IsBuilt b (e ∷ es) k v h fits room = next_push b e es k v h fits (
      omega (
        arith,
        room_of_not_full b k v room (AllStored-no_entries b.bytes e.0.bytes b.offsets e es h.4),
        h.3,
      ))

  -- A loop of calls of `add`, each of which has to be accepted.
  unfoldable pub add_all : BlockBuilder → List Entry → Option BlockBuilder
  add_all b [] = some b
  add_all b ((k, v) ∷ es) = do added ← add buf b k v; guard added.1; add_all added.0 es

  pub add_all-cons :
      (b c : BlockBuilder) (k : Key) (v : Bytes) (es : List Entry)
      → add_all b ((k, v) ∷ es) ≡ some c
      → (is_full b k v ≡ false) × (add_all (push_entry buf b k v) es ≡ some c)
  unfolding add_all add
  add_all-cons b c k v es h = ground arith

  -- After a run of accepted calls of `add` the builder holds the entries, in order.
  pub add_all-IsBuilt :
      (b c : BlockBuilder) (es more : List Entry)
      → IsBuilt b es
      → AllFit more
      → add_all b more ≡ some c
      → IsBuilt c (es ++ more)
  unfolding add_all
  add_all-IsBuilt b c es [] h fits e =
      rw (append-nil es) (subst (λ d. IsBuilt d es) (some-injective _ _ e) h)
  add_all-IsBuilt b c es ((k, v) ∷ more) h fits e =
      let (room, rest) = add_all-cons b c k v more e in
      subst (IsBuilt c) (append_assoc es ((k, v) ∷ []) more) (
        add_all-IsBuilt (push_entry buf b k v) c (es ++ (k, v) ∷ []) more
          (push_entry-IsBuilt b es k v h fits.0 room) fits.1 rest)
