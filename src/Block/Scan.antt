-- ===== src/Block/Scan.antt =====
-- A block that was built, encoded and decoded is read back entry by entry.
use tiny_lsm.Common.{
  ℕ, zero, suc, ◌+◌, ◌-◌, ◌≤◌, ◌<◌, ◌≡◌, refl, subst, sym, true, false, Option, none, some, List,
  [], ◌∷◌, ◌++◌, Bytes, length, arith, ◌>>=◌, get_elem?, get_elem?-append, drop, drop-append, slice,
  slice-append, append_assoc, length-append,
}
use tiny_lsm.Buffer.{u16_mod, BufCrate}
use tiny_lsm.Buffer.Words.{get_u16-put_u16, get_u64-put_u64}
use tiny_lsm.Key.{Key, new, from_slice}
use tiny_lsm.Block.{Block, get_first_key}
use tiny_lsm.Block.Builder.{BlockBuilder, new_builder, build}
use tiny_lsm.Block.Iterator.{
  BlockIterator, is_valid, key, value, seek_to, seek_to_first, next, create,
  create_and_seek_to_first,
}
use tiny_lsm.Block.Entries.{Entry, Fits, AllFit, laid_out}
use tiny_lsm.Block.Entries.Read.{Shows, IsOver, seek_to-IsOver, seek_to_end}
use tiny_lsm.Block.Entries.Build.{IsBuilt, new_builder-IsBuilt, add_all, add_all-IsBuilt}

module _ (buf : BufCrate) where
  -- A client's loop: read while the iterator is valid.
  unfoldable pub collect : ℕ → BlockIterator → Option (List Entry)
  collect zero it = none
  collect (suc fuel) it = elim (is_valid it) [
    | true ↦ (do
      k ← key it
      v ← value it
      it' ← next buf it
      rest ← collect fuel it'
      some ((k, v) ∷ rest))
    | false ↦ some []
  ]

  -- The entries that stand at the i-th place and after it.
  collect_step :
      (fuel : ℕ) (it it' : BlockIterator) (k : Key) (v : Bytes) (rest : List Entry)
      → is_valid it ≡ true
      → key it ≡ some k
      → value it ≡ some v
      → next buf it ≡ some it'
      → collect fuel it' ≡ some rest
      → collect (suc fuel) it ≡ some ((k, v) ∷ rest)
  unfolding collect
  collect_step fuel it it' k v rest h1 h2 h3 h4 h5 =
      rw (h1, collect) (rw h2 (rw h3 (rw h4 (rw h5))))

  is_valid_of_key : (it : BlockIterator) (k : Key) → key it ≡ some k → is_valid it ≡ true
  unfolding key
  is_valid_of_key it k h = ground arith

  collect_done :
      (fuel : ℕ) (it : BlockIterator) → 0 < fuel → is_valid it ≡ false → collect fuel it ≡ some []
  unfolding collect
  collect_done zero it few h = elim few [ ]
  collect_done (suc fuel) it few h = rw (h, collect)

  next_lem :
      (it it' : BlockIterator)
      → seek_to buf (record it { idx = it.idx + 1 }) (it.idx + 1) ≡ some it'
      → next buf it ≡ some it'
  unfolding next
  next_lem it it' h = h

  collect-from :
      (fuel : ℕ) (it : BlockIterator) (before after : List Entry) (e : Entry)
      → length after + 1 < fuel
      → IsOver buf it (before ++ e ∷ after)
      → Shows it e
      → it.idx ≡ length before
      → collect fuel it ≡ some (e ∷ after)
  collect-from zero it before after e few over shows idx = absurd (omega arith)
  collect-from (suc fuel) it before [] e few over shows idx =
      let (it', ran, invalid, over', same_idx, same) =
        seek_to_end buf (record it { idx = it.idx + 1 }) (before ++ e ∷ []) (it.idx + 1)
          (record { stored = over.stored }) (omega (arith, length-append before (e ∷ []))) in
      collect_step fuel it it' e.0 e.1 [] (is_valid_of_key it e.0 shows.shows_key) shows.shows_key
        shows.shows_value (next_lem it it' ran) (collect_done fuel it' (omega arith) invalid)
  collect-from (suc fuel) it before (f ∷ after) e few over shows idx =
      let moved : IsOver buf it ((before ++ e ∷ []) ++ f ∷ after) =
        subst (IsOver buf it) (sym (append_assoc before (e ∷ []) (f ∷ after))) over in
      let place : length (before ++ e ∷ []) ≡ it.idx + 1 =
        omega (arith, length-append before (e ∷ [])) in
      let (it', ran, shows', over', idx', same) =
        seek_to-IsOver buf (record it { idx = it.idx + 1 }) ((before ++ e ∷ []) ++ f ∷ after)
          (it.idx + 1) f (record { stored = moved.stored })
          (subst (λ (n : ℕ). get_elem? ((before ++ e ∷ []) ++ f ∷ after) n ≡ some f) place
            (get_elem?-append (before ++ e ∷ []) after f)) in
      collect_step fuel it it' e.0 e.1 (f ∷ after) (is_valid_of_key it e.0 shows.shows_key)
        shows.shows_key shows.shows_value (next_lem it it' ran)
        (collect-from fuel it' (before ++ e ∷ []) after f (omega arith) over' shows' (omega arith))

  -- `get_first_key` when each of its reads succeeds.
  first_key_steps :
      (b : Block) (overlap n ts : ℕ) (r1 r2 r3 r4 name : Bytes)
      → buf.get_u16 b.bytes ≡ some (overlap, r1)
      → buf.get_u16 r1 ≡ some (n, r2)
      → slice r2 0 n ≡ some name
      → drop n r2 ≡ r3
      → buf.get_u64 r3 ≡ some (ts, r4)
      → get_first_key buf b ≡ some (from_slice name ts)
  unfolding get_first_key
  first_key_steps b overlap n ts r1 r2 r3 r4 name h1 h2 h3 h4 h5 =
      rw h1 (rw h2 (rw h3 (rw h4 (rw h5))))

  -- The first key of a block that was built is that of its first entry.
  get_first_key-laid_out :
      (b : Block) (k : Key) (v post : Bytes)
      → b.bytes ≡ laid_out buf 0 k v post
      → Fits (k, v)
      → get_first_key buf b ≡ some k
  get_first_key-laid_out b k v post place fits =
      first_key_steps b 0 (length k.bytes - 0) k.ts _ (k.bytes ++ rest) rest _ k.bytes
        (rw place (get_u16-put_u16 buf 0 _ (omega arith)))
        (get_u16-put_u16 buf (length k.bytes - 0) (k.bytes ++ rest) (omega arith))
        (slice-append (k.bytes ++ rest) [] k.bytes rest 0 (length k.bytes - 0) refl refl
          (omega arith))
        (subst (λ (n : ℕ). drop n (k.bytes ++ rest) ≡ rest) same (drop-append k.bytes rest))
        (get_u64-put_u64 buf k.ts _ (omega arith))
    where
      rest : Bytes
      rest = buf.put_u64 k.ts ++ (buf.put_u16 (length v) ++ (v ++ post))

      same : length k.bytes ≡ length k.bytes - 0
      same = omega arith

  create-laid_out :
      (b : Block) (k : Key)
      → get_first_key buf b ≡ some k
      → create buf b
        ≡ some (record {
          block = b;
          key = new;
          value_start = 0;
          value_end = 0;
          idx = 0;
          first_key = k;
        })
  unfolding create
  create-laid_out b k h = rw h

  first_steps :
      (b : Block) (it it' : BlockIterator)
      → create buf b ≡ some it
      → seek_to buf it 0 ≡ some it'
      → create_and_seek_to_first buf b ≡ some it'
  unfolding create_and_seek_to_first seek_to_first
  first_steps b it it' h1 h2 = rw h1 h2

  -- A loop over the block from its first entry.
  unfoldable pub scan : ℕ → Block → Option (List Entry)
  unfolding collect
  scan fuel b = do it ← create_and_seek_to_first buf b; collect fuel it

  scan-IsBuilt :
      (b : BlockBuilder) (e : Entry) (es : List Entry)
      → IsBuilt buf b (e ∷ es)
      → scan (length es + 2) (build b) ≡ some (e ∷ es)
  unfolding scan
  scan-IsBuilt b e es ((post, place), first, fits, small, stored) =
      let it0 : BlockIterator = record {
        block = build b;
        key = new;
        value_start = 0;
        value_end = 0;
        idx = 0;
        first_key = e.0;
      } in
      let made : create buf (build b) ≡ some it0 =
        create-laid_out (build b) e.0 (get_first_key-laid_out (build b) e.0 e.1 post place fits) in
      let (it, ran, shows, over, idx, same) =
        seek_to-IsOver buf it0 (e ∷ es) 0 e (record { stored = stored }) refl in
      rw (first_steps (build b) it0 it made ran)
        (collect-from (length es + 2) it [] es e (omega arith) over shows idx)

  -- The iterator that is created over the block that a builder made goes over its entries.
  pub create-IsOver :
      (block_size : ℕ) (e : Entry) (es : List Entry) (b : BlockBuilder)
      → block_size ≤ u16_mod
      → AllFit (e ∷ es)
      → add_all buf (new_builder block_size) (e ∷ es) ≡ some b
      → (it : BlockIterator) × (create buf (build b) ≡ some it) × IsOver buf it (e ∷ es)
  create-IsOver block_size e es b small fits h =
      let ((post, place), first, fit, small', stored) =
        add_all-IsBuilt buf (new_builder block_size) b [] (e ∷ es)
          (new_builder-IsBuilt buf block_size small) fits h in
      (
        _,
        create-laid_out (build b) e.0 (get_first_key-laid_out (build b) e.0 e.1 post place fit),
        record { stored = stored },
      )

  -- Entries that a builder accepted one after the other are read back from the block, in order, with
  -- their timestamps and values. The block size is at most 65536, and each entry has a key that is
  -- not empty, a key and a value of less than 65536 bytes and a 64-bit timestamp. One more round of
  -- the reading loop than there are entries is enough.
  pub scan-add_all :
      (block_size : ℕ) (e : Entry) (es : List Entry) (b : BlockBuilder)
      → block_size ≤ u16_mod
      → AllFit (e ∷ es)
      → add_all buf (new_builder block_size) (e ∷ es) ≡ some b
      → scan (length es + 2) (build b) ≡ some (e ∷ es)
  scan-add_all block_size e es b small fits h = scan-IsBuilt b e es (
      add_all-IsBuilt buf (new_builder block_size) b [] (e ∷ es)
        (new_builder-IsBuilt buf block_size small) fits h)
