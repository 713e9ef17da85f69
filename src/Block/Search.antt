-- ===== src/Block/Search.antt =====
-- A search by key in a block that was built.
use tiny_lsm.Common.{ℕ, ◌≤◌, ◌≡◌, ◌∙◌, some, List, ◌∷◌}
use tiny_lsm.Buffer.{u16_mod, BufCrate}
use tiny_lsm.Key.{Key}
use tiny_lsm.Block.Builder.{BlockBuilder, new_builder, build}
use tiny_lsm.Block.Iterator.{BlockIterator, create, seek_to_key, create_and_seek_to_key}
use tiny_lsm.Block.Entries.{Entry, AllFit}
use tiny_lsm.Block.Entries.Build.{add_all}
use tiny_lsm.Block.Scan.{create-IsOver}
use tiny_lsm.Block.Seek.{IsSorted, Splits, StandsAt, seek_to_key-Found}

module _ (buf : BufCrate) where
  seek_steps :
      (b : BlockBuilder) (target : Key) (it : BlockIterator)
      → create buf (build b) ≡ some it
      → create_and_seek_to_key buf (build b) target ≡ seek_to_key buf it target
  unfolding create_and_seek_to_key
  seek_steps b target it made = rw made

  -- In a block that a builder made of entries with growing keys, the search for a key gives, without
  -- a panic, an iterator at the first entry whose key is not below the target, or an invalid one if
  -- there is no such entry. The block size is at most 65536, and the entries fit the encoding.
  pub create_and_seek_to_key-add_all :
      (block_size : ℕ) (e : Entry) (es : List Entry) (b : BlockBuilder) (target : Key)
      → block_size ≤ u16_mod
      → AllFit (e ∷ es)
      → IsSorted (e ∷ es)
      → add_all buf (new_builder block_size) (e ∷ es) ≡ some b
      → (it : BlockIterator) × (p : ℕ) × (create_and_seek_to_key buf (build b) target ≡ some it)
        × Splits (e ∷ es) target p
        × StandsAt it (e ∷ es) p
  create_and_seek_to_key-add_all block_size e es b target small fits sorted h =
      let (it0, made, over) = create-IsOver buf block_size e es b small fits h in
      let (it, p, ran, split, stands, same) =
        seek_to_key-Found buf (e ∷ es) sorted target it0 over in
      (it, p, seek_steps b target it0 made ∙ ran, split, stands)
