-- ===== src/Tests/Reads.antt =====
-- The merges, the scan and the visible versions at concrete inputs.
use tiny_lsm.Common.{◌+◌, ◌≡◌, refl, none, some, List, [], ◌∷◌, Bytes, arith, length}
use tiny_lsm.Key.{Key, from_slice, cmp, bytes_cmp, bytes_eq}
use tiny_lsm.MemTable.{find_key, excluded}
use tiny_lsm.Iterators.{Yields}
use tiny_lsm.Iterators.Ascend.{Ascends}
use tiny_lsm.Iterators.Streams.{Stream, present}
use tiny_lsm.Iterators.Merge.{MergeIterator, create, merge_storage}
use tiny_lsm.Iterators.MergePresents.{create-present}
use tiny_lsm.Iterators.TwoMerge
use tiny_lsm.Iterators.TwoMergePresents.{or_else, create-or_else}
use tiny_lsm.LsmIterator.{LsmIterator, new}
use tiny_lsm.LsmIterator.Scan.{before_end, collect, take_while}
use tiny_lsm.LsmIterator.Shown.{new-collect}
use tiny_lsm.LsmIterator.Order.{UsersAscend}
use tiny_lsm.LsmIterator.Lookup.{lookup_user, version_at}
use tiny_lsm.Tests.Logs.{list_storage, list-Yields}

-- Two versions of a key, of which the newer is a tombstone, and another key.
abbrev versions : Stream
versions =
    (from_slice (1 ∷ []) 7, [])
    ∷ (from_slice (1 ∷ []) 3, 9 ∷ [])
    ∷ (from_slice (2 ∷ []) 4, 8 ∷ [])
    ∷ []

abbrev older : Stream
older = (from_slice (1 ∷ []) 3, 5 ∷ []) ∷ (from_slice (3 ∷ []) 1, 6 ∷ []) ∷ []

versions-Ascends : Ascends versions
unfolding cmp bytes_cmp
versions-Ascends = ((refl, (refl, tt)), ((refl, tt), (tt, tt)))

older-Ascends : Ascends older
unfolding cmp bytes_cmp
older-Ascends = ((refl, tt), (tt, tt))

create-present_example :
    (it : MergeIterator Stream) × (es : Stream) × (create list_storage (versions ∷ older ∷ [])
      ≡ some it)
    × Yields (merge_storage list_storage 5) es it
    × Ascends es
    × ((k : Key) → find_key k es ≡ present k (versions ∷ older ∷ []))
create-present_example =
    create-present list_storage 5 (versions ∷ older ∷ []) (versions ∷ older ∷ []) (omega arith)
      (list-Yields versions, (list-Yields older, tt)) (versions-Ascends, (older-Ascends, tt))

create-or_else_example :
    (es : Stream) × Yields
      (TwoMerge.storage list_storage list_storage)
      es
      (TwoMerge.create list_storage list_storage versions older)
    × Ascends es
    × ((k : Key) → find_key k es ≡ or_else (find_key k versions) (find_key k older))
create-or_else_example =
    create-or_else list_storage list_storage versions older versions older (list-Yields versions)
      (list-Yields older) versions-Ascends older-Ascends

new-collect_example :
    (scan : LsmIterator Stream) × (newest : List (Bytes × Bytes)) × (new list_storage 4 versions
        (excluded (3 ∷ []))
        5
      ≡ some scan)
    × (collect list_storage 4 (length versions + 1) scan
        ≡ some (take_while (before_end (excluded (3 ∷ []))) newest))
    × UsersAscend newest
    × ((key : Bytes) → lookup_user key newest ≡ version_at 5 key versions)
new-collect_example =
    new-collect list_storage 4 versions versions (excluded (3 ∷ [])) 5 (omega arith)
      (list-Yields versions) versions-Ascends

-- The newest version at the time 5 is not the tombstone of the time 7.
before_tombstone : version_at 5 (1 ∷ []) versions ≡ some (9 ∷ [])
unfolding version_at bytes_eq
before_tombstone = refl

after_tombstone : version_at 7 (1 ∷ []) versions ≡ none
unfolding version_at bytes_eq
after_tombstone = refl
