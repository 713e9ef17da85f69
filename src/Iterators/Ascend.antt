-- ===== src/Iterators/Ascend.antt =====
-- Entries in the order of their keys, and the lookup of a key among them.
use tiny_lsm.Common.{◌≡◌, refl, none, List, [], ◌∷◌, Bytes, Ordering}
use tiny_lsm.Key.{Key, cmp}
use tiny_lsm.Key.Order.{cmp_trans}
use tiny_lsm.MemTable.{find_key}

-- Every key is above this one.
abbrev pub AllAbove : Key → List (Key × Bytes) → Type 0
AllAbove k [] = Unit
AllAbove k (e ∷ es) = (cmp k e.0 ≡ Ordering.lt) × AllAbove k es

-- The keys grow.
abbrev pub Ascends : List (Key × Bytes) → Type 0
Ascends [] = Unit
Ascends (e ∷ es) = AllAbove e.0 es × Ascends es

pub AllAbove-trans :
    (j k : Key) (es : List (Key × Bytes)) → cmp j k ≡ Ordering.lt → AllAbove k es → AllAbove j es
AllAbove-trans j k [] h above = tt
AllAbove-trans j k (e ∷ es) h above = (cmp_trans j k e.0 h above.0, AllAbove-trans j k es h above.1)

-- A key below all others is not among them.
pub find_key-AllAbove : (k : Key) (es : List (Key × Bytes)) → AllAbove k es → find_key k es ≡ none
unfolding find_key
find_key-AllAbove k [] above = refl
find_key-AllAbove k (e ∷ es) above = rw (above.0, find_key) (find_key-AllAbove k es above.1)
