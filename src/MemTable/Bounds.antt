-- ===== src/MemTable/Bounds.antt =====
-- The bounds of a scan over user keys, as bounds of versioned keys.
use tiny_lsm.Common.{◌≤◌, ◌≡◌, refl, Bool, true, ◌&&◌, Bytes, arith}
use tiny_lsm.Key.{Key, cmp, bytes_cmp, is_lt, is_le, u64_max}
use tiny_lsm.MemTable.{
  Bound, included, excluded, unbounded, is_above, is_below, within, map_bound_lower,
  map_bound_upper,
}

-- `RangeBounds::contains`, for user keys
unfoldable pub user_within : Bound Bytes → Bound Bytes → Bytes → Bool
user_within lower upper k = above lower && below upper
  where
    above : Bound Bytes → Bool
    above (included x) = is_le (bytes_cmp x k)
    above (excluded x) = is_lt (bytes_cmp x k)
    above unbounded = true

    below : Bound Bytes → Bool
    below (included x) = is_le (bytes_cmp k x)
    below (excluded x) = is_lt (bytes_cmp k x)
    below unbounded = true

-- A versioned key is in the range that a scan asks the skip list for if and only if its user key is
-- in the range of the scan, whatever the bounds: no version of a key in the range is left out, and no
-- version of an excluded key is let in. The timestamp fits in 64 bits.
pub within-map_bound :
    (lower upper : Bound Bytes) (k : Key)
    → k.ts ≤ u64_max
    → within (map_bound_lower lower) (map_bound_upper upper) k ≡ user_within lower upper k.bytes
unfolding within is_above is_below map_bound_lower map_bound_upper user_within cmp
within-map_bound (included x) (included y) k h = ground arith
within-map_bound (included x) (excluded y) k h = ground arith
within-map_bound (included x) unbounded k h = ground arith
within-map_bound (excluded x) (included y) k h = ground arith
within-map_bound (excluded x) (excluded y) k h = ground arith
within-map_bound (excluded x) unbounded k h = ground arith
within-map_bound unbounded (included y) k h = ground arith
within-map_bound unbounded (excluded y) k h = ground arith
within-map_bound unbounded unbounded k h = refl
