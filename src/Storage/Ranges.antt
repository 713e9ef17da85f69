-- ===== src/Storage/Ranges.antt =====
-- lsm_storage.rs: which tables a lookup and a scan have to look at.
use tiny_lsm.Common.{◌≡◌, refl, Bool, true, false, not, ◌&&◌, Bytes, arith}
use tiny_lsm.Key.{Key, bytes_cmp, is_le, is_lt}
use tiny_lsm.Key.Order.{bytes_cmp-reverse, bytes_cmp_trans, eq_of_bytes_cmp}
use tiny_lsm.MemTable.{Bound, included, excluded, unbounded}
use tiny_lsm.MemTable.Bounds.{user_within}

-- The first `match` of `range_overlap`: does the scan end before the table begins?
unfoldable pub ends_before : Bound Bytes → Bytes → Bool
ends_before (excluded key) begin = is_le (bytes_cmp key begin)
ends_before (included key) begin = is_lt (bytes_cmp key begin)
ends_before unbounded begin = false

-- The second `match`: does the scan begin after the table ends?
unfoldable pub begins_after : Bound Bytes → Bytes → Bool
begins_after (excluded key) end = is_le (bytes_cmp end key)
begins_after (included key) end = is_lt (bytes_cmp end key)
begins_after unbounded end = false

unfoldable pub range_overlap : Bound Bytes → Bound Bytes → Key → Key → Bool
unfolding ends_before begins_after
range_overlap user_begin user_end table_begin table_end =
    not (ends_before user_end table_begin.bytes) && not (begins_after user_begin table_end.bytes)

unfoldable pub key_within : Bytes → Key → Key → Bool
key_within user_key table_begin table_end =
    is_le (bytes_cmp table_begin.bytes user_key) && is_le (bytes_cmp user_key table_end.bytes)

le_trans :
    (a b c : Bytes)
    → is_le (bytes_cmp a b) ≡ true
    → is_le (bytes_cmp b c) ≡ true
    → is_le (bytes_cmp a c) ≡ true
le_trans a b c h k = ground (arith, bytes_cmp_trans a b c, eq_of_bytes_cmp a b, eq_of_bytes_cmp b c)

lt_le_trans :
    (a b c : Bytes)
    → is_lt (bytes_cmp a b) ≡ true
    → is_le (bytes_cmp b c) ≡ true
    → is_lt (bytes_cmp a c) ≡ true
lt_le_trans a b c h k = ground (arith, bytes_cmp_trans a b c, eq_of_bytes_cmp b c)

le_lt_trans :
    (a b c : Bytes)
    → is_le (bytes_cmp a b) ≡ true
    → is_lt (bytes_cmp b c) ≡ true
    → is_lt (bytes_cmp a c) ≡ true
le_lt_trans a b c h k = ground (arith, bytes_cmp_trans a b c, eq_of_bytes_cmp a b)

not_lt_of_le : (a b : Bytes) → is_le (bytes_cmp a b) ≡ true → is_lt (bytes_cmp b a) ≡ false
not_lt_of_le a b h = ground (arith, bytes_cmp-reverse a b)

not_le_of_lt : (a b : Bytes) → is_lt (bytes_cmp a b) ≡ true → is_le (bytes_cmp b a) ≡ false
not_le_of_lt a b h = ground (arith, bytes_cmp-reverse a b)

not_ends_before :
    (user_end : Bound Bytes) (begin k : Bytes)
    → is_le (bytes_cmp begin k) ≡ true
    → user_within unbounded user_end k ≡ true
    → ends_before user_end begin ≡ false
unfolding user_within ends_before
not_ends_before (included x) begin k h g = not_lt_of_le begin x (le_trans begin k x h g)
not_ends_before (excluded x) begin k h g = not_le_of_lt begin x (le_lt_trans begin k x h g)
not_ends_before unbounded begin k h g = refl

not_begins_after :
    (user_begin : Bound Bytes) (end k : Bytes)
    → is_le (bytes_cmp k end) ≡ true
    → user_within user_begin unbounded k ≡ true
    → begins_after user_begin end ≡ false
unfolding user_within begins_after
not_begins_after (included x) end k h g = not_lt_of_le x end (le_trans x k end (ground arith) h)
not_begins_after (excluded x) end k h g = not_le_of_lt x end (lt_le_trans x k end (ground arith) h)
not_begins_after unbounded end k h g = refl

within_parts :
    (lower upper : Bound Bytes) (k : Bytes)
    → user_within lower upper k ≡ true
    → (user_within lower unbounded k ≡ true) × (user_within unbounded upper k ≡ true)
unfolding user_within
within_parts lower upper k h = (ground arith, ground arith)

-- A table whose range of keys has a user key that is within the bounds of a scan is not left out of
-- the scan, whatever the bounds.
pub range_overlap-keeps :
    (user_begin user_end : Bound Bytes) (table_begin table_end : Key) (user_key : Bytes)
    → key_within user_key table_begin table_end ≡ true
    → user_within user_begin user_end user_key ≡ true
    → range_overlap user_begin user_end table_begin table_end ≡ true
unfolding range_overlap key_within
range_overlap-keeps user_begin user_end table_begin table_end k h g =
    let (begins, ends) = within_parts user_begin user_end k g in
    rw
      (
        not_ends_before user_end table_begin.bytes k (ground arith) ends,
        not_begins_after user_begin table_end.bytes k (ground arith) begins,
      )
      refl
