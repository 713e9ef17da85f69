-- ===== src/LsmIterator.antt =====
-- lsm_iterator.rs: the iterator of a scan, which shows one version of every user key that is visible
-- at a timestamp and is no tombstone.
pub mod Fused
pub mod Skips
pub mod Settle
pub mod Scan
pub mod Lookup
pub mod Order
pub mod End
pub mod Shown
use tiny_lsm.Common.{
  ℕ, zero, suc, Bool, true, false, not, ◌&&◌, Option, none, some, ◌>>=◌, Bytes, if◌then◌else◌, ltb,
}
use tiny_lsm.Key.{Key, bytes_cmp, bytes_eq, is_empty_bytes, is_le, is_lt}
use tiny_lsm.MemTable.{Bound, included, excluded, unbounded}
use tiny_lsm.Iterators.{StorageIterator}

pub record LsmIterator (I : Type 0) : Type 0 where
  pub inner : I
  pub end_bound : Bound Bytes
  pub read_timestamp : ℕ
  pub prev_key : Option Bytes

module _ {I : Type 0} (storage : StorageIterator I) where
  -- `while self.inner.is_valid() && self.inner.key().ts() > self.read_timestamp`. All loops over the
  -- inner iterator have fuel for their rounds.
  unfoldable pub skip_newer : ℕ → ℕ → I → Option I
  skip_newer zero read_timestamp it = none
  skip_newer (suc fuel) read_timestamp it = if not (storage.is_valid it) then some it else (do
    k ← storage.key it
    if not (ltb read_timestamp k.ts)
        then some it
        else (storage.next it >>= λ it'. skip_newer fuel read_timestamp it'))

  -- `while self.inner.is_valid() && self.inner.key().key_ref() == ...`: the versions of a user key.
  unfoldable pub skip_versions : ℕ → Bytes → I → Option I
  skip_versions zero user_key it = none
  skip_versions (suc fuel) user_key it = if not (storage.is_valid it) then some it else (do
    k ← storage.key it
    if not (bytes_eq user_key k.bytes)
        then some it
        else (storage.next it >>= λ it'. skip_versions fuel user_key it'))

  -- The loop of `skip_tompstone`; each of its loops has the fuel that is left.
  unfoldable pub skip_tompstone : ℕ → ℕ → I → Option I
  unfolding skip_newer skip_versions
  skip_tompstone zero read_timestamp it = none
  skip_tompstone (suc fuel) read_timestamp it = do
    visible ← skip_newer (suc fuel) read_timestamp it
    if not (storage.is_valid visible) then some visible else (do
      v ← storage.value visible
      if not (is_empty_bytes v) then some visible else (do
        tomb_key ← storage.key visible
        past ← skip_versions (suc fuel) tomb_key.bytes visible
        skip_tompstone fuel read_timestamp past))

  -- `prev_key` becomes the user key that the inner iterator stands on.
  abbrev pub remember : LsmIterator I → Option (LsmIterator I)
  remember it =
      if storage.is_valid it.inner
      then (storage.key it.inner >>= λ k. some (record it { prev_key = some k.bytes }))
      else some it

  unfoldable pub new : ℕ → I → Bound Bytes → ℕ → Option (LsmIterator I)
  unfolding skip_tompstone
  new fuel inner end_bound read_timestamp = do
    start ← skip_tompstone fuel read_timestamp inner
    remember (record {
      inner = start;
      end_bound = end_bound;
      read_timestamp = read_timestamp;
      prev_key = none;
    })

  unfoldable pub in_range : LsmIterator I → Option Bool
  in_range it = go it.end_bound
    where
      go : Bound Bytes → Option Bool
      go (included bound) = storage.key it.inner >>= λ k. some (is_le (bytes_cmp k.bytes bound))
      go (excluded bound) = storage.key it.inner >>= λ k. some (is_lt (bytes_cmp k.bytes bound))
      go unbounded = some true

  unfoldable pub is_valid : LsmIterator I → Option Bool
  unfolding in_range
  is_valid it = if storage.is_valid it.inner then in_range it else some false

  unfoldable pub key : LsmIterator I → Option Bytes
  key it = storage.key it.inner >>= λ k. some k.bytes

  unfoldable pub value : LsmIterator I → Option Bytes
  value it = storage.value it.inner

  -- The versions of `prev_key`; without a `prev_key` the loop ends at once.
  abbrev pub skip_prev : ℕ → Option Bytes → I → Option I
  skip_prev fuel none it = some it
  skip_prev fuel (some user_key) it = skip_versions fuel user_key it

  unfoldable pub next : ℕ → LsmIterator I → Option (LsmIterator I)
  unfolding skip_tompstone
  next fuel it = do
    past ← skip_prev fuel it.prev_key it.inner
    start ← skip_tompstone fuel it.read_timestamp past
    remember (record it { inner = start })

  unfoldable pub num_active_iterators : LsmIterator I → ℕ
  num_active_iterators it = storage.num_active_iterators it.inner
