-- ===== src/LsmIterator/Fused.antt =====
-- lsm_iterator.rs: `FusedIterator`, which stops at the first error.
use tiny_lsm.Common.{
  ℕ, zero, suc, ◌≡◌, refl, ap, ◌∙◌, Bool, true, false, not, ◌&&◌, arith, if◌then◌else◌,
}

pub record FusedIterator (I : Type 0) : Type 0 where
  pub iter : I
  pub has_errored : Bool

unfoldable pub new : {I : Type 0} → I → FusedIterator I
new iter = record { iter = iter; has_errored = false }

-- An iterator whose `next` gives the new state and whether it succeeded.
module _ {I : Type 0} (iter_is_valid : I → Bool) (iter_next : I → I × Bool) where
  unfoldable pub is_valid : FusedIterator I → Bool
  is_valid it = not it.has_errored && iter_is_valid it.iter

  unfoldable pub next : FusedIterator I → FusedIterator I × Bool
  next it = if it.has_errored then (it, false) else (
    record { iter = (iter_next it.iter).0; has_errored = not (iter_next it.iter).1 },
    (iter_next it.iter).1,
  )

  -- The calls of `next`, one after the other.
  unfoldable pub next_times : ℕ → FusedIterator I → FusedIterator I
  unfolding next
  next_times zero it = it
  next_times (suc n) it = next_times n (next it).0

  next-same : (it : FusedIterator I) → it.has_errored ≡ true → (next it).0 ≡ it
  unfolding next
  next-same it h = simp h

  next_times-errored : (n : ℕ) (it : FusedIterator I) → it.has_errored ≡ true → next_times n it ≡ it
  unfolding next_times next
  next_times-errored zero it h = refl
  next_times-errored (suc n) it h = ap (next_times n) (next-same it h) ∙ next_times-errored n it h

  has_errored-next : (it : FusedIterator I) → (next it).1 ≡ false → (next it).0.has_errored ≡ true
  unfolding next
  has_errored-next it h = ground arith

  errored :
      (it : FusedIterator I) → it.has_errored ≡ true → (is_valid it ≡ false) × ((next it).1 ≡ false)
  unfolding next is_valid
  errored it h = (rw h refl, rw h refl)

  -- After a call of `next` that failed, and any number of further calls, the iterator is invalid, the
  -- next call fails, and the inner iterator is the one that the failed call left: it is not called
  -- again.
  pub next-failed :
      (it : FusedIterator I) (n : ℕ)
      → (next it).1 ≡ false
      → (is_valid (next_times n (next it).0) ≡ false)
        × ((next (next_times n (next it).0)).1 ≡ false)
        × ((next_times n (next it).0).iter ≡ (next it).0.iter)
  next-failed it n h =
      let bad = has_errored-next it h in
      rw (next_times-errored n (next it).0 bad)
        ((errored (next it).0 bad).0, (errored (next it).0 bad).1, refl)
