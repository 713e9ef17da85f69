-- ===== src/Key/Order.antt =====
-- The order of keys is a total order, and `==` agrees with it.
use tiny_lsm.Common.{ℕ, ◌<◌, ◌≡◌, refl, ◌↔◌, true, [], ◌∷◌, Bytes, Ordering, arith}
use tiny_lsm.Key.{Key, bytes_cmp, bytes_eq, cmp, eq, reverse}

pub bytes_cmp_refl : (a : Bytes) → bytes_cmp a a ≡ Ordering.eq
unfolding bytes_cmp
bytes_cmp_refl [] = refl
bytes_cmp_refl (x ∷ a) = ground (arith, bytes_cmp_refl a)

pub bytes_cmp-reverse : (a b : Bytes) → bytes_cmp b a ≡ reverse (bytes_cmp a b)
unfolding bytes_cmp
bytes_cmp-reverse [] [] = refl
bytes_cmp-reverse [] (y ∷ b) = refl
bytes_cmp-reverse (x ∷ a) [] = refl
bytes_cmp-reverse (x ∷ a) (y ∷ b) = ground (arith, bytes_cmp-reverse a b)

pub eq_of_bytes_cmp : (a b : Bytes) → bytes_cmp a b ≡ Ordering.eq → a ≡ b
unfolding bytes_cmp
eq_of_bytes_cmp [] [] h = refl
eq_of_bytes_cmp [] (y ∷ b) h = ground arith
eq_of_bytes_cmp (x ∷ a) [] h = ground arith
eq_of_bytes_cmp (x ∷ a) (y ∷ b) h = ground (arith, eq_of_bytes_cmp a b)

pub bytes_cmp_trans :
    (a b c : Bytes)
    → bytes_cmp a b ≡ Ordering.lt
    → bytes_cmp b c ≡ Ordering.lt
    → bytes_cmp a c ≡ Ordering.lt
unfolding bytes_cmp
bytes_cmp_trans [] [] c h k = ground arith
bytes_cmp_trans [] (y ∷ b) [] h k = ground arith
bytes_cmp_trans [] (y ∷ b) (z ∷ c) h k = refl
bytes_cmp_trans (x ∷ a) [] c h k = ground arith
bytes_cmp_trans (x ∷ a) (y ∷ b) [] h k = ground arith
bytes_cmp_trans (x ∷ a) (y ∷ b) (z ∷ c) h k = ground (arith, bytes_cmp_trans a b c)

pub bytes_eq_iff : (a b : Bytes) → (bytes_eq a b ≡ true) ↔ (a ≡ b)
unfolding bytes_eq
bytes_eq_iff [] [] = (λ h. refl, λ h. refl)
bytes_eq_iff [] (y ∷ b) = (λ h. ground arith, λ h. ground arith)
bytes_eq_iff (x ∷ a) [] = (λ h. ground arith, λ h. ground arith)
bytes_eq_iff (x ∷ a) (y ∷ b) =
    (λ h. ground (arith, (bytes_eq_iff a b).0), λ h. ground (arith, (bytes_eq_iff a b).1))

pub cmp_refl : (a : Key) → cmp a a ≡ Ordering.eq
unfolding cmp
cmp_refl a = ground (arith, bytes_cmp_refl a.bytes)

-- Swapping the two keys reverses the answer.
pub cmp-reverse : (a b : Key) → cmp b a ≡ reverse (cmp a b)
unfolding cmp
cmp-reverse a b = ground (arith, bytes_cmp-reverse a.bytes b.bytes)

pub eq_of_cmp : (a b : Key) → cmp a b ≡ Ordering.eq → a ≡ b
unfolding cmp
eq_of_cmp a b h = ground (arith, eq_of_bytes_cmp a.bytes b.bytes)

pub cmp_trans :
    (a b c : Key) → cmp a b ≡ Ordering.lt → cmp b c ≡ Ordering.lt → cmp a c ≡ Ordering.lt
unfolding cmp
cmp_trans a b c h k = ground (
  arith,
  bytes_cmp_trans a.bytes b.bytes c.bytes,
  eq_of_bytes_cmp a.bytes b.bytes,
  eq_of_bytes_cmp b.bytes c.bytes,
)

pub eq_iff : (a b : Key) → (eq a b ≡ true) ↔ (a ≡ b)
unfolding eq
eq_iff a b = (
  λ h. ground (arith, (bytes_eq_iff a.bytes b.bytes).0),
  λ h. ground (arith, (bytes_eq_iff a.bytes b.bytes).1),
)

-- Of two versions of one user key the one with the larger timestamp comes first.
pub cmp-newest_first :
    (bytes : Bytes) (s t : ℕ)
    → (cmp (record { bytes = bytes; ts = s }) (record { bytes = bytes; ts = t }) ≡ Ordering.lt)
      ↔ (t < s)
unfolding cmp
cmp-newest_first bytes s t =
    (λ h. ground (arith, bytes_cmp_refl bytes), λ h. ground (arith, bytes_cmp_refl bytes))
