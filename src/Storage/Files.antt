-- ===== src/Storage/Files.antt =====
-- The files of a tree when a level is replaced.
use tiny_lsm.Common.{
  ℕ, zero, suc, ◌+◌, ◌≡◌, refl, ap, false, not, some, some-injective, List, [], ◌∷◌, get_elem?, set,
  filter, contains, arith, ==_iff, if◌then◌else◌, count, count-append,
}
use tiny_lsm.Storage.State.{Level, level_files, NumberedFrom}

-- Replacing a level takes its files out and puts the new ones in.
pub count-set :
    (a i m n : ℕ) (levels : List Level) (old new : List ℕ)
    → get_elem? levels i ≡ some (m, old)
    → count a (level_files (set levels i (n, new))) + count a old
      ≡ count a (level_files levels) + count a new
count-set a i m n [] old new h = cc
count-set a zero m n ((k, ids) ∷ levels) old new h =
    let same : ids ≡ old = ap (λ (l : Level). l.1) (some-injective _ _ h) in
    rw same (
      omega
        (arith, count-append a old (level_files levels), count-append a new (level_files levels)))
count-set a (suc i) m n ((k, ids) ∷ levels) old new h = omega (
  arith,
  count-set a i m n levels old new h,
  count-append a ids (level_files levels),
  count-append a ids (level_files (set levels i (n, new))),
)

pub NumberedFrom-set :
    (n i : ℕ) (levels : List Level) (new : List ℕ)
    → NumberedFrom n levels
    → NumberedFrom n (set levels i (n + i, new))
NumberedFrom-set n i [] new w = tt
NumberedFrom-set n zero ((k, ids) ∷ levels) new w = (omega arith, w.1)
NumberedFrom-set n (suc i) ((k, ids) ∷ levels) new w =
    (w.0, rw (shift n i) (NumberedFrom-set (n + 1) i levels new w.1))
  where
    shift : (n i : ℕ) → n + suc i ≡ n + 1 + i
    shift n i = omega arith

-- What `retain` leaves of a list, where the ids of the task go.
pub count-retain :
    (a : ℕ) (ids xs : List ℕ)
    → count a (filter (λ id. not (contains ids id)) xs) ≡ (if contains ids a then 0 else count a xs)
count-retain a ids [] = ground arith
count-retain a ids (x ∷ xs) = ground (arith, count-retain a ids xs, ==_iff x a)

pub count-contains : (a : ℕ) (ids : List ℕ) → contains ids a ≡ false → count a ids ≡ 0
count-contains a [] h = refl
count-contains a (x ∷ ids) h = ground (arith, count-contains a ids)
