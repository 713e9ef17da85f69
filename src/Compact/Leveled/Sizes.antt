-- ===== src/Compact/Leveled/Sizes.antt =====
-- The target sizes of the levels: what the loop keeps, and the size of the bottom level.
use tiny_lsm.Common.{
  ℕ, zero, suc, ◌+◌, ◌*◌, ◌≤◌, ◌<◌, ◌≡◌, ◌≢◌, ◌⊎◌, inl, inr, refl, ◌∙◌, subst, Bool, true, false,
  some, some-injective, List, length, get_elem?, replicate, arith, >>=-eq-some, ltb, if◌then◌else◌,
  checked_sub, max, length-set, get_elem?-set_ne, get_elem?-set_self, length-replicate,
}
use tiny_lsm.Storage.State.{set_checked}
use tiny_lsm.Compact.Leveled.{
  LeveledCompactionOptions, Targets, target_round, target_loop, target_sizes, checked_div,
}

resized-keeps :
    (test : Bool) (xs ys : List ℕ) (i v j w : ℕ)
    → (if test then set_checked xs i v else some xs) ≡ some ys
    → i ≢ j
    → get_elem? xs j ≡ some w
    → get_elem? ys j ≡ some w
resized-keeps test xs ys i v j w h ne at = ground (arith, get_elem?-set_ne xs i j v ne)

length-resized :
    (test : Bool) (xs ys : List ℕ) (i v : ℕ)
    → (if test then set_checked xs i v else some xs) ≡ some ys
    → length ys ≡ length xs
length-resized test xs ys i v h = ground (arith, length-set xs i v)

set_checked-get :
    (xs ys : List ℕ) (i v : ℕ)
    → set_checked xs i v ≡ some ys
    → (get_elem? ys i ≡ some v) × (length ys ≡ length xs)
set_checked-get xs ys i v h = ground (arith, length-set xs i v, get_elem?-set_self xs i v)

checked_sub_one : (n m : ℕ) → checked_sub n 1 ≡ some m → m + 1 ≡ n
checked_sub_one n m h = ground arith

-- A round changes only the size at its index, and the base level only to that of the index.
round_keeps :
    (o : LeveledCompactionOptions) (i : ℕ) (t t' : Targets)
    → target_round o i t ≡ some t'
    → ((j v : ℕ) → i < j → get_elem? t.sizes j ≡ some v → get_elem? t'.sizes j ≡ some v)
      × ((t'.base_level ≡ i + 1) ⊎ (t'.base_level ≡ t.base_level))
      × (length t'.sizes ≡ length t.sizes)
unfolding target_round
round_keeps o i t t' h =
    let (next, a, h1) = >>=-eq-some (get_elem? t.sizes (i + 1)) _ h in
    let (this, b, h2) = >>=-eq-some (checked_div next o.level_size_multiplier) _ h1 in
    let (sizes, c, h3) =
      >>=-eq-some
        (if ltb (o.base_level_size_mb * 1024 * 1024) next
          then set_checked t.sizes i this
          else some t.sizes)
        _ h2 in
    let (size, d, h4) = >>=-eq-some (get_elem? sizes i) _ h3 in
    let same = some-injective _ _ h4 in
    (
      λ j v lt at.
          subst (λ (r : Targets). get_elem? r.sizes j ≡ some v) same
            (resized-keeps (ltb (o.base_level_size_mb * 1024 * 1024) next) t.sizes sizes i this j v
              c (lt_ne i j lt) at),
      subst (λ (r : Targets). (r.base_level ≡ i + 1) ⊎ (r.base_level ≡ t.base_level)) same
          (base (ltb 0 size) (i + 1) t.base_level),
      subst (λ (r : Targets). length r.sizes ≡ length t.sizes) same
          (length-resized (ltb (o.base_level_size_mb * 1024 * 1024) next) t.sizes sizes i this c),
    )
  where
    base : (b : Bool) (m n : ℕ) → ((if b then m else n) ≡ m) ⊎ ((if b then m else n) ≡ n)
    base true m n = inl refl
    base false m n = inr refl

    lt_ne : (i j : ℕ) → i < j → i ≢ j
    lt_ne i j lt = omega arith

-- The loop keeps the bottom size, and a base level that is a level.
loop_keeps :
    (o : LeveledCompactionOptions) (n bottom v : ℕ) (t t' : Targets)
    → target_loop o n t ≡ some t'
    → n ≤ bottom
    → get_elem? t.sizes bottom ≡ some v
    → (1 ≤ t.base_level) × (t.base_level ≤ bottom + 1)
    → (get_elem? t'.sizes bottom ≡ some v)
      × (1 ≤ t'.base_level)
      × (t'.base_level ≤ bottom + 1)
      × (length t'.sizes ≡ length t.sizes)
unfolding target_loop
loop_keeps o zero bottom v t t' h le at range =
    subst
      (λ (r : Targets).
        (get_elem? r.sizes bottom ≡ some v)
        × (1 ≤ r.base_level)
        × (r.base_level ≤ bottom + 1)
        × (length r.sizes ≡ length t.sizes))
      (some-injective _ _ h) (at, range.0, range.1, refl)
loop_keeps o (suc i) bottom v t t' h le at range =
    let (t1, ran, rest) = >>=-eq-some (target_round o i t) _ h in
    let (keeps, base, len) = round_keeps o i t t1 ran in
    let (at', low, high, len') =
      loop_keeps o i bottom v t1 t' rest (omega arith) (keeps bottom v (omega arith) at)
        (omega arith) in
    (at', low, high, len' ∙ len)

-- The target of the bottom level is not below its real size, and the base level is a level.
pub target_sizes-bottom :
    (o : LeveledCompactionOptions) (real : List ℕ) (t : Targets)
    → target_sizes o real ≡ some t
    → (bottom r v : ℕ) × (bottom + 1 ≡ o.max_levels)
      × (get_elem? real bottom ≡ some r)
      × (get_elem? t.sizes bottom ≡ some v)
      × (r ≤ v)
      × (1 ≤ t.base_level)
      × (t.base_level ≤ o.max_levels)
      × (length t.sizes ≡ o.max_levels)
unfolding target_sizes
target_sizes-bottom o real t h =
    let (bottom, a, h1) = >>=-eq-some (checked_sub o.max_levels 1) _ h in
    let (r, b, h2) = >>=-eq-some (get_elem? real bottom) _ h1 in
    let size : ℕ = max r (o.base_level_size_mb * 1024 * 1024) in
    let (sizes, c, h3) = >>=-eq-some (set_checked (replicate o.max_levels 0) bottom size) _ h2 in
    let whole = checked_sub_one o.max_levels bottom a in
    let (at, len) = set_checked-get (replicate o.max_levels 0) sizes bottom size c in
    let (at', low, high, len') =
      loop_keeps o bottom bottom size (record { sizes = sizes; base_level = o.max_levels }) t h3
        (omega arith) at (omega arith) in
    (
      bottom,
      r,
      size,
      whole,
      b,
      at',
      omega arith,
      low,
      omega arith,
      len' ∙ len ∙ length-replicate o.max_levels 0,
    )
