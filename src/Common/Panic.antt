-- ===== src/Common/Panic.antt =====
-- A computation that may panic (an index out of range, an assertion, an underflow, a read past the
-- end of a buffer) returns an `Option`: `none` is the panic.
use Prim.Native.Nat.{ℕ, ◌+◌, ◌-◌, ◌≤◌}
use mathlib.Core.Path.{◌≡◌, refl, ap}
use mathlib.Core.Bool.{Bool, true, false, ◌&&◌}
use mathlib.Core.Option.{Option, none, some}
use mathlib.Core.List.{List, ◌++◌}
use native.Mathlib.Omega.{arith}
use tiny_lsm.Common.Tests.{leb, leb-eq-true, if◌then◌else◌}
use tiny_lsm.Common.Lists.{length, take, drop, length-append, take-append, drop-append}

infixl 5 ◌>>=◌ ◌>>◌
abbrev pub ◌>>=◌ {ℓ κ} : {A : Type ℓ} {B : Type κ} → Option A → (A → Option B) → Option B
none >>= f = none
some a >>= f = f a

abbrev pub ◌>>◌ {ℓ} : {B : Type ℓ} → Option (Unit {0}) → Option B → Option B
m >> k = m >>= λ _. k

-- `assert!`
abbrev pub guard : Bool → Option (Unit {0})
guard true = some tt
guard false = none

-- `a - b` on `usize`, which panics below 0.
abbrev pub checked_sub : ℕ → ℕ → Option ℕ
checked_sub a b = if leb b a then some (a - b) else none

-- `xs[lo..hi]`
abbrev pub slice {ℓ} : {A : Type ℓ} → List A → ℕ → ℕ → Option (List A)
slice xs lo hi =
    if leb lo hi && leb hi (length xs) then some (take (hi - lo) (drop lo xs)) else none

pub checked_sub-add : (a b : ℕ) → checked_sub (a + b) b ≡ some a
checked_sub-add a b = rw (leb-eq-true b (a + b) (omega arith)) (ap some (omega arith))

sub_zero : (a : ℕ) → a - 0 ≡ a
sub_zero a = omega arith

add_sub : (a b : ℕ) → a + b - a ≡ b
add_sub a b = omega arith

-- The middle of three parts.
pub slice-append {ℓ} :
    {A : Type ℓ} (xs pre mid post : List A) (lo hi : ℕ)
    → xs ≡ pre ++ (mid ++ post)
    → lo ≡ length pre
    → hi ≡ length pre + length mid
    → slice xs lo hi ≡ some mid
slice-append xs pre mid post lo hi e p q =
    rw (e, p, q)
      (rw (
        leb-eq-true (length pre) (length pre + length mid) (omega arith),
        leb-eq-true (length pre + length mid) (length (pre ++ (mid ++ post)))
            (omega (arith, length-append pre (mid ++ post), length-append mid post)),
        drop-append pre (mid ++ post),
        add_sub (length pre) (length mid),
        take-append mid post,
      ))

pub slice-prefix {ℓ} :
    {A : Type ℓ} (xs : List A) (n : ℕ) → n ≤ length xs → slice xs 0 n ≡ some (take n xs)
slice-prefix xs n h = rw (leb-eq-true 0 n (omega arith), leb-eq-true n (length xs) h, sub_zero n)

-- Inversion of a bind that did not panic.
pub >>=-eq-some {ℓ κ} :
    {A : Type ℓ} {B : Type κ} (m : Option A) (f : A → Option B) {b : B}
    → (m >>= f) ≡ some b
    → (a : A) × (m ≡ some a) × (f a ≡ some b)
>>=-eq-some none f h = cc
>>=-eq-some (some a) f h = (a, refl, h)
