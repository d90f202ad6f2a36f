-- ===== src/Base/Sums.antt =====
-- Sums over the numbers below a bound.
use Prim.Native.Nat.{ℕ, zero, suc, ◌+◌, ◌≤◌, ◌<◌}
use mathlib.Core.Path.{◌≡◌, refl, ap}
use mathlib.Core.Logic.{◌≢◌}
use native.Mathlib.Omega.{arith}
use native.Mathlib.Decide.{ℕ_discrete}

-- f 0 + ... + f (n - 1)
unfoldable pub sum : ℕ → (ℕ → ℕ) → ℕ
sum zero f = 0
sum (suc n) f = sum n f + f n

pub sum_ext : (n : ℕ) (f g : ℕ → ℕ) → ((j : ℕ) → j < n → f j ≡ g j) → sum n f ≡ sum n g
unfolding sum
sum_ext zero f g same = refl
sum_ext (suc n) f g same =
    omega (arith, same n (omega arith), sum_ext n f g (λ j h. same j (omega (arith, h))))

-- Two sums that differ in one place.
pub sum_change :
    (n : ℕ) (f g : ℕ → ℕ) (k : ℕ)
    → k < n
    → ((j : ℕ) → k ≢ j → f j ≡ g j)
    → sum n f + g k ≡ sum n g + f k
unfolding sum
sum_change zero f g k h same = absurd (omega (arith, h))
sum_change (suc n) f g k h same = elim (ℕ_discrete k n) [
  | yes e ↦
      (let rest = sum_ext n f g (λ j less. same j (λ e'. omega (arith, e, e', less))) in
        ground (arith, e, rest))
  | no other ↦ omega (arith, sum_change n f g k (omega (arith, h, other)) same, same n other)
]

pub sum_zero : (n : ℕ) (f : ℕ → ℕ) → ((j : ℕ) → j < n → f j ≡ 0) → sum n f ≡ 0
unfolding sum
sum_zero zero f all = refl
sum_zero (suc n) f all =
    omega (arith, all n (omega arith), sum_zero n f (λ j h. all j (omega (arith, h))))

-- One term is at most the sum.
pub sum_term : (n : ℕ) (f : ℕ → ℕ) (k : ℕ) → k < n → f k ≤ sum n f
unfolding sum
sum_term zero f k h = absurd (omega (arith, h))
sum_term (suc n) f k h = elim (ℕ_discrete k n) [
  | yes e ↦ omega (arith, ap f e)
  | no other ↦ omega (arith, sum_term n f k (omega (arith, h, other)))
]
