-- ===== src/Prelude/Bits/Step.antt =====
-- `bit_or` and `bit_and` at variables, from the digit recursion that they stand for.
use Prim.Native.Nat.{
  ℕ, zero, suc, ◌+◌, ◌*◌, ◌/◌, ◌%◌, ◌≤◌, min, max, bit_and, bit_or, digits, bit_and-bitwise,
  bit_or-bitwise,
}
use mathlib.Core.Path.{◌≡◌, refl}
use native.Mathlib.Omega.{arith}

-- Fuel that covers the first number is as good as that number itself.
module _ (tail : ℕ → ℕ) (join : ℕ → ℕ → ℕ) where
  enough : (x y n k : ℕ) → x ≤ n → x ≤ k → digits tail join n x y ≡ digits tail join k x y
  enough zero y zero zero below within = refl
  enough zero y zero (suc k) below within = refl
  enough zero y (suc n) zero below within = refl
  enough zero y (suc n) (suc k) below within = refl
  enough (suc x) y zero k below within = absurd (omega arith)
  enough (suc x) y (suc n) zero below within = absurd (omega arith)
  enough (suc x) y (suc n) (suc k) below within =
      let half = enough (suc x / 2) (y / 2) n k (omega arith) (omega arith) in omega (arith, half)

pub zero-bit_or : (y : ℕ) → bit_or 0 y ≡ y
zero-bit_or y = bit_or-bitwise zero y

pub bit_or_step : (x y : ℕ) → bit_or x y ≡ 2 * bit_or (x / 2) (y / 2) + max (x % 2) (y % 2)
bit_or_step zero y = omega (arith, zero-bit_or (y / 2), zero-bit_or y)
bit_or_step (suc x) y =
    let half = enough (λ t. t) max (suc x / 2) (y / 2) x (suc x / 2) (omega arith) (omega arith) in
    omega (arith, half, bit_or-bitwise (suc x / 2) (y / 2), bit_or-bitwise (suc x) y)

pub bit_and_step : (x y : ℕ) → bit_and x y ≡ 2 * bit_and (x / 2) (y / 2) + min (x % 2) (y % 2)
bit_and_step zero y = omega (arith, bit_and-bitwise zero (y / 2), bit_and-bitwise zero y)
bit_and_step (suc x) y =
    let half =
      enough (λ t. zero) min (suc x / 2) (y / 2) x (suc x / 2) (omega arith) (omega arith) in
    omega (arith, half, bit_and-bitwise (suc x / 2) (y / 2), bit_and-bitwise (suc x) y)

-- With nothing on the right, by a bound on the left.
pub bit_and-zero : (x : ℕ) → bit_and x 0 ≡ 0
bit_and-zero x = within x x (omega arith)
  where
    within : (bound x : ℕ) → x ≤ bound → bit_and x 0 ≡ 0
    within bound zero h = refl
    within zero (suc x) h = absurd (omega arith)
    within (suc bound) (suc x) h =
        let half = within bound (suc x / 2) (omega arith) in
        omega (arith, half, bit_and_step (suc x) 0)

pub bit_or-zero : (x : ℕ) → bit_or x 0 ≡ x
bit_or-zero x = within x x (omega arith)
  where
    within : (bound x : ℕ) → x ≤ bound → bit_or x 0 ≡ x
    within bound zero h = refl
    within zero (suc x) h = absurd (omega arith)
    within (suc bound) (suc x) h =
        let half = within bound (suc x / 2) (omega arith) in
        omega (arith, half, bit_or_step (suc x) 0)
