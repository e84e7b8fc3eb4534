-- ===== src/Prelude/Bits.antt =====
-- `|` and `&` on numbers of any width, as arithmetic on disjoint fields and on low masks.
mod Step
pub use Step.{bit_or_step, bit_and_step, zero-bit_or, bit_or-zero, bit_and-zero}
use Prim.Native.Nat.{ℕ, zero, suc, ◌+◌, ◌-◌, ◌*◌, ◌/◌, ◌%◌, ◌^◌, ◌≤◌, ◌<◌, bit_and, bit_or}
use mathlib.Core.Path.{◌≡◌, refl, ap}
use native.Mathlib.Omega.{arith}
use native.Mathlib.Nat.{pow-suc, one-le-pow}

shift_up : (q k : ℕ) → q * 2 ^ suc k ≡ 2 * (q * 2 ^ k)
shift_up q k = omega (arith, ap (λ (t : ℕ). q * t) (pow-suc 2 k))

-- `a | (q << k)` is a sum when `a` fits in `k` bits.
pub bit_or-shifted : (k a q : ℕ) → a < 2 ^ k → bit_or a (q * 2 ^ k) ≡ a + q * 2 ^ k
bit_or-shifted zero a q h = ground (arith, zero-bit_or q)
bit_or-shifted (suc k) a q h = ground (
  arith,
  bit_or_step a (q * 2 ^ suc k),
  shift_up q k,
  pow-suc 2 k,
  bit_or-shifted k (a / 2) q (omega (arith, pow-suc 2 k)),
)

masked : (k q r : ℕ) → r < 2 ^ k → bit_and (r + q * 2 ^ k) (2 ^ k - 1) ≡ r
masked zero q r h = omega (arith, bit_and-zero (r + q * 1))
masked (suc k) q r h = ground (
  arith,
  bit_and_step (r + q * 2 ^ suc k) (2 ^ suc k - 1),
  shift_up q k,
  pow-suc 2 k,
  one-le-pow k 2,
  masked k q (r / 2) (omega (arith, pow-suc 2 k)),
)

-- `a & (2 ^ k - 1)` is the remainder by `2 ^ k`.
pub bit_and-mask : (k a : ℕ) → bit_and a (2 ^ k - 1) ≡ a % 2 ^ k
bit_and-mask k a = ground (arith, one-le-pow k 2, masked k (a / 2 ^ k) (a % 2 ^ k))

-- `&` with a mask whose `k` low bits are clear reads the high part alone.
pub bit_and-high :
    (k q r m : ℕ) → r < 2 ^ k → bit_and (r + q * 2 ^ k) (m * 2 ^ k) ≡ bit_and q m * 2 ^ k
bit_and-high zero q r m h = ground arith
bit_and-high (suc k) q r m h = ground (
  arith,
  bit_and_step (r + q * 2 ^ suc k) (m * 2 ^ suc k),
  shift_up q k,
  shift_up m k,
  shift_up (bit_and q m) k,
  pow-suc 2 k,
  bit_and-high k q (r / 2) m (omega (arith, pow-suc 2 k)),
)
