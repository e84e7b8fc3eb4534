-- ===== src/Prelude/Keys.antt =====
-- Equality tests on the keys of dictionaries.
use mathlib.Core.Path.{◌≡◌, ap, ap₂}
use mathlib.Core.Logic.{◌↔◌}
use mathlib.Core.Bool.{Bool, true, ◌&&◌}
use native.Mathlib.Omega.{arith}
use Prim.Native.Nat.{ℕ}
use covsight_core.Prelude.Tests.{◌==◌, ==_iff}

pub record Key {ℓ} (A : Type ℓ) : Type ℓ where
  pub same : A → A → Bool
  pub same_iff : (a b : A) → (same a b ≡ true) ↔ (a ≡ b)

instance abbrev pub nat_key : Key ℕ
nat_key = record { same = ◌==◌; same_iff = ==_iff }

-- Tuples as keys.
module _ {ℓ κ} {A : Type ℓ} {B : Type κ} ⦃ka : Key A⦄ ⦃kb : Key B⦄ where
  abbrev same_pair : A × B → A × B → Bool
  same_pair (a, b) (c, d) = ka.same a c && kb.same b d

  pub same_pair_iff : (p q : A × B) → (same_pair p q ≡ true) ↔ (p ≡ q)
  same_pair_iff (a, b) (c, d) = (
    λ h. ap₂ (λ x y. (x, y)) (first h) (second h),
    λ h. ground (
      arith,
      ka.same_iff a c,
      kb.same_iff b d,
      ap (λ (p : A × B). p.0) h,
      ap (λ (p : A × B). p.1) h,
    ),
  )
    where
      first : (ka.same a c && kb.same b d) ≡ true → a ≡ c
      first h = ground (arith, ka.same_iff a c)

      second : (ka.same a c && kb.same b d) ≡ true → b ≡ d
      second h = ground (arith, kb.same_iff b d)

  instance abbrev pub pair_key : Key (A × B)
  pair_key = record { same = same_pair; same_iff = same_pair_iff }
