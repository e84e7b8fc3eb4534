-- ===== src/Varint/Encode.antt =====
-- What `encode_varint` writes, one byte at a time.
use native.Mathlib.Nat.{add-zero, pow-suc, one-le-pow}
use covsight_core.Prelude.{
  ℕ, zero, suc, ◌+◌, ◌/◌, ◌%◌, ◌^◌, ◌≤◌, ◌<◌, ◌≡◌, [], ◌∷◌, bit_and, bit_or, arith, length, ◌⊎◌,
  inl, inr, ◌↔◌,
}
use covsight_core.Prelude.Bits.{bit_and-mask, bit_or-shifted, bit_and-high}
use covsight_core.Varint.{encode_loop, encode_nat}

pub low_bits : (b : ℕ) → bit_and b 0x7f ≡ b % 128
low_bits b = bit_and-mask 7 b

pub set_top_bit : (b : ℕ) → b < 128 → bit_or b 0x80 ≡ b + 128
set_top_bit b h = bit_or-shifted 7 b 1 h

pub top_bit_clear : (b : ℕ) → b < 128 → bit_and b 0x80 ≡ 0
top_bit_clear b h = rw add-zero at (bit_and-high 7 0 b 1 h)

pub top_bit_set : (b : ℕ) → b < 128 → bit_and (b + 128) 0x80 ≡ 128
top_bit_set b h = bit_and-high 7 1 b 1 h

-- More fuel than rounds changes nothing.
encode_loop_fuel : (f g v : ℕ) → v < f → v < g → encode_loop f v ≡ encode_loop g v
unfolding encode_loop
encode_loop_fuel zero g v p q = absurd (omega arith)
encode_loop_fuel (suc f) zero v p q = absurd (omega arith)
encode_loop_fuel (suc f) (suc g) v p q = ground (arith, encode_loop_fuel f g (v / 128))

pub encode_nat-small : (v : ℕ) → v < 128 → encode_nat v ≡ v ∷ []
unfolding encode_nat encode_loop
encode_nat-small v h = ground (arith, low_bits v)

pub encode_nat-large : (v : ℕ) → 128 ≤ v → encode_nat v ≡ (v % 128 + 128) ∷ encode_nat (v / 128)
unfolding encode_nat encode_loop
encode_nat-large v h =
    ground (arith, low_bits v, set_top_bit (v % 128), encode_loop_fuel v (suc (v / 128)) (v / 128))

-- A round of the loop either ends it or leaves a smaller value: a case analysis on `128 ≤ v`.
pub small_or_large : (v : ℕ) → (v < 128) ⊎ (128 ≤ v)
small_or_large v = grind arith

pub length-encode_nat-pos : (v : ℕ) → 1 ≤ length (encode_nat v)
length-encode_nat-pos v = elim (small_or_large v) [
  | inl h ↦ rw (encode_nat-small v h) (omega arith)
  | inr h ↦ rw (encode_nat-large v h) (omega arith)
]

-- The number of bytes is exactly the number of 7-bit groups.
pub length-encode_nat : (k v : ℕ) → (length (encode_nat v) ≤ suc k) ↔ (v < 128 ^ suc k)
length-encode_nat zero v = elim (small_or_large v) [
  | inl h ↦ rw (encode_nat-small v h) ((λ _. omega arith), λ _. omega arith)
  | inr h ↦
      rw (encode_nat-large v h)
        ((λ p. absurd (omega (arith, length-encode_nat-pos (v / 128)))), λ p. absurd (omega arith))
]
length-encode_nat (suc k) v = elim (small_or_large v) [
  | inl h ↦
      rw (encode_nat-small v h)
        ((λ _. omega (arith, one-le-pow (suc k) 128, pow-suc 128 (suc k))), λ _. omega arith)
  | inr h ↦
      let ih = length-encode_nat k (v / 128) in
      rw (encode_nat-large v h) (
        (λ p. omega (arith, ih.0 (omega arith), pow-suc 128 (suc k))),
        λ p. omega (arith, ih.1 (omega (arith, pow-suc 128 (suc k)))),
      )
]
