-- ===== src/Varint/RoundTrip.antt =====
-- Reading back what the encoder wrote, whatever bytes follow, and what a successful read takes.
use native.Mathlib.Nat.{div-add-mod}
use native.Mathlib.Numerals.{towards_suc}
use covsight_core.Prelude.{
  ℕ, zero, suc, ◌+◌, ◌*◌, ◌/◌, ◌%◌, ◌^◌, ◌<◌, ◌≡◌, List, [], ◌∷◌, ◌++◌, ok, raise, value_error,
  arith, length, map, refl, ap, ◌∙◌, inl, inr, append_assoc,
}
use covsight_core.Prelude.Bits.{bit_or-shifted}
use covsight_core.Prelude.Int.{pos, negsuc}
use covsight_core.Varint.{
  Bytes, encode_nat, encode_varint, decode_loop, decode_varint, encode_varints, decode_varints,
}
use covsight_core.Varint.Encode.{
  low_bits, top_bit_clear, top_bit_set, encode_nat-small, encode_nat-large, small_or_large,
}

-- One round of `decode_loop` on a last byte, and on a byte with the continuation bit.
last_byte :
    (b result shift : ℕ) (rest : Bytes)
    → b < 128
    → result < 2 ^ shift
    → decode_loop (b ∷ rest) result shift ≡ ok (result + b * 2 ^ shift, rest)
unfolding decode_loop
last_byte b result shift rest hb hr =
    ground (arith, low_bits b, top_bit_clear b, bit_or-shifted shift result b)

more_bytes :
    (b result shift : ℕ) (rest : Bytes)
    → b < 128
    → result < 2 ^ shift
    → decode_loop ((b + 128) ∷ rest) result shift
      ≡ decode_loop rest (result + b * 2 ^ shift) (shift + 7)
unfolding decode_loop
more_bytes b result shift rest hb hr =
    ground (arith, low_bits (b + 128), top_bit_set b, bit_or-shifted shift result b)

seven_more : (s : ℕ) → 2 ^ (s + 7) ≡ 128 * 2 ^ s
seven_more s = simp towards_suc (omega arith)

-- The low group of `v` and the rest, both at bit `s`.
groups : (v s : ℕ) → v % 128 * 2 ^ s + v / 128 * 2 ^ (s + 7) ≡ v * 2 ^ s
groups v s = omega (
  arith,
  ap (λ (t : ℕ). t * 2 ^ s) (div-add-mod v 128),
  ap (λ (t : ℕ). v / 128 * t) (seven_more s),
)

group_fits : (g r s : ℕ) → g < 128 → r < 2 ^ s → r + g * 2 ^ s < 2 ^ (s + 7)
group_fits g r s hg hr = grind (arith, seven_more)

-- `v` is what is still to be read, counted from bit `shift` on; `f` bounds the rounds.
decode_loop-encode :
    (f v result shift : ℕ) (rest : Bytes)
    → v < f
    → result < 2 ^ shift
    → decode_loop (encode_nat v ++ rest) result shift ≡ ok (result + v * 2 ^ shift, rest)
decode_loop-encode zero v result shift rest hv hr = absurd (omega arith)
decode_loop-encode (suc f) v result shift rest hv hr = elim (small_or_large v) [
  | inl h ↦ rw (encode_nat-small v h) (last_byte v result shift rest h hr)
  | inr h ↦ rw (encode_nat-large v h) (
      more_bytes (v % 128) result shift (encode_nat (v / 128) ++ rest) (omega arith) hr
      ∙ decode_loop-encode f (v / 128) (result + v % 128 * 2 ^ shift) (shift + 7) rest (omega arith)
          (group_fits (v % 128) result shift (omega arith) hr)
      ∙ ap (λ (t : ℕ). ok (t, rest)) (omega (arith, groups v shift)))
]

pub decode-encode_nat : (v : ℕ) (rest : Bytes) → decode_varint (encode_nat v ++ rest) ≡ ok (v, rest)
unfolding decode_varint
decode-encode_nat v rest =
    decode_loop-encode (suc v) v 0 0 rest (omega arith) (omega arith)
    ∙ ap (λ (t : ℕ). ok (t, rest)) (omega arith)

-- Every number is written, and reading its bytes returns the number and leaves what follows; every
-- negative integer is refused.
pub decode_varint-encode_varint :
    (n : ℕ) (rest : Bytes)
    → ((bytes : Bytes) × (encode_varint (pos n) ≡ ok bytes)
        × (decode_varint (bytes ++ rest) ≡ ok (n, rest)))
      × (encode_varint (negsuc n) ≡ raise value_error)
unfolding encode_varint
decode_varint-encode_varint n rest = ((encode_nat n, refl, decode-encode_nat n rest), refl)

-- All the encodings in a row, as a plain function.
unfoldable pub encodings : List ℕ → Bytes
encodings [] = []
encodings (v ∷ vs) = encode_nat v ++ encodings vs

pub encode_varints-encodings : (vs : List ℕ) → encode_varints (map pos vs) ≡ ok (encodings vs)
unfolding encode_varints encode_varint encodings
encode_varints-encodings [] = refl
encode_varints-encodings (v ∷ vs) = rw (encode_varints-encodings vs)

-- Reading back as many integers as were written returns exactly those, and leaves what follows.
pub decode_varints-encodings :
    (vs : List ℕ) (rest : Bytes) → decode_varints (length vs) (encodings vs ++ rest) ≡ ok (vs, rest)
unfolding decode_varints encodings
decode_varints-encodings [] rest = refl
decode_varints-encodings (v ∷ vs) rest = rw (
  append_assoc (encode_nat v) (encodings vs) rest,
  decode-encode_nat v (encodings vs ++ rest),
  decode_varints-encodings vs rest,
)

-- Any list of numbers is written, and reading as many integers back returns the list and leaves what
-- follows.
decode_varints-encode_varints :
    (vs : List ℕ) (rest : Bytes)
    → (bytes : Bytes) × (encode_varints (map pos vs) ≡ ok bytes)
      × (decode_varints (length vs) (bytes ++ rest) ≡ ok (vs, rest))
decode_varints-encode_varints vs rest =
    (encodings vs, encode_varints-encodings vs, decode_varints-encodings vs rest)
