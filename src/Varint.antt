-- ===== src/Varint.antt =====
-- python/covsight/core/ncdb/varint.py: unsigned LEB128 integers.
-- A buffer read at an offset is the list of the bytes from that offset on: `(value, new_offset)`
-- is a value and the bytes that are left, and an offset past the end is the empty list.
-- The bulk functions are those of the pure Python path.
pub mod Encode
pub mod RoundTrip
use covsight_core.Prelude.{
  ℕ, zero, suc, ◌+◌, ◌*◌, ◌/◌, ◌^◌, List, [], ◌∷◌, ◌++◌, Result, ok, raise, value_error, ◌>>=◌,
  bit_and, bit_or, ◌==◌, if◌then◌else◌,
}
use covsight_core.Prelude.Int.{ℤ, pos, negsuc}

abbrev pub Bytes : Type 0
Bytes = List ℕ

-- The rounds of the `while True` loop of `encode_varint`, with fuel.
unfoldable pub encode_loop : ℕ → ℕ → Bytes
encode_loop zero value = []
encode_loop (suc fuel) value =
    let byte = bit_and value 0x7f in
    let value' = value / 2 ^ 7 in
    let rest = encode_loop fuel value' in if value' == 0 then byte ∷ [] else bit_or byte 0x80 ∷ rest

-- A round divides the value by 128, so `value + 1` rounds are more than enough.
unfoldable pub encode_nat : ℕ → Bytes
encode_nat value = encode_loop (suc value) value

unfoldable pub encode_varint : ℤ → Result Bytes
encode_varint (pos value) = ok (encode_nat value)
encode_varint (negsuc n) = raise value_error

unfoldable pub decode_loop : Bytes → ℕ → ℕ → Result (ℕ × Bytes)
decode_loop [] result shift = raise value_error
decode_loop (byte ∷ rest) result shift =
    let result' = bit_or result (bit_and byte 0x7f * 2 ^ shift) in
    let more = decode_loop rest result' (shift + 7) in
    if bit_and byte 0x80 == 0 then ok (result', rest) else more

unfoldable pub decode_varint : Bytes → Result (ℕ × Bytes)
decode_varint buf = decode_loop buf 0 0

unfoldable pub encode_varints : List ℤ → Result Bytes
encode_varints [] = ok []
encode_varints (v ∷ vs) = do bytes ← encode_varint v; rest ← encode_varints vs; ok (bytes ++ rest)

-- `count` values, one after the other.
unfoldable pub decode_varints : ℕ → Bytes → Result (List ℕ × Bytes)
decode_varints zero buf = ok ([], buf)
decode_varints (suc count) buf = do
  (v, rest) ← decode_varint buf
  (vs, rest') ← decode_varints count rest
  ok (v ∷ vs, rest')
