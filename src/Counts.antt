-- ===== src/Counts.antt =====
-- python/covsight/core/ncdb/counts.py: the packed array of hit counts, `counts.bin`.
-- A count is a number that is not negative. The byte order and the item size of `array("I")` are
-- those of the format: four bytes, little-endian.
pub mod RoundTrip
use covsight_core.Prelude.{
  ℕ, zero, suc, ◌+◌, ◌*◌, ◌^◌, List, [], ◌∷◌, ◌++◌, map, Bool, ◌&&◌, ◌||◌, Result, ok, raise, ◌>>=◌,
  struct_error, value_error, ltb, ◌==◌, if◌then◌else◌, length, take, all, any,
}
use covsight_core.Prelude.Int.{pos}
use covsight_core.Varint.{Bytes, encode_varint, decode_varint, encode_varints, decode_varints}
use covsight_core.Pack.{pack_uint, unpack_uint}

-- COUNTS_MODE_UINT32, COUNTS_MODE_VARINT
abbrev pub mode_uint32 : ℕ
mode_uint32 = 0

abbrev pub mode_varint : ℕ
mode_varint = 1

-- `array.array("I", counts).tobytes()`
unfoldable pub pack_u32s : List ℕ → Result Bytes
pack_u32s [] = ok []
pack_u32s (c ∷ cs) = do bytes ← pack_uint 4 c; rest ← pack_u32s cs; ok (bytes ++ rest)

-- `struct.unpack_from(f"<{count}I", data, offset)`
unfoldable pub unpack_u32s : ℕ → Bytes → Result (List ℕ × Bytes)
unpack_u32s zero buf = ok ([], buf)
unpack_u32s (suc count) buf = do
  (c, rest) ← unpack_uint 4 buf
  (cs, rest') ← unpack_u32s count rest
  ok (c ∷ cs, rest')

-- Varint mode is forced by a count above 0xFFFFFFFF, and taken where it is the smaller one.
unfoldable pub use_varint : List ℕ → Bytes → Bool
use_varint counts varint_bytes =
    any (λ c. ltb 0xFFFFFFFF c) counts || ltb (length varint_bytes) (length counts * 4)

unfoldable pub serialize : List ℕ → Result Bytes
serialize counts = do
  varint_bytes ← encode_varints (map pos counts)
  n ← encode_varint (pos (length counts))
  if use_varint counts varint_bytes
      then ok (mode_varint ∷ n ++ varint_bytes)
      else (do fixed ← pack_u32s counts; ok (mode_uint32 ∷ n ++ fixed))

-- The fast path: as many one-byte values as were asked for.
unfoldable pub one_byte_each : ℕ → Bytes → Bool
one_byte_each count payload = length payload == count && all (λ b. ltb b 0x80) payload

unfoldable pub read_varints : ℕ → Bytes → Result (List ℕ)
read_varints count buf =
    let payload = take count buf in
    if one_byte_each count payload
    then ok payload
    else (do (values, _) ← decode_varints count buf; ok values)

unfoldable pub deserialize : Bytes → Result (List ℕ)
deserialize [] = ok []
deserialize (mode ∷ rest) = do
  (count, rest') ← decode_varint rest
  if mode == mode_varint
      then read_varints count rest'
      else (do (values, _) ← unpack_u32s count rest'; ok values)
