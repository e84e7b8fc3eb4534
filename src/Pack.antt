-- ===== src/Pack.antt =====
-- What the binary members use of Python's `struct`: unsigned little-endian fields of `w` bytes.
-- `unpack_from` at an offset reads the list of the bytes from that offset on.
pub mod RoundTrip
use covsight_core.Prelude.{
  ℕ, zero, suc, ◌/◌, ◌%◌, ◌*◌, ◌+◌, ◌^◌, ◌<◌, List, [], ◌∷◌, ◌++◌, Result, ok, raise, struct_error,
  ◌>>=◌, ltb, if◌then◌else◌,
}
use covsight_core.Varint.{Bytes}

-- The `w` low bytes of a number, lowest first: `n.to_bytes(w, "little")`.
unfoldable pub le_bytes : ℕ → ℕ → Bytes
le_bytes zero n = []
le_bytes (suc w) n = n % 256 ∷ le_bytes w (n / 256)

-- A value that does not fit the field is refused.
unfoldable pub pack_uint : ℕ → ℕ → Result Bytes
pack_uint w n = if ltb n (256 ^ w) then ok (le_bytes w n) else raise struct_error

unfoldable pub unpack_uint : ℕ → Bytes → Result (ℕ × Bytes)
unpack_uint zero buf = ok (0, buf)
unpack_uint (suc w) [] = raise struct_error
unpack_uint (suc w) (b ∷ rest) = do (n, rest') ← unpack_uint w rest; ok (b + 256 * n, rest')

-- A row of fields, given by their widths: `Struct.pack` and `Struct.unpack_from`.
unfoldable pub pack_fields : List ℕ → List ℕ → Result Bytes
pack_fields [] vs = ok []
pack_fields (w ∷ ws) [] = raise struct_error
pack_fields (w ∷ ws) (v ∷ vs) = do
  bytes ← pack_uint w v
  rest ← pack_fields ws vs
  ok (bytes ++ rest)

unfoldable pub unpack_fields : List ℕ → Bytes → Result (List ℕ × Bytes)
unpack_fields [] buf = ok ([], buf)
unpack_fields (w ∷ ws) buf = do
  (v, rest) ← unpack_uint w buf
  (vs, rest') ← unpack_fields ws rest
  ok (v ∷ vs, rest')

-- Rows of one layout, one after the other: what the loops over `_ENTRY` write and read.
unfoldable pub pack_rows : List ℕ → List (List ℕ) → Result Bytes
pack_rows ws [] = ok []
pack_rows ws (row ∷ rows) = do
  bytes ← pack_fields ws row
  rest ← pack_rows ws rows
  ok (bytes ++ rest)

unfoldable pub unpack_rows : List ℕ → ℕ → Bytes → Result (List (List ℕ) × Bytes)
unpack_rows ws zero buf = ok ([], buf)
unpack_rows ws (suc count) buf = do
  (row, rest) ← unpack_fields ws buf
  (rows, rest') ← unpack_rows ws count rest
  ok (row ∷ rows, rest')

-- A header and its rows: `header + rows`.
unfoldable pub pack_table : List ℕ → List ℕ → List ℕ → List (List ℕ) → Result Bytes
pack_table header_layout header row_layout rows = do
  bytes ← pack_fields header_layout header
  rest ← pack_rows row_layout rows
  ok (bytes ++ rest)
