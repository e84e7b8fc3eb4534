-- ===== src/SquashLog/RoundTrip.antt =====
-- The squash log, written and read back.
use covsight_core.Prelude.{◌≡◌, [], ◌∷◌, map, ok, traverse, refl, length, length-map, All}
use covsight_core.Varint.{Bytes}
use covsight_core.Pack.RoundTrip.{Fits, pack_table-Fits, unpack-pack_table}
use covsight_core.SquashLog.{
  SquashLog, magic, version, header_layout, entry_layout, to_row, of_row, serialize, deserialize,
  check_header,
}

row_lengths : (log : SquashLog) → All (λ row. length row ≡ 7) (map to_row log)
row_lengths [] = tt
row_lengths (e ∷ log) = (refl, row_lengths log)

of_rows : (log : SquashLog) → traverse of_row (map to_row log) ≡ ok log
of_rows [] = refl
of_rows (e ∷ log) = rw (of_rows log)

read_back :
    (log : SquashLog) (bytes : Bytes) → serialize log ≡ ok bytes → deserialize bytes ≡ ok log
unfolding serialize deserialize check_header
read_back log bytes h =
    let (rest, u, v) =
      unpack-pack_table header_layout (magic ∷ version ∷ length log ∷ []) entry_layout
        (map to_row log) bytes refl (row_lengths log) h in
    rw (u, rw length-map at v) (of_rows log)

-- A log whose fields fit is written, and what was written is read back entry for entry, in the same
-- order.
pub deserialize-serialize_log :
    (log : SquashLog)
    → Fits header_layout (magic ∷ version ∷ length log ∷ [])
    → All (Fits entry_layout) (map to_row log)
    → (bytes : Bytes) × (serialize log ≡ ok bytes) × (deserialize bytes ≡ ok log)
deserialize-serialize_log log h k =
    let (bytes, p) =
      pack_table-Fits header_layout (magic ∷ version ∷ length log ∷ []) entry_layout
        (map to_row log) h k in
    let q : serialize log ≡ ok bytes = unfold serialize in p in (bytes, q, read_back log bytes q)
