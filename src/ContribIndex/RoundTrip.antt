-- ===== src/ContribIndex/RoundTrip.antt =====
-- The contribution index, written and read back.
use covsight_core.Prelude.{◌≡◌, List, [], ◌∷◌, map, ok, traverse, refl, length, length-map, All}
use covsight_core.Varint.{Bytes}
use covsight_core.Pack.RoundTrip.{Fits, pack_table-Fits, unpack-pack_table}
use covsight_core.ContribIndex.{
  ContribIndex, ContribIndexEntry, magic, version, header_layout, entry_layout, to_row, of_row,
  serialize, deserialize, check_header,
}

row_lengths : (es : List ContribIndexEntry) → All (λ row. length row ≡ 4) (map to_row es)
row_lengths [] = tt
row_lengths (e ∷ es) = (refl, row_lengths es)

of_rows : (es : List ContribIndexEntry) → traverse of_row (map to_row es) ≡ ok es
of_rows [] = refl
of_rows (e ∷ es) = rw (of_rows es)

read_back :
    (ci : ContribIndex) (bytes : Bytes) → serialize ci ≡ ok bytes → deserialize bytes ≡ ok ci
unfolding serialize deserialize check_header
read_back ci bytes h =
    let (rest, u, v) =
      unpack-pack_table header_layout
        (magic ∷ version ∷ ci.merge_policy ∷ ci.squash_watermark ∷ length ci.entries ∷ [])
        entry_layout (map to_row ci.entries) bytes refl (row_lengths ci.entries) h in
    rw (u, rw length-map at v, of_rows ci.entries)

-- An index whose fields fit is written, and what was written is read back with its policy, its
-- watermark and its entries in order.
pub deserialize-serialize_contribs :
    (ci : ContribIndex)
    → Fits header_layout
        (magic ∷ version ∷ ci.merge_policy ∷ ci.squash_watermark ∷ length ci.entries ∷ [])
    → All (Fits entry_layout) (map to_row ci.entries)
    → (bytes : Bytes) × (serialize ci ≡ ok bytes) × (deserialize bytes ≡ ok ci)
deserialize-serialize_contribs ci h k =
    let (bytes, p) =
      pack_table-Fits header_layout
        (magic ∷ version ∷ ci.merge_policy ∷ ci.squash_watermark ∷ length ci.entries ∷ [])
        entry_layout (map to_row ci.entries) h k in
    let q : serialize ci ≡ ok bytes = unfold serialize in p in (bytes, q, read_back ci bytes q)
