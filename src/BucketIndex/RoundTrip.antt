-- ===== src/BucketIndex/RoundTrip.antt =====
-- The bucket index, written and read back.
use covsight_core.Prelude.{◌≡◌, [], ◌∷◌, map, ok, traverse, refl, length, length-map, All}
use covsight_core.Varint.{Bytes}
use covsight_core.Pack.RoundTrip.{Fits, pack_table-Fits, unpack-pack_table}
use covsight_core.BucketIndex.{
  BucketIndex, magic, version, header_layout, entry_layout, to_row, of_row, serialize, deserialize,
  check_header,
}

row_lengths : (idx : BucketIndex) → All (λ row. length row ≡ 7) (map to_row idx)
row_lengths [] = tt
row_lengths (e ∷ idx) = (refl, row_lengths idx)

of_rows : (idx : BucketIndex) → traverse of_row (map to_row idx) ≡ ok idx
of_rows [] = refl
of_rows (e ∷ idx) = rw (of_rows idx)

read_back :
    (idx : BucketIndex) (bytes : Bytes) → serialize idx ≡ ok bytes → deserialize bytes ≡ ok idx
unfolding serialize deserialize check_header
read_back idx bytes h =
    let (rest, u, v) =
      unpack-pack_table header_layout (magic ∷ version ∷ length idx ∷ []) entry_layout
        (map to_row idx) bytes refl (row_lengths idx) h in
    rw (u, rw length-map at v) (of_rows idx)

-- An index whose fields fit is written, and what was written is read back entry for entry, in the
-- same order.
pub deserialize-serialize_buckets :
    (idx : BucketIndex)
    → Fits header_layout (magic ∷ version ∷ length idx ∷ [])
    → All (Fits entry_layout) (map to_row idx)
    → (bytes : Bytes) × (serialize idx ≡ ok bytes) × (deserialize bytes ≡ ok idx)
deserialize-serialize_buckets idx h k =
    let (bytes, p) =
      pack_table-Fits header_layout (magic ∷ version ∷ length idx ∷ []) entry_layout
        (map to_row idx) h k in
    let q : serialize idx ≡ ok bytes = unfold serialize in p in (bytes, q, read_back idx bytes q)
