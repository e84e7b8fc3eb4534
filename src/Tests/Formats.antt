-- ===== src/Tests/Formats.antt =====
-- The binary members at concrete inputs.
use covsight_core.Prelude.{
  ℕ, ◌^◌, ◌≤◌, ◌<◌, ◌≡◌, ◌↔◌, List, [], ◌∷◌, Option, none, some, ok, traverse, refl, length,
  get_elem?,
}
use covsight_core.Prelude.Dict.{Dict, lookup}
use covsight_core.Prelude.Keys.{nat_key}
use covsight_core.MemberMerge.{decode_flags, merge_coveritem_flags}
use covsight_core.MemberMerge.Union.{union_all, merge_coveritem_flags-union}
use covsight_core.Varint.{Bytes, decode_varint, decode_loop, encode_nat}
use covsight_core.Varint.Encode.{length-encode_nat}
use covsight_core.Deltas.{read_pairs}
use covsight_core.Deltas.RoundTrip.{Ascending}
use covsight_core.Counts
use covsight_core.Counts.RoundTrip.{deserialize-serialize_counts}
use covsight_core.CoveritemFlags
use covsight_core.CoveritemFlags.{CoverItem}
use covsight_core.CoveritemFlags.RoundTrip.{reset, deserialize-serialize_flags}
use covsight_core.MergeOps
use covsight_core.MergeOps.Table.{listed, deserialize-serialize_ops}
use covsight_core.MergeOps.Columns.{column, merge_counts-column}
use covsight_core.Prelude.{get_or}

length-encode_nat_example : (length (encode_nat 300) ≤ 2) ↔ (300 < 128 ^ 2)
length-encode_nat_example = length-encode_nat 1 300

deserialize-serialize_counts_example :
    (bytes : Bytes) × (Counts.serialize (0 ∷ 5000000000 ∷ 3 ∷ []) ≡ ok bytes)
    × (Counts.deserialize bytes ≡ ok (0 ∷ 5000000000 ∷ 3 ∷ []))
deserialize-serialize_counts_example = deserialize-serialize_counts (0 ∷ 5000000000 ∷ 3 ∷ [])

-- A bin that is a high-water mark, between two that are added up.
abbrev cover_types : List (Option ℕ)
cover_types = none ∷ some 0x400000 ∷ none ∷ []

deserialize-serialize_ops_example :
    (bytes : Bytes) × (ops : Dict ℕ ℕ) × (MergeOps.serialize cover_types ≡ ok bytes)
    × (MergeOps.deserialize bytes ≡ ok ops)
    × ((i : ℕ) (t : Option ℕ) → get_elem? cover_types i ≡ some t → lookup i ops ≡ listed t)
deserialize-serialize_ops_example = deserialize-serialize_ops cover_types

merge_counts-column_example :
    (length (MergeOps.merge_counts ((1 ∷ 2 ∷ []) ∷ (3 ∷ 4 ∷ []) ∷ []) ((1, 1) ∷ [])) ≡ 2)
    × ((i : ℕ)
        → get_or (MergeOps.merge_counts ((1 ∷ 2 ∷ []) ∷ (3 ∷ 4 ∷ []) ∷ []) ((1, 1) ∷ [])) i 0
          ≡ column ((1, 1) ∷ []) i ((1 ∷ 2 ∷ []) ∷ (3 ∷ 4 ∷ []) ∷ []))
merge_counts-column_example =
    merge_counts-column 2 (1 ∷ 2 ∷ []) ((3 ∷ 4 ∷ []) ∷ []) ((1, 1) ∷ []) (refl, (refl, tt))

-- A coverpoint bin that is excluded, between two bins with their default flags.
abbrev three_items : List CoverItem
three_items =
    record { cover_type = 0x200; cover_flags = 0x01 }
    ∷ record { cover_type = 0x1; cover_flags = 0x39 }
    ∷ record { cover_type = 0x1; cover_flags = 0x19 }
    ∷ []

deserialize-serialize_flags_example :
    (bytes : Bytes) × (CoveritemFlags.serialize three_items ≡ ok bytes)
    × (CoveritemFlags.deserialize bytes (reset three_items) ≡ ok three_items)
deserialize-serialize_flags_example = deserialize-serialize_flags three_items

-- Version 1, one entry: index 2 with flags 0x10, and two: index 2 with flags 1, index 5 with flags 3.
abbrev payloads : List Bytes
payloads = (1 ∷ 1 ∷ 2 ∷ 16 ∷ []) ∷ (1 ∷ 2 ∷ 2 ∷ 1 ∷ 3 ∷ 3 ∷ []) ∷ []

abbrev tables : List (List (ℕ × ℕ))
tables = ((2, 16) ∷ []) ∷ ((2, 1) ∷ (5, 3) ∷ []) ∷ []

payloads-tables : traverse decode_flags payloads ≡ ok tables
unfolding decode_flags decode_varint decode_loop read_pairs
payloads-tables = refl

merge_coveritem_flags-union_example :
    (bytes : Bytes) × (merged : List (ℕ × ℕ)) × (merge_coveritem_flags payloads ≡ ok bytes)
    × (decode_flags bytes ≡ ok merged)
    × Ascending 0 merged
    × ((j : ℕ) → lookup j merged ≡ union_all j none tables)
merge_coveritem_flags-union_example = merge_coveritem_flags-union payloads tables payloads-tables
