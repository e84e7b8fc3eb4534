-- ===== src/MergeOps.antt =====
-- python/covsight/core/ncdb/merge_ops.py: the bins whose counts do not add up across runs, and the
-- merge of count arrays. The walk over the database is the list of the cover types of its bins in
-- depth-first order; `none` is a bin whose type could not be read.
pub mod Table
pub mod Columns
use covsight_core.Prelude.{
  ℕ, zero, suc, ◌+◌, max, List, [], ◌∷◌, ◌++◌, Bool, ◌&&◌, Option, none, some, Result, ok, ◌>>=◌,
  ltb, ◌==◌, if◌then◌else◌, length, get_or, set, not,
}
use covsight_core.Prelude.Int.{pos}
use covsight_core.Prelude.Keys.{nat_key}
use covsight_core.Prelude.Dict.{Dict, put}
use covsight_core.Varint.{Bytes, encode_varint, decode_varint}
use covsight_core.Deltas.{write_pairs, read_pairs}

abbrev pub version : ℕ
version = 1

abbrev pub op_sum : ℕ
op_sum = 0

abbrev pub op_max : ℕ
op_max = 1

-- CoverTypeT.PEAKACTIVEBIN, the one entry of `_NON_ADDITIVE`
abbrev pub peak_active_bin : ℕ
peak_active_bin = 0x400000

unfoldable pub op_for_cover_type : Option ℕ → ℕ
op_for_cover_type none = op_sum
op_for_cover_type (some t) = if t == peak_active_bin then op_max else op_sum

-- The entries of the table, from the bin with the given index on.
unfoldable pub entries_from : ℕ → List (Option ℕ) → List (ℕ × ℕ)
entries_from index [] = []
entries_from index (t ∷ types) =
    let op = op_for_cover_type t in
    let rest = entries_from (suc index) types in if op == op_sum then rest else (index, op) ∷ rest

unfoldable pub write_table : List (ℕ × ℕ) → Result Bytes
write_table [] = ok []
write_table (e ∷ entries) = do
  v ← encode_varint (pos version)
  n ← encode_varint (pos (length (e ∷ entries)))
  pairs ← write_pairs 0 (e ∷ entries)
  ok (v ++ (n ++ pairs))

unfoldable pub serialize : List (Option ℕ) → Result Bytes
serialize types = write_table (entries_from 0 types)

-- `out[previous] = op` for each entry read
unfoldable pub to_dict : Dict ℕ ℕ → List (ℕ × ℕ) → Dict ℕ ℕ
to_dict out [] = out
to_dict out ((index, op) ∷ entries) = to_dict (put index op out) entries

unfoldable pub deserialize : Bytes → Result (Dict ℕ ℕ)
deserialize [] = ok []
deserialize (b ∷ bytes) = do
  (v, buf) ← decode_varint (b ∷ bytes)
  if not (v == version) then ok [] else (do
    (count, buf') ← decode_varint buf
    (entries, _) ← read_pairs count 0 buf'
    ok (to_dict [] entries))

-- `map(sum, zip(*all_counts))`: as long as the shortest array.
unfoldable pub add_columns : List ℕ → List ℕ → List ℕ
add_columns (a ∷ as') (b ∷ bs) = (a + b) ∷ add_columns as' bs
add_columns _ _ = []

unfoldable pub sum_columns : List (List ℕ) → List ℕ
sum_columns [] = []
sum_columns (counts ∷ []) = counts
sum_columns (counts ∷ more ∷ rest) = add_columns counts (sum_columns (more ∷ rest))

-- `max(counts[bin_index] for counts in all_counts)`
unfoldable pub max_column : ℕ → List (List ℕ) → ℕ
max_column i [] = 0
max_column i (counts ∷ rest) = max (get_or counts i 0) (max_column i rest)

unfoldable pub apply_ops : List (List ℕ) → Dict ℕ ℕ → List ℕ → List ℕ
apply_ops all_counts [] merged = merged
apply_ops all_counts ((i, op) ∷ ops) merged = apply_ops all_counts ops (
    if op == op_max && ltb i (length merged)
    then set merged i (max_column i all_counts)
    else merged)

-- With no operations the second pass has nothing to do, so both branches of the source are this one.
unfoldable pub merge_counts : List (List ℕ) → Dict ℕ ℕ → List ℕ
merge_counts all_counts ops = apply_ops all_counts ops (sum_columns all_counts)
