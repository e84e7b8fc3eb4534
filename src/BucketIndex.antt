-- ===== src/BucketIndex.antt =====
-- python/covsight/core/ncdb/bucket_index.py: the index from bucket sequence numbers to date ranges.
-- The pass rates are floating-point quotients and are not modelled.
pub mod Order
pub mod RoundTrip
use covsight_core.Prelude.{
  ℕ, ◌+◌, List, [], ◌∷◌, ◌++◌, map, Bool, true, false, not, ◌&&◌, ◌||◌, Option, none, some, Result,
  ok, raise, value_error, struct_error, ◌>>=◌, ◌>>◌, guard, traverse, ◌==◌, ltb, leb, if◌then◌else◌,
  length,
}
use covsight_core.Varint.{Bytes}
use covsight_core.Pack.{pack_table, unpack_fields, unpack_rows}

pub record BucketIndexEntry : Type 0 where
  pub bucket_seq : ℕ
  pub ts_start : ℕ
  pub ts_end : ℕ
  pub num_records : ℕ
  pub fail_count : ℕ
  pub min_name_id : ℕ
  pub max_name_id : ℕ

abbrev pub BucketIndex : Type 0
BucketIndex = List BucketIndexEntry

-- The loop of `add_bucket` replaces an entry in place, inserts before the first later one, or falls
-- through to the append.
unfoldable pub add_bucket : BucketIndexEntry → BucketIndex → BucketIndex
add_bucket entry [] = entry ∷ []
add_bucket entry (e ∷ entries) =
    let rest = add_bucket entry entries in
    if e.bucket_seq == entry.bucket_seq
    then entry ∷ entries
    else if ltb entry.bucket_seq e.bucket_seq
    then entry ∷ e ∷ entries
    else e ∷ rest

unfoldable pub buckets_in_range : ℕ → ℕ → BucketIndex → BucketIndex
buckets_in_range ts_from ts_to [] = []
buckets_in_range ts_from ts_to (e ∷ entries) =
    let rest = buckets_in_range ts_from ts_to entries in
    if leb ts_from e.ts_end && leb e.ts_start ts_to then e ∷ rest else rest

-- The three `continue`s of `buckets_for_name`.
unfoldable pub skips : ℕ → Option ℕ → Option ℕ → BucketIndexEntry → Bool
skips name_id ts_from ts_to e =
    (ltb name_id e.min_name_id || ltb e.max_name_id name_id)
    || (elim ts_from [ none ↦ false | some t ↦ ltb e.ts_end t ])
    || (elim ts_to [ none ↦ false | some t ↦ ltb t e.ts_start ])

unfoldable pub buckets_for_name : ℕ → Option ℕ → Option ℕ → BucketIndex → BucketIndex
buckets_for_name name_id ts_from ts_to [] = []
buckets_for_name name_id ts_from ts_to (e ∷ entries) =
    let rest = buckets_for_name name_id ts_from ts_to entries in
    if skips name_id ts_from ts_to e then rest else e ∷ rest

unfoldable pub next_seq : BucketIndex → ℕ
next_seq [] = 0
next_seq (e ∷ []) = e.bucket_seq + 1
next_seq (e ∷ f ∷ entries) = next_seq (f ∷ entries)

abbrev pub magic : ℕ
magic = 0x42494458

abbrev pub version : ℕ
version = 1

-- "<IBI" and "<IIIIIII"
abbrev pub header_layout : List ℕ
header_layout = 4 ∷ 1 ∷ 4 ∷ []

abbrev pub entry_layout : List ℕ
entry_layout = 4 ∷ 4 ∷ 4 ∷ 4 ∷ 4 ∷ 4 ∷ 4 ∷ []

abbrev pub to_row : BucketIndexEntry → List ℕ
to_row e =
    e.bucket_seq ∷ e.ts_start ∷ e.ts_end ∷ e.num_records ∷ e.fail_count ∷ e.min_name_id
    ∷ e.max_name_id ∷ []

abbrev pub of_row : List ℕ → Result BucketIndexEntry
of_row (seq ∷ start ∷ end ∷ records ∷ fails ∷ low ∷ high ∷ []) = ok (record {
  bucket_seq = seq;
  ts_start = start;
  ts_end = end;
  num_records = records;
  fail_count = fails;
  min_name_id = low;
  max_name_id = high;
})
of_row _ = raise struct_error

unfoldable pub serialize : BucketIndex → Result Bytes
serialize idx =
    pack_table header_layout (magic ∷ version ∷ length idx ∷ []) entry_layout (map to_row idx)

unfoldable pub check_header : List ℕ → Result ℕ
check_header (m ∷ v ∷ n ∷ []) = do
  guard (m == magic) value_error
  guard (v == version) value_error
  ok n
check_header _ = raise struct_error

unfoldable pub deserialize : Bytes → Result BucketIndex
deserialize buf = do
  (header, rest) ← unpack_fields header_layout buf
  n ← check_header header
  (rows, _) ← unpack_rows entry_layout n rest
  traverse of_row rows
