-- ===== src/MemberMerge.antt =====
-- python/covsight/core/ncdb/member_merge.py: the union of the flags of cover items over several sources,
-- on their serialized members. The merges of formal results, tags and attributes are not modelled.
pub mod Union
use covsight_core.Prelude.{
  ℕ, zero, suc, List, [], ◌∷◌, ◌++◌, Bool, not, Option, none, some, Result, ok, ◌>>=◌, ◌==◌, ltb,
  if◌then◌else◌, length, bit_or,
}
use covsight_core.Prelude.Int.{pos}
use covsight_core.Prelude.Keys.{nat_key}
use covsight_core.Prelude.Dict.{Dict, lookup, put}
use covsight_core.Varint.{Bytes, encode_varint, decode_varint}
use covsight_core.Deltas.{write_pairs, read_pairs}

-- _FLAGS_VERSION
abbrev pub flags_version : ℕ
flags_version = 1

unfoldable pub decode_flags : Bytes → Result (List (ℕ × ℕ))
decode_flags [] = ok []
decode_flags (b ∷ bytes) = do
  (version, buf) ← decode_varint (b ∷ bytes)
  if not (version == flags_version) then ok [] else (do
    (count, buf') ← decode_varint buf
    (entries, _) ← read_pairs count 0 buf'
    ok entries)

-- merged.get(index, 0)
abbrev pub flags_or_zero : Option ℕ → ℕ
flags_or_zero none = 0
flags_or_zero (some flags) = flags

unfoldable pub union_entries : List (ℕ × ℕ) → Dict ℕ ℕ → Dict ℕ ℕ
union_entries [] merged = merged
union_entries ((index, flags) ∷ entries) merged =
    union_entries entries (put index (bit_or (flags_or_zero (lookup index merged)) flags) merged)

unfoldable pub union_payloads : List Bytes → Dict ℕ ℕ → Result (Dict ℕ ℕ)
union_payloads [] merged = ok merged
union_payloads (payload ∷ payloads) merged = do
  entries ← decode_flags payload
  union_payloads payloads (union_entries entries merged)

-- `for index in sorted(merged)`, with the flags of each index.
unfoldable pub insert_entry : ℕ → ℕ → List (ℕ × ℕ) → List (ℕ × ℕ)
insert_entry k v [] = (k, v) ∷ []
insert_entry k v ((j, w) ∷ es) =
    let rest = insert_entry k v es in if ltb j k then (j, w) ∷ rest else (k, v) ∷ (j, w) ∷ es

unfoldable pub sorted_entries : Dict ℕ ℕ → List (ℕ × ℕ)
sorted_entries [] = []
sorted_entries ((k, v) ∷ d) = insert_entry k v (sorted_entries d)

unfoldable pub write_flags : Dict ℕ ℕ → Result Bytes
write_flags [] = ok []
write_flags (e ∷ merged) = do
  version ← encode_varint (pos flags_version)
  count ← encode_varint (pos (length (e ∷ merged)))
  pairs ← write_pairs 0 (sorted_entries (e ∷ merged))
  ok (version ++ (count ++ pairs))

unfoldable pub merge_coveritem_flags : List Bytes → Result Bytes
merge_coveritem_flags payloads = do merged ← union_payloads payloads []; write_flags merged
