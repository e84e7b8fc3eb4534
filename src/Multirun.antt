-- ===== src/Multirun.antt =====
-- python/covsight/core/ncdb/multirun.py: one schema, many count arrays.
-- An archive is the dictionary of its members' bytes; their order in the ZIP file, the temporary
-- file and the final move are not modelled. Run ids and member names are texts of code points.
-- `json.dumps` and `json.loads` are the parameter `RunsJson`. Of the extra fields of a run the table
-- keeps those that the code reads, `status` and `rerun`, and the count of its hit bins.
pub mod Table
pub mod Resolve
pub mod Names
use covsight_core.Prelude.{
  ℕ, zero, suc, ◌+◌, ◌-◌, max, List, [], ◌∷◌, ◌++◌, map, Bool, true, false, not, ◌&&◌, ◌||◌, Option,
  none, some, ◌≡◌, Result, ok, raise, value_error, key_error, run_table_error, file_exists_error,
  ◌>>=◌, ◌>>◌, guard, or_raise, ◌==◌, if◌then◌else◌, length, all, any, replicate,
}
use covsight_core.Prelude.Keys.{nat_key}
use covsight_core.Prelude.Text.{
  Text, codes, text_same, text_key, zero_padded, read_digits, strip_prefix, starts_with_digit,
}
use covsight_core.Prelude.Dict.{Dict, lookup, put, pop, update}
use covsight_core.Varint.{Bytes}
use covsight_core.Counts
use covsight_core.MergeOps
use covsight_core.MergeOps.{merge_counts}

abbrev pub Archive : Type 0
Archive = Dict Text Bytes

-- Member names, and BASELINE_RUN_ID.
abbrev pub member_runs : Text
member_runs = codes "runs.json"

abbrev pub member_counts : Text
member_counts = codes "counts.bin"

abbrev pub member_merge_ops : Text
member_merge_ops = codes "merge_ops.bin"

abbrev pub baseline_run_id : Text
baseline_run_id = codes "squashed"

abbrev pub run_prefix : Text
run_prefix = codes "counts/run-"

abbrev pub run_suffix : Text
run_suffix = codes ".bin"

unfoldable pub run_member_name : ℕ → Text
run_member_name index = run_prefix ++ (zero_padded 5 index ++ run_suffix)

-- `_MEMBER_RE.match`: the prefix, at least one digit, the suffix, and a final newline, if any.
unfoldable pub match_suffix : ℕ × Text → Option ℕ
match_suffix (index, rest) =
    if text_same rest run_suffix || text_same rest (run_suffix ++ 10 ∷ []) then some index else none

unfoldable pub match_digits : Option Text → Option ℕ
unfolding match_suffix
match_digits none = none
match_digits (some t) = if starts_with_digit t then match_suffix (read_digits 0 t) else none

unfoldable pub match_member : Text → Option ℕ
unfolding match_digits
match_member name = match_digits (strip_prefix run_prefix name)

pub record RunEntry : Type 0 where
  pub run_id : Text
  pub member : Text
  pub status : Option Text
  pub rerun : Bool
  pub nonzero : ℕ

abbrev pub RunTable : Type 0
RunTable = List RunEntry

-- RunTable.run_ids, get, __contains__, upsert, remove
unfoldable pub run_ids : RunTable → List Text
run_ids t = map (λ e. e.run_id) t

unfoldable pub get : RunTable → Text → Option RunEntry
get [] run_id = none
get (e ∷ t) run_id = let rest = get t run_id in if text_same e.run_id run_id then some e else rest

abbrev pub is_some {ℓ} : {A : Type ℓ} → Option A → Bool
is_some none = false
is_some (some a) = true

unfoldable pub contains : RunTable → Text → Bool
contains t run_id = is_some (get t run_id)

unfoldable pub upsert : RunEntry → RunTable → RunTable
upsert entry [] = entry ∷ []
upsert entry (e ∷ t) =
    let rest = upsert entry t in if text_same e.run_id entry.run_id then entry ∷ t else e ∷ rest

unfoldable pub remove : Text → RunTable → RunTable
remove run_id [] = []
remove run_id (e ∷ t) =
    let rest = remove run_id t in if text_same e.run_id run_id then t else e ∷ rest

-- The indices of the run members that the table names, with those already claimed.
unfoldable pub used_indices : List ℕ → RunTable → List ℕ
used_indices taken [] = taken
used_indices taken (e ∷ t) =
    let used = used_indices taken t in
    elim (match_member e.member) [ none ↦ used | some index ↦ index ∷ used ]

abbrev pub mem : ℕ → List ℕ → Bool
mem n xs = any (λ x. x == n) xs

-- `while index in used: index += 1`, with fuel.
unfoldable pub first_free : ℕ → ℕ → List ℕ → ℕ
first_free zero index used = index
first_free (suc fuel) index used =
    let later = first_free fuel (index + 1) used in if mem index used then later else index

unfoldable pub next_member_index : RunTable → List ℕ → ℕ
next_member_index t taken = let used = used_indices taken t in first_free (suc (length used)) 0 used

-- The payload of `runs.json`; a missing version is `none`.
pub record Payload : Type 0 where
  pub version : Option ℕ
  pub runs : RunTable

-- `json.dumps(...).encode()` and `json.loads(data.decode())`, `none` where that raises: what was
-- dumped is loaded again, and is not empty.
pub record RunsJson : Type 0 where
  pub dumps : Payload → Bytes
  pub loads : Bytes → Option Payload
  pub loads-dumps : (p : Payload) → loads (dumps p) ≡ some p
  pub dumps-ne-nil : (p : Payload) → ¬ (dumps p ≡ [])

abbrev pub is_version_1 : Option ℕ → Bool
is_version_1 none = false
is_version_1 (some v) = v == 1

abbrev pub is_nil {ℓ} : {A : Type ℓ} → List A → Bool
is_nil [] = true
is_nil (x ∷ xs) = false

abbrev pub baseline_entry : RunEntry
baseline_entry = record {
  run_id = baseline_run_id;
  member = member_counts;
  status = none;
  rerun = false;
  nonzero = 0;
}

-- Arrays of different lengths are filled up with zeros.
unfoldable pub max_width : List (List ℕ) → ℕ
max_width [] = 0
max_width (a ∷ arrays) = max (length a) (max_width arrays)

unfoldable pub pad : ℕ → List ℕ → List ℕ
pad width a = if length a == width then a else a ++ replicate (width - length a) 0

-- The array of a member, `zf.read` and `CountsReader` in one.
unfoldable pub read_counts : Archive → Text → Result (List ℕ)
read_counts a member = do bytes ← or_raise key_error (lookup member a); Counts.deserialize bytes

-- The merge operations of an archive, none where the member is missing.
unfoldable pub read_ops : Archive → Result (Dict ℕ ℕ)
read_ops a = elim (lookup member_merge_ops a) [
  | none ↦ ok []
  | some bytes ↦ MergeOps.deserialize bytes
]

-- The arrays of the selected runs; a run whose member is missing has none.
unfoldable pub load_arrays : Archive → RunTable → List Text → Result (List (List ℕ))
load_arrays a t [] = ok []
load_arrays a t (r ∷ selected) = do
  e ← or_raise key_error (get t r)
  let rest = load_arrays a t selected
  if is_some (lookup e.member a)
      then (do counts ← read_counts a e.member; arrays ← rest; ok (counts ∷ arrays))
      else rest

-- The early returns for no array and for one, and the merge of several.
unfoldable pub merge_arrays : Archive → List (List ℕ) → Result (List ℕ)
merge_arrays a [] = ok []
merge_arrays a (counts ∷ []) = ok counts
merge_arrays a (counts ∷ more ∷ rest) = do
  let arrays = counts ∷ more ∷ rest
  ops ← read_ops a
  ok (merge_counts (map (pad (max_width arrays)) arrays) ops)

module _ (json : RunsJson) where
  unfoldable pub table_serialize : RunTable → Bytes
  table_serialize t = json.dumps (record { version = some 1; runs = t })

  unfoldable pub table_deserialize : Bytes → Result RunTable
  table_deserialize [] = ok []
  table_deserialize (b ∷ bytes) = do
    p ← or_raise run_table_error (json.loads (b ∷ bytes))
    guard (is_version_1 p.version) run_table_error
    ok p.runs

  unfoldable pub read_run_table : Archive → Result RunTable
  read_run_table a = elim (lookup member_runs a) [
    | some bytes ↦ table_deserialize bytes
    | none ↦ ok (if is_some (lookup member_counts a) then baseline_entry ∷ [] else [])
  ]

  unfoldable pub resolve_selected : Archive → RunTable → List Text → Result (List ℕ)
  resolve_selected a t selected = do
    guard (all (contains t) selected) run_table_error
    arrays ← load_arrays a t selected
    merge_arrays a arrays

  -- `none` selects every run of the table.
  unfoldable pub resolve_counts : Archive → Option (List Text) → Result (List ℕ)
  resolve_counts a runs = do
    t ← read_run_table a
    if is_nil t
        then read_counts a member_counts
        else resolve_selected a t (elim runs [ none ↦ run_ids t | some selected ↦ selected ])

  -- `_rewrite`: the new members over the old ones, with the run table.
  unfoldable pub rewrite : Archive → Archive → RunTable → Archive
  rewrite existing new_members t = put member_runs (table_serialize t) (update existing new_members)
