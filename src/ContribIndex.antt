-- ===== src/ContribIndex.antt =====
-- python/covsight/core/ncdb/contrib_index.py: the index that decides which runs a merge takes in.
pub mod Order
pub mod Policy
pub mod RoundTrip
use covsight_core.Prelude.{
  ℕ, max, List, [], ◌∷◌, ◌++◌, map, Bool, true, false, not, ◌&&◌, Option, none, some, Result, ok,
  raise, value_error, struct_error, ◌>>=◌, ◌>>◌, guard, traverse, ◌==◌, ltb, leb, if◌then◌else◌,
  length, bit_and,
}
use covsight_core.Varint.{Bytes}
use covsight_core.Pack.{pack_table, unpack_fields, unpack_rows}

-- POLICY_*
abbrev pub policy_all : ℕ
policy_all = 0

abbrev pub policy_pass_only : ℕ
policy_pass_only = 1

abbrev pub policy_exclude_error_rerun : ℕ
policy_exclude_error_rerun = 2

abbrev pub policy_strict : ℕ
policy_strict = 3

-- HIST_STATUS_OK
abbrev pub hist_status_ok : ℕ
hist_status_ok = 0

pub record ContribIndexEntry : Type 0 where
  pub run_id : ℕ
  pub name_id : ℕ
  pub status : ℕ
  pub flags : ℕ

unfoldable pub is_rerun : ContribIndexEntry → Bool
is_rerun e = not (bit_and e.flags 0x01 == 0)

unfoldable pub first_attempt_passed : ContribIndexEntry → Bool
first_attempt_passed e = not (bit_and e.flags 0x02 == 0)

pub record ContribIndex : Type 0 where
  pub merge_policy : ℕ
  pub squash_watermark : ℕ
  pub entries : List ContribIndexEntry

-- The last entry's run id is not below the new one.
unfoldable pub out_of_order : ℕ → List ContribIndexEntry → Bool
out_of_order run_id [] = false
out_of_order run_id (e ∷ []) = leb run_id e.run_id
out_of_order run_id (e ∷ f ∷ es) = out_of_order run_id (f ∷ es)

-- Before the first entry with a larger run id, or at the end.
unfoldable pub insert_sorted : ContribIndexEntry → List ContribIndexEntry → List ContribIndexEntry
insert_sorted entry [] = entry ∷ []
insert_sorted entry (e ∷ es) =
    let rest = insert_sorted entry es in
    if ltb entry.run_id e.run_id then entry ∷ e ∷ es else e ∷ rest

unfoldable pub add_to : ContribIndexEntry → List ContribIndexEntry → List ContribIndexEntry
add_to entry es = if out_of_order entry.run_id es then insert_sorted entry es else es ++ entry ∷ []

unfoldable pub add_entry : ContribIndexEntry → ContribIndex → ContribIndex
add_entry entry ci = record ci { entries = add_to entry ci.entries }

-- Whether an entry is taken in under a policy; a policy that is none of the four takes nothing in.
unfoldable pub admits : ℕ → ContribIndexEntry → Bool
admits policy e =
    if policy == policy_all
    then true
    else if policy == policy_pass_only
    then e.status == hist_status_ok
    else if policy == policy_exclude_error_rerun
    then e.status == hist_status_ok
    else if policy == policy_strict
    then (e.status == hist_status_ok) && not (is_rerun e && not (first_attempt_passed e))
    else false

unfoldable pub passing : ℕ → List ContribIndexEntry → List ℕ
passing policy [] = []
passing policy (e ∷ es) =
    let rest = passing policy es in if admits policy e then e.run_id ∷ rest else rest

unfoldable pub passing_run_ids : ℕ → ContribIndex → List ℕ
passing_run_ids policy ci = passing policy ci.entries

unfoldable pub set_squash_watermark : ℕ → ContribIndex → ContribIndex
set_squash_watermark run_id ci = record ci { squash_watermark = run_id }

unfoldable pub keep_above : ℕ → List ContribIndexEntry → List ContribIndexEntry
keep_above run_id [] = []
keep_above run_id (e ∷ es) =
    let rest = keep_above run_id es in if ltb run_id e.run_id then e ∷ rest else rest

unfoldable pub remove_entries_up_to : ℕ → ContribIndex → ContribIndex
remove_entries_up_to run_id ci = record ci { entries = keep_above run_id ci.entries }

unfoldable pub max_of : ℕ → List ContribIndexEntry → ℕ
max_of m [] = m
max_of m (e ∷ es) = max_of (max m e.run_id) es

unfoldable pub max_in : ℕ → List ContribIndexEntry → ℕ
max_in watermark [] = watermark
max_in watermark (e ∷ es) = max_of e.run_id es

unfoldable pub max_run_id : ContribIndex → ℕ
max_run_id ci = max_in ci.squash_watermark ci.entries

abbrev pub magic : ℕ
magic = 0x43494458

abbrev pub version : ℕ
version = 1

-- "<IBBII" and "<IHBB"
abbrev pub header_layout : List ℕ
header_layout = 4 ∷ 1 ∷ 1 ∷ 4 ∷ 4 ∷ []

abbrev pub entry_layout : List ℕ
entry_layout = 4 ∷ 2 ∷ 1 ∷ 1 ∷ []

abbrev pub to_row : ContribIndexEntry → List ℕ
to_row e = e.run_id ∷ e.name_id ∷ e.status ∷ e.flags ∷ []

abbrev pub of_row : List ℕ → Result ContribIndexEntry
of_row (run_id ∷ name_id ∷ status ∷ flags ∷ []) =
    ok (record { run_id = run_id; name_id = name_id; status = status; flags = flags })
of_row _ = raise struct_error

unfoldable pub serialize : ContribIndex → Result Bytes
serialize ci =
    pack_table header_layout
      (magic ∷ version ∷ ci.merge_policy ∷ ci.squash_watermark ∷ length ci.entries ∷ [])
      entry_layout (map to_row ci.entries)

pub record Header : Type 0 where
  pub merge_policy : ℕ
  pub squash_watermark : ℕ
  pub num_active : ℕ

unfoldable pub check_header : List ℕ → Result Header
check_header (m ∷ v ∷ policy ∷ watermark ∷ n ∷ []) = do
  guard (m == magic) value_error
  guard (v == version) value_error
  ok (record { merge_policy = policy; squash_watermark = watermark; num_active = n })
check_header _ = raise struct_error

unfoldable pub deserialize : Bytes → Result ContribIndex
deserialize buf = do
  (header, rest) ← unpack_fields header_layout buf
  h ← check_header header
  (rows, _) ← unpack_rows entry_layout h.num_active rest
  entries ← traverse of_row rows
  ok (record {
    merge_policy = h.merge_policy;
    squash_watermark = h.squash_watermark;
    entries = entries;
  })
