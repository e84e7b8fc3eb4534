-- ===== src/Squash.antt =====
-- python/covsight/core/ncdb/squash.py: folding runs into the baseline and dropping their arrays.
-- The time of the log entry is an argument, as it is where the caller gives it.
pub mod Select
pub mod Drop
pub mod Preserve
pub mod Exact
use covsight_core.Prelude.{
  ℕ, zero, suc, ◌-◌, List, [], ◌∷◌, ◌++◌, map, Bool, true, false, not, ◌&&◌, ◌||◌, Option, none,
  some, Result, ok, raise, key_error, run_table_error, ◌>>=◌, ◌>>◌, guard, or_raise, ◌==◌, leb,
  if◌then◌else◌, length, take, drop, all, any,
}
use covsight_core.Prelude.Text.{Text, codes, text_same, text_key}
use covsight_core.Prelude.Dict.{Dict, lookup, put, pop}
use covsight_core.Varint.{Bytes}
use covsight_core.Counts
use covsight_core.MergeOps.{merge_counts}
use covsight_core.SquashLog
use covsight_core.ContribIndex.{
  policy_all, policy_pass_only, policy_exclude_error_rerun, policy_strict,
}
use covsight_core.Multirun.{
  Archive, RunEntry, RunTable, RunsJson, member_counts, baseline_run_id, baseline_entry, run_ids,
  get, contains, remove, is_some, is_nil, max_width, pad, read_counts, read_ops, read_run_table,
  rewrite,
}

-- MEMBER_SQUASH_LOG
abbrev pub member_squash_log : Text
member_squash_log = codes "squash_log.bin"

abbrev pub status_pass : Text
status_pass = codes "pass"

pub record SquashResult : Type 0 where
  pub squashed : List Text
  pub remaining : List Text
  pub policy : ℕ
  pub num_bins : ℕ

-- The elements that pass a test, in order.
unfoldable pub keep_if {ℓ} : {A : Type ℓ} → (A → Bool) → List A → List A
keep_if p [] = []
keep_if p (x ∷ xs) = let rest = keep_if p xs in if p x then x ∷ rest else rest

abbrev pub among : List Text → Text → Bool
among wanted r = any (λ w. text_same w r) wanted

-- The run ids that may be squashed: not the baseline, and among the wanted ones.
unfoldable pub candidates : RunTable → Option (List Text) → List Text
candidates t none = keep_if (λ r. not (text_same r baseline_run_id)) (run_ids t)
candidates t (some wanted) =
    keep_if (among wanted) (keep_if (λ r. not (text_same r baseline_run_id)) (run_ids t))

-- No named run is missing from the table.
abbrev pub all_present : RunTable → Option (List Text) → Bool
all_present t none = true
all_present t (some named) = all (contains t) named

-- `candidates[:-keep_recent]` and `candidates[-keep_recent:]`, with the two early returns.
unfoldable pub split_recent : ℕ → List Text → List Text × List Text
split_recent keep_recent ids =
    if leb keep_recent 0
    then (ids, [])
    else if leb (length ids) keep_recent
    then ([], ids)
    else (take (length ids - keep_recent) ids, drop (length ids - keep_recent) ids)

-- `_policy_admits`, on an entry and on its status.
unfoldable pub status_admits : ℕ → Option Text → Bool → Bool
status_admits policy none rerun = true
status_admits policy (some status) rerun =
    if policy == policy_pass_only || policy == policy_exclude_error_rerun
    then text_same status status_pass
    else if policy == policy_strict
    then text_same status status_pass && not rerun
    else true

unfoldable pub policy_admits : ℕ → Option RunEntry → Bool
unfolding status_admits
policy_admits policy none = true
policy_admits policy (some e) =
    if policy == policy_all then true else status_admits policy e.status e.rerun

-- The runs of the plan that the policy admits.
abbrev pub admitted : RunTable → ℕ → List Text → List Text
admitted t policy to_squash = keep_if (λ r. policy_admits policy (get t r)) to_squash

-- The arrays of the selected runs, in order.
unfoldable pub squash_arrays : Archive → RunTable → List Text → Result (List (List ℕ))
squash_arrays a t [] = ok []
squash_arrays a t (r ∷ selected) = do
  e ← or_raise key_error (get t r)
  let rest = squash_arrays a t selected
  if is_some (lookup e.member a) && not (text_same e.member member_counts)
      then (do counts ← read_counts a e.member; arrays ← rest; ok (counts ∷ arrays))
      else rest

-- The array of the baseline, if there is one.
unfoldable pub baseline_arrays : Archive → Result (List (List ℕ))
baseline_arrays a = elim (lookup member_counts a) [
  | none ↦ ok []
  | some bytes ↦
      if is_nil bytes then ok [] else (do counts ← Counts.deserialize bytes; ok (counts ∷ []))
]

unfoldable pub merge_all : List (List ℕ) → Dict ℕ ℕ → List ℕ
merge_all [] ops = []
merge_all (c ∷ arrays) ops = merge_counts (map (pad (max_width (c ∷ arrays))) (c ∷ arrays)) ops

-- The loop that drops the arrays and the table entries of the squashed runs.
unfoldable pub drop_squashed : Archive → RunTable → List Text → Result (Archive × RunTable)
drop_squashed a t [] = ok (a, t)
drop_squashed a t (r ∷ selected) = do
  e ← or_raise key_error (get t r)
  drop_squashed (if text_same e.member member_counts then a else pop e.member a) (remove r t)
      selected

-- "The baseline must exist in the table once there is one."
unfoldable pub with_baseline : RunTable → RunTable
with_baseline t = if contains t baseline_run_id then t else baseline_entry ∷ t

unfoldable pub read_log : Option Bytes → Result SquashLog.SquashLog
read_log none = ok []
read_log (some bytes) = if is_nil bytes then ok [] else SquashLog.deserialize bytes

unfoldable pub append_log : Option Bytes → List Text → ℕ → ℕ → Result Bytes
append_log existing squashed policy timestamp = do
  log ← read_log existing
  SquashLog.serialize (
      SquashLog.append
        (record {
          ts = timestamp;
          policy = policy;
          from_run = 0;
          to_run = length squashed;
          num_runs = length squashed;
          pass_runs = length squashed;
        })
        log)

module _ (json : RunsJson) where
  unfoldable pub squash_plan : Archive → ℕ → Option (List Text) → Result (List Text × List Text)
  squash_plan a keep_recent runs = do
    t ← read_run_table json a
    ok (split_recent keep_recent (candidates t runs))

  -- From the selected runs on: merge, drop unless told to keep, log, and rewrite.
  unfoldable pub fold_runs :
      Archive → RunTable → List Text → ℕ → Bool → ℕ → Result (SquashResult × Archive)
  fold_runs a t selected policy keep_runs timestamp = do
    base ← baseline_arrays a
    arrays ← squash_arrays a t selected
    ops ← read_ops a
    let merged = merge_all (base ++ arrays) ops
    counts ← Counts.serialize merged
    let a' = put member_counts counts a
    (a'', t') ← (if keep_runs then ok (a', t) else drop_squashed a' t selected)
    log ← append_log (lookup member_squash_log a'') selected policy timestamp
    let t'' = with_baseline t'
    ok (
      record {
        squashed = selected;
        remaining = run_ids t'';
        policy = policy;
        num_bins = length merged;
      },
      rewrite json (put member_squash_log log a'') [] t'',
    )

  unfoldable pub squash :
      Archive → Option (List Text) → ℕ → ℕ → Bool → ℕ → Result (SquashResult × Archive)
  squash a runs keep_recent policy keep_runs timestamp = do
    (to_squash, _) ← squash_plan a keep_recent runs
    t ← read_run_table json a
    guard (all_present t runs) run_table_error
    let selected = admitted t policy to_squash
    guard (not (is_nil selected)) run_table_error
    fold_runs a t selected policy keep_runs timestamp
