-- ===== src/Tests/Indexes.antt =====
-- The indexes at concrete inputs.
use covsight_core.Prelude.{ℕ, ◌≡◌, [], ◌∷◌, map, none, some, ok, arith, ◌==◌, if◌then◌else◌}
use covsight_core.Varint.{Bytes}
use covsight_core.BucketIndex
use covsight_core.BucketIndex.{
  BucketIndexEntry, BucketIndex, add_bucket, buckets_in_range, buckets_for_name,
}
use covsight_core.BucketIndex.Order as BucketOrder
use covsight_core.BucketIndex.Order.{add_bucket_lem, buckets_for_name-in_range, find, holding}
use covsight_core.BucketIndex.RoundTrip.{deserialize-serialize_buckets}
use covsight_core.ContribIndex
use covsight_core.ContribIndex.{
  ContribIndexEntry, ContribIndex, add_entry, remove_entries_up_to, passing_run_ids, policy_all,
  policy_pass_only, policy_exclude_error_rerun, policy_strict,
}
use covsight_core.ContribIndex.Order as ContribOrder
use covsight_core.ContribIndex.Order.{add_entry_lem, Inserted}
use covsight_core.ContribIndex.Policy.{Picks, passing_run_ids-nested}
use covsight_core.ContribIndex.RoundTrip.{deserialize-serialize_contribs}

abbrev bucket : ℕ → ℕ → ℕ → BucketIndexEntry
bucket seq from to = record {
  bucket_seq = seq;
  ts_start = from;
  ts_end = to;
  num_records = 3;
  fail_count = 1;
  min_name_id = 2;
  max_name_id = 6;
}

abbrev two_buckets : BucketIndex
two_buckets = bucket 1 10 19 ∷ bucket 4 20 29 ∷ []

two_buckets-IsSorted : BucketOrder.IsSorted two_buckets
two_buckets-IsSorted = (omega arith, (omega arith, tt))

deserialize-serialize_buckets_example :
    (bytes : Bytes) × (BucketIndex.serialize (bucket 1 10 19 ∷ []) ≡ ok bytes)
    × (BucketIndex.deserialize bytes ≡ ok (bucket 1 10 19 ∷ []))
deserialize-serialize_buckets_example =
    deserialize-serialize_buckets (bucket 1 10 19 ∷ [])
      (omega arith, (omega arith, (omega arith, tt)))
      (
        (
          omega arith,
          (
            omega arith,
            (omega arith, (omega arith, (omega arith, (omega arith, (omega arith, tt))))),
          ),
        ),
        tt,
      )

add_bucket_lem_example :
    BucketOrder.IsSorted (add_bucket (bucket 2 5 6) two_buckets)
    × ((seq : ℕ)
        → find seq (add_bucket (bucket 2 5 6) two_buckets)
          ≡ (if 2 == seq then some (bucket 2 5 6) else find seq two_buckets))
add_bucket_lem_example = add_bucket_lem (bucket 2 5 6) two_buckets two_buckets-IsSorted

buckets_for_name-in_range_example :
    (buckets_for_name 3 (some 15) (some 18) two_buckets
      ≡ holding 3 (buckets_in_range 15 18 two_buckets))
    × (buckets_for_name 3 none none two_buckets ≡ holding 3 two_buckets)
buckets_for_name-in_range_example = buckets_for_name-in_range 3 15 18 two_buckets

abbrev contrib : ℕ → ℕ → ContribIndexEntry
contrib run_id status = record { run_id = run_id; name_id = 7; status = status; flags = 1 }

abbrev three_runs : ContribIndex
three_runs = record {
  merge_policy = 1;
  squash_watermark = 2;
  entries = contrib 3 0 ∷ contrib 5 1 ∷ contrib 8 0 ∷ [];
}

three_runs-IsSorted : ContribOrder.IsSorted three_runs
three_runs-IsSorted = (omega arith, (omega arith, (omega arith, tt)))

deserialize-serialize_contribs_example :
    (bytes : Bytes) × (ContribIndex.serialize three_runs ≡ ok bytes)
    × (ContribIndex.deserialize bytes ≡ ok three_runs)
deserialize-serialize_contribs_example =
    deserialize-serialize_contribs three_runs
      (omega arith, (omega arith, (omega arith, (omega arith, (omega arith, tt)))))
      (
        (omega arith, (omega arith, (omega arith, (omega arith, tt)))),
        (
          (omega arith, (omega arith, (omega arith, (omega arith, tt)))),
          ((omega arith, (omega arith, (omega arith, (omega arith, tt)))), tt),
        ),
      )

add_entry_lem_example :
    ContribOrder.IsSorted (add_entry (contrib 4 0) three_runs)
    × Inserted (contrib 4 0) three_runs.entries (add_entry (contrib 4 0) three_runs).entries
    × ((add_entry (contrib 4 0) three_runs).merge_policy ≡ 1)
    × ((add_entry (contrib 4 0) three_runs).squash_watermark ≡ 2)
add_entry_lem_example = add_entry_lem (contrib 4 0) three_runs three_runs-IsSorted

passing_run_ids-nested_example :
    Picks (passing_run_ids policy_strict three_runs) (passing_run_ids policy_pass_only three_runs)
    × Picks (passing_run_ids policy_pass_only three_runs) (passing_run_ids policy_all three_runs)
    × (passing_run_ids policy_all three_runs
        ≡ map (λ (e : ContribIndexEntry). e.run_id) three_runs.entries)
    × (passing_run_ids policy_exclude_error_rerun three_runs
        ≡ passing_run_ids policy_pass_only three_runs)
passing_run_ids-nested_example = passing_run_ids-nested three_runs
