-- ===== src/Tests/Archives.antt =====
-- An archive with a baseline and a run, resolved and squashed.
use mathlib.Core.Bool.{false≢true}
use covsight_core.Prelude.{
  ℕ, ◌≡◌, ◌≢◌, List, [], ◌∷◌, none, some, ok, refl, All, inl, inr, false, true, sym, ◌∙◌,
}
use covsight_core.Prelude.Text.{Text, codes, text_same, text_same_iff, text_key}
use covsight_core.Prelude.Dict.{lookup, put, update}
use covsight_core.Varint.{Bytes, decode_varint, decode_loop}
use covsight_core.Counts
use covsight_core.Multirun.{
  Archive, RunEntry, RunTable, baseline_entry, baseline_run_id, member_counts, run_ids, get,
  contains, read_counts, is_nil, read_ops, rewrite, resolve_counts, run_member_name,
  next_member_index, mem,
}
use covsight_core.Multirun.Resolve.{IsResolvable, IsMerge, array, arrays_of, resolve_counts-IsMerge}
use covsight_core.Squash.{
  SquashResult, member_squash_log, candidates, split_recent, append_log, with_baseline, squash,
  read_log, keep_if, all_present, policy_admits, status_admits,
}
use covsight_core.SquashLog
use covsight_core.Pack.{pack_table, pack_fields, pack_rows, pack_uint, le_bytes}
use covsight_core.ContribIndex.{policy_pass_only}
use covsight_core.Squash.Drop.{remove_all}
use covsight_core.Squash.Preserve.{IsSquashable, read_run_table-rewrite}
use covsight_core.Squash.Exact.{resolve_counts-squash, squash-IsSquashable, folded}
use covsight_core.Multirun.Names.{next_member_index-free}
use covsight_core.Runs.{keep_runs, drop_runs}
use covsight_core.Runs.Drop.{resolve_counts-drop_runs}
use covsight_core.Tests.Json.{toy_json}

abbrev run_a : RunEntry
run_a = record {
  run_id = codes "a";
  member = codes "counts/run-00000.bin";
  status = some (codes "pass");
  rerun = false;
  nonzero = 2;
}

abbrev table : RunTable
table = baseline_entry ∷ run_a ∷ []

-- The counts 1, 2 of the baseline and 3, 4 of the run, in varint mode.
abbrev members : Archive
members = (member_counts, 1 ∷ 2 ∷ 1 ∷ 2 ∷ []) ∷ (run_a.member, 1 ∷ 2 ∷ 3 ∷ 4 ∷ []) ∷ []

abbrev archive : Archive
archive = rewrite toy_json members [] table

differ : (a b : Text) → text_same a b ≡ false → a ≢ b
differ a b f p = false≢true (sym f ∙ (text_same_iff a b).1 p)

counts_read : read_counts archive member_counts ≡ ok (1 ∷ 2 ∷ [])
unfolding read_counts rewrite update put lookup Counts.deserialize decode_varint decode_loop
    Counts.read_varints Counts.one_byte_each
counts_read = refl

run_read : read_counts archive run_a.member ≡ ok (3 ∷ 4 ∷ [])
unfolding read_counts rewrite update put lookup Counts.deserialize decode_varint decode_loop
    Counts.read_varints Counts.one_byte_each
run_read = refl

no_ops : read_ops archive ≡ ok []
unfolding read_ops rewrite update put lookup
no_ops = refl

itself :
    (a : Archive) (m : Text) (cs : List ℕ)
    → read_counts a m ≡ ok cs
    → read_counts a m ≡ ok (array a m)
unfolding array
itself a m cs r = rw (r, array) refl

archive-IsResolvable : IsResolvable toy_json archive table []
archive-IsResolvable = record {
  table = read_run_table-rewrite toy_json members table;
  some_run = refl;
  operations = no_ops;
  distinct_ids = ((differ baseline_run_id (codes "a") refl, tt), (tt, tt));
  readable = (
    itself archive member_counts (1 ∷ 2 ∷ []) counts_read,
    (itself archive run_a.member (3 ∷ 4 ∷ []) run_read, tt),
  );
}

archive-IsSquashable : IsSquashable toy_json archive table []
unfolding contains get
archive-IsSquashable = record {
  resolvable = archive-IsResolvable;
  distinct_members = ((differ member_counts run_a.member refl, tt), (tt, tt));
  owned = (
    inl (refl, refl),
    (
      inr (
        differ (codes "a") baseline_run_id refl,
        differ run_a.member member_counts refl,
        differ run_a.member (codes "runs.json") refl,
        differ run_a.member (codes "merge_ops.bin") refl,
        differ run_a.member member_squash_log refl,
      ),
      tt,
    ),
  );
  baseline_listed = λ f. absurd (false≢true (sym f));
}

resolve_counts-IsMerge_example :
    (r : List ℕ) × (resolve_counts toy_json archive none ≡ ok r)
    × IsMerge [] (arrays_of archive table) r
resolve_counts-IsMerge_example =
    resolve_counts-IsMerge toy_json archive table [] archive-IsResolvable

-- The squash log with one entry: pass only, from 0 to 1, one run.
abbrev log_bytes : Bytes
log_bytes =
    0x47 ∷ 0x4C ∷ 0x51 ∷ 0x53 ∷ 1 ∷ 1 ∷ 0 ∷ 0 ∷ 0 ∷ 0xE8 ∷ 3 ∷ 0 ∷ 0 ∷ 1 ∷ 0 ∷ 0 ∷ 0 ∷ 0 ∷ 0 ∷ 0 ∷ 0
    ∷ 1 ∷ 0 ∷ 0 ∷ 0 ∷ 1 ∷ 0 ∷ 0 ∷ 0 ∷ 1 ∷ 0 ∷ 0 ∷ 0 ∷ []

present : all_present table none ≡ true
present = refl

some_left : is_nil (folded table policy_pass_only 0 none) ≡ false
unfolding keep_if candidates split_recent policy_admits status_admits run_ids get
some_left = refl

logged :
    append_log
      (lookup member_squash_log archive)
      (folded table policy_pass_only 0 none)
      policy_pass_only
      1000
    ≡ ok log_bytes
unfolding rewrite update put lookup append_log read_log SquashLog.append SquashLog.serialize
    pack_table pack_fields pack_rows pack_uint le_bytes keep_if candidates split_recent
    policy_admits status_admits run_ids get
logged = refl

resolve_counts-squash_example :
    (result : SquashResult) × (new : Archive) × (squash toy_json archive none 0 policy_pass_only
        false 1000
      ≡ ok (result, new))
    × (resolve_counts toy_json new none ≡ resolve_counts toy_json archive none)
resolve_counts-squash_example =
    resolve_counts-squash toy_json archive table [] policy_pass_only 1000 log_bytes 0 none
      archive-IsSquashable present some_left logged

squash-IsSquashable_example :
    (result : SquashResult) × (new : Archive) × (squash toy_json archive none 0 policy_pass_only
        false 1000
      ≡ ok (result, new))
    × IsSquashable toy_json new
        (with_baseline (remove_all table (folded table policy_pass_only 0 none)))
        []
    × (result.squashed ≡ folded table policy_pass_only 0 none)
    × (result.remaining
        ≡ run_ids (with_baseline (remove_all table (folded table policy_pass_only 0 none))))
squash-IsSquashable_example =
    squash-IsSquashable toy_json archive table [] policy_pass_only 1000 log_bytes 0 none
      archive-IsSquashable present some_left logged

one_left : is_nil (keep_runs (codes "a" ∷ []) table) ≡ false
unfolding keep_runs keep_if
one_left = refl

resolve_counts-drop_runs_example :
    (new : Archive) × (drop_runs toy_json archive (codes "a" ∷ [])
      ≡ ok (run_ids (keep_runs (codes "a" ∷ []) table), new))
    × (resolve_counts toy_json new none
        ≡ resolve_counts toy_json archive (some (run_ids (keep_runs (codes "a" ∷ []) table))))
resolve_counts-drop_runs_example =
    resolve_counts-drop_runs toy_json archive table [] (codes "a" ∷ []) archive-IsSquashable
      one_left

next_member_index-free_example :
    All (λ (e : RunEntry). e.member ≢ run_member_name (next_member_index table (1 ∷ []))) table
    × (mem (next_member_index table (1 ∷ [])) (1 ∷ []) ≡ false)
next_member_index-free_example = next_member_index-free table (1 ∷ [])
