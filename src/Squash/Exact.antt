-- ===== src/Squash/Exact.antt =====
-- `squash` from end to end: it succeeds, and nothing of the merged coverage is lost.
use mathlib.Core.Path.{subst}
use mathlib.Core.Bool.{false≢true}
use covsight_core.Prelude.{
  ℕ, ◌≡◌, ◌≢◌, List, [], ◌∷◌, ◌++◌, true, false, Option, ◌⊎◌, Bool-cases, Option-cases, none, some,
  ok, refl, All, length, sym, ◌∙◌, ap, inl, inr,
}
use covsight_core.Prelude.Text.{Text, text_same_iff, text_key}
use covsight_core.Prelude.Dict.{Dict, lookup, put}
use covsight_core.Varint.{Bytes}
use covsight_core.Counts
use covsight_core.Counts.RoundTrip
use covsight_core.Multirun.{
  baseline_run_id, contains, is_some, read_counts, Archive, RunEntry, RunTable, RunsJson,
  member_counts, run_ids, get, is_nil, resolve_counts,
}
use covsight_core.Multirun.Table.{All-get, get-run_id}
use covsight_core.Multirun.Resolve.{arrays_of, array}
use covsight_core.Squash.{
  SquashResult, member_squash_log, all_present, admitted, candidates, split_recent, merge_all,
  append_log, with_baseline, squash_plan, fold_runs, squash, policy_admits,
}
use covsight_core.Squash.Select.{Selected, selection}
use covsight_core.Squash.Drop.{
  remove_all, All-Selected, drop_squashed-IsDropped, squash_arrays-Selected,
}
use covsight_core.Squash.Preserve.{
  baseline_arrays-total, merge_all-IsMerge, owned_reserved, owned_baseline, lookup-put_ne,
  IsSquashable, IsOwned, IsFolded, written, members_apart, written-IsSquashable,
  resolve_counts-written,
}

log_apart : (es : List RunEntry) → All IsOwned es → All (λ e. e.member ≢ member_squash_log) es
log_apart [] o = tt
log_apart (e ∷ es) o = ((owned_reserved e o.0).2, log_apart es o.1)

counts_is_not_log : member_counts ≢ member_squash_log
counts_is_not_log p = false≢true ((text_same_iff member_counts member_squash_log).1 p)

-- What the fold reports.
abbrev pub report : RunTable → List Text → ℕ → List ℕ → SquashResult
report t rs policy m = record {
  squashed = rs;
  remaining = run_ids (with_baseline (remove_all t rs));
  policy = policy;
  num_bins = length m;
}

baseline_found :
    (t : RunTable)
    → contains t baseline_run_id ≡ true
    → (e : RunEntry) × (get t baseline_run_id ≡ some e)
unfolding contains
baseline_found t c = elim (Option-cases (get t baseline_run_id)) [
  | inl missing ↦ absurd (false≢true (ap is_some (sym missing) ∙ c))
  | inr found ↦ found
]

-- The baseline's array is missing, or can be read.
baseline_readable :
    (json : RunsJson) (a : Archive) (t : RunTable) (ops : Dict ℕ ℕ)
    → IsSquashable json a t ops
    → (lookup member_counts a ≡ none) ⊎ (read_counts a member_counts ≡ ok (array a member_counts))
baseline_readable json a t ops h = elim (Bool-cases (contains t baseline_run_id)) [
  | inr f ↦ inl (h.baseline_listed f)
  | inl c ↦
      let (e, g) = baseline_found t c in
      let m =
        owned_baseline e (All-get IsOwned baseline_run_id t e g h.owned)
          (get-run_id t baseline_run_id e g) in
      inr (
        subst (λ k. read_counts a k ≡ ok (array a k)) m
          (All-get (λ f. read_counts a f.member ≡ ok (array a f.member)) baseline_run_id t e g
            h.resolvable.readable))
]

-- The runs that a squash folds in.
abbrev pub folded : RunTable → ℕ → ℕ → Option (List Text) → List Text
folded t policy keep_recent runs =
    admitted t policy (split_recent keep_recent (candidates t runs)).0

module _ (json : RunsJson) (a : Archive) (t : RunTable) (ops : Dict ℕ ℕ) (policy timestamp : ℕ)
    (log : Bytes) where
  pub fold_runs-IsFolded :
      (rs : List Text) (es : List RunEntry)
      → IsSquashable json a t ops
      → Selected t rs es
      → append_log (lookup member_squash_log a) rs policy timestamp ≡ ok log
      → (bs : List (List ℕ)) × (m : List ℕ) × (counts : Bytes) × (a' : Archive) × (fold_runs json a
            t rs policy false timestamp
          ≡ ok (report t rs policy m, written json a' log (remove_all t rs)))
        × IsFolded json a t ops rs es bs m counts a'
  unfolding fold_runs
  fold_runs-IsFolded rs es start chosen logged =
      let (bs, base) = baseline_arrays-total a (baseline_readable json a t ops start) in
      let apart = members_apart t rs es chosen start.owned in
      let m = merge_all (bs ++ arrays_of a es) ops in
      let (counts, packs, packed) = Counts.RoundTrip.deserialize-serialize_counts m in
      let (a', drops, dropped) =
        drop_squashed-IsDropped (put member_counts counts a) t rs es chosen apart
          start.distinct_members in
      let same_log : lookup member_squash_log a' ≡ lookup member_squash_log a =
        dropped.untouched member_squash_log
          (log_apart es (All-Selected IsOwned t rs es chosen start.owned))
        ∙ lookup-put_ne member_counts member_squash_log counts a counts_is_not_log in
      (
        bs,
        m,
        counts,
        a',
        rw
            (
              base.0,
              squash_arrays-Selected a t rs es chosen apart (
                  All-Selected (λ e. read_counts a e.member ≡ ok (array a e.member)) t rs es chosen
                    start.resolvable.readable),
              start.resolvable.operations,
              packs,
              drops,
              same_log,
              logged,
            )
            refl,
        record {
          start = start;
          chosen = chosen;
          base = base;
          merge = merge_all-IsMerge ops (bs ++ arrays_of a es);
          packed = packed;
          dropped = dropped;
        },
      )

  module _ (keep_recent : ℕ) (runs : Option (List Text)) where
    squash_lem :
        IsSquashable json a t ops
        → all_present t runs ≡ true
        → is_nil (folded t policy keep_recent runs) ≡ false
        → append_log
            (lookup member_squash_log a)
            (folded t policy keep_recent runs)
            policy
            timestamp
          ≡ ok log
        → (es : List RunEntry) × (bs : List (List ℕ)) × (m : List ℕ) × (counts : Bytes)
          × (a' : Archive) × (squash json a runs keep_recent policy false timestamp
              ≡ ok (
                report t (folded t policy keep_recent runs) policy m,
                written json a' log (remove_all t (folded t policy keep_recent runs)),
              ))
          × IsFolded json a t ops (folded t policy keep_recent runs) es bs m counts a'
    unfolding squash squash_plan
    squash_lem start present some_left logged =
        let (es, chosen) =
          selection t runs keep_recent (λ r. policy_admits policy (get t r))
            start.resolvable.distinct_ids in
        let (bs, m, counts, a', eq, is) =
          fold_runs-IsFolded (folded t policy keep_recent runs) es start chosen logged in
        (es, bs, m, counts, a', rw (start.resolvable.table, present, some_left) eq, is)

    -- On an archive that meets the invariant, where every named run is in the table, the plan and the
    -- policy leave at least one run, and the log can be extended, `squash` succeeds, and the archive
    -- that it writes resolves, over all its runs, to the counts that the old one resolved to.
    pub resolve_counts-squash :
        IsSquashable json a t ops
        → all_present t runs ≡ true
        → is_nil (folded t policy keep_recent runs) ≡ false
        → append_log
            (lookup member_squash_log a)
            (folded t policy keep_recent runs)
            policy
            timestamp
          ≡ ok log
        → (result : SquashResult) × (new : Archive) × (squash json a runs keep_recent policy false
              timestamp
            ≡ ok (result, new))
          × (resolve_counts json new none ≡ resolve_counts json a none)
    resolve_counts-squash start present some_left logged =
        let (es, bs, m, counts, a', eq, is) = squash_lem start present some_left logged in
        (
          report t (folded t policy keep_recent runs) policy m,
          written json a' log (remove_all t (folded t policy keep_recent runs)),
          eq,
          resolve_counts-written json a t ops (folded t policy keep_recent runs) es bs m counts a'
              log is,
        )

    -- On an archive that meets the invariant, where every named run is in the table, the plan and the
    -- policy leave at least one run, and the log can be extended, `squash` succeeds, and the archive
    -- that it writes meets the invariant again, with the table that has lost exactly the squashed
    -- runs and lists the baseline; the result names the runs that were squashed and those that this
    -- table lists.
    pub squash-IsSquashable :
        IsSquashable json a t ops
        → all_present t runs ≡ true
        → is_nil (folded t policy keep_recent runs) ≡ false
        → append_log
            (lookup member_squash_log a)
            (folded t policy keep_recent runs)
            policy
            timestamp
          ≡ ok log
        → (result : SquashResult) × (new : Archive) × (squash json a runs keep_recent policy false
              timestamp
            ≡ ok (result, new))
          × IsSquashable json new
              (with_baseline (remove_all t (folded t policy keep_recent runs)))
              ops
          × (result.squashed ≡ folded t policy keep_recent runs)
          × (result.remaining
              ≡ run_ids (with_baseline (remove_all t (folded t policy keep_recent runs))))
    squash-IsSquashable start present some_left logged =
        let (es, bs, m, counts, a', eq, is) = squash_lem start present some_left logged in
        (
          report t (folded t policy keep_recent runs) policy m,
          written json a' log (remove_all t (folded t policy keep_recent runs)),
          eq,
          written-IsSquashable json a t ops (folded t policy keep_recent runs) es bs m counts a' log
              is,
          refl,
          refl,
        )
