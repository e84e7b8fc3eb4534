-- ===== src/Squash/Preserve/After.antt =====
-- The archive that a squash writes: it meets the invariant again, and resolves to the same counts.
use mathlib.Core.Bool.{false≢true}
use mathlib.Core.Path.{ap₂}
use covsight_core.Prelude.{
  ℕ, ◌≡◌, ◌≢◌, List, [], ◌∷◌, ◌++◌, Bool, true, none, some, ok, refl, All, inl, inr, sym, ◌∙◌, ap,
  length, get_or,
}
use covsight_core.Prelude.Text.{Text, text_key}
use covsight_core.Prelude.Dict.{Dict, lookup, put}
use covsight_core.Varint.{Bytes}
use covsight_core.MergeOps.Columns.{is_max}
use covsight_core.Multirun.{
  Archive, RunEntry, RunTable, RunsJson, baseline_run_id, member_counts, member_runs,
  member_merge_ops, remove, read_counts, resolve_counts,
}
use covsight_core.Multirun.Table.{
  combine, total, combine_assoc, combine_left_comm, All-remove, zero-combine, total-cong, total-map,
}
use covsight_core.Multirun.Resolve.{
  array, Readable, arrays_of, resolve_counts-IsMerge, IsMerge-unique,
}
use covsight_core.Squash.{member_squash_log, with_baseline}
use covsight_core.Squash.Drop.{
  remove_all, All-remove_all, All-Selected, get-remove_all, DistinctIds-remove_all,
  DistinctMembers-remove_all, total-remove_all,
}
use covsight_core.Squash.Preserve.Parts.{
  IsOwned, IsSquashable, owned_other, owned_reserved, read_run_table-rewrite, lookup-put_ne,
  lookup-put_self, read_counts-cong, array-cong, array-ok, total-append,
}
use covsight_core.Squash.Preserve.Split.{
  IsSplit, IsSplit-baseline, All-with_baseline, contains-with_baseline, DistinctIds-with_baseline,
  DistinctMembers-with_baseline,
}
use covsight_core.Squash.Preserve.Folded.{
  written, lookup-written, IsFolded, members_apart, ops_apart, baseline_reserved, merge_ops_is_not,
  array_missing, same_contains, same_ops, read_itself,
}

module _ (json : RunsJson) (a : Archive) (t : RunTable) (ops : Dict ℕ ℕ) (rs : List Text)
    (es : List RunEntry) (bs : List (List ℕ)) (m : List ℕ) (counts : Bytes) (a' : Archive)
    (log : Bytes) (h : IsFolded json a t ops rs es bs m counts a') where
  counts_written : lookup member_counts (written json a' log (remove_all t rs)) ≡ some counts
  counts_written =
      lookup-written json a' log (remove_all t rs) member_counts baseline_reserved.0
        baseline_reserved.2
      ∙ h.dropped.untouched member_counts (members_apart t rs es h.chosen h.start.owned)
      ∙ lookup-put_self member_counts counts a

  ops_written :
      lookup member_merge_ops (written json a' log (remove_all t rs)) ≡ lookup member_merge_ops a
  ops_written =
      lookup-written json a' log (remove_all t rs) member_merge_ops
        (merge_ops_is_not member_runs refl) (merge_ops_is_not member_squash_log refl)
      ∙ h.dropped.untouched member_merge_ops
          (ops_apart es (All-Selected IsOwned t rs es h.chosen h.start.owned))
      ∙ lookup-put_ne member_counts member_merge_ops counts a baseline_reserved.1

  -- A run that stays keeps its member.
  entry_written :
      (e : RunEntry)
      → IsOwned e
      → e.member ≢ member_counts
      → lookup e.member a' ≡ lookup e.member (put member_counts counts a)
      → lookup e.member (written json a' log (remove_all t rs)) ≡ lookup e.member a
  entry_written e o n k =
      lookup-written json a' log (remove_all t rs) e.member (owned_reserved e o).0
        (owned_reserved e o).2
      ∙ k
      ∙ lookup-put_ne member_counts e.member counts a (λ p. n (sym p))

  counts_read : read_counts (written json a' log (remove_all t rs)) member_counts ≡ ok m
  unfolding read_counts
  counts_read = rw counts_written h.packed

  rest_same :
      (v : List ℕ → ℕ) (u : RunTable)
      → All IsOwned u
      → All (λ e. e.run_id ≢ baseline_run_id) u
      → All (λ e. lookup e.member a' ≡ lookup e.member (put member_counts counts a)) u
      → All
          (λ e. v (array (written json a' log (remove_all t rs)) e.member) ≡ v (array a e.member))
          u
  rest_same v [] o n k = tt
  rest_same v (e ∷ u) o n k = (
    ap v (array-cong _ a e.member (entry_written e o.0 (owned_other e o.0 n.0) k.0)),
    rest_same v u o.1 n.1 k.1,
  )

  All-Readable :
      (u : RunTable)
      → All IsOwned u
      → All (λ e. lookup e.member a' ≡ lookup e.member (put member_counts counts a)) u
      → Readable a u
      → Readable (written json a' log (remove_all t rs)) u
  All-Readable [] o k r = tt
  All-Readable (e ∷ u) o k r = (one o.0, All-Readable u o.1 k.1 r.1)
    where
      one :
          IsOwned e
          → read_counts (written json a' log (remove_all t rs)) e.member
            ≡ ok (array (written json a' log (remove_all t rs)) e.member)
      one (inl b) =
          read_itself (written json a' log (remove_all t rs)) e.member m
            (ap (read_counts (written json a' log (remove_all t rs))) b.1 ∙ counts_read)
      one (inr b) =
          read_itself (written json a' log (remove_all t rs)) e.member (array a e.member)
            (read_counts-cong _ a e.member (entry_written e (inr b) b.1 k.0) ∙ r.0)

  before_total :
      (b : Bool) (v : List ℕ → ℕ)
      → v [] ≡ 0
      → (e : RunEntry) → IsSplit (remove_all t rs) e
      → total b (λ f. v (array a f.member)) (remove_all t rs)
        ≡ combine b
            (v (array a member_counts))
            (total b (λ f. v (array a f.member)) (remove baseline_run_id (remove_all t rs)))
  before_total b v z e sp = elim sp.before [
    | inl (absent, eq) ↦
        eq b (λ f. v (array a f.member))
        ∙ sym (
            ap
              (λ (n : ℕ).
                combine b n
                  (total b (λ f. v (array a f.member)) (remove baseline_run_id (remove_all t rs))))
              (ap v (
                  array_missing a member_counts (
                    h.start.baseline_listed
                      (same_contains t (remove_all t rs) (get-remove_all t rs es h.chosen) absent)))
                ∙ z)
            ∙ zero-combine b _)
    | inr (found, eq) ↦
        eq b (λ f. v (array a f.member))
        ∙ ap
            (λ (k : Text).
              combine b (v (array a k))
                (total b (λ f. v (array a f.member)) (remove baseline_run_id (remove_all t rs))))
            sp.base
  ]

  same_total :
      (b : Bool) (v : List ℕ → ℕ)
      → v [] ≡ 0
      → v m ≡ total b v (bs ++ arrays_of a es)
      → total b v
          (arrays_of (written json a' log (remove_all t rs)) (with_baseline (remove_all t rs)))
        ≡ total b v (arrays_of a t)
  same_total b v z vm =
      let F = written json a' log (remove_all t rs) in
      let left = remove_all t rs in
      let u = remove baseline_run_id left in
      let own = All-remove_all IsOwned t rs h.start.owned in
      let (e, sp) =
        IsSplit-baseline left (DistinctIds-remove_all t rs h.start.resolvable.distinct_ids) own in
      let wA : RunEntry → ℕ = λ f. v (array a f.member) in
      let wF : RunEntry → ℕ = λ f. v (array F f.member) in
      let R : total b wF u ≡ total b wA u = total-cong b wF wA u (
        rest_same v u (All-remove IsOwned baseline_run_id left own) sp.others (
          All-remove (λ f. lookup f.member a' ≡ lookup f.member (put member_counts counts a))
            baseline_run_id left h.dropped.kept)) in
      let new : wF e ≡ v m =
        ap (λ (k : Text). v (array F k)) sp.base ∙ ap v (array-ok F member_counts m counts_read) in
      total-map b (λ f. array F f.member) v (with_baseline left)
      ∙ sp.whole b wF
      ∙ ap₂ (combine b)
          (new
            ∙ vm
            ∙ total-append b v bs (arrays_of a es)
            ∙ ap₂ (combine b) (h.base.1 b v z) (total-map b (λ f. array a f.member) v es))
          R
      ∙ combine_assoc b (v (array a member_counts)) (total b wA es) (total b wA u)
      ∙ combine_left_comm b (v (array a member_counts)) (total b wA es) (total b wA u)
      ∙ ap (combine b (total b wA es)) (sym (before_total b v z e sp))
      ∙ sym (total-remove_all b wA t rs es h.chosen)
      ∙ sym (total-map b (λ f. array a f.member) v t)

  -- The archive that a squash writes meets the invariant.
  pub written-IsSquashable :
      IsSquashable json
        (written json a' log (remove_all t rs))
        (with_baseline (remove_all t rs))
        ops
  written-IsSquashable =
      let left = remove_all t rs in
      let own = All-remove_all IsOwned t rs h.start.owned in
      let distinct = DistinctIds-remove_all t rs h.start.resolvable.distinct_ids in
      record {
        resolvable = record {
          table = read_run_table-rewrite json (put member_squash_log log a') (with_baseline left);
          some_run = (contains-with_baseline left).1;
          operations = same_ops _ a ops_written ∙ h.start.resolvable.operations;
          distinct_ids = DistinctIds-with_baseline left distinct;
          readable =
              All-with_baseline
                (λ e.
                  read_counts (written json a' log left) e.member
                  ≡ ok (array (written json a' log left) e.member))
                left (read_itself (written json a' log left) member_counts m counts_read)
                (All-Readable left own h.dropped.kept (
                  All-remove_all (λ e. read_counts a e.member ≡ ok (array a e.member)) t rs
                    h.start.resolvable.readable));
        };
        distinct_members =
            DistinctMembers-with_baseline left own
              (DistinctMembers-remove_all t rs h.start.distinct_members);
        owned = All-with_baseline IsOwned left (inl (refl, refl)) own;
        baseline_listed = λ f. absurd (false≢true (sym f ∙ (contains-with_baseline left).0));
      }

  -- It resolves to the counts that the archive resolved to before.
  pub resolve_counts-written :
      resolve_counts json (written json a' log (remove_all t rs)) none ≡ resolve_counts json a none
  resolve_counts-written =
      let F = written json a' log (remove_all t rs) in
      let (r, eq, is) =
        resolve_counts-IsMerge json F (with_baseline (remove_all t rs)) ops
          written-IsSquashable.resolvable in
      let (s, eq', is') = resolve_counts-IsMerge json a t ops h.start.resolvable in
      eq
      ∙ ap ok (
          IsMerge-unique ops (arrays_of F (with_baseline (remove_all t rs))) (arrays_of a t) r s is
            is' (same_total true length refl h.merge.width)
            (λ i. same_total (is_max ops i) (λ c. get_or c i 0) refl (h.merge.bins i)))
      ∙ sym eq'
