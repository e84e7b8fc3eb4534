-- ===== src/Runs/Drop.antt =====
-- What dropping runs leaves of an archive.
use mathlib.Core.Bool.{false≢true}
use mathlib.Core.Path.{ap₂}
use covsight_core.Prelude.{
  ℕ, ◌≡◌, ◌≢◌, List, [], ◌∷◌, true, false, not, none, some, ok, refl, All, Bool-cases, inl, inr,
  sym, ◌∙◌, ap,
}
use covsight_core.Prelude.Text.{Text, text_same, text_same_iff, text_key}
use covsight_core.Prelude.Dict.{Dict, lookup, pop, update}
use covsight_core.Multirun.{
  Archive, RunEntry, RunTable, RunsJson, member_counts, member_runs, member_merge_ops, run_ids, get,
  is_nil, read_counts, read_ops, merge_arrays, resolve_selected, resolve_counts, rewrite,
}
use covsight_core.Multirun.Table.{DistinctIds, DistinctMembers, get-own}
use covsight_core.Multirun.Resolve.{array, Readable, arrays_of, load_arrays-own, all_contained}
use covsight_core.Squash.{keep_if, among}
use covsight_core.Squash.Select.{All-keep_if}
use covsight_core.Squash.Preserve.{
  IsOwned, IsSquashable, owned_reserved, lookup-put_ne, array-cong, read_counts-cong,
  read_run_table-rewrite,
}
use covsight_core.Squash.Drop.{lookup-pop_ne}
use covsight_core.Runs.{keep_runs, drop_members, drop_runs}

module _ (to_drop : List Text) where
  abbrev Gone : RunEntry → Type 0
  Gone e = among to_drop e.run_id ≡ true

  -- A member that no dropped run owns stays as it was.
  drop_members-lookup :
      (m : Text) (a : Archive) (t : RunTable)
      → All (λ e. Gone e → e.member ≢ m) t
      → lookup m (drop_members a to_drop t) ≡ lookup m a
  unfolding drop_members
  drop_members-lookup m a [] h = refl
  drop_members-lookup m a (e ∷ t) h = elim (Bool-cases (among to_drop e.run_id)) [
    | inr stays ↦ rw stays (drop_members-lookup m a t h.1)
    | inl goes ↦ elim (Bool-cases (text_same e.member member_counts)) [
      | inl same ↦ rw (goes, same) (drop_members-lookup m a t h.1)
      | inr other ↦
          rw (goes, other)
            (drop_members-lookup m (pop e.member a) t h.1 ∙ lookup-pop_ne e.member m a (h.0 goes))
    ]
  ]

  -- No dropped run owns the member of a run that stays.
  others_apart :
      (t : RunTable)
      → DistinctMembers t
      → All (λ k. ¬ Gone k → All (λ e. Gone e → e.member ≢ k.member) t) t
  others_apart [] d = tt
  others_apart (x ∷ t) d =
      ((λ n. ((λ g. absurd (n g)), turn t d.0)), both t t d.0 (others_apart t d.1))
    where
      turn :
          (u : RunTable)
          → All (λ f. x.member ≢ f.member) u
          → All (λ e. Gone e → e.member ≢ x.member) u
      turn [] h = tt
      turn (f ∷ u) h = ((λ g p. h.0 (sym p)), turn u h.1)

      both :
          (t ks : RunTable)
          → All (λ f. x.member ≢ f.member) ks
          → All (λ k. ¬ Gone k → All (λ e. Gone e → e.member ≢ k.member) t) ks
          → All (λ k. ¬ Gone k → All (λ e. Gone e → e.member ≢ k.member) (x ∷ t)) ks
      both t [] h k = tt
      both t (f ∷ ks) h k = ((λ n. ((λ g. h.0), k.0 n)), both t ks h.1 k.1)

  kept_stay : (t : RunTable) → All (λ k. ¬ Gone k) (keep_runs to_drop t)
  unfolding keep_runs keep_if
  kept_stay [] = tt
  kept_stay (x ∷ t) = elim (Bool-cases (among to_drop x.run_id)) [
    | inl goes ↦ rw goes (kept_stay t)
    | inr stays ↦ rw stays ((λ g. false≢true (sym stays ∙ g)), kept_stay t)
  ]

module _ (json : RunsJson) (a : Archive) (t : RunTable) (ops : Dict ℕ ℕ) (to_drop : List Text) where
  abbrev after : Archive
  after = rewrite json (drop_members a to_drop t) [] (keep_runs to_drop t)

  same_member :
      (m : Text)
      → All (λ e. Gone to_drop e → e.member ≢ m) t
      → m ≢ member_runs
      → lookup m after ≡ lookup m a
  unfolding rewrite update
  same_member m h n =
      lookup-put_ne member_runs m _ (drop_members a to_drop t) (λ p. n (sym p))
      ∙ drop_members-lookup to_drop m a t h

  same_members :
      (ks : RunTable)
      → All IsOwned ks
      → All (λ k. ¬ Gone to_drop k) ks
      → All (λ k. ¬ Gone to_drop k → All (λ e. Gone to_drop e → e.member ≢ k.member) t) ks
      → All (λ k. lookup k.member after ≡ lookup k.member a) ks
  same_members [] o n h = tt
  same_members (k ∷ ks) o n h =
      (same_member k.member (h.0 n.0) (owned_reserved k o.0).0, same_members ks o.1 n.1 h.1)

  arrays_same :
      (ks : RunTable)
      → All (λ k. lookup k.member after ≡ lookup k.member a) ks
      → Readable a ks
      → Readable after ks × (arrays_of after ks ≡ arrays_of a ks)
  arrays_same [] h r = (tt, refl)
  arrays_same (k ∷ ks) h r =
      let (rs, e) = arrays_same ks h.1 r.1 in
      let same = array-cong after a k.member h.0 in
      ((read_counts-cong after a k.member h.0 ∙ r.0 ∙ ap ok (sym same), rs), ap₂ ◌∷◌ same e)

  merge_same :
      (arrays : List (List ℕ))
      → read_ops after ≡ read_ops a
      → merge_arrays after arrays ≡ merge_arrays a arrays
  unfolding merge_arrays
  merge_same [] e = refl
  merge_same (c ∷ []) e = refl
  merge_same (c ∷ d ∷ cs) e = rw e

  ops_apart :
      (u : RunTable) → All IsOwned u → All (λ e. Gone to_drop e → e.member ≢ member_merge_ops) u
  ops_apart [] o = tt
  ops_apart (e ∷ u) o = ((λ g. (owned_reserved e o.0).1), ops_apart u o.1)

  ops_same : All IsOwned t → read_ops after ≡ read_ops a
  unfolding read_ops
  ops_same o = rw (
    same_member member_merge_ops (ops_apart t o)
        (λ p. false≢true ((text_same_iff member_merge_ops member_runs).1 p)),
    read_ops,
  )

  distinct_kept : (u : RunTable) → DistinctIds u → DistinctIds (keep_runs to_drop u)
  unfolding keep_runs keep_if
  distinct_kept [] d = tt
  distinct_kept (x ∷ u) d = elim (Bool-cases (among to_drop x.run_id)) [
    | inl goes ↦ rw goes (distinct_kept u d.1)
    | inr stays ↦ rw stays (
      All-keep_if (λ f. x.run_id ≢ f.run_id) (λ e. not (among to_drop e.run_id)) u d.0,
      distinct_kept u d.1,
    )
  ]

  kept-All : (P : RunEntry → Type 0) → All P t → All P (keep_runs to_drop t)
  unfolding keep_runs
  kept-All P h = All-keep_if P (λ e. not (among to_drop e.run_id)) t h

  selected_same :
      (ks : RunTable)
      → DistinctIds ks
      → All (λ k. get t k.run_id ≡ some k) ks
      → All (λ k. lookup k.member after ≡ lookup k.member a) ks
      → Readable a ks
      → read_ops after ≡ read_ops a
      → resolve_selected json after ks (run_ids ks) ≡ resolve_selected json a t (run_ids ks)
  unfolding resolve_selected
  selected_same ks d g m r o =
      let (r', e) = arrays_same ks m r in
      let own = get-own ks d in
      rw
        (
          all_contained ks ks own,
          all_contained t ks g,
          load_arrays-own after ks ks own r',
          load_arrays-own a t ks g r,
          e,
        )
        (merge_same (arrays_of a ks) o)

  -- On an archive that meets the invariant, dropping runs so that some are left succeeds, reports the
  -- runs that are left, and all of the new archive resolves to what those runs of the old one
  -- resolve to.
  pub resolve_counts-drop_runs :
      IsSquashable json a t ops
      → is_nil (keep_runs to_drop t) ≡ false
      → (new : Archive) × (drop_runs json a to_drop ≡ ok (run_ids (keep_runs to_drop t), new))
        × (resolve_counts json new none
            ≡ resolve_counts json a (some (run_ids (keep_runs to_drop t))))
  unfolding drop_runs resolve_counts
  resolve_counts-drop_runs h left =
      let ks = keep_runs to_drop t in
      let stay = same_members ks (kept-All IsOwned h.owned) (kept_stay to_drop t) (
        kept-All (λ k. ¬ Gone to_drop k → All (λ e. Gone to_drop e → e.member ≢ k.member) t)
          (others_apart to_drop t h.distinct_members)) in
      let same =
        selected_same ks (distinct_kept t h.resolvable.distinct_ids)
          (kept-All (λ k. get t k.run_id ≡ some k) (get-own t h.resolvable.distinct_ids)) stay
          (kept-All (λ k. read_counts a k.member ≡ ok (array a k.member)) h.resolvable.readable)
          (ops_same h.owned) in
      (
        after,
        rw (h.resolvable.table, left) refl,
        rw
            (
              read_run_table-rewrite json (drop_members a to_drop t) ks,
              h.resolvable.table,
              left,
              h.resolvable.some_run,
            )
            same,
      )
