-- ===== src/ContribIndex/Policy.antt =====
-- The merge policies against one another.
use covsight_core.Prelude.{ℕ, ◌≡◌, List, [], ◌∷◌, true, arith, refl, inl, inr, Bool-cases, map}
use covsight_core.ContribIndex.{
  ContribIndexEntry, ContribIndex, admits, passing, passing_run_ids, policy_all, policy_pass_only,
  policy_exclude_error_rerun, policy_strict,
}

-- One run id list picks out of another, keeping the order.
pub data Picks : List ℕ → List ℕ → Type 0 where
  done : Picks [] []
  keep : {xs ys : List ℕ} (x : ℕ) → Picks xs ys → Picks (x ∷ xs) (x ∷ ys)
  skip : {xs ys : List ℕ} (y : ℕ) → Picks xs ys → Picks xs (y ∷ ys)

module _ (p q : ℕ)
    (narrower : (e : ContribIndexEntry) → admits p e ≡ true → admits q e ≡ true) where
  passing-Picks : (es : List ContribIndexEntry) → Picks (passing p es) (passing q es)
  unfolding passing
  passing-Picks [] = done
  passing-Picks (e ∷ es) = elim (Bool-cases (admits p e)) [
    | inl t ↦ rw (t, narrower e t) (keep e.run_id (passing-Picks es))
    | inr f ↦ elim (Bool-cases (admits q e)) [
      | inl t ↦ rw (f, t) (skip e.run_id (passing-Picks es))
      | inr g ↦ rw (f, g) (passing-Picks es)
    ]
  ]

passing-all : (es : List ContribIndexEntry) → passing policy_all es ≡ map (λ e. e.run_id) es
unfolding passing admits
passing-all [] = refl
passing-all (e ∷ es) = rw (passing-all es)

passing-exclude :
    (es : List ContribIndexEntry)
    → passing policy_exclude_error_rerun es ≡ passing policy_pass_only es
unfolding passing admits
passing-exclude [] = refl
passing-exclude (e ∷ es) = rw (passing-exclude es)

-- The policies only ever narrow the selection: the strict one picks, in order, among the runs of the
-- pass-only one, that one picks among all runs, and the one that excludes errors and reruns selects
-- exactly what the pass-only one does.
pub passing_run_ids-nested :
    (ci : ContribIndex)
    → Picks (passing_run_ids policy_strict ci) (passing_run_ids policy_pass_only ci)
      × Picks (passing_run_ids policy_pass_only ci) (passing_run_ids policy_all ci)
      × (passing_run_ids policy_all ci ≡ map (λ e. e.run_id) ci.entries)
      × (passing_run_ids policy_exclude_error_rerun ci ≡ passing_run_ids policy_pass_only ci)
unfolding passing_run_ids
passing_run_ids-nested ci = (
  passing-Picks policy_strict policy_pass_only (λ e h. unfold admits in ground arith) ci.entries,
  passing-Picks policy_pass_only policy_all (λ e h. unfold admits in refl) ci.entries,
  passing-all ci.entries,
  passing-exclude ci.entries,
)
