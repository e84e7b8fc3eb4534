-- ===== src/Squash/Preserve/Split.antt =====
-- The run table after a squash, as the baseline's entry and the rest.
use mathlib.Core.Bool.{false≢true}
use covsight_core.Prelude.{
  ℕ, ◌≡◌, ◌≢◌, ◌⊎◌, [], ◌∷◌, Bool, true, false, Option, none, some, arith, refl, All, Bool-cases,
  Option-cases, inl, inr, sym, ◌∙◌, ap,
}
use covsight_core.Prelude.Text.{text_same, text_same_iff, text_key}
use covsight_core.Multirun.{
  RunEntry, RunTable, baseline_run_id, baseline_entry, member_counts, get, contains, remove, is_nil,
}
use covsight_core.Multirun.Table.{
  combine, total, total-remove, DistinctIds, DistinctMembers, get-run_id, remove-other_ids, All-get,
}
use covsight_core.Squash.{with_baseline}
use covsight_core.Squash.Preserve.Parts.{IsOwned, owned_baseline, owned_other}

-- The table after a squash: the entry of the baseline, and the rest.
pub record IsSplit (left : RunTable) (e : RunEntry) : Type 0 where
  pub base : e.member ≡ member_counts
  pub others : All (λ f. f.run_id ≢ baseline_run_id) (remove baseline_run_id left)
  pub whole :
      (b : Bool) (w : RunEntry → ℕ)
      → total b w (with_baseline left) ≡ combine b (w e) (total b w (remove baseline_run_id left))
  pub before :
      ((contains left baseline_run_id ≡ false)
        × ((b : Bool) (w : RunEntry → ℕ)
            → total b w left ≡ total b w (remove baseline_run_id left)))
      ⊎ ((get left baseline_run_id ≡ some e)
          × ((b : Bool) (w : RunEntry → ℕ)
              → total b w left ≡ combine b (w e) (total b w (remove baseline_run_id left))))

no_baseline :
    (left : RunTable) → get left baseline_run_id ≡ none → All (λ f. f.run_id ≢ baseline_run_id) left
unfolding get
no_baseline [] h = tt
no_baseline (f ∷ left) h = elim (Bool-cases (text_same f.run_id baseline_run_id)) [
  | inl same ↦ absurd (some≢none f (rw same at h))
  | inr other ↦ (
    (λ p. false≢true (sym other ∙ (text_same_iff f.run_id baseline_run_id).1 p)),
    no_baseline left (rw other at h),
  )
]
  where
    some≢none : (f : RunEntry) → ¬ (◌≡◌ {A = Option RunEntry} (some f) none)
    some≢none f p = cc

remove-missing :
    (left : RunTable) → get left baseline_run_id ≡ none → left ≡ remove baseline_run_id left
unfolding get remove
remove-missing [] h = refl
remove-missing (f ∷ left) h = elim (Bool-cases (text_same f.run_id baseline_run_id)) [
  | inl same ↦ absurd (some≢none f (rw same at h))
  | inr other ↦ rw other (ap (◌∷◌ f) (remove-missing left (rw other at h)))
]
  where
    some≢none : (f : RunEntry) → ¬ (◌≡◌ {A = Option RunEntry} (some f) none)
    some≢none f p = cc

pub IsSplit-baseline :
    (left : RunTable) → DistinctIds left → All IsOwned left → (e : RunEntry) × IsSplit left e
IsSplit-baseline left d o = elim (Option-cases (get left baseline_run_id)) [
  | inl missing ↦ (
    baseline_entry,
    record {
      base = refl;
      others = remove-other_ids baseline_run_id left d;
      whole = λ b w.
          unfold with_baseline contains in
          rw (missing, with_baseline)
            (unfold total in
              ap (λ (u : RunTable). combine b (w baseline_entry) (total b w u))
                (remove-missing left missing));
      before =
          inl (unfold contains in rw missing, λ b w. ap (total b w) (remove-missing left missing));
    },
  )
  | inr (e, found) ↦ (
    e,
    record {
      base =
          owned_baseline e (All-get IsOwned baseline_run_id left e found o)
            (get-run_id left baseline_run_id e found);
      others = remove-other_ids baseline_run_id left d;
      whole = λ b w.
          unfold with_baseline contains in
          rw (found, with_baseline) (total-remove b w left baseline_run_id e found);
      before = inr (found, λ b w. total-remove b w left baseline_run_id e found);
    },
  )
]

-- What holds of the baseline's entry and of every entry holds of the table after the squash.
pub All-with_baseline :
    (P : RunEntry → Type 0) (left : RunTable)
    → P baseline_entry
    → All P left
    → All P (with_baseline left)
unfolding with_baseline
All-with_baseline P left p h = elim (Bool-cases (contains left baseline_run_id)) [
  | inl t ↦ rw t h
  | inr f ↦ rw f (p, h)
]

pub contains-with_baseline :
    (left : RunTable)
    → (contains (with_baseline left) baseline_run_id ≡ true) × (is_nil (with_baseline left) ≡ false)
unfolding with_baseline
contains-with_baseline left = elim (Bool-cases (contains left baseline_run_id)) [
  | inl t ↦ rw t (t, not_nil left t)
  | inr f ↦ rw f (unfold contains get in refl, refl)
]
  where
    not_nil : (left : RunTable) → contains left baseline_run_id ≡ true → is_nil left ≡ false
    not_nil [] t = unfold contains get in cc
    not_nil (e ∷ left) t = refl

not_contained :
    (left : RunTable) → contains left baseline_run_id ≡ false → get left baseline_run_id ≡ none
unfolding contains
not_contained left f = ground arith

symmetric :
    (left : RunTable)
    → All (λ f. f.run_id ≢ baseline_run_id) left
    → All (λ f. baseline_run_id ≢ f.run_id) left
symmetric [] h = tt
symmetric (f ∷ left) h = ((λ p. h.0 (sym p)), symmetric left h.1)

pub DistinctIds-with_baseline :
    (left : RunTable) → DistinctIds left → DistinctIds (with_baseline left)
unfolding with_baseline
DistinctIds-with_baseline left d = elim (Bool-cases (contains left baseline_run_id)) [
  | inl t ↦ rw t d
  | inr f ↦ rw f (symmetric left (no_baseline left (not_contained left f)), d)
]

pub DistinctMembers-with_baseline :
    (left : RunTable)
    → All IsOwned left
    → DistinctMembers left
    → DistinctMembers (with_baseline left)
unfolding with_baseline
DistinctMembers-with_baseline left o d = elim (Bool-cases (contains left baseline_run_id)) [
  | inl t ↦ rw t d
  | inr f ↦ rw f (apart left o (no_baseline left (not_contained left f)), d)
]
  where
    apart :
        (u : RunTable)
        → All IsOwned u
        → All (λ f. f.run_id ≢ baseline_run_id) u
        → All (λ f. member_counts ≢ f.member) u
    apart [] o n = tt
    apart (f ∷ u) o n = ((λ p. owned_other f o.0 n.0 (sym p)), apart u o.1 n.1)
