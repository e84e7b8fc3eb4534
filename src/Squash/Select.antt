-- ===== src/Squash/Select.antt =====
-- The runs that a squash selects: entries of the table, each once, and never the baseline.
use mathlib.Core.Bool.{false≢true}
use covsight_core.Prelude.{
  ℕ, zero, suc, ◌-◌, ◌≡◌, ◌≢◌, List, [], ◌∷◌, map, Bool, not, Option, none, some, All, length, take,
  Bool-cases, inl, inr, leb, sym, ◌∙◌,
}
use covsight_core.Prelude.Text.{Text, text_same, text_same_iff}
use covsight_core.Multirun.{RunEntry, RunTable, baseline_run_id, run_ids, get}
use covsight_core.Multirun.Table.{DistinctIds, get-own}
use covsight_core.Squash.{keep_if, among, candidates, split_recent}

abbrev pub DistinctTexts : List Text → Type 0
DistinctTexts [] = Unit
DistinctTexts (r ∷ rs) = All (λ s. r ≢ s) rs × DistinctTexts rs

-- The entries of the table under the given ids, in order.
abbrev pub Selected : RunTable → List Text → List RunEntry → Type 0
Selected t [] [] = Unit
Selected t [] (e ∷ es) = ⊥
Selected t (r ∷ rs) [] = ⊥
Selected t (r ∷ rs) (e ∷ es) =
    (get t r ≡ some e) × (r ≢ baseline_run_id) × All (λ s. r ≢ s) rs × Selected t rs es

-- What holds of every element holds of those kept, taken or dropped; distinct ones stay distinct.
module _ {A : Type 0} (P : A → Type 0) where
  pub All-keep_if : (p : A → Bool) (xs : List A) → All P xs → All P (keep_if p xs)
  unfolding keep_if
  All-keep_if p [] h = tt
  All-keep_if p (x ∷ xs) h = elim (Bool-cases (p x)) [
    | inl t ↦ rw t (h.0, All-keep_if p xs h.1)
    | inr f ↦ rw f (All-keep_if p xs h.1)
  ]

  pub All-take : (n : ℕ) (xs : List A) → All P xs → All P (take n xs)
  All-take zero xs h = tt
  All-take (suc n) [] h = tt
  All-take (suc n) (x ∷ xs) h = (h.0, All-take n xs h.1)

DistinctTexts-keep_if :
    (p : Text → Bool) (rs : List Text) → DistinctTexts rs → DistinctTexts (keep_if p rs)
unfolding keep_if
DistinctTexts-keep_if p [] h = tt
DistinctTexts-keep_if p (r ∷ rs) h = elim (Bool-cases (p r)) [
  | inl t ↦ rw t (All-keep_if (λ s. r ≢ s) p rs h.0, DistinctTexts-keep_if p rs h.1)
  | inr f ↦ rw f (DistinctTexts-keep_if p rs h.1)
]

DistinctTexts-take : (n : ℕ) (rs : List Text) → DistinctTexts rs → DistinctTexts (take n rs)
DistinctTexts-take zero rs h = tt
DistinctTexts-take (suc n) [] h = tt
DistinctTexts-take (suc n) (r ∷ rs) h =
    (All-take (λ s. r ≢ s) n rs h.0, DistinctTexts-take n rs h.1)

-- An id that may be selected.
abbrev IsCandidate : RunTable → Text → Type 0
IsCandidate t r = (r ≢ baseline_run_id) × (e : RunEntry) × (get t r ≡ some e)

abbrev IsChoice : RunTable → List Text → Type 0
IsChoice t rs = All (IsCandidate t) rs × DistinctTexts rs

run_ids-Distinct : (t : RunTable) → DistinctIds t → DistinctTexts (run_ids t)
unfolding run_ids
run_ids-Distinct [] h = tt
run_ids-Distinct (e ∷ t) h = (ids e t h.0, run_ids-Distinct t h.1)
  where
    ids :
        (e : RunEntry) (t : RunTable)
        → All (λ f. e.run_id ≢ f.run_id) t
        → All (λ s. e.run_id ≢ s) (map (λ f. f.run_id) t)
    ids e [] h = tt
    ids e (f ∷ t) h = (h.0, ids e t h.1)

-- The ids of the table that are not the baseline's are candidates.
not_baseline :
    (t s : RunTable)
    → All (λ e. get t e.run_id ≡ some e) s
    → All (IsCandidate t) (keep_if (λ r. not (text_same r baseline_run_id)) (run_ids s))
unfolding keep_if run_ids
not_baseline t [] g = tt
not_baseline t (e ∷ s) g = elim (Bool-cases (text_same e.run_id baseline_run_id)) [
  | inl same ↦ rw same (not_baseline t s g.1)
  | inr other ↦ rw other (
    ((λ p. false≢true (sym other ∙ (text_same_iff e.run_id baseline_run_id).1 p)), e, g.0),
    not_baseline t s g.1,
  )
]

candidates-IsChoice :
    (t : RunTable) (runs : Option (List Text)) → DistinctIds t → IsChoice t (candidates t runs)
unfolding candidates
candidates-IsChoice t none d =
    (not_baseline t t (get-own t d), DistinctTexts-keep_if _ (run_ids t) (run_ids-Distinct t d))
candidates-IsChoice t (some wanted) d = (
  All-keep_if (IsCandidate t) (among wanted) _ (not_baseline t t (get-own t d)),
  DistinctTexts-keep_if (among wanted) _
      (DistinctTexts-keep_if _ (run_ids t) (run_ids-Distinct t d)),
)

split_recent-IsChoice :
    (t : RunTable) (k : ℕ) (rs : List Text) → IsChoice t rs → IsChoice t (split_recent k rs).0
unfolding split_recent
split_recent-IsChoice t k rs h = elim (Bool-cases (leb k 0)) [
  | inl t ↦ rw t h
  | inr f ↦ elim (Bool-cases (leb (length rs) k)) [
    | inl all ↦ rw (f, all) (tt, tt)
    | inr some' ↦
        rw (f, some')
          (
            All-take (IsCandidate t) (length rs - k) rs h.0,
            DistinctTexts-take (length rs - k) rs h.1,
          )
  ]
]

entries : (t : RunTable) (rs : List Text) → IsChoice t rs → (es : List RunEntry) × Selected t rs es
entries t [] h = ([], tt)
entries t (r ∷ rs) h =
    let (es, s) = entries t rs (h.0.1, h.1.1) in (h.0.0.1 ∷ es, (h.0.0.2, h.0.0.0, h.1.0, s))

-- Whatever the plan and the policy leave is a selection.
pub selection :
    (t : RunTable) (runs : Option (List Text)) (k : ℕ) (admits : Text → Bool)
    → DistinctIds t
    → (es : List RunEntry) × Selected t (keep_if admits (split_recent k (candidates t runs)).0) es
selection t runs k admits d =
    let (c, u) = split_recent-IsChoice t k (candidates t runs) (candidates-IsChoice t runs d) in
    entries t _ (All-keep_if (IsCandidate t) admits _ c, DistinctTexts-keep_if admits _ u)
