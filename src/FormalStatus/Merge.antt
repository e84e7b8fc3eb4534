-- ===== src/FormalStatus/Merge.antt =====
-- The merged status by what the runs reported.
use covsight_core.Prelude.{
  ℕ, max, ◌≡◌, ◌⊎◌, List, [], ◌∷◌, ◌++◌, Bool, true, false, ◌&&◌, ◌||◌, Option, none, some,
  if◌then◌else◌, any, arith, refl, Bool-cases, inl, inr, sym, ◌∙◌, ap, ◌==◌,
}
use covsight_core.FormalStatus.{
  FormalStatus, none_status, failure, proof, vacuous, inconclusive, assumption, conflict, of_int,
  to_int, informativeness, is_proof, is_failure, known_status, known, best, merge_known,
  merge_formal_statuses, formal_status_rank,
}

-- Some run reported the given status.
abbrev pub is_number : ℕ → Option ℕ → Bool
is_number n none = false
is_number n (some k) = k == n

abbrev pub reported : ℕ → List (Option ℕ) → Bool
reported n statuses = any (is_number n) statuses

-- The largest rank of the statuses.
abbrev pub top_rank : List (Option ℕ) → ℕ
top_rank [] = 0
top_rank (s ∷ statuses) = max (formal_status_rank s) (top_rank statuses)

abbrev most : List FormalStatus → ℕ
most [] = 0
most (s ∷ values) = max (informativeness s) (most values)

best-most :
    (s : FormalStatus) (values : List FormalStatus)
    → informativeness (best s values) ≡ max (informativeness s) (most values)
unfolding best
best-most s [] = omega arith
best-most s (v ∷ values) = ground (arith, best-most s values, best-most v values)

any-known-proof : (xs : List (Option ℕ)) → any is_proof (known xs) ≡ reported 2 xs
unfolding known known_status of_int
any-known-proof [] = refl
any-known-proof (none ∷ xs) = any-known-proof xs
any-known-proof (some n ∷ xs) = ground (arith, any-known-proof xs)

any-known-failure : (xs : List (Option ℕ)) → any is_failure (known xs) ≡ reported 1 xs
unfolding known known_status of_int
any-known-failure [] = refl
any-known-failure (none ∷ xs) = any-known-failure xs
any-known-failure (some n ∷ xs) = ground (arith, any-known-failure xs)

most-known : (xs : List (Option ℕ)) → most (known xs) ≡ top_rank xs
unfolding known known_status of_int formal_status_rank informativeness
most-known [] = refl
most-known (none ∷ xs) = omega (arith, most-known xs)
most-known (some n ∷ xs) = ground (arith, most-known xs)

rank-to_int : (s : FormalStatus) → formal_status_rank (some (to_int s)) ≡ informativeness s
unfolding formal_status_rank to_int of_int
rank-to_int none_status = refl
rank-to_int failure = refl
rank-to_int proof = refl
rank-to_int vacuous = refl
rank-to_int inconclusive = refl
rank-to_int assumption = refl
rank-to_int conflict = refl

-- The conflict rule on known statuses.
merge_known-cases :
    (values : List FormalStatus)
    → ((any is_proof values && any is_failure values ≡ true) × (merge_known values ≡ conflict))
      ⊎ ((any is_proof values && any is_failure values ≡ false)
          × (informativeness (merge_known values) ≡ most values))
unfolding merge_known
merge_known-cases [] = inr (refl, unfold informativeness in refl)
merge_known-cases (s ∷ values) =
    elim (Bool-cases (any is_proof (s ∷ values) && any is_failure (s ∷ values))) [
      | inl both ↦ inl (both, rw both refl)
      | inr other ↦ inr (other, rw other (best-most s values))
    ]

-- If one run reported a proof and another a failure, the merged status is CONFLICT; otherwise it has
-- the largest rank of the statuses that were reported.
pub merge_formal_statuses-cases :
    (xs : List (Option ℕ))
    → ((reported 2 xs && reported 1 xs ≡ true) × (merge_formal_statuses xs ≡ 6))
      ⊎ ((reported 2 xs && reported 1 xs ≡ false)
          × (formal_status_rank (some (merge_formal_statuses xs)) ≡ top_rank xs))
unfolding merge_formal_statuses to_int
merge_formal_statuses-cases xs = elim (merge_known-cases (known xs)) [
  | inl (both, m) ↦ inl (rw (any-known-proof xs, any-known-failure xs) at both, ap to_int m)
  | inr (other, m) ↦ inr (
    rw (any-known-proof xs, any-known-failure xs) at other,
    rank-to_int (merge_known (known xs)) ∙ m ∙ most-known xs,
  )
]

abbrev from_rank : ℕ → FormalStatus
from_rank r =
    if r == 0
    then none_status
    else if r == 1
    then assumption
    else if r == 2
    then vacuous
    else if r == 3
    then inconclusive
    else if r == 4
    then proof
    else if r == 5
    then failure
    else conflict

from-informativeness : (s : FormalStatus) → from_rank (informativeness s) ≡ s
unfolding informativeness
from-informativeness none_status = refl
from-informativeness failure = refl
from-informativeness proof = refl
from-informativeness vacuous = refl
from-informativeness inconclusive = refl
from-informativeness assumption = refl
from-informativeness conflict = refl

closed_form :
    (xs : List (Option ℕ))
    → merge_formal_statuses xs
      ≡ to_int (if reported 2 xs && reported 1 xs then conflict else from_rank (top_rank xs))
unfolding merge_formal_statuses
closed_form xs = elim (merge_known-cases (known xs)) [
  | inl (both, m) ↦ rw (rw (any-known-proof xs, any-known-failure xs) at both) (ap to_int m)
  | inr (other, m) ↦ rw (rw (any-known-proof xs, any-known-failure xs) at other) (
      ap to_int
        (sym (from-informativeness (merge_known (known xs))) ∙ ap from_rank (m ∙ most-known xs)))
]

reported-append :
    (n : ℕ) (xs ys : List (Option ℕ)) → reported n (xs ++ ys) ≡ (reported n xs || reported n ys)
reported-append n [] ys = refl
reported-append n (x ∷ xs) ys = ground (arith, reported-append n xs ys)

top_rank-append : (xs ys : List (Option ℕ)) → top_rank (xs ++ ys) ≡ max (top_rank xs) (top_rank ys)
top_rank-append [] ys = omega arith
top_rank-append (x ∷ xs) ys = omega (arith, top_rank-append xs ys)

reported-swap : (n : ℕ) (xs ys : List (Option ℕ)) → reported n (xs ++ ys) ≡ reported n (ys ++ xs)
reported-swap n xs ys = ground (arith, reported-append n xs ys, reported-append n ys xs)

top_rank-swap : (xs ys : List (Option ℕ)) → top_rank (xs ++ ys) ≡ top_rank (ys ++ xs)
top_rank-swap xs ys = omega (arith, top_rank-append xs ys, top_rank-append ys xs)

-- Merging two batches of reports gives the same status whichever batch comes first.
merge_formal_statuses-swap :
    (xs ys : List (Option ℕ)) → merge_formal_statuses (xs ++ ys) ≡ merge_formal_statuses (ys ++ xs)
merge_formal_statuses-swap xs ys =
    closed_form (xs ++ ys)
    ∙ (rw (reported-swap 2 xs ys, reported-swap 1 xs ys, top_rank-swap xs ys) refl)
    ∙ sym (closed_form (ys ++ xs))
