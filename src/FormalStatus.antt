-- ===== src/FormalStatus.antt =====
-- python/covsight/core/api/enums/formal_status.py: the status of an assertion over several runs.
-- A status that is `None`, or no number of the enumeration, is `none` or a number above 6.
pub mod Merge
use covsight_core.Prelude.{
  ℕ, List, [], ◌∷◌, Bool, true, false, ◌&&◌, Option, none, some, ◌==◌, leb, ltb, if◌then◌else◌, any,
}

pub data FormalStatus : Type 0 where
  none_status failure proof vacuous inconclusive assumption conflict : FormalStatus

-- `FormalStatusT(int(status))`, `none` where that raises ValueError.
unfoldable pub of_int : ℕ → Option FormalStatus
of_int n =
    if n == 0
    then some none_status
    else if n == 1
    then some failure
    else if n == 2
    then some proof
    else if n == 3
    then some vacuous
    else if n == 4
    then some inconclusive
    else if n == 5
    then some assumption
    else if n == 6
    then some conflict
    else none

unfoldable pub to_int : FormalStatus → ℕ
to_int none_status = 0
to_int failure = 1
to_int proof = 2
to_int vacuous = 3
to_int inconclusive = 4
to_int assumption = 5
to_int conflict = 6

-- _INFORMATIVENESS
unfoldable pub informativeness : FormalStatus → ℕ
informativeness none_status = 0
informativeness assumption = 1
informativeness vacuous = 2
informativeness inconclusive = 3
informativeness proof = 4
informativeness failure = 5
informativeness conflict = 6

abbrev pub is_none : FormalStatus → Bool
is_none none_status = true
is_none _ = false

abbrev pub is_proof : FormalStatus → Bool
is_proof proof = true
is_proof _ = false

abbrev pub is_failure : FormalStatus → Bool
is_failure failure = true
is_failure _ = false

-- The statuses that carry information.
unfoldable pub known_status : Option ℕ → Option FormalStatus
known_status none = none
known_status (some n) = elim (of_int n) [
  | none ↦ none
  | some s ↦ if is_none s then none else some s
]

unfoldable pub known : List (Option ℕ) → List FormalStatus
known [] = []
known (s ∷ statuses) =
    let rest = known statuses in elim (known_status s) [ none ↦ rest | some v ↦ v ∷ rest ]

-- `max(known, key=...)`: the first of the most informative ones.
unfoldable pub best : FormalStatus → List FormalStatus → FormalStatus
best s [] = s
best s (v ∷ values) = best (if ltb (informativeness s) (informativeness v) then v else s) values

unfoldable pub merge_known : List FormalStatus → FormalStatus
merge_known [] = none_status
merge_known (s ∷ values) =
    if any is_proof (s ∷ values) && any is_failure (s ∷ values) then conflict else best s values

unfoldable pub merge_formal_statuses : List (Option ℕ) → ℕ
merge_formal_statuses statuses = to_int (merge_known (known statuses))

-- `formal_status_rank`, 0 where the conversion raises.
unfoldable pub formal_status_rank : Option ℕ → ℕ
formal_status_rank none = 0
formal_status_rank (some n) = elim (of_int n) [ none ↦ 0 | some s ↦ informativeness s ]
