-- ===== src/Testplan/Index.antt =====
-- testplan.py: the lazily built indexes of a plan and the queries on them.
-- A query may build the indexes: it returns the plan beside its answer.
-- In the pattern `_\d+$` a digit is one of 0 to 9.
use covsight_core.Prelude.{
  ℕ, ◌-◌, List, [], ◌∷◌, ◌++◌, Bool, true, false, ◌&&◌, Option, none, some, ◌==◌, leb, ltb,
  if◌then◌else◌, length, take, drop,
}
use covsight_core.Prelude.Text.{Text, codes, is_digit, text_same, text_key}
use covsight_core.Prelude.Dict.{Dict, lookup, put}
use covsight_core.Testplan.{Testpoint, Testplan, iter_testpoints}

-- t.startswith(prefix), t.endswith(suffix), t[:-1]
abbrev pub starts_with : Text → Text → Bool
starts_with prefix t = text_same (take (length prefix) t) prefix

abbrev pub ends_with : Text → Text → Bool
ends_with suffix t =
    leb (length suffix) (length t) && text_same (drop (length t - length suffix) t) suffix

abbrev pub but_last : Text → Text
but_last t = take (length t - 1) t

-- What follows digits at the end of a text: nothing, or one line break, before which `$` matches too.
unfoldable pub after_digits : Text → Option Text
after_digits [] = some []
after_digits (c ∷ []) = if is_digit c then some [] else if c == 10 then some (c ∷ []) else none
after_digits (c ∷ d ∷ cs) = let rest = after_digits (d ∷ cs) in if is_digit c then rest else none

unfoldable pub seed_suffix : Text → Option Text
seed_suffix [] = none
seed_suffix (c ∷ cs) =
    if c == 95
    then elim cs [ [] ↦ none | d ∷ ds ↦ if is_digit d then after_digits ds else none ]
    else none

-- re.sub(r'_\d+$', '', t)
unfoldable pub strip_seed : Text → Text
strip_seed [] = []
strip_seed (c ∷ cs) = elim (seed_suffix (c ∷ cs)) [ some rest ↦ rest | none ↦ c ∷ strip_seed cs ]

-- The test of the wildcard entries: `pattern.endswith('_*') and name.startswith(pattern[:-1])`.
abbrev pub wildcard_matches : Text → Text → Bool
wildcard_matches pattern name =
    ends_with (codes "_*") pattern && starts_with (but_last pattern) name

-- The loops of `_build_indices`.
unfoldable pub put_tests : Testpoint → List Text → Dict Text Testpoint → Dict Text Testpoint
put_tests tp [] d = d
put_tests tp (t ∷ ts) d = put_tests tp ts (put t tp d)

unfoldable pub index_names : List Testpoint → Dict Text Testpoint → Dict Text Testpoint
index_names [] d = d
index_names (tp ∷ tps) d = index_names tps (put tp.name tp d)

unfoldable pub index_tests : List Testpoint → Dict Text Testpoint → Dict Text Testpoint
index_tests [] d = d
index_tests (tp ∷ tps) d = index_tests tps (put_tests tp tp.tests d)

unfoldable pub build_indices : Testplan → Testplan
build_indices plan = record plan {
  tp_by_name = index_names (iter_testpoints plan) [];
  tp_by_test = index_tests (iter_testpoints plan) [];
  indexed = true;
}

unfoldable pub ensure_indexed : Testplan → Testplan
ensure_indexed plan = if plan.indexed then plan else build_indices plan

unfoldable pub invalidate_index : Testplan → Testplan
invalidate_index plan = record plan { indexed = false }

-- getTestpoint
unfoldable pub get_testpoint : Text → Testplan → Testplan × Option Testpoint
get_testpoint name plan = let ready = ensure_indexed plan in (ready, lookup name ready.tp_by_name)

unfoldable pub find_wildcard : Text → Dict Text Testpoint → Option Testpoint
find_wildcard name [] = none
find_wildcard name ((pattern, candidate) ∷ d) =
    let rest = find_wildcard name d in
    if wildcard_matches pattern name then some candidate else rest

unfoldable pub search_index : Text → Dict Text Testpoint → Option Testpoint
search_index name d = elim (lookup name d) [
  | some tp ↦ some tp
  | none ↦
      if text_same (strip_seed name) name
      then find_wildcard name d
      else elim (lookup (strip_seed name) d) [ some tp ↦ some tp | none ↦ find_wildcard name d ]
]

-- testpointForTest
unfoldable pub testpoint_for_test : Text → Testplan → Testplan × Option Testpoint
testpoint_for_test name plan =
    let ready = ensure_indexed plan in (ready, search_index name ready.tp_by_test)

-- testpointsForStage
unfoldable pub of_stage : Text → List Testpoint → List Testpoint
of_stage stage [] = []
of_stage stage (tp ∷ tps) =
    let rest = of_stage stage tps in if text_same tp.stage stage then tp ∷ rest else rest

unfoldable pub testpoints_for_stage : Text → Testplan → List Testpoint
testpoints_for_stage stage plan = of_stage stage (iter_testpoints plan)

unfoldable pub add_testpoint : Testpoint → Testplan → Testplan
add_testpoint tp plan = invalidate_index (record plan { testpoints = plan.testpoints ++ tp ∷ [] })

-- `_ORDER.get(stage, 99)`; testplan_closure.py has the same table as `_STAGE_ORDER`.
unfoldable pub stage_rank : Text → ℕ
stage_rank stage =
    if text_same stage (codes "V1")
    then 0
    else if text_same stage (codes "V2")
    then 1
    else if text_same stage (codes "V2S")
    then 2
    else if text_same stage (codes "V3")
    then 3
    else 99

-- dict.fromkeys(tp.stage for tp in …): the stages in order of first appearance.
unfoldable pub distinct_stages : List Testpoint → Dict Text Text → Dict Text Text
distinct_stages [] d = d
distinct_stages (tp ∷ tps) d = distinct_stages tps (put tp.stage tp.stage d)

-- sorted(…, key=rank), which keeps the order of equal ranks.
unfoldable pub insert_stage : Text → List Text → List Text
insert_stage s [] = s ∷ []
insert_stage s (t ∷ ts) =
    if ltb (stage_rank s) (stage_rank t) then s ∷ t ∷ ts else t ∷ insert_stage s ts

unfoldable pub sort_stages : Dict Text Text → List Text → List Text
sort_stages [] sorted = sorted
sort_stages ((s, _) ∷ rest) sorted = sort_stages rest (insert_stage s sorted)

unfoldable pub stages : Testplan → List Text
stages plan = sort_stages (distinct_stages (iter_testpoints plan) []) []
