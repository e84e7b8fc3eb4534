-- ===== src/Testplan/Current.antt =====
-- testplan.py: the lazy indexes always stand for the test points that the plan has now.
use covsight_core.Prelude.{
  ◌≡◌, ◌⊎◌, inl, inr, List, [], ◌∷◌, ◌++◌, Bool, true, false, Option, none, some, if◌then◌else◌,
  arith, refl, sym, ap, ◌∙◌, append_assoc, append-nil,
}
use covsight_core.Prelude.Text.{Text, text_same, text_key}
use covsight_core.Prelude.Dict.{Dict, lookup, put, lookup-put}
use covsight_core.Testplan.{Testpoint, Testplan, iter_testpoints, iter_goal_testpoints}
use covsight_core.Testplan.Index.{
  index_names, index_tests, build_indices, ensure_indexed, invalidate_index, get_testpoint,
  testpoint_for_test, add_testpoint,
}

-- The indexes are not built, or they are those of the present test points.
abbrev pub IsCurrent : Testplan → Type 0
IsCurrent plan =
    (plan.indexed ≡ false)
    ⊎ ((plan.tp_by_name ≡ index_names (iter_testpoints plan) [])
        × (plan.tp_by_test ≡ index_tests (iter_testpoints plan) []))

-- The last test point of a name.
abbrev pub or_else : Option Testpoint → Option Testpoint → Option Testpoint
or_else none other = other
or_else (some tp) other = some tp

abbrev pub last_named : Text → List Testpoint → Option Testpoint
last_named name [] = none
last_named name (tp ∷ tps) =
    or_else (last_named name tps) (if text_same tp.name name then some tp else none)

lookup-index_names :
    (name : Text) (tps : List Testpoint) (d : Dict Text Testpoint)
    → lookup name (index_names tps d) ≡ or_else (last_named name tps) (lookup name d)
unfolding index_names
lookup-index_names name [] d = refl
lookup-index_names name (tp ∷ tps) d =
    rw (lookup-index_names name tps (put tp.name tp d), lookup-put tp.name name tp d)
      (joined (last_named name tps) (text_same tp.name name) tp (lookup name d))
  where
    joined :
        (found : Option Testpoint) (b : Bool) (tp : Testpoint) (old : Option Testpoint)
        → or_else found (if b then some tp else old)
          ≡ or_else (or_else found (if b then some tp else none)) old
    joined none true tp old = refl
    joined none false tp old = refl
    joined (some x) b tp old = refl

pub ensure_indexed-names :
    (plan : Testplan)
    → IsCurrent plan
    → (ensure_indexed plan).tp_by_name ≡ index_names (iter_testpoints plan) []
unfolding ensure_indexed build_indices
ensure_indexed-names plan (inl stale) = rw stale
ensure_indexed-names plan (inr built) = ground (arith, built.0)

pub ensure_indexed-tests :
    (plan : Testplan)
    → IsCurrent plan
    → (ensure_indexed plan).tp_by_test ≡ index_tests (iter_testpoints plan) []
unfolding ensure_indexed build_indices
ensure_indexed-tests plan (inl stale) = rw stale
ensure_indexed-tests plan (inr built) = ground (arith, built.1)

pub iter-ensure_indexed :
    (plan : Testplan) → iter_testpoints (ensure_indexed plan) ≡ iter_testpoints plan
unfolding ensure_indexed build_indices iter_testpoints
iter-ensure_indexed plan = ground arith

pub ensure_indexed-IsCurrent : (plan : Testplan) → IsCurrent plan → IsCurrent (ensure_indexed plan)
ensure_indexed-IsCurrent plan h = inr (
  ensure_indexed-names plan h ∙ ap (λ tps. index_names tps []) (sym (iter-ensure_indexed plan)),
  ensure_indexed-tests plan h ∙ ap (λ tps. index_tests tps []) (sym (iter-ensure_indexed plan)),
)

-- What a user of a plan calls.
pub data Call : Type 0 where
  get : Text → Call
  owner_of : Text → Call
  add : Testpoint → Call

unfoldable pub call : Call → Testplan → Testplan
call (get name) plan = (get_testpoint name plan).0
call (owner_of test) plan = (testpoint_for_test test plan).0
call (add tp) plan = add_testpoint tp plan

unfoldable pub run : List Call → Testplan → Testplan
run [] plan = plan
run (c ∷ cs) plan = run cs (call c plan)

abbrev pub added : List Call → List Testpoint
added [] = []
added (get name ∷ cs) = added cs
added (owner_of test ∷ cs) = added cs
added (add tp ∷ cs) = tp ∷ added cs

abbrev pub Holds : List Testpoint → Testplan → Testplan → Type 0
Holds tps from plan =
    IsCurrent plan
    × (iter_testpoints plan ≡ (from.testpoints ++ tps) ++ iter_goal_testpoints from.goal_tree)

ensured-testpoints : (plan : Testplan) → (ensure_indexed plan).testpoints ≡ plan.testpoints
unfolding ensure_indexed build_indices
ensured-testpoints plan = ground arith

ensured-goals : (plan : Testplan) → (ensure_indexed plan).goal_tree ≡ plan.goal_tree
unfolding ensure_indexed build_indices
ensured-goals plan = ground arith

-- A look-up keeps what holds of the calls after it.
Holds-ensured :
    (tps : List Testpoint) (plan after : Testplan)
    → Holds tps (ensure_indexed plan) after
    → Holds tps plan after
Holds-ensured tps plan after h = (
  h.0,
  h.1
      ∙ ap (λ ts. (ts ++ tps) ++ iter_goal_testpoints (ensure_indexed plan).goal_tree)
          (ensured-testpoints plan)
      ∙ ap (λ gs. (plan.testpoints ++ tps) ++ iter_goal_testpoints gs) (ensured-goals plan),
)

run_lem :
    (calls : List Call) (plan : Testplan)
    → IsCurrent plan
    → Holds (added calls) plan (run calls plan)
unfolding run call iter_testpoints get_testpoint testpoint_for_test add_testpoint invalidate_index
run_lem [] plan h = (h, rw append-nil)
run_lem (get name ∷ cs) plan h =
    Holds-ensured (added cs) plan (run cs (ensure_indexed plan))
      (run_lem cs (ensure_indexed plan) (ensure_indexed-IsCurrent plan h))
run_lem (owner_of test ∷ cs) plan h =
    Holds-ensured (added cs) plan (run cs (ensure_indexed plan))
      (run_lem cs (ensure_indexed plan) (ensure_indexed-IsCurrent plan h))
run_lem (add tp ∷ cs) plan h =
    let rest = run_lem cs (add_testpoint tp plan) (inl refl) in
    (
      rest.0,
      rest.1
          ∙ ap (λ ts. ts ++ iter_goal_testpoints plan.goal_tree)
              (append_assoc plan.testpoints (tp ∷ []) (added cs)),
    )

or_else-none : (found : Option Testpoint) → or_else found none ≡ found
or_else-none none = refl
or_else-none (some tp) = refl

-- After any sequence of look-ups and additions on a plan whose indexes were not built, looking up a
-- name finds the last test point of that name among the plan's own, those added, and those of its goals.
pub get_testpoint-run :
    (name : Text) (calls : List Call) (plan : Testplan)
    → plan.indexed ≡ false
    → (get_testpoint name (run calls plan)).1
      ≡ last_named name ((plan.testpoints ++ added calls) ++ iter_goal_testpoints plan.goal_tree)
unfolding get_testpoint lookup
get_testpoint-run name calls plan h =
    let after = run_lem calls plan (inl h) in
    rw (ensure_indexed-names (run calls plan) after.0, after.1)
      (lookup-index_names name
          ((plan.testpoints ++ added calls) ++ iter_goal_testpoints plan.goal_tree) []
        ∙ or_else-none _)
