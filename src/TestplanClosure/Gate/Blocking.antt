-- ===== src/TestplanClosure/Gate/Blocking.antt =====
-- testplan_closure.py: what keeps a gate shut, for the closure of the plan itself.
use covsight_core.Prelude.{List, [], ◌∷◌, Bool, not, ◌&&◌, ◌||◌, leb, if◌then◌else◌}
use covsight_core.Prelude.Text.{Text, text_key}
use covsight_core.Prelude.Dict.{Dict}
use covsight_core.TestStats.{Floats}
use covsight_core.Testplan.{Testplan}
use covsight_core.Testplan.Index.{stage_rank}
use covsight_core.TestplanClosure.{TestpointResult}
use covsight_core.TestplanClosure.Gate.{admissible}

module _ (f : Floats) where
  -- A result that a gate must not let through: its stage is due, or all goals are, and its status is
  -- neither closed nor N/A nor unimplemented.
  abbrev pub at_fault : Bool → Text → TestpointResult f → Bool
  at_fault require_goals_closed stage r =
      (require_goals_closed || leb (stage_rank r.testpoint.stage) (stage_rank stage))
      && not (admissible r.status)

  abbrev pub only : (TestpointResult f → Bool) → List (TestpointResult f) → List (TestpointResult f)
  only p [] = []
  only p (r ∷ rs) = if p r then r ∷ only p rs else only p rs
