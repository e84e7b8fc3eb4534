-- ===== src/TestplanClosure/Gate.antt =====
-- testplan_closure.py: stage gates.
pub mod Blocking
use covsight_core.Prelude.{
  ℕ, zero, suc, ◌+◌, ◌-◌, ◌≤◌, ◌≡◌, ◌⊎◌, inl, inr, List, [], ◌∷◌, ◌++◌, Bool, true, false, not,
  ◌&&◌, ◌||◌, ◌==◌, leb, ltb, leb→le, if◌then◌else◌, any, length, take, map, All, All-mono, arith,
  refl, ap, sym, ◌∙◌, Bool-cases,
}
use covsight_core.Prelude.Text.{Text, codes, text_same, text_same_iff, text_key, decimal}
use covsight_core.Prelude.Dict.{Dict, lookup, put}
use covsight_core.TestStats.{Floats}
use covsight_core.Testplan.{Testpoint, Testplan, iter_testpoints}
use covsight_core.Testplan.Index.{stage_rank, distinct_stages, insert_stage, sort_stages, stages}
use covsight_core.TestplanClosure.{
  TpStatus, closed, partial, failing, not_run, na, unimplemented, Database, TestpointResult,
  compute_closure,
}
use covsight_core.TestplanClosure.Counted.{compute_closure-IsClosure}

-- stages_required
unfoldable pub required : ℕ → List Text → List Text
required target [] = []
required target (s ∷ ss) =
    let rest = required target ss in if leb (stage_rank s) target then s ∷ rest else rest

abbrev pub contains : List Text → Text → Bool
contains ss s = any (λ t. text_same t s) ss

-- r.status in (CLOSED, NA, UNIMPLEMENTED)
abbrev pub admissible : TpStatus → Bool
admissible closed = true
admissible partial = false
admissible failing = false
admissible not_run = false
admissible na = true
admissible unimplemented = true

-- ", ".join(names)
unfoldable pub join : List Text → Text
join [] = []
join (t ∷ []) = t
join (t ∷ u ∷ ts) = t ++ codes ", " ++ join (u ∷ ts)

module _ (f : Floats) where
  unfoldable pub blocked : Bool → List Text → List (TestpointResult f) → List (TestpointResult f)
  blocked require_goals_closed stages_required [] = []
  blocked require_goals_closed stages_required (r ∷ rs) =
      let rest = blocked require_goals_closed stages_required rs in
      if not require_goals_closed && not (contains stages_required r.testpoint.stage)
      then rest
      else if admissible r.status
      then rest
      else r ∷ rest

  pub record GateStatus : Type 0 where
    pub passed : Bool
    pub stage : Text
    pub blocking : List (TestpointResult f)
    pub message : Text

  unfoldable pub gate_message : Text → List (TestpointResult f) → Text
  gate_message stage [] = codes "Stage " ++ stage ++ codes " gate PASSED"
  gate_message stage (r ∷ rs) =
      codes "Stage "
      ++ stage
      ++ codes " gate FAILED — blocking: "
      ++ join (map (λ b. b.testpoint.name) (take 5 (r ∷ rs)))
      ++ (if ltb 5 (length (r ∷ rs))
          then codes " (+" ++ decimal (length (r ∷ rs) - 5) ++ codes " more)"
          else [])

  unfoldable pub stage_gate_status : List (TestpointResult f) → Text → Testplan → Bool → GateStatus
  stage_gate_status results stage plan require_goals_closed =
      let blocking =
        blocked require_goals_closed (required (stage_rank stage) (stages plan)) results in
      record {
        passed = length blocking == 0;
        stage = stage;
        blocking = blocking;
        message = gate_message stage blocking;
      }
