-- ===== src/Tests/Plans.antt =====
-- Test statistics, test plans and their closure at concrete inputs. Floats are numbers here.
use covsight_core.Prelude.{
  ℕ, ◌+◌, ◌-◌, ◌*◌, ◌/◌, ◌≡◌, ◌↔◌, List, [], ◌∷◌, ◌++◌, true, false, Bool, none, some, ok, refl,
  ltb, if◌then◌else◌, inl, All, map,
}
use covsight_core.Prelude.Text.{Text, codes}
use covsight_core.Prelude.Json.{end, field, null}
use covsight_core.TestStats.{Floats, Run, get}
use covsight_core.TestStats.Replay.{IsSummary, replay, replay-IsSummary}
use covsight_core.TestStats.Table.{table, runs_of, size, get-table}
use covsight_core.Waivers.{Waiver}
use covsight_core.Waivers.Glob.{Piece, glob_match}
use covsight_core.Waivers.Spelling.{Matches}
use covsight_core.Waivers.Pieces.{Parses, glob_match-Parses}
use covsight_core.Testplan.{
  Testpoint, GoalHead, goal, no_goals, goals, Testplan, iter_testpoints, iter_goal_testpoints,
}
use covsight_core.Testplan.Dicts.{to_dict, from_dict}
use covsight_core.Testplan.RoundTrip.{unindexed, from_dict-to_dict}
use covsight_core.Testplan.Index.{get_testpoint, testpoint_for_test}
use covsight_core.Testplan.Current.{
  Call, get as look_up, add, added, run, last_named, get_testpoint-run,
}
use covsight_core.Testplan.Owner.{Answers, testpoint_for_test-Answers}
use covsight_core.TestplanClosure.{
  Database, registry, nodes, node_ok, node_other, closed, outcomes, close, compute_closure,
}
use covsight_core.TestplanClosure.Counted.{IsClosure, compute_closure-IsClosure}
use covsight_core.TestplanClosure.Errors.{close-errors}

abbrev whole_numbers : Floats
whole_numbers = record {
  Float = ℕ;
  zero_point = 0;
  one_point = 1;
  cusum_k = 1;
  cusum_h = 4;
  hour = 3600;
  quotient = λ a b. a / b;
  over = λ a b. a / b;
  add = λ a b. a + b;
  sub = λ a b. a - b;
  mul = λ a b. a * b;
  div = λ a b. a / b;
  gt = λ a b. ltb b a;
}

abbrev run_of : ℕ → ℕ → Run whole_numbers
run_of status ts = record { status = status; ts = ts; cpu_time = some 7; seed_id = some 1 }

abbrev three_runs : List (Run whole_numbers)
three_runs = run_of 1 30 ∷ run_of 0 20 ∷ run_of 0 10 ∷ []

replay-IsSummary_example : IsSummary whole_numbers three_runs (replay whole_numbers 4 three_runs)
replay-IsSummary_example = replay-IsSummary whole_numbers 4 three_runs

abbrev three_calls : List (ℕ × Run whole_numbers)
three_calls = (2, run_of 1 30) ∷ (0, run_of 0 20) ∷ (2, run_of 0 10) ∷ []

get-table_example : get whole_numbers 2 (table whole_numbers three_calls) ≡ (
    if ltb 2 (size whole_numbers three_calls)
    then some (replay whole_numbers 2 (runs_of whole_numbers 2 three_calls))
    else none)
get-table_example = get-table whole_numbers 2 three_calls

abbrev point : Text → Text → List Text → Testpoint
point name stage tests = record {
  name = name;
  stage = stage;
  desc = [];
  tests = tests;
  tags = [];
  na = false;
  source_template = [];
  requirements = [];
  coverage = [];
  owner = [];
  priority = [];
  weight = 1;
  custom = field "note" null end;
}

abbrev head : List Testpoint → GoalHead
head tps = record {
  id = codes "g";
  title = [];
  desc = [];
  owner = [];
  priority = [];
  status = codes "planned";
  tags = codes "chip" ∷ [];
  testpoints = tps;
  custom = end;
}

abbrev smoke : Testpoint
smoke = point (codes "smoke") (codes "V1") (codes "uart_smoke" ∷ [])

abbrev stress : Testpoint
stress = point (codes "stress") (codes "V2") (codes "uart_stress_*" ∷ [])

abbrev uart : Testplan
uart = record {
  format_version = 1;
  schema = [];
  name = codes "uart";
  description = [];
  owner = [];
  tags = [];
  substitutions = end;
  imports = [];
  source_file = [];
  import_timestamp = [];
  testpoints = smoke ∷ [];
  goal_tree = goals (goal (head []) (goals (goal (head (stress ∷ [])) no_goals) no_goals)) no_goals;
  covergroups = [];
  custom = end;
  tp_by_name = [];
  tp_by_test = [];
  indexed = false;
}

from_dict-to_dict_example : from_dict (to_dict uart) ≡ ok (unindexed uart)
from_dict-to_dict_example = from_dict-to_dict uart

abbrev calls : List Call
calls = look_up (codes "smoke") ∷ add (point (codes "reset") (codes "V1") []) ∷ []

get_testpoint-run_example :
    (get_testpoint (codes "reset") (run calls uart)).1
    ≡ last_named
        (codes "reset")
        ((uart.testpoints ++ added calls) ++ iter_goal_testpoints uart.goal_tree)
get_testpoint-run_example = get_testpoint-run (codes "reset") calls uart refl

testpoint_for_test-Answers_example :
    Answers
      (codes "uart_stress_7")
      (iter_testpoints uart)
      (testpoint_for_test (codes "uart_stress_7") uart).1
testpoint_for_test-Answers_example =
    testpoint_for_test-Answers (codes "uart_stress_7") uart (inl refl)

abbrev never : Text → Text → Bool
never p pattern = false

abbrev two_nodes : Database whole_numbers
two_nodes = record {
  history = nodes ((codes "uart_smoke", node_ok) ∷ (codes "uart_stress_rx", node_other) ∷ []);
  coverage_items = [];
  coverage_percent = λ p. none;
}

compute_closure-IsClosure_example :
    (map (λ r. r.testpoint) (compute_closure whole_numbers never uart two_nodes)
      ≡ iter_testpoints uart)
    × All
        (IsClosure whole_numbers never (outcomes whole_numbers two_nodes.history))
        (compute_closure whole_numbers never uart two_nodes)
compute_closure-IsClosure_example = compute_closure-IsClosure whole_numbers never uart two_nodes

abbrev erred : List (Run whole_numbers)
erred = run_of 2 20 ∷ run_of 2 10 ∷ []

abbrev erred_only : Database whole_numbers
erred_only = record {
  history = registry (codes "uart_smoke" ∷ []) (replay whole_numbers 0 erred ∷ []);
  coverage_items = [];
  coverage_percent = λ p. none;
}

close-errors_example :
    (close whole_numbers never erred_only (outcomes whole_numbers erred_only.history) smoke).status
    ≡ closed
close-errors_example =
    close-errors whole_numbers never erred_only smoke (codes "uart_smoke") erred refl refl refl
      (refl, (refl, tt))

abbrev waiver : Waiver
waiver = record {
  id = codes "W-001";
  scope_pattern = codes "top/*/fifo";
  bin_pattern = codes "*";
  rationale = [];
  approver = [];
  approved_at = [];
  expires_at = codes "2026-01-01";
  status = codes "active";
}

glob_match-Parses_example :
    (glob_match (codes "**/a*") (codes "x/y/ab") ≡ true)
    ↔ ((ps : List Piece) × Parses ps (codes "**/a*") × Matches ps (codes "x/y/ab"))
glob_match-Parses_example = glob_match-Parses (codes "**/a*") (codes "x/y/ab")
