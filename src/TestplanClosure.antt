-- ===== src/TestplanClosure.antt =====
-- python/covsight/core/ncdb/testplan_closure.py: the closure status of test points, and stage gates.
-- A database is what the functions ask of it: its test history, the paths of its coverage items (none
-- where it has no such method or the method raises) and their percentages. `fnmatch` is an argument.
pub mod Known
pub mod Picked
pub mod Counted
pub mod Gate
pub mod Errors
use covsight_core.Prelude.{
  ℕ, zero, suc, ◌+◌, ◌-◌, List, [], ◌∷◌, ◌++◌, Bool, true, false, not, ◌&&◌, ◌||◌, Option, none,
  some, ◌==◌, leb, ltb, if◌then◌else◌, any, length, take, get_or,
}
use covsight_core.Prelude.Text.{Text, codes, text_same, text_key, decimal}
use covsight_core.Prelude.Dict.{Dict, lookup, put}
use covsight_core.TestStats.{Floats, Entry}
use covsight_core.TestStats
use covsight_core.Testplan.{CoverageBinding, Testpoint, Testplan, iter_testpoints}
use covsight_core.Testplan.Index.{starts_with, ends_with, but_last, strip_seed, stage_rank, stages}

pub data TpStatus : Type 0 where
  closed partial failing not_run na unimplemented : TpStatus

-- node.getTestStatus(): OK, another status, or an exception.
pub data NodeStatus : Type 0 where
  node_ok node_other node_raises : NodeStatus

abbrev pub count_of : Text → Dict Text ℕ → ℕ
count_of t d = elim (lookup t d) [ none ↦ 0 | some n ↦ n ]

abbrev pub has : Text → Dict Text ℕ → Bool
has t d = elim (lookup t d) [ none ↦ false | some n ↦ true ]

-- test_pass and test_fail
pub record Outcomes : Type 0 where
  pub test_pass : Dict Text ℕ
  pub test_fail : Dict Text ℕ

unfoldable pub add_node : Text → NodeStatus → Outcomes → Outcomes
add_node name node_ok o = record o {
  test_pass = put name (suc (count_of name o.test_pass)) o.test_pass;
}
add_node name node_other o = record o {
  test_fail = put name (suc (count_of name o.test_fail)) o.test_fail;
}
add_node name node_raises o = record o {
  test_pass = put name (suc (count_of name o.test_pass)) o.test_pass;
}

unfoldable pub add_nodes : List (Text × NodeStatus) → Outcomes → Outcomes
add_nodes [] o = o
add_nodes ((name, status) ∷ nodes) o = add_nodes nodes (add_node name status o)

abbrev pub no_outcomes : Outcomes
no_outcomes = record { test_pass = []; test_fail = [] }

-- The loop over the wildcard's candidates: the names of test_pass, then the others of test_fail.
unfoldable pub keys : Dict Text ℕ → List Text
keys [] = []
keys ((k, n) ∷ d) = k ∷ keys d

unfoldable pub without : Dict Text ℕ → List Text → List Text
without d [] = []
without d (t ∷ ts) = let rest = without d ts in if has t d then rest else t ∷ rest

-- matched, passes and fails
pub record Tally : Type 0 where
  pub matched : List Text
  pub passes : ℕ
  pub fails : ℕ

abbrev pub no_tally : Tally
no_tally = record { matched = []; passes = 0; fails = 0 }

module _ (o : Outcomes) where
  abbrev pub known : Text → Bool
  known t = has t o.test_pass || has t o.test_fail

  unfoldable pub count_test : Text → Tally → Tally
  count_test t y = record {
    matched = y.matched ++ t ∷ [];
    passes = y.passes + count_of t o.test_pass;
    fails = y.fails + count_of t o.test_fail;
  }

  unfoldable pub count_prefix : Text → List Text → Tally → Tally
  count_prefix prefix [] y = y
  count_prefix prefix (t ∷ ts) y =
      count_prefix prefix ts
        (if starts_with prefix t && not (any (text_same t) y.matched) then count_test t y else y)

  abbrev pub candidates : List Text
  candidates = keys o.test_pass ++ without o.test_pass (keys o.test_fail)

  unfoldable pub count_pattern : Text → Tally → Tally
  count_pattern pattern y =
      if known pattern
      then count_test pattern y
      else if not (text_same (strip_seed pattern) pattern) && known (strip_seed pattern)
      then count_test (strip_seed pattern) y
      else if ends_with (codes "_*") pattern
      then count_prefix (but_last pattern) candidates y
      else y

  unfoldable pub count_patterns : List Text → Tally → Tally
  count_patterns [] y = y
  count_patterns (p ∷ ps) y = count_patterns ps (count_pattern p y)

-- The status of matched tests with their passes and fails.
unfoldable pub tally_status : List Text → ℕ → ℕ → TpStatus
tally_status [] passes fails = not_run
tally_status (t ∷ ts) passes fails =
    if fails == 0 then closed else if passes == 0 then failing else partial

module _ (f : Floats) where
  -- Where the test history stands: in the registry and the statistics, or in history nodes.
  pub data History : Type 0 where
    registry : List Text → List (Entry f) → History
    nodes : List (Text × NodeStatus) → History

  pub record Database : Type 0 where
    pub history : History
    pub coverage_items : List Text
    pub coverage_percent : Text → Option f.Float

  unfoldable pub add_names : ℕ → List Text → List (Entry f) → Outcomes → Outcomes
  add_names nid [] stats o = o
  add_names nid (name ∷ names) stats o =
      add_names (suc nid) names stats (elim (TestStats.get f nid stats) [
        | none ↦ o
        | some e ↦ record {
          test_pass = put name e.pass_count o.test_pass;
          test_fail = put name e.fail_count o.test_fail;
        }
      ])

  unfoldable pub outcomes : History → Outcomes
  outcomes (registry names stats) = add_names 0 names stats no_outcomes
  outcomes (nodes ns) = add_nodes ns no_outcomes

  pub record CoverageResult : Type 0 where
    pub binding_type : Text
    pub path_pattern : Text
    pub matched_paths : List Text
    pub coverage_pct : Option f.Float

  pub record TestpointResult : Type 0 where
    pub testpoint : Testpoint
    pub status : TpStatus
    pub matched_tests : List Text
    pub pass_count : ℕ
    pub fail_count : ℕ
    pub coverage_results : List CoverageResult

  module _ (fnmatch : Text → Text → Bool) where
    unfoldable pub matching : Text → List Text → List Text
    matching pattern [] = []
    matching pattern (p ∷ ps) =
        let rest = matching pattern ps in if fnmatch p pattern then p ∷ rest else rest

    abbrev pub is_glob : Text → Bool
    is_glob pattern = any (λ c. (c == b'*') || ((c == b'?') || (c == b'['))) pattern

    unfoldable pub matched_paths : Database → Text → List Text
    matched_paths db pattern =
        if is_glob pattern then matching pattern db.coverage_items else pattern ∷ []

    unfoldable pub percent_of_first : Database → List Text → Option f.Float
    percent_of_first db [] = none
    percent_of_first db (p ∷ ps) = db.coverage_percent p

    unfoldable pub bindings : Database → List CoverageBinding → List CoverageResult
    bindings db [] = []
    bindings db (b ∷ bs) =
        record {
          binding_type = b.type;
          path_pattern = b.path;
          matched_paths = matched_paths db b.path;
          coverage_pct = percent_of_first db (matched_paths db b.path);
        }
        ∷ bindings db bs

    unfoldable pub compute_coverage_binding : Testpoint → Database → List CoverageResult
    compute_coverage_binding tp db = bindings db tp.coverage

    abbrev pub uncounted : Testpoint → TpStatus → TestpointResult
    uncounted tp status = record {
      testpoint = tp;
      status = status;
      matched_tests = [];
      pass_count = 0;
      fail_count = 0;
      coverage_results = [];
    }

    -- The body of the loop, for a test point that is not N/A, on its tests.
    unfoldable pub close_tests : Database → Outcomes → Testpoint → List Text → TestpointResult
    close_tests db o tp [] = uncounted tp unimplemented
    close_tests db o tp (t ∷ ts) =
        let y = count_patterns o (t ∷ ts) no_tally in
        record {
          testpoint = tp;
          status = tally_status y.matched y.passes y.fails;
          matched_tests = y.matched;
          pass_count = y.passes;
          fail_count = y.fails;
          coverage_results = compute_coverage_binding tp db;
        }

    unfoldable pub close : Database → Outcomes → Testpoint → TestpointResult
    close db o tp = if tp.na then uncounted tp na else close_tests db o tp tp.tests

    unfoldable pub close_all : Database → Outcomes → List Testpoint → List TestpointResult
    close_all db o [] = []
    close_all db o (tp ∷ tps) = close db o tp ∷ close_all db o tps

    unfoldable pub compute_closure : Testplan → Database → List TestpointResult
    compute_closure plan db = close_all db (outcomes db.history) (iter_testpoints plan)
