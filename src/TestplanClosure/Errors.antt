-- ===== src/TestplanClosure/Errors.antt =====
-- testplan_closure.py: what the closure makes of a test whose runs all ended in an error.
use covsight_core.Prelude.{ℕ, ◌≡◌, List, [], ◌∷◌, Bool, true, false, All, arith, refl, ap, ◌∙◌}
use covsight_core.Prelude.Text.{Text, text_same_iff, text_key}
use covsight_core.Prelude.Dict.{lookup, put}
use covsight_core.TestStats.{Floats, Run}
use covsight_core.TestStats
use covsight_core.TestStats.Replay.{replay, is_pass, is_fail, is_error, number, replay-IsSummary}
use covsight_core.Testplan.{Testpoint}
use covsight_core.TestplanClosure.{
  closed, Outcomes, Tally, known, count_test, count_pattern, count_patterns, no_tally, tally_status,
  Database, registry, outcomes, add_names, close, close_tests,
}
use covsight_core.TestplanClosure.Counted.{close-used}

-- A name that the passes and fails know is counted literally.
count_pattern-literal :
    (o : Outcomes) (t : Text) (y : Tally)
    → known o t ≡ true
    → count_pattern o t y ≡ count_test o t y
unfolding count_pattern
count_pattern-literal o t y h = rw h

abbrev one_test : Text → ℕ → ℕ → Outcomes
one_test name passes fails = record {
  test_pass = (name, passes) ∷ [];
  test_fail = (name, fails) ∷ [];
}

one_test-status :
    (name : Text) (passes fails : ℕ)
    → fails ≡ 0
    → tally_status
        (count_patterns (one_test name passes fails) (name ∷ []) no_tally).matched
        (count_patterns (one_test name passes fails) (name ∷ []) no_tally).passes
        (count_patterns (one_test name passes fails) (name ∷ []) no_tally).fails
      ≡ closed
unfolding tally_status count_patterns count_test lookup
one_test-status name passes fails h =
    rw (count_pattern-literal (one_test name passes fails) name no_tally there)
      (ground (arith, text_same_iff name name))
  where
    there : known (one_test name passes fails) name ≡ true
    there = ground (arith, text_same_iff name name)

module _ (f : Floats) where
  numbers-errors :
      (rs : List (Run f))
      → All (λ r. is_error f r ≡ true) rs
      → (number f (is_pass f) rs ≡ 0) × (number f (is_fail f) rs ≡ 0)
  numbers-errors [] h = (refl, refl)
  numbers-errors (r ∷ rs) h = ground (arith, numbers-errors rs h.1)

  module _ (fnmatch : Text → Text → Bool) where
    -- A test point with one test, all of whose runs ended in an error, counts as closed: the closure
    -- reads passes and fails and no errors. This is for a test point that is not N/A and a history
    -- that holds that one test.
    pub close-errors :
        (db : Database f) (tp : Testpoint) (name : Text) (rs : List (Run f))
        → db.history ≡ registry (name ∷ []) (replay f 0 rs ∷ [])
        → tp.na ≡ false
        → tp.tests ≡ name ∷ []
        → All (λ r. is_error f r ≡ true) rs
        → (close f fnmatch db (outcomes f db.history) tp).status ≡ closed
    unfolding close_tests outcomes add_names put TestStats.get
    close-errors db tp name rs stored used listed errors =
        ap (λ r. r.status) (close-used f fnmatch db (outcomes f db.history) tp used)
        ∙ ap (λ ts. (close_tests f fnmatch db (outcomes f db.history) tp ts).status) listed
        ∙ ap (λ h. (close_tests f fnmatch db (outcomes f h) tp (name ∷ [])).status) stored
        ∙ one_outcome
      where
        one_outcome :
            (close_tests f fnmatch db
              (outcomes f (registry (name ∷ []) (replay f 0 rs ∷ [])))
              tp
              (name ∷ [])).status
            ≡ closed
        one_outcome =
            one_test-status name (replay f 0 rs).pass_count (replay f 0 rs).fail_count
              ((replay-IsSummary f 0 rs).fails ∙ (numbers-errors rs errors).1)
