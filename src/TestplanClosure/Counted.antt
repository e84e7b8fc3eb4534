-- ===== src/TestplanClosure/Counted.antt =====
-- testplan_closure.py: the results are those of the plan's test points, and their status fits the counts.
use mathlib.Core.Path.{ap₂, subst}
use covsight_core.Prelude.{
  ℕ, ◌+◌, ◌≡◌, ◌≢◌, ◌↔◌, ◌⊎◌, In, sym, inl, inr, List, [], ◌∷◌, ◌++◌, Bool, true, false, not, ◌&&◌,
  ◌==◌, if◌then◌else◌, any, map, All, All-append, All-mono, arith, refl, ap, ◌∙◌, Bool-cases,
}
use covsight_core.Prelude.Text.{Text, codes, text_same, text_same_iff, text_key}
use covsight_core.Prelude.Dict.{Dict, lookup}
use covsight_core.TestStats.{Floats}
use covsight_core.Testplan.{Testpoint, Testplan, iter_testpoints}
use covsight_core.Testplan.Index.{starts_with, ends_with, but_last, strip_seed}
use covsight_core.TestplanClosure.{
  TpStatus, closed, partial, failing, not_run, na, unimplemented, count_of, has, Outcomes, keys,
  without, Tally, no_tally, known, count_test, count_prefix, candidates, count_pattern,
  count_patterns, tally_status, Database, TestpointResult, close, close_tests, close_all, uncounted,
  outcomes, compute_closure,
}
use covsight_core.TestplanClosure.Picked.{Picked, count_patterns-In}

abbrev pub sum_of : (Text → ℕ) → List Text → ℕ
sum_of g [] = 0
sum_of g (t ∷ ts) = g t + sum_of g ts

sum_of-snoc :
    (g : Text → ℕ) (ts : List Text) (t : Text) → sum_of g (ts ++ t ∷ []) ≡ sum_of g ts + g t
sum_of-snoc g [] t = omega arith
sum_of-snoc g (s ∷ ts) t = omega (arith, sum_of-snoc g ts t)

sum_of-zero : (g : Text → ℕ) (ts : List Text) → sum_of g ts ≡ 0 → All (λ t. g t ≡ 0) ts
sum_of-zero g [] h = tt
sum_of-zero g (t ∷ ts) h = (omega arith, sum_of-zero g ts (omega arith))

has-cons : (t k : Text) (n : ℕ) (d : Dict Text ℕ) → has t d ≡ true → has t ((k, n) ∷ d) ≡ true
unfolding lookup
has-cons t k n d h = ground arith

keys-has : (d : Dict Text ℕ) → All (λ t. has t d ≡ true) (keys d)
unfolding keys lookup
keys-has [] = tt
keys-has ((k, n) ∷ d) =
    (ground (arith, text_same_iff k k), All-mono (λ t. has-cons t k n d) (keys d) (keys-has d))

module _ (o : Outcomes) where
  abbrev pub passes_of : Text → ℕ
  passes_of t = count_of t o.test_pass

  abbrev pub fails_of : Text → ℕ
  fails_of t = count_of t o.test_fail

  -- The counts of a tally are the sums over its tests, and the database knows each of them.
  pub record IsTally (y : Tally) : Type 0 where
    pub passes_sum : y.passes ≡ sum_of passes_of y.matched
    pub fails_sum : y.fails ≡ sum_of fails_of y.matched
    pub all_known : All (λ t. known o t ≡ true) y.matched

  count_test-IsTally :
      (t : Text) (y : Tally) → known o t ≡ true → IsTally y → IsTally (count_test o t y)
  unfolding count_test
  count_test-IsTally t y k h = record {
    passes_sum = omega (arith, h.passes_sum, sum_of-snoc passes_of y.matched t);
    fails_sum = omega (arith, h.fails_sum, sum_of-snoc fails_of y.matched t);
    all_known = All-append (λ t. known o t ≡ true) y.matched (t ∷ []) h.all_known (k, tt);
  }

  count_prefix-IsTally :
      (prefix : Text) (ts : List Text) (y : Tally)
      → All (λ t. known o t ≡ true) ts
      → IsTally y
      → IsTally (count_prefix o prefix ts y)
  unfolding count_prefix
  count_prefix-IsTally prefix [] y ks h = h
  count_prefix-IsTally prefix (t ∷ ts) y ks h =
      elim (Bool-cases (starts_with prefix t && not (any (text_same t) y.matched))) [
        | inl hit ↦
            rw hit (
              count_prefix-IsTally prefix ts (count_test o t y) ks.1
                (count_test-IsTally t y ks.0 h))
        | inr miss ↦ rw miss (count_prefix-IsTally prefix ts y ks.1 h)
      ]

  without-known :
      (d : Dict Text ℕ) (ts : List Text)
      → All (λ t. known o t ≡ true) ts
      → All (λ t. known o t ≡ true) (without d ts)
  unfolding without
  without-known d [] h = tt
  without-known d (t ∷ ts) h = elim (Bool-cases (has t d)) [
    | inl there ↦ rw there (without-known d ts h.1)
    | inr missing ↦ rw missing (h.0, without-known d ts h.1)
  ]

  candidates-known : All (λ t. known o t ≡ true) (candidates o)
  candidates-known =
      All-append (λ t. known o t ≡ true) (keys o.test_pass) (without o.test_pass (keys o.test_fail))
        (All-mono (λ t h. in_pass t h) (keys o.test_pass) (keys-has o.test_pass))
        (without-known o.test_pass (keys o.test_fail)
          (All-mono (λ t h. in_fail t h) (keys o.test_fail) (keys-has o.test_fail)))
    where
      in_pass : (t : Text) → has t o.test_pass ≡ true → known o t ≡ true
      in_pass t h = rw h

      in_fail : (t : Text) → has t o.test_fail ≡ true → known o t ≡ true
      in_fail t h = ground arith

  count_pattern-IsTally : (p : Text) (y : Tally) → IsTally y → IsTally (count_pattern o p y)
  unfolding count_pattern
  count_pattern-IsTally p y h = elim (Bool-cases (known o p)) [
    | inl literal ↦ rw literal (count_test-IsTally p y literal h)
    | inr other ↦ elim (Bool-cases (not (text_same (strip_seed p) p) && known o (strip_seed p))) [
      | inl stripped ↦ rw (other, stripped) (count_test-IsTally (strip_seed p) y (ground arith) h)
      | inr neither ↦ elim (Bool-cases (ends_with (codes "_*") p)) [
        | inl wild ↦
            rw (other, neither, wild)
              (count_prefix-IsTally (but_last p) (candidates o) y candidates-known h)
        | inr none_left ↦ rw (other, neither, none_left) h
      ]
    ]
  ]

  count_patterns-IsTally :
      (ps : List Text) (y : Tally) → IsTally y → IsTally (count_patterns o ps y)
  unfolding count_patterns
  count_patterns-IsTally [] y h = h
  count_patterns-IsTally (p ∷ ps) y h =
      count_patterns-IsTally ps (count_pattern o p y) (count_pattern-IsTally p y h)

-- The tests matched are those that the patterns of the test point stand for.
abbrev pub Matched : Outcomes → List Text → List Text → Type 0
Matched o tests ts = (t : Text) → In t ts ↔ Picked o tests t

patterns-Matched :
    (o : Outcomes) (ps : List Text) → Matched o ps (count_patterns o ps no_tally).matched
patterns-Matched o ps t = (
  (λ h. new ((count_patterns-In o ps no_tally t).0 h)),
  (λ h. (count_patterns-In o ps no_tally t).1 (inr h)),
)
  where
    new : In t [] ⊎ Picked o ps t → Picked o ps t
    new (inl none) = absurd none
    new (inr h) = h

-- What each status says of a test point, the tests that it matched and their counts.
abbrev pub Fits : Outcomes → Testpoint → Tally → TpStatus → Type 0
Fits o tp y na = tp.na ≡ true
Fits o tp y unimplemented = (tp.na ≡ false) × (tp.tests ≡ [])
Fits o tp y not_run =
    (tp.na ≡ false) × (tp.tests ≢ []) × Matched o tp.tests y.matched × (y.matched ≡ [])
Fits o tp y closed =
    (tp.na ≡ false)
    × Matched o tp.tests y.matched
    × (y.matched ≢ [])
    × All (λ t. fails_of o t ≡ 0) y.matched
Fits o tp y failing =
    (tp.na ≡ false)
    × Matched o tp.tests y.matched
    × (y.fails ≢ 0)
    × All (λ t. passes_of o t ≡ 0) y.matched
Fits o tp y partial =
    (tp.na ≡ false) × Matched o tp.tests y.matched × (y.fails ≢ 0) × (y.passes ≢ 0)

module _ (f : Floats) (fnmatch : Text → Text → Bool) where
  abbrev pub tally_of : TestpointResult f → Tally
  tally_of r = record { matched = r.matched_tests; passes = r.pass_count; fails = r.fail_count }

  abbrev pub IsClosure : Outcomes → TestpointResult f → Type 0
  IsClosure o r = IsTally o (tally_of r) × Fits o r.testpoint (tally_of r) r.status

  no_tally-IsTally : (o : Outcomes) → IsTally o no_tally
  no_tally-IsTally o = record { passes_sum = refl; fails_sum = refl; all_known = tt }

  tally_status-Fits :
      (o : Outcomes) (tp : Testpoint) (ts : List Text) (passes fails : ℕ)
      → tp.na ≡ false
      → tp.tests ≢ []
      → Matched o tp.tests ts
      → IsTally o (record { matched = ts; passes = passes; fails = fails })
      → Fits o tp
          (record { matched = ts; passes = passes; fails = fails })
          (tally_status ts passes fails)
  unfolding tally_status
  tally_status-Fits o tp [] passes fails used listed m h = (used, listed, m, refl)
  tally_status-Fits o tp (t ∷ ts) passes fails used listed m h = elim (Bool-cases (fails == 0)) [
    | inl no_fail ↦
        rw no_fail
          (used, m, (λ e. cc), sum_of-zero (fails_of o) (t ∷ ts) (ground (arith, h.fails_sum)))
    | inr failed ↦ elim (Bool-cases (passes == 0)) [
      | inl no_pass ↦
          rw (failed, no_pass)
            (
              used,
              m,
              (λ e. ground arith),
              sum_of-zero (passes_of o) (t ∷ ts) (ground (arith, h.passes_sum)),
            )
      | inr passed ↦ rw (failed, passed) (used, m, (λ e. ground arith), (λ e. ground arith))
    ]
  ]

  close_tests-IsClosure :
      (db : Database f) (o : Outcomes) (tp : Testpoint) (ts : List Text)
      → tp.na ≡ false
      → tp.tests ≡ ts
      → IsClosure o (close_tests f fnmatch db o tp ts)
  unfolding close_tests
  close_tests-IsClosure db o tp [] used e = (no_tally-IsTally o, (used, e))
  close_tests-IsClosure db o tp (t ∷ ts) used e =
      let counted = count_patterns-IsTally o (t ∷ ts) no_tally (no_tally-IsTally o) in
      let matched =
        subst (λ ps. Matched o ps (count_patterns o (t ∷ ts) no_tally).matched) (sym e)
          (patterns-Matched o (t ∷ ts)) in
      (counted, tally_status-Fits o tp _ _ _ used (λ empty. cc) matched counted)

  close-na :
      (db : Database f) (o : Outcomes) (tp : Testpoint)
      → tp.na ≡ true
      → close f fnmatch db o tp ≡ uncounted f fnmatch tp na
  unfolding close
  close-na db o tp h =
      ap (λ b. if b then uncounted f fnmatch tp na else close_tests f fnmatch db o tp tp.tests) h

  pub close-used :
      (db : Database f) (o : Outcomes) (tp : Testpoint)
      → tp.na ≡ false
      → close f fnmatch db o tp ≡ close_tests f fnmatch db o tp tp.tests
  unfolding close
  close-used db o tp h =
      ap (λ b. if b then uncounted f fnmatch tp na else close_tests f fnmatch db o tp tp.tests) h

  close-IsClosure :
      (db : Database f) (o : Outcomes) (tp : Testpoint) → IsClosure o (close f fnmatch db o tp)
  close-IsClosure db o tp = elim (Bool-cases tp.na) [
    | inl skipped ↦ rw (close-na db o tp skipped) (no_tally-IsTally o, skipped)
    | inr used ↦ rw (close-used db o tp used) (close_tests-IsClosure db o tp tp.tests used refl)
  ]

  close_tests-testpoint :
      (db : Database f) (o : Outcomes) (tp : Testpoint) (ts : List Text)
      → (close_tests f fnmatch db o tp ts).testpoint ≡ tp
  unfolding close_tests
  close_tests-testpoint db o tp [] = refl
  close_tests-testpoint db o tp (t ∷ ts) = refl

  close-testpoint :
      (db : Database f) (o : Outcomes) (tp : Testpoint) → (close f fnmatch db o tp).testpoint ≡ tp
  close-testpoint db o tp = elim (Bool-cases tp.na) [
    | inl skipped ↦ ap (λ r. r.testpoint) (close-na db o tp skipped)
    | inr used ↦
        ap (λ r. r.testpoint) (close-used db o tp used) ∙ close_tests-testpoint db o tp tp.tests
  ]

  close_all_lem :
      (db : Database f) (o : Outcomes) (tps : List Testpoint)
      → (map (λ r. r.testpoint) (close_all f fnmatch db o tps) ≡ tps)
        × All (IsClosure o) (close_all f fnmatch db o tps)
  unfolding close_all
  close_all_lem db o [] = (refl, tt)
  close_all_lem db o (tp ∷ tps) =
      let rest = close_all_lem db o tps in
      (ap₂ (◌∷◌) (close-testpoint db o tp) rest.0, (close-IsClosure db o tp, rest.1))

  -- The closure has one result for each test point of the plan, in its order. The tests that a counted
  -- result matched are exactly those that a pattern of the test point stands for: the test that it
  -- names, or else names without its seed, or else those with its prefix if it ends in `_*`. The counts
  -- of a result are the sums over these tests, each of which the test history knows. N/A and
  -- unimplemented test points are those marked and those with no tests; not run is one whose patterns
  -- stand for no test; closed is one with a matched test and no fail of any of them; failing is one with
  -- a fail and no pass of any of them; partial is one with both.
  pub compute_closure-IsClosure :
      (plan : Testplan) (db : Database f)
      → (map (λ r. r.testpoint) (compute_closure f fnmatch plan db) ≡ iter_testpoints plan)
        × All (IsClosure (outcomes f db.history)) (compute_closure f fnmatch plan db)
  unfolding compute_closure
  compute_closure-IsClosure plan db =
      close_all_lem db (outcomes f db.history) (iter_testpoints plan)
