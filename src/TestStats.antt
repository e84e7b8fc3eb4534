-- ===== src/TestStats.antt =====
-- python/covsight/core/ncdb/test_stats.py: the running statistics of each test.
-- Floating-point numbers and their operations are the parameter `Floats`. The table and the update of
-- an entry are modelled; the queries that sort by a float and the bytes of test_stats.bin are not.
pub mod Replay
pub mod Table
use covsight_core.Prelude.{
  ℕ, zero, suc, ◌+◌, ◌-◌, max, List, [], ◌∷◌, ◌++◌, Bool, true, false, not, ◌&&◌, Option, none,
  some, ◌==◌, ltb, leb, if◌then◌else◌, any, length, get_elem?, set,
}
use covsight_core.Prelude.Int.{ℤ, pos, negsuc}
use covsight_core.ContribIndex.{hist_status_ok}

-- HIST_STATUS_FAIL
abbrev pub hist_status_fail : ℕ
hist_status_fail = 1

-- What the module does with floats: its literals, the quotient of two integers, and the arithmetic.
pub record Floats : Type 1 where
  pub Float : Type 0
  pub zero_point : Float
  pub one_point : Float
  pub cusum_k : Float
  pub cusum_h : Float
  pub hour : Float
  pub quotient : ℕ → ℕ → Float
  pub over : Float → ℕ → Float
  pub add : Float → Float → Float
  pub sub : Float → Float → Float
  pub mul : Float → Float → Float
  pub div : Float → Float → Float
  pub gt : Float → Float → Bool

pub record TestStatsEntry (Float : Type 0) : Type 0 where
  pub name_id : ℕ
  pub total_runs : ℕ
  pub pass_count : ℕ
  pub fail_count : ℕ
  pub error_count : ℕ
  pub first_ts : ℕ
  pub last_ts : ℕ
  pub last_green_ts : ℕ
  pub transition_count : ℕ
  pub streak : ℤ
  pub last_status : ℕ
  pub flake_score : Float
  pub fail_rate : Float
  pub mean_cpu_time : Float
  pub m2_cpu_time : Float
  pub cusum_value : Float
  pub cusum_ref_mean : Float
  pub grade_score : Float
  pub total_seeds_seen : ℕ
  pub known_seeds : List ℕ

-- A run: what `update` is given beside the name.
pub record TestRun (Float : Type 0) : Type 0 where
  pub status : ℕ
  pub ts : ℕ
  pub cpu_time : Option Float
  pub seed_id : Option ℕ

unfoldable pub longer_streak : ℤ → ℤ
longer_streak (pos n) = pos (suc n)
longer_streak (negsuc n) = pos 1

unfoldable pub shorter_streak : ℤ → ℤ
shorter_streak (pos zero) = negsuc 0
shorter_streak (pos (suc n)) = negsuc 0
shorter_streak (negsuc n) = negsuc (suc n)

module _ (f : Floats) where
  abbrev pub Entry : Type 0
  Entry = TestStatsEntry f.Float

  abbrev pub Run : Type 0
  Run = TestRun f.Float

  -- `max(a, b)`
  abbrev pub float_max : f.Float → f.Float → f.Float
  float_max a b = if f.gt b a then b else a

  abbrev pub outcome : ℕ → f.Float
  outcome status = if status == hist_status_fail then f.one_point else f.zero_point

  -- TestStatsEntry(name_id=nid)
  unfoldable pub new_entry : ℕ → Entry
  new_entry nid = record {
    name_id = nid;
    total_runs = 0;
    pass_count = 0;
    fail_count = 0;
    error_count = 0;
    first_ts = 0;
    last_ts = 0;
    last_green_ts = 0;
    transition_count = 0;
    streak = pos 0;
    last_status = hist_status_ok;
    flake_score = f.zero_point;
    fail_rate = f.zero_point;
    mean_cpu_time = f.zero_point;
    m2_cpu_time = f.zero_point;
    cusum_value = f.zero_point;
    cusum_ref_mean = f.zero_point;
    grade_score = f.zero_point;
    total_seeds_seen = 0;
    known_seeds = [];
  }

  -- The sections of `update`, in order.
  unfoldable pub count_total : Run → Entry → Entry
  count_total r e = record e {
    total_runs = suc e.total_runs;
    first_ts = if e.total_runs == 0 then r.ts else e.first_ts;
    cusum_ref_mean = if e.total_runs == 0 then outcome r.status else e.cusum_ref_mean;
    last_ts = max e.last_ts r.ts;
  }

  unfoldable pub count_outcome : Run → Entry → Entry
  count_outcome r e =
      if r.status == hist_status_ok
      then record e { pass_count = suc e.pass_count; last_green_ts = max e.last_green_ts r.ts }
      else if r.status == hist_status_fail
      then record e { fail_count = suc e.fail_count }
      else record e { error_count = suc e.error_count }

  unfoldable pub track_streak : Run → Entry → Entry
  track_streak r e = record e {
    streak = if r.status == hist_status_ok then longer_streak e.streak else shorter_streak e.streak;
  }

  unfoldable pub track_transition : Run → Entry → Entry
  track_transition r e = record e {
    transition_count =
        if ltb 1 e.total_runs && not (r.status == e.last_status)
        then suc e.transition_count
        else e.transition_count;
    last_status = r.status;
  }

  unfoldable pub derive_rates : Entry → Entry
  derive_rates e = record e {
    flake_score = f.quotient e.transition_count (max (e.total_runs - 1) 1);
    fail_rate = f.quotient e.fail_count e.total_runs;
  }

  unfoldable pub welford : Run → Entry → Entry
  welford r e = elim r.cpu_time [
    | none ↦ e
    | some cpu ↦
        let delta = f.sub cpu e.mean_cpu_time in
        let mean = f.add e.mean_cpu_time (f.over delta e.total_runs) in
        record e {
          mean_cpu_time = mean;
          m2_cpu_time = f.add e.m2_cpu_time (f.mul delta (f.sub cpu mean));
        }
  ]

  unfoldable pub cusum : Run → Entry → Entry
  cusum r e =
      let moved =
        float_max f.zero_point
          (f.sub (f.add e.cusum_value (outcome r.status)) (f.add e.cusum_ref_mean f.cusum_k)) in
      record e { cusum_value = if f.gt moved f.cusum_h then f.zero_point else moved }

  abbrev pub add_seed : ℕ → List ℕ → List ℕ
  add_seed seed known = if any (λ s. s == seed) known then known else seed ∷ known

  unfoldable pub track_seed : Run → Entry → Entry
  track_seed r e = elim r.seed_id [
    | none ↦ e
    | some seed ↦ record e {
      known_seeds = add_seed seed e.known_seeds;
      total_seeds_seen = length (add_seed seed e.known_seeds);
    }
  ]

  unfoldable pub grade : Entry → Entry
  grade e =
      let pass_rate = f.quotient e.pass_count e.total_runs in
      let stability = f.sub f.one_point e.flake_score in
      let speed =
        if f.gt e.mean_cpu_time f.zero_point
        then float_max f.zero_point (f.sub f.one_point (f.div e.mean_cpu_time f.hour))
        else f.one_point in
      record e { grade_score = f.mul (f.mul pass_rate stability) speed }

  unfoldable pub update_entry : Run → Entry → Entry
  update_entry r e = grade (
      track_seed r (
        cusum r (
          welford r (
            derive_rates
              (track_transition r (track_streak r (count_outcome r (count_total r e))))))))

  -- The entries that `_ensure` appends, from the given name on.
  unfoldable pub new_entries : ℕ → ℕ → List Entry
  new_entries nid zero = []
  new_entries nid (suc n) = new_entry nid ∷ new_entries (suc nid) n

  unfoldable pub ensure : ℕ → List Entry → List Entry
  ensure name_id entries = entries ++ new_entries (length entries) (suc name_id - length entries)

  unfoldable pub update_at : ℕ → Run → List Entry → List Entry
  update_at name_id r [] = []
  update_at zero r (e ∷ entries) = update_entry r e ∷ entries
  update_at (suc name_id) r (e ∷ entries) = e ∷ update_at name_id r entries

  unfoldable pub update : ℕ → Run → List Entry → List Entry
  update name_id r entries = update_at name_id r (ensure name_id entries)

  unfoldable pub get : ℕ → List Entry → Option Entry
  get name_id entries = if ltb name_id (length entries) then get_elem? entries name_id else none
