-- ===== src/TestStats/Replay.antt =====
-- An entry after any sequence of runs, against what the sequence says.
use covsight_core.Prelude.{
  ℕ, suc, max, ◌≡◌, List, [], ◌∷◌, Bool, not, ◌&&◌, ◌==◌, ltb, if◌then◌else◌, length, arith, refl,
  Option-cases, inl, inr, ap,
}
use covsight_core.Prelude.Int.{ℤ, pos, negsuc}
use covsight_core.ContribIndex.{hist_status_ok}
use covsight_core.TestStats.{
  Floats, Entry, Run, hist_status_fail, new_entry, update_entry, count_total, count_outcome,
  track_streak, track_transition, derive_rates, welford, cusum, track_seed, grade, longer_streak,
  shorter_streak,
}

module _ (f : Floats) where
  -- The runs of a test, the newest first.
  unfoldable pub replay : ℕ → List (Run f) → Entry f
  replay nid [] = new_entry f nid
  replay nid (r ∷ older) = update_entry f r (replay nid older)

  abbrev pub is_pass : Run f → Bool
  is_pass r = r.status == hist_status_ok

  abbrev pub is_fail : Run f → Bool
  is_fail r = not (is_pass r) && (r.status == hist_status_fail)

  abbrev pub is_error : Run f → Bool
  is_error r = not (is_pass r) && not (r.status == hist_status_fail)

  -- How many runs pass a test; how many of the newest ones in a row do.
  abbrev pub number : (Run f → Bool) → List (Run f) → ℕ
  number p [] = 0
  number p (r ∷ older) = if p r then suc (number p older) else number p older

  abbrev pub leading : (Run f → Bool) → List (Run f) → ℕ
  leading p [] = 0
  leading p (r ∷ older) = if p r then suc (leading p older) else 0

  -- How often the status of a run differs from that of the run before it.
  abbrev pub changes : List (Run f) → ℕ
  changes [] = 0
  changes (r ∷ []) = 0
  changes (r ∷ s ∷ older) =
      if r.status == s.status then changes (s ∷ older) else suc (changes (s ∷ older))

  abbrev pub newest : List (Run f) → ℕ
  newest [] = 0
  newest (r ∷ older) = max (newest older) r.ts

  abbrev pub newest_pass : List (Run f) → ℕ
  newest_pass [] = 0
  newest_pass (r ∷ older) = if is_pass r then max (newest_pass older) r.ts else newest_pass older

  -- Passes in a row are positive, other runs in a row negative.
  abbrev pub streak_of : List (Run f) → ℤ
  streak_of [] = pos 0
  streak_of (r ∷ older) =
      if is_pass r
      then pos (suc (leading is_pass older))
      else negsuc (leading (λ s. not (is_pass s)) older)

  abbrev pub newest_status : List (Run f) → ℕ
  newest_status [] = hist_status_ok
  newest_status (r ∷ older) = r.status

  -- What an entry says of the runs, in its integer fields.
  pub record IsSummary (rs : List (Run f)) (e : Entry f) : Type 0 where
    pub total : e.total_runs ≡ length rs
    pub passes : e.pass_count ≡ number is_pass rs
    pub fails : e.fail_count ≡ number is_fail rs
    pub errors : e.error_count ≡ number is_error rs
    pub last : e.last_ts ≡ newest rs
    pub green : e.last_green_ts ≡ newest_pass rs
    pub transitions : e.transition_count ≡ changes rs
    pub streak_is : e.streak ≡ streak_of rs
    pub status_is : e.last_status ≡ newest_status rs

  -- The sections that compute floats and seeds leave the integer fields alone.
  welford-IsSummary :
      (rs : List (Run f)) (r : Run f) (e : Entry f) → IsSummary rs e → IsSummary rs (welford f r e)
  unfolding welford
  welford-IsSummary rs r e h = elim (Option-cases r.cpu_time) [
    | inl missing ↦ rw missing h
    | inr (cpu, given) ↦ rw given (ground arith)
  ]

  track_seed-IsSummary :
      (rs : List (Run f)) (r : Run f) (e : Entry f)
      → IsSummary rs e
      → IsSummary rs (track_seed f r e)
  unfolding track_seed
  track_seed-IsSummary rs r e h = elim (Option-cases r.seed_id) [
    | inl missing ↦ rw missing h
    | inr (seed, given) ↦ rw given (ground arith)
  ]

  derive_rates-IsSummary :
      (rs : List (Run f)) (e : Entry f) → IsSummary rs e → IsSummary rs (derive_rates f e)
  unfolding derive_rates
  derive_rates-IsSummary rs e h = ground arith

  cusum-IsSummary :
      (rs : List (Run f)) (r : Run f) (e : Entry f) → IsSummary rs e → IsSummary rs (cusum f r e)
  unfolding cusum
  cusum-IsSummary rs r e h = ground arith

  grade-IsSummary : (rs : List (Run f)) (e : Entry f) → IsSummary rs e → IsSummary rs (grade f e)
  unfolding grade
  grade-IsSummary rs e h = ground arith

  longer : (rs : List (Run f)) → longer_streak (streak_of rs) ≡ pos (suc (leading is_pass rs))
  unfolding longer_streak
  longer [] = refl
  longer (r ∷ rs) = ground arith

  shorter :
      (rs : List (Run f))
      → shorter_streak (streak_of rs) ≡ negsuc (leading (λ s. not (is_pass s)) rs)
  unfolding shorter_streak
  shorter [] = refl
  shorter (r ∷ rs) = ground arith

  changed :
      (r : Run f) (rs : List (Run f)) (total transitions status : ℕ)
      → total ≡ suc (length rs)
      → transitions ≡ changes rs
      → status ≡ newest_status rs
      → (if ltb 1 total && not (r.status == status) then suc transitions else transitions)
        ≡ changes (r ∷ rs)
  changed r [] total transitions status p q s = ground arith
  changed r (x ∷ rs) total transitions status p q s = ground arith

  counted-IsSummary :
      (rs : List (Run f)) (r : Run f) (e : Entry f)
      → IsSummary rs e
      → IsSummary
          (r ∷ rs)
          (track_transition f r (track_streak f r (count_outcome f r (count_total f r e))))
  unfolding track_transition track_streak count_outcome count_total
  counted-IsSummary rs r e h =
      let moved =
        changed r rs (suc e.total_runs) e.transition_count e.last_status (ap suc h.total)
          h.transitions h.status_is in
      record {
        total = ground arith;
        passes = ground arith;
        fails = ground arith;
        errors = ground arith;
        last = ground arith;
        green = ground arith;
        transitions = ground arith;
        streak_is = ground (arith, longer rs, shorter rs);
        status_is = ground arith;
      }

  update_entry-IsSummary :
      (rs : List (Run f)) (r : Run f) (e : Entry f)
      → IsSummary rs e
      → IsSummary (r ∷ rs) (update_entry f r e)
  unfolding update_entry
  update_entry-IsSummary rs r e h = grade-IsSummary (r ∷ rs) _ (
      track_seed-IsSummary (r ∷ rs) r _ (
        cusum-IsSummary (r ∷ rs) r _ (
          welford-IsSummary (r ∷ rs) r _
            (derive_rates-IsSummary (r ∷ rs) _ (counted-IsSummary rs r e h)))))

  -- After any sequence of runs an entry counts the runs and those that passed, failed and erred; it has
  -- the greatest time stamps, the number of changes of status, the signed length of the last row of
  -- passes or of other runs, and the last status.
  pub replay-IsSummary : (nid : ℕ) (rs : List (Run f)) → IsSummary rs (replay nid rs)
  unfolding replay new_entry
  replay-IsSummary nid [] = record {
    total = refl;
    passes = refl;
    fails = refl;
    errors = refl;
    last = refl;
    green = refl;
    transitions = refl;
    streak_is = refl;
    status_is = refl;
  }
  replay-IsSummary nid (r ∷ rs) =
      update_entry-IsSummary rs r (replay nid rs) (replay-IsSummary nid rs)
