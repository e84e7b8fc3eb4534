-- ===== src/TestStats/Table.antt =====
-- The table of test_stats.py after any sequence of updates.
use covsight_core.Prelude.{
  ℕ, zero, suc, ◌+◌, ◌-◌, ◌≤◌, ◌≡◌, ◌≢◌, max, List, [], ◌∷◌, ◌++◌, none, some, ◌==◌, ltb,
  if◌then◌else◌, length, get_elem?, arith, refl, ap,
}
use covsight_core.TestStats.{
  Floats, Entry, Run, new_entry, update_entry, new_entries, ensure, update_at, update, get,
}
use covsight_core.TestStats.Replay.{replay}

module _ (f : Floats) where
  -- Calls of `update`, the newest first, on an empty table.
  unfoldable pub table : List (ℕ × Run f) → List (Entry f)
  table [] = []
  table ((name_id, r) ∷ older) = update f name_id r (table older)

  -- The runs among the calls that name one test; one more than the greatest name among them.
  abbrev pub runs_of : ℕ → List (ℕ × Run f) → List (Run f)
  runs_of j [] = []
  runs_of j ((name_id, r) ∷ older) = if name_id == j then r ∷ runs_of j older else runs_of j older

  abbrev pub size : List (ℕ × Run f) → ℕ
  size [] = 0
  size ((name_id, r) ∷ older) = max (size older) (suc name_id)

  -- The values of a function from a number on.
  tabulate : (ℕ → Entry f) → ℕ → ℕ → List (Entry f)
  tabulate g k zero = []
  tabulate g k (suc n) = g k ∷ tabulate g (suc k) n

  length-tabulate : (g : ℕ → Entry f) (k n : ℕ) → length (tabulate g k n) ≡ n
  unfolding tabulate
  length-tabulate g k zero = refl
  length-tabulate g k (suc n) = ap suc (length-tabulate g (suc k) n)

  tabulate-append :
      (g : ℕ → Entry f) (k m n : ℕ) → tabulate g k m ++ tabulate g (k + m) n ≡ tabulate g k (m + n)
  unfolding tabulate
  tabulate-append g k zero n = ground arith
  tabulate-append g k (suc m) n =
      let at : k + suc m ≡ suc k + m = omega arith in
      let count : suc m + n ≡ suc (m + n) = omega arith in
      rw (at, count) (ap (◌∷◌ (g k)) (tabulate-append g (suc k) m n))

  tabulate-congr :
      (g h : ℕ → Entry f) (k n : ℕ)
      → ((j : ℕ) → k ≤ j → h j ≡ g j)
      → tabulate g k n ≡ tabulate h k n
  unfolding tabulate
  tabulate-congr g h k zero e = refl
  tabulate-congr g h k (suc n) e =
      rw (e k (omega arith))
        (ap (◌∷◌ (g k)) (tabulate-congr g h (suc k) n (λ j l. e j (omega arith))))

  new_entries-tabulate :
      (g : ℕ → Entry f) (k n : ℕ)
      → ((j : ℕ) → k ≤ j → g j ≡ new_entry f j)
      → new_entries f k n ≡ tabulate g k n
  unfolding tabulate new_entries
  new_entries-tabulate g k zero e = refl
  new_entries-tabulate g k (suc n) e =
      rw (e k (omega arith))
        (ap (◌∷◌ (new_entry f k)) (new_entries-tabulate g (suc k) n (λ j l. e j (omega arith))))

  ensure-tabulate :
      (g : ℕ → Entry f) (name_id n : ℕ)
      → ((j : ℕ) → n ≤ j → g j ≡ new_entry f j)
      → ensure f name_id (tabulate g 0 n) ≡ tabulate g 0 (max n (suc name_id))
  unfolding ensure
  ensure-tabulate g name_id n e =
      rw (length-tabulate g 0 n, new_entries-tabulate g n (suc name_id - n) e)
        (ground (arith, tabulate-append g 0 n (suc name_id - n)))

  update_at-tabulate :
      (g h : ℕ → Entry f) (r : Run f) (at i k n : ℕ)
      → at ≡ k + i
      → h at ≡ update_entry f r (g at)
      → ((j : ℕ) → j ≢ at → h j ≡ g j)
      → update_at f i r (tabulate g k n) ≡ tabulate h k n
  unfolding tabulate update_at
  update_at-tabulate g h r at i k zero e here others = ground arith
  update_at-tabulate g h r at zero k (suc n) e here others =
      let start : at ≡ k = omega arith in
      ground (
        arith,
        ap (update_entry f r) (ap g start),
        ap h start,
        tabulate-congr g h (suc k) n (λ j l. others j (omega arith)),
      )
  update_at-tabulate g h r at (suc i) k (suc n) e here others = ground (
    arith,
    others k (omega arith),
    update_at-tabulate g h r at i (suc k) n (omega arith) here others,
  )

  runs_of-size : (j : ℕ) (calls : List (ℕ × Run f)) → size calls ≤ j → runs_of j calls ≡ []
  runs_of-size j [] h = refl
  runs_of-size j ((name_id, r) ∷ older) h = ground (arith, runs_of-size j older)

  runs_of_same :
      (j : ℕ) (r : Run f) (older : List (ℕ × Run f))
      → runs_of j ((j, r) ∷ older) ≡ r ∷ runs_of j older
  runs_of_same j r older = ground arith

  runs_of_other :
      (j i : ℕ) (r : Run f) (older : List (ℕ × Run f))
      → j ≢ i
      → runs_of j ((i, r) ∷ older) ≡ runs_of j older
  runs_of_other j i r older h = ground arith

  table-tabulate :
      (calls : List (ℕ × Run f))
      → table calls ≡ tabulate (λ j. replay f j (runs_of j calls)) 0 (size calls)
  unfolding table tabulate update replay
  table-tabulate [] = refl
  table-tabulate ((name_id, r) ∷ older) =
      rw
        (
          table-tabulate older,
          ensure-tabulate (λ j. replay f j (runs_of j older)) name_id (size older)
              (λ j l. ap (replay f j) (runs_of-size j older l)),
        )
        (update_at-tabulate (λ j. replay f j (runs_of j older))
          (λ j. replay f j (runs_of j ((name_id, r) ∷ older))) r name_id name_id 0
          (max (size older) (suc name_id)) (omega arith)
          (ap (replay f name_id) (runs_of_same name_id r older))
          (λ j l. ap (replay f j) (runs_of_other j name_id r older l)))

  get-tabulate :
      (g : ℕ → Entry f) (i k n : ℕ)
      → get_elem? (tabulate g k n) i ≡ (if ltb i n then some (g (k + i)) else none)
  unfolding tabulate
  get-tabulate g i k zero = ground arith
  get-tabulate g zero k (suc n) = ground arith
  get-tabulate g (suc i) k (suc n) = ground (arith, get-tabulate g i (suc k) n)

  -- After any sequence of updates the table has an entry for each name up to the greatest one updated,
  -- and the entry of a name is what the runs of that name alone, in their order, make of a fresh entry.
  pub get-table :
      (j : ℕ) (calls : List (ℕ × Run f))
      → get f j (table calls)
        ≡ (if ltb j (size calls) then some (replay f j (runs_of j calls)) else none)
  unfolding get
  get-table j calls =
      rw (table-tabulate calls, length-tabulate (λ i. replay f i (runs_of i calls)) 0 (size calls))
        (ground (arith, get-tabulate (λ i. replay f i (runs_of i calls)) j 0 (size calls)))
