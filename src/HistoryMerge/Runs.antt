-- ===== src/HistoryMerge/Runs.antt =====
-- ncdb_merger.py: the runs of one source keep their entries, and those of no other come under their ids.
use covsight_core.Prelude.{
  ℕ, suc, ◌+◌, ◌≤◌, ◌<◌, ◌≡◌, List, [], ◌∷◌, ◌++◌, Bool, length, All, ok, arith, refl, ap, ◌∙◌,
  ◌==◌, length-map,
}
use covsight_core.Prelude.Text.{Text}
use covsight_core.StringTable.{StringTable}
use covsight_core.ContribIndex.{ContribIndexEntry}
use covsight_core.HistoryMerge.{V2State, moved, total_run_ids, merge_tables}
use covsight_core.HistoryMerge.Remap.{name_lists}
use covsight_core.HistoryMerge.Entries.{
  matching, moved_matching, sources_matching, AreRenamed, merge_tables_union,
}

-- The run ids of a source's entries were assigned by its registry.
abbrev pub AreAssigned : V2State → Type 0
AreAssigned state = All (λ e. e.run_id < state.registry.next_run_id) state.contrib_index.entries

abbrev pub of_run : ℕ → ContribIndexEntry → Bool
of_run r e = e.run_id == r

moved-same :
    (ids : List ℕ) (offset j r : ℕ) (es : List ContribIndexEntry)
    → r ≡ j + offset
    → moved_matching (of_run r) ids offset es ≡ matching (of_run j) es
unfolding matching moved
moved-same ids offset j r [] at = refl
moved-same ids offset j r (e ∷ es) at = ground (arith, moved-same ids offset j r es at)

moved-below :
    (ids : List ℕ) (offset r : ℕ) (es : List ContribIndexEntry)
    → r < offset
    → moved_matching (of_run r) ids offset es ≡ 0
unfolding matching moved
moved-below ids offset r [] lt = refl
moved-below ids offset r (e ∷ es) lt = ground (arith, moved-below ids offset r es lt)

moved-above :
    (ids : List ℕ) (offset bound r : ℕ) (es : List ContribIndexEntry)
    → All (λ e. e.run_id < bound) es
    → offset + bound ≤ r
    → moved_matching (of_run r) ids offset es ≡ 0
unfolding matching moved
moved-above ids offset bound r [] h le = refl
moved-above ids offset bound r (e ∷ es) h le =
    ground (arith, h.0, moved-above ids offset bound r es h.1 le)

sources-below :
    (offset r : ℕ) (states : List V2State) (remaps : List (List ℕ))
    → r < offset
    → sources_matching (of_run r) offset states remaps ≡ 0
unfolding sources_matching
sources-below offset r [] remaps lt = refl
sources-below offset r (state ∷ states) [] lt = refl
sources-below offset r (state ∷ states) (ids ∷ remaps) lt = omega (
  arith,
  moved-below ids offset r state.contrib_index.entries lt,
  sources-below (offset + state.registry.next_run_id) r states remaps (omega arith),
)

sources-at :
    (offset j : ℕ) (before : List V2State) (state : V2State) (after : List V2State)
    (remaps : List (List ℕ))
    → length remaps ≡ length (before ++ state ∷ after)
    → All AreAssigned before
    → j < state.registry.next_run_id
    → sources_matching
        (of_run (j + (offset + total_run_ids before)))
        offset
        (before ++ state ∷ after)
        remaps
      ≡ matching (of_run j) state.contrib_index.entries
unfolding sources_matching total_run_ids
sources-at offset j [] state after [] size h lt = absurd (omega arith)
sources-at offset j [] state after (ids ∷ remaps) size h lt = omega (
  arith,
  moved-same ids offset j (j + (offset + 0)) state.contrib_index.entries (omega arith),
  sources-below (offset + state.registry.next_run_id) (j + (offset + 0)) after remaps (omega arith),
)
sources-at offset j (s ∷ before) state after [] size h lt = absurd (omega arith)
sources-at offset j (s ∷ before) state after (ids ∷ remaps) size h lt =
    let n = s.registry.next_run_id in
    let r = j + (offset + (n + total_run_ids before)) in
    ap (λ k. k + sources_matching (of_run r) (offset + n) (before ++ state ∷ after) remaps)
      (moved-above ids offset n r s.contrib_index.entries h.0 (omega arith))
    ∙ omega arith
    ∙ ap (λ q. sources_matching (of_run q) (offset + n) (before ++ state ∷ after) remaps)
        (shift n (total_run_ids before))
    ∙ sources-at (offset + n) j before state after remaps (omega arith) h.1 lt
  where
    shift : (n t : ℕ) → j + (offset + (n + t)) ≡ j + (offset + n + t)
    shift n t = omega arith

AreRenamed-length :
    (t : StringTable) (lists : List (List Text)) (remaps : List (List ℕ))
    → AreRenamed t lists remaps
    → length remaps ≡ length lists
AreRenamed-length t [] [] h = refl
AreRenamed-length t [] (ids ∷ remaps) h = absurd h
AreRenamed-length t (ss ∷ lists) [] h = absurd h
AreRenamed-length t (ss ∷ lists) (ids ∷ remaps) h = ap suc (AreRenamed-length t lists remaps h.1)

-- Where the run ids in the contribution indexes of the sources before one were assigned by their own
-- registries, each run id that the one's registry assigned has, advanced by the run ids of the sources
-- before, as many entries in the merged index as it had in that source.
pub merge_tables_runs :
    (before : List V2State) (state : V2State) (after : List V2State) (j : ℕ)
    → All AreAssigned before
    → j < state.registry.next_run_id
    → (out : V2State) × (merge_tables (before ++ state ∷ after) ≡ ok out)
      × (matching (of_run (j + total_run_ids before)) out.contrib_index.entries
          ≡ matching (of_run j) state.contrib_index.entries)
merge_tables_runs before state after j h lt =
    let states = before ++ state ∷ after in
    let (out, name_remaps, seed_remaps, made, names, seeds, next, sorted, held) =
      merge_tables_union states in
    let size : length name_remaps ≡ length states =
      AreRenamed-length out.registry.names (name_lists states) name_remaps names
      ∙ length-map _ states in
    (
      out,
      made,
      held (of_run (j + total_run_ids before))
          ∙ ap (λ t. sources_matching (of_run (j + t)) 0 states name_remaps) (omega arith)
          ∙ sources-at 0 j before state after name_remaps size h lt,
    )
