-- ===== src/Tests/Histories.antt =====
-- The merge of histories at concrete inputs.
use covsight_core.Prelude.{ℕ, ◌+◌, ◌<◌, ◌≡◌, List, [], ◌∷◌, ok, arith}
use covsight_core.Prelude.Text.{codes}
use covsight_core.TestRegistry.{
  Request, run, name, seed, new_registry, handle_all, handle, assign_run_id, lookup_name_id,
  lookup_seed_id,
}
use covsight_core.ContribIndex.{ContribIndexEntry}
use covsight_core.HistoryMerge.{V2State, merge_tables, total_run_ids}
use covsight_core.HistoryMerge.Entries.{matching}
use covsight_core.HistoryMerge.Runs.{AreAssigned, of_run, merge_tables_runs}

abbrev entry : ℕ → ℕ → ContribIndexEntry
entry run_id name_id = record { run_id = run_id; name_id = name_id; status = 0; flags = 0 }

abbrev state_of : List Request → List ContribIndexEntry → V2State
state_of requests entries = record {
  registry = handle_all requests (new_registry 0);
  contrib_index = record { merge_policy = 1; squash_watermark = 0; entries = entries };
  squash_log = [];
}

-- Two runs of one test, and a run of each of two tests.
abbrev first_state : V2State
first_state =
    state_of (name (codes "smoke") ∷ run ∷ run ∷ seed (codes "7") ∷ []) (entry 0 0 ∷ entry 1 0 ∷ [])

abbrev second_state : V2State
second_state =
    state_of (name (codes "reset") ∷ name (codes "smoke") ∷ run ∷ run ∷ [])
      (entry 0 0 ∷ entry 1 1 ∷ [])

abbrev two_states : List V2State
two_states = first_state ∷ second_state ∷ []

first_state-AreAssigned : AreAssigned first_state
unfolding handle_all handle new_registry assign_run_id lookup_name_id lookup_seed_id
first_state-AreAssigned = (omega arith, (omega arith, tt))

one-lt : 1 < second_state.registry.next_run_id
unfolding handle_all handle new_registry assign_run_id lookup_name_id lookup_seed_id
one-lt = omega arith

merge_tables_runs_example :
    (out : V2State) × (merge_tables two_states ≡ ok out)
    × (matching (of_run (1 + total_run_ids (first_state ∷ []))) out.contrib_index.entries
        ≡ matching (of_run 1) second_state.contrib_index.entries)
merge_tables_runs_example =
    merge_tables_runs (first_state ∷ []) second_state [] 1 (first_state-AreAssigned, tt) one-lt
