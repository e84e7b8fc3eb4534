-- ===== src/HistoryMerge.antt =====
-- python/covsight/core/ncdb/ncdb_merger.py, _merge_v2_history: the union of the registries of the
-- sources, the new ids of their names and seeds, the ranges of run ids, and the merged contribution index
-- and squash log. The statistics, the buckets of
-- history, whose remap can raise, and the writing of the members are left out.
pub mod Remap
pub mod Entries
pub mod Runs
use covsight_core.Prelude.{
  ℕ, zero, suc, ◌+◌, List, [], ◌∷◌, ◌++◌, Result, ok, ◌>>=◌, or_raise, key_error, traverse, ltb,
  max, if◌then◌else◌, get_or,
}
use covsight_core.Prelude.Text.{Text, text_key}
use covsight_core.Prelude.Dict.{lookup}
use covsight_core.StringTable.{StringTable}
use covsight_core.TestRegistry.{
  TestRegistry, new_registry, assign_run_id, lookup_name_id, lookup_seed_id,
}
use covsight_core.ContribIndex.{
  ContribIndexEntry, ContribIndex, add_entry, set_squash_watermark, policy_pass_only,
}
use covsight_core.SquashLog.{SquashLog, SquashLogEntry, append}

-- What is loaded of a source.
pub record V2State : Type 0 where
  pub registry : TestRegistry
  pub contrib_index : ContribIndex
  pub squash_log : SquashLog

unfoldable pub insert_names : List Text → TestRegistry → TestRegistry
insert_names [] reg = reg
insert_names (name ∷ names) reg = insert_names names (lookup_name_id name reg).1

unfoldable pub insert_seeds : List Text → TestRegistry → TestRegistry
insert_seeds [] reg = reg
insert_seeds (seed ∷ seeds) reg = insert_seeds seeds (lookup_seed_id seed reg).1

-- The names and seeds of all sources.
unfoldable pub union_registries : List V2State → TestRegistry → TestRegistry
union_registries [] reg = reg
union_registries (state ∷ states) reg =
    union_registries states
      (insert_seeds state.registry.seeds.strings (insert_names state.registry.names.strings reg))

-- n_remap, s_remap: the new id of each old one, in the order of the old ones.
unfoldable pub remap : StringTable → List Text → Result (List ℕ)
remap merged strings = traverse (λ s. or_raise key_error (lookup s merged.index)) strings

-- n_remap.get(old_id, old_id)
unfoldable pub remapped : List ℕ → ℕ → ℕ
remapped ids old_id = get_or ids old_id old_id

unfoldable pub run_id_offsets : ℕ → List V2State → List ℕ
run_id_offsets offset [] = []
run_id_offsets offset (state ∷ states) =
    offset ∷ run_id_offsets (offset + state.registry.next_run_id) states

-- The value of `offset` after that loop.
unfoldable pub total_run_ids : List V2State → ℕ
total_run_ids [] = 0
total_run_ids (state ∷ states) = state.registry.next_run_id + total_run_ids states

unfoldable pub assign_run_ids : ℕ → TestRegistry → TestRegistry
assign_run_ids zero reg = reg
assign_run_ids (suc n) reg = assign_run_ids n (assign_run_id reg).1

-- The arguments of add_entry for an entry of a source.
unfoldable pub moved : List ℕ → ℕ → ContribIndexEntry → ContribIndexEntry
moved ids offset entry = record entry {
  run_id = entry.run_id + offset;
  name_id = remapped ids entry.name_id;
}

unfoldable pub add_entries : List ℕ → ℕ → List ContribIndexEntry → ContribIndex → ContribIndex
add_entries ids offset [] merged = merged
add_entries ids offset (entry ∷ entries) merged =
    add_entries ids offset entries (add_entry (moved ids offset entry) merged)

unfoldable pub advance_watermark : ℕ → ℕ → ContribIndex → ContribIndex
advance_watermark watermark offset merged =
    if ltb 0 watermark
    then set_squash_watermark (max merged.squash_watermark (watermark + offset)) merged
    else merged

unfoldable pub merge_contribs : List V2State → List (List ℕ) → List ℕ → ContribIndex → ContribIndex
merge_contribs (state ∷ states) (ids ∷ remaps) (offset ∷ offsets) merged =
    merge_contribs states remaps offsets (
      advance_watermark state.contrib_index.squash_watermark offset
        (add_entries ids offset state.contrib_index.entries merged))
merge_contribs _ _ _ merged = merged

unfoldable pub append_all : List SquashLogEntry → SquashLog → SquashLog
append_all [] log = log
append_all (entry ∷ entries) log = append_all entries (append entry log)

unfoldable pub merge_logs : List V2State → SquashLog → SquashLog
merge_logs [] log = log
merge_logs (state ∷ states) log = merge_logs states (append_all state.squash_log log)

-- ContribIndex(merge_policy=POLICY_PASS_ONLY)
abbrev pub empty_index : ContribIndex
empty_index = record { merge_policy = policy_pass_only; squash_watermark = 0; entries = [] }

-- What _merge_v2_history makes in memory of the registries, the contribution indexes and the squash logs,
-- before it writes them as members.
unfoldable pub merge_tables : List V2State → Result V2State
merge_tables states = do
  let merged_reg = union_registries states (new_registry 0)
  name_remaps ←
      traverse (λ (state : V2State). remap merged_reg.names state.registry.names.strings) states
  seed_remaps ←
      traverse (λ (state : V2State). remap merged_reg.seeds state.registry.seeds.strings) states
  ok (record {
    registry = assign_run_ids (total_run_ids states) merged_reg;
    contrib_index = merge_contribs states name_remaps (run_id_offsets 0 states) empty_index;
    squash_log = merge_logs states [];
  })
