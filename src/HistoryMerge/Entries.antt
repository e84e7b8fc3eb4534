-- ===== src/HistoryMerge/Entries.antt =====
-- ncdb_merger.py: what the merged contribution index holds.
use mathlib.Core.Path.{subst}
use covsight_core.Prelude.Text.{Text}
use covsight_core.Prelude.{
  ℕ, zero, suc, ◌+◌, ◌≡◌, List, [], ◌∷◌, Bool, if◌then◌else◌, map, All, ok, traverse, arith, refl,
  ap, sym, ◌∙◌, inl, inr, Bool-cases, ltb,
}
use covsight_core.StringTable.{StringTable, empty_table, get}
use covsight_core.StringTable.Interning.{IsTable}
use covsight_core.StringTable.RoundTrip.{empty-IsTable}
use covsight_core.TestRegistry.{TestRegistry, new_registry, assign_run_id}
use covsight_core.ContribIndex.{
  ContribIndexEntry, ContribIndex, insert_sorted, add_entry, set_squash_watermark,
}
use covsight_core.ContribIndex.Order.{SortedFrom, IsSorted, add_to-insert_sorted, add_entry_lem}
use covsight_core.HistoryMerge.{
  V2State, union_registries, remap, run_id_offsets, total_run_ids, assign_run_ids, moved,
  add_entries, advance_watermark, merge_contribs, merge_logs, empty_index, merge_tables,
}
use covsight_core.HistoryMerge.Remap.{
  Known, add_lists-Extends, remap-Known, name_lists, seed_lists, union_registries-tables,
  union_registries-next,
}

-- How many entries a test admits.
unfoldable pub matching : (ContribIndexEntry → Bool) → List ContribIndexEntry → ℕ
matching p [] = 0
matching p (e ∷ es) = (if p e then 1 else 0) + matching p es

matching-insert_sorted :
    (p : ContribIndexEntry → Bool) (entry : ContribIndexEntry) (es : List ContribIndexEntry)
    → matching p (insert_sorted entry es) ≡ matching p (entry ∷ es)
unfolding matching insert_sorted
matching-insert_sorted p entry [] = refl
matching-insert_sorted p entry (e ∷ es) = ground (arith, matching-insert_sorted p entry es)

add_entry-matching :
    (p : ContribIndexEntry → Bool) (entry : ContribIndexEntry) (merged : ContribIndex)
    → IsSorted merged
    → matching p (add_entry entry merged).entries ≡ matching p (entry ∷ merged.entries)
unfolding add_entry
add_entry-matching p entry merged h =
    ap (matching p) (add_to-insert_sorted entry merged.entries h)
    ∙ matching-insert_sorted p entry merged.entries

advance_watermark-entries :
    (w offset : ℕ) (merged : ContribIndex)
    → (advance_watermark w offset merged).entries ≡ merged.entries
unfolding advance_watermark set_squash_watermark
advance_watermark-entries w offset merged = elim (Bool-cases (ltb 0 w)) [
  | inl some_squashed ↦ rw some_squashed refl
  | inr none_squashed ↦ rw none_squashed refl
]

-- The entries of one source, once moved, that a test admits.
abbrev pub moved_matching : (ContribIndexEntry → Bool) → List ℕ → ℕ → List ContribIndexEntry → ℕ
moved_matching p ids offset entries = matching (λ e. p (moved ids offset e)) entries

add_entries-matching :
    (ids : List ℕ) (offset : ℕ) (entries : List ContribIndexEntry) (merged : ContribIndex)
    → IsSorted merged
    → IsSorted (add_entries ids offset entries merged)
      × ((p : ContribIndexEntry → Bool)
          → matching p (add_entries ids offset entries merged).entries
            ≡ moved_matching p ids offset entries + matching p merged.entries)
unfolding add_entries matching
add_entries-matching ids offset [] merged h = (h, λ p. omega arith)
add_entries-matching ids offset (entry ∷ entries) merged h =
    let new = moved ids offset entry in
    let (sorted, more) =
      add_entries-matching ids offset entries (add_entry new merged)
        (add_entry_lem new merged h).0 in
    (sorted, λ p. omega (arith, more p, add_entry-matching p new merged h))

-- The same over all sources.
unfoldable pub sources_matching : (ContribIndexEntry → Bool) → ℕ → List V2State → List (List ℕ) → ℕ
sources_matching p offset (state ∷ states) (ids ∷ remaps) =
    moved_matching p ids offset state.contrib_index.entries
    + sources_matching p (offset + state.registry.next_run_id) states remaps
sources_matching p offset _ _ = 0

merge_contribs-matching :
    (states : List V2State) (remaps : List (List ℕ)) (offset : ℕ) (merged : ContribIndex)
    → IsSorted merged
    → IsSorted (merge_contribs states remaps (run_id_offsets offset states) merged)
      × ((p : ContribIndexEntry → Bool)
          → matching p (merge_contribs states remaps (run_id_offsets offset states) merged).entries
            ≡ sources_matching p offset states remaps + matching p merged.entries)
unfolding merge_contribs sources_matching run_id_offsets
merge_contribs-matching [] remaps offset merged h = (h, λ p. omega arith)
merge_contribs-matching (state ∷ states) [] offset merged h = (h, λ p. omega arith)
merge_contribs-matching (state ∷ states) (ids ∷ remaps) offset merged h =
    let added = add_entries ids offset state.contrib_index.entries merged in
    let (sorted, held) = add_entries-matching ids offset state.contrib_index.entries merged h in
    let w = state.contrib_index.squash_watermark in
    let same = advance_watermark-entries w offset added in
    let (sorted', held') =
      merge_contribs-matching states remaps (offset + state.registry.next_run_id)
        (advance_watermark w offset added) (subst (SortedFrom 0) (sym same) sorted) in
    (sorted', λ p. omega (arith, held' p, held p, ap (matching p) same))

-- The new ids of each source's names stand for those names in the merged table.
abbrev pub AreRenamed : StringTable → List (List Text) → List (List ℕ) → Type 0
AreRenamed merged [] [] = Unit
AreRenamed merged [] (ids ∷ remaps) = ⊥
AreRenamed merged (ss ∷ lists) [] = ⊥
AreRenamed merged (ss ∷ lists) (ids ∷ remaps) =
    (map (λ id. get id merged) ids ≡ map ok ss) × AreRenamed merged lists remaps

remaps-AreRenamed :
    (t : StringTable) (f : V2State → List Text) (states : List V2State)
    → IsTable t
    → All (All (Known t)) (map f states)
    → (remaps : List (List ℕ)) × (traverse (λ state. remap t (f state)) states ≡ ok remaps)
      × AreRenamed t (map f states) remaps
remaps-AreRenamed t f [] h known = ([], refl, tt)
remaps-AreRenamed t f (state ∷ states) h known =
    let (ids, made, same) = remap-Known t (f state) h known.0 in
    let (remaps, more, rest) = remaps-AreRenamed t f states h known.1 in
    (ids ∷ remaps, rw (made, more) refl, (same, rest))

assign_run_ids-tables :
    (n : ℕ) (reg : TestRegistry)
    → ((assign_run_ids n reg).names ≡ reg.names)
      × ((assign_run_ids n reg).seeds ≡ reg.seeds)
      × ((assign_run_ids n reg).next_run_id ≡ reg.next_run_id + n)
unfolding assign_run_ids assign_run_id
assign_run_ids-tables zero reg = (refl, refl, omega arith)
assign_run_ids-tables (suc n) reg =
    let (names, seeds, next) = assign_run_ids-tables n (assign_run_id reg).1 in
    (names, seeds, next ∙ omega arith)

pub merge_tables_union :
    (states : List V2State)
    → (out : V2State) × (name_remaps : List (List ℕ)) × (seed_remaps : List (List ℕ))
      × (merge_tables states ≡ ok out)
      × AreRenamed out.registry.names (name_lists states) name_remaps
      × AreRenamed out.registry.seeds (seed_lists states) seed_remaps
      × (out.registry.next_run_id ≡ total_run_ids states)
      × IsSorted out.contrib_index
      × ((p : ContribIndexEntry → Bool)
          → matching p out.contrib_index.entries ≡ sources_matching p 0 states name_remaps)
unfolding merge_tables matching new_registry
merge_tables_union states =
    let reg = union_registries states (new_registry 0) in
    let tables = union_registries-tables states (new_registry 0) in
    let (n_is, n_known, n_ext) = add_lists-Extends (name_lists states) empty_table empty-IsTable in
    let (s_is, s_known, s_ext) = add_lists-Extends (seed_lists states) empty_table empty-IsTable in
    let (name_remaps, n_made, n_same) =
      remaps-AreRenamed reg.names (λ s. s.registry.names.strings) states
        (subst IsTable (sym tables.0) n_is)
        (subst (λ t. All (All (Known t)) (name_lists states)) (sym tables.0) n_known) in
    let (seed_remaps, s_made, s_same) =
      remaps-AreRenamed reg.seeds (λ s. s.registry.seeds.strings) states
        (subst IsTable (sym tables.1) s_is)
        (subst (λ t. All (All (Known t)) (seed_lists states)) (sym tables.1) s_known) in
    let (names, seeds, next) = assign_run_ids-tables (total_run_ids states) reg in
    let (sorted, held) = merge_contribs-matching states name_remaps 0 empty_index tt in
    let out : V2State = record {
      registry = assign_run_ids (total_run_ids states) reg;
      contrib_index = merge_contribs states name_remaps (run_id_offsets 0 states) empty_index;
      squash_log = merge_logs states [];
    } in
    (
      out,
      name_remaps,
      seed_remaps,
      rw (n_made, s_made) refl,
      subst (λ t. AreRenamed t (name_lists states) name_remaps) (sym names) n_same,
      subst (λ t. AreRenamed t (seed_lists states) seed_remaps) (sym seeds) s_same,
      next
          ∙ ap (λ n. n + total_run_ids states) (union_registries-next states (new_registry 0))
          ∙ omega arith,
      sorted,
      λ p. held p ∙ omega arith,
    )
