-- ===== src/HistoryMerge/Remap.antt =====
-- ncdb_merger.py: the ids of a source's names, in the merged registry.
use covsight_core.Prelude.{
  ℕ, ◌≡◌, List, [], ◌∷◌, some, ok, map, All, All-mono, get_elem?, refl, ap, ◌∙◌,
}
use covsight_core.Prelude.Text.{Text, text_key}
use covsight_core.Prelude.Dict.{lookup}
use covsight_core.StringTable.{StringTable, add, get}
use covsight_core.StringTable.Interning.{IsTable, add-IsTable}
use covsight_core.TestRegistry.{TestRegistry, lookup_name_id, lookup_seed_id}
use covsight_core.HistoryMerge.{V2State, insert_names, insert_seeds, union_registries, remap}

add_all : List Text → StringTable → StringTable
add_all [] t = t
add_all (s ∷ ss) t = add_all ss (add (some s) t).1

pub add_lists : List (List Text) → StringTable → StringTable
add_lists [] t = t
add_lists (ss ∷ lists) t = add_lists lists (add_all ss t)

-- The table has an index for the string.
abbrev pub Known : StringTable → Text → Type 0
Known t s = (i : ℕ) × (lookup s t.index ≡ some i)

-- Every string that has an index keeps one.
abbrev Extends : StringTable → StringTable → Type 0
Extends t u = (s : Text) → Known t s → Known u s

add-Extends :
    (x : Text) (t : StringTable)
    → IsTable t
    → IsTable (add (some x) t).1 × Known (add (some x) t).1 x × Extends t (add (some x) t).1
add-Extends x t h =
    let (is, at, keeps, again) = add-IsTable (some x) t h in
    (
      is,
      ((add (some x) t).0, is.complete x (add (some x) t).0 at),
      λ s known. (known.0, is.complete s known.0 (keeps known.0 s (h.sound s known.0 known.1))),
    )

add_all-Extends :
    (ss : List Text) (t : StringTable)
    → IsTable t
    → IsTable (add_all ss t) × All (Known (add_all ss t)) ss × Extends t (add_all ss t)
unfolding add_all
add_all-Extends [] t h = (h, tt, λ s k. k)
add_all-Extends (s ∷ ss) t h =
    let (is, here, ext) = add-Extends s t h in
    let (is', rest, ext') = add_all-Extends ss (add (some s) t).1 is in
    (is', (ext' s here, rest), λ x k. ext' x (ext x k))

pub add_lists-Extends :
    (lists : List (List Text)) (t : StringTable)
    → IsTable t
    → IsTable (add_lists lists t)
      × All (All (Known (add_lists lists t))) lists
      × Extends t (add_lists lists t)
unfolding add_lists
add_lists-Extends [] t h = (h, tt, λ s k. k)
add_lists-Extends (ss ∷ lists) t h =
    let (is, here, ext) = add_all-Extends ss t h in
    let (is', rest, ext') = add_lists-Extends lists (add_all ss t) is in
    (is', (All-mono (λ s k. ext' s k) ss here, rest), λ x k. ext' x (ext x k))

get-some : (i : ℕ) (s : Text) (t : StringTable) → get_elem? t.strings i ≡ some s → get i t ≡ ok s
unfolding get
get-some i s t h = rw h refl

-- The new ids of known strings stand for those strings.
pub remap-Known :
    (t : StringTable) (ss : List Text)
    → IsTable t
    → All (Known t) ss
    → (ids : List ℕ) × (remap t ss ≡ ok ids) × (map (λ id. get id t) ids ≡ map ok ss)
unfolding remap
remap-Known t [] h known = ([], refl, refl)
remap-Known t (s ∷ ss) h ((i, found), known) =
    let (ids, made, same) = remap-Known t ss h known in
    (i ∷ ids, rw (found, made) refl, rw (get-some i s t (h.sound s i found), same) refl)

-- The tables of the union are those of the names and of the seeds, each on its own.
insert_names-tables :
    (ss : List Text) (reg : TestRegistry)
    → ((insert_names ss reg).names ≡ add_all ss reg.names)
      × ((insert_names ss reg).seeds ≡ reg.seeds)
unfolding insert_names lookup_name_id add_all
insert_names-tables [] reg = (refl, refl)
insert_names-tables (s ∷ ss) reg = insert_names-tables ss (lookup_name_id s reg).1

insert_seeds-tables :
    (ss : List Text) (reg : TestRegistry)
    → ((insert_seeds ss reg).seeds ≡ add_all ss reg.seeds)
      × ((insert_seeds ss reg).names ≡ reg.names)
unfolding insert_seeds lookup_seed_id add_all
insert_seeds-tables [] reg = (refl, refl)
insert_seeds-tables (s ∷ ss) reg = insert_seeds-tables ss (lookup_seed_id s reg).1

abbrev pub name_lists : List V2State → List (List Text)
name_lists states = map (λ (s : V2State). s.registry.names.strings) states

abbrev pub seed_lists : List V2State → List (List Text)
seed_lists states = map (λ (s : V2State). s.registry.seeds.strings) states

pub union_registries-tables :
    (states : List V2State) (reg : TestRegistry)
    → ((union_registries states reg).names ≡ add_lists (name_lists states) reg.names)
      × ((union_registries states reg).seeds ≡ add_lists (seed_lists states) reg.seeds)
unfolding union_registries add_lists
union_registries-tables [] reg = (refl, refl)
union_registries-tables (state ∷ states) reg =
    let reg' = insert_names state.registry.names.strings reg in
    let reg'' = insert_seeds state.registry.seeds.strings reg' in
    let (names, seeds) = union_registries-tables states reg'' in
    let n = insert_names-tables state.registry.names.strings reg in
    let s = insert_seeds-tables state.registry.seeds.strings reg' in
    (
      names ∙ ap (add_lists (name_lists states)) (s.1 ∙ n.0),
      seeds
          ∙ ap (add_lists (seed_lists states))
              (s.0 ∙ ap (add_all state.registry.seeds.strings) n.1),
    )

insert_names-next :
    (ss : List Text) (reg : TestRegistry) → (insert_names ss reg).next_run_id ≡ reg.next_run_id
unfolding insert_names lookup_name_id
insert_names-next [] reg = refl
insert_names-next (s ∷ ss) reg = insert_names-next ss (lookup_name_id s reg).1

insert_seeds-next :
    (ss : List Text) (reg : TestRegistry) → (insert_seeds ss reg).next_run_id ≡ reg.next_run_id
unfolding insert_seeds lookup_seed_id
insert_seeds-next [] reg = refl
insert_seeds-next (s ∷ ss) reg = insert_seeds-next ss (lookup_seed_id s reg).1

-- The union takes no run id.
pub union_registries-next :
    (states : List V2State) (reg : TestRegistry)
    → (union_registries states reg).next_run_id ≡ reg.next_run_id
unfolding union_registries
union_registries-next [] reg = refl
union_registries-next (state ∷ states) reg =
    let reg' = insert_names state.registry.names.strings reg in
    union_registries-next states (insert_seeds state.registry.seeds.strings reg')
    ∙ insert_seeds-next state.registry.seeds.strings reg'
    ∙ insert_names-next state.registry.names.strings reg
