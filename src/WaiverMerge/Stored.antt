-- ===== src/WaiverMerge/Stored.antt =====
-- ncdb_merger.py: `_merge_waivers` on the dictionaries of the sources.
use mathlib.Core.Path.{subst}
use covsight_core.Prelude.{
  ◌≡◌, List, [], ◌∷◌, ◌++◌, map, Bool, true, false, ◌||◌, Option, none, some, Result, ok, ◌>>=◌,
  if◌then◌else◌, refl, ap, sym, ◌∙◌, inl, inr, Bool-cases,
}
use covsight_core.Prelude.Text.{Text, text_key, text_same}
use covsight_core.Prelude.Dict.{Dict, lookup, put}
use covsight_core.Prelude.Json.{
  Json, Items, nil, item, items_of, as_fields, as_items, get_or_default,
}
use covsight_core.Waivers.{Waiver, WaiverSet, find, text_at, waiver_to_dict, to_dict}
use covsight_core.WaiverMerge.{
  replaces, merge_waiver, merge_waiver_items, merge_waiver_sources, values, merge_waivers,
}
use covsight_core.WaiverMerge.Latest.{
  is_newer, keep_latest, keep_all, kept, IsLatest, find-kept, keep_all-Kept, no_waivers,
}

abbrev map_option {ℓ κ} : {A : Type ℓ} {B : Type κ} → (A → B) → Option A → Option B
map_option f none = none
map_option f (some a) = some (f a)

-- The sources as they are stored, and all their waivers.
abbrev pub stored : List (Option WaiverSet) → List (Option Json)
stored sources = map (map_option to_dict) sources

abbrev pub all_waivers : List (Option WaiverSet) → WaiverSet
all_waivers [] = []
all_waivers (none ∷ sources) = all_waivers sources
all_waivers (some ws ∷ sources) = ws ++ all_waivers sources

abbrev pub any_waivers : List (Option WaiverSet) → Bool
any_waivers [] = false
any_waivers (none ∷ sources) = any_waivers sources
any_waivers (some ws ∷ sources) = true

keep_all-append :
    (d : Dict Text Waiver) (ws more : WaiverSet)
    → keep_all d (ws ++ more) ≡ keep_all (keep_all d ws) more
keep_all-append d [] more = refl
keep_all-append d (w ∷ ws) more = keep_all-append (keep_latest d w) ws more

abbrev dicts : Dict Text Waiver → Dict Text Json
dicts d = map (λ (e : Text × Waiver). (e.0, waiver_to_dict e.1)) d

lookup-dicts :
    (k : Text) (d : Dict Text Waiver) → lookup k (dicts d) ≡ map_option waiver_to_dict (lookup k d)
unfolding lookup
lookup-dicts k [] = refl
lookup-dicts k ((j, w) ∷ d) = elim (Bool-cases (text_same j k)) [
  | inl same ↦ rw same refl
  | inr other ↦ rw other (lookup-dicts k d)
]

put-dicts :
    (k : Text) (w : Waiver) (d : Dict Text Waiver)
    → put k (waiver_to_dict w) (dicts d) ≡ dicts (put k w d)
unfolding put
put-dicts k w [] = refl
put-dicts k w ((j, v) ∷ d) = elim (Bool-cases (text_same j k)) [
  | inl same ↦ rw same refl
  | inr other ↦ rw other (ap (◌∷◌ (j, waiver_to_dict v)) (put-dicts k w d))
]

replaces-is_newer :
    (w : Waiver) (old : Option Waiver)
    → replaces (waiver_to_dict w) (map_option waiver_to_dict old) ≡ ok (is_newer w old)
unfolding replaces waiver_to_dict
replaces-is_newer w none = refl
replaces-is_newer w (some old) = refl

with_id :
    (w : Waiver) (next : Text → Result (Dict Text Json))
    → (as_fields (waiver_to_dict w) >>= λ fs. text_at "id" [] fs >>= next) ≡ next w.id
unfolding waiver_to_dict
with_id w next = refl

dicts-if :
    (b : Bool) (w : Waiver) (d : Dict Text Waiver)
    → (if b then put w.id (waiver_to_dict w) (dicts d) else dicts d)
      ≡ dicts (if b then put w.id w d else d)
dicts-if true w d = put-dicts w.id w d
dicts-if false w d = refl

merge_waiver-dicts :
    (d : Dict Text Waiver) (w : Waiver)
    → merge_waiver (dicts d) (waiver_to_dict w) ≡ ok (dicts (keep_latest d w))
unfolding merge_waiver
merge_waiver-dicts d w =
    with_id w _
    ∙ rw (lookup-dicts w.id d, replaces-is_newer w (lookup w.id d))
        (ap ok (dicts-if (is_newer w (lookup w.id d)) w d))

merge_waiver_items-dicts :
    (d : Dict Text Waiver) (ws : WaiverSet)
    → merge_waiver_items (dicts d) (items_of waiver_to_dict ws) ≡ ok (dicts (keep_all d ws))
unfolding merge_waiver_items
merge_waiver_items-dicts d [] = refl
merge_waiver_items-dicts d (w ∷ ws) =
    ap (λ call. call >>= λ more. merge_waiver_items more (items_of waiver_to_dict ws))
      (merge_waiver-dicts d w)
    ∙ merge_waiver_items-dicts (keep_latest d w) ws

with_items :
    (ws : WaiverSet) (next : Items → Result (Bool × Dict Text Json))
    → (as_fields (to_dict ws) >>= λ fs. get_or_default as_items "waivers" nil fs >>= next)
      ≡ next (items_of waiver_to_dict ws)
unfolding to_dict
with_items ws next = refl

merge_waiver_sources-dicts :
    (any_found : Bool) (d : Dict Text Waiver) (sources : List (Option WaiverSet))
    → merge_waiver_sources any_found (dicts d) (stored sources)
      ≡ ok (any_found || any_waivers sources, dicts (keep_all d (all_waivers sources)))
unfolding merge_waiver_sources
merge_waiver_sources-dicts true d [] = refl
merge_waiver_sources-dicts false d [] = refl
merge_waiver_sources-dicts any_found d (none ∷ sources) =
    merge_waiver_sources-dicts any_found d sources
merge_waiver_sources-dicts any_found d (some ws ∷ sources) =
    with_items ws _
    ∙ ap (λ call. call >>= λ more. merge_waiver_sources true more (stored sources))
        (merge_waiver_items-dicts d ws)
    ∙ merge_waiver_sources-dicts true (keep_all d ws) sources
    ∙ rw (keep_all-append d ws (all_waivers sources), found any_found) refl
  where
    found : (b : Bool) → (b || true) ≡ true
    found true = refl
    found false = refl

values-dicts : (d : Dict Text Waiver) → values (dicts d) ≡ items_of waiver_to_dict (kept d)
unfolding values
values-dicts [] = refl
values-dicts ((k, w) ∷ d) = ap (item (waiver_to_dict w)) (values-dicts d)

-- The waivers of any sources are merged, and written exactly if some source has the member. Looking up an
-- id in what is written finds a waiver of that id that some source has, and no waiver of that id in any
-- source was approved later; it finds none only if no source has a waiver of that id.
pub merge_waivers-IsLatest :
    (sources : List (Option WaiverSet))
    → (merged : WaiverSet) × (merge_waivers (stored sources)
        ≡ ok (if any_waivers sources then some (to_dict merged) else none))
      × ((id : Text) → IsLatest id (all_waivers sources) (find id merged))
unfolding merge_waivers to_dict
merge_waivers-IsLatest sources =
    let d = keep_all [] (all_waivers sources) in
    let (keyed, latest) = keep_all-Kept [] [] (all_waivers sources) no_waivers in
    (
      kept d,
      rw (merge_waiver_sources-dicts false [] sources, values-dicts d) refl,
      λ id. subst (IsLatest id (all_waivers sources)) (sym (find-kept id d keyed)) (latest id),
    )
