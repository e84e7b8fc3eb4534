-- ===== src/Tests/Merges.antt =====
-- The merge of databases at concrete inputs.
use covsight_core.Prelude.{
  ℕ, ◌≡◌, List, [], ◌∷◌, ok, refl, All, map, String, raise, attribute_error, if◌then◌else◌, ◌==◌,
  ◌&&◌, not, Option, some, none,
}
use covsight_core.Prelude.Text.{Text, codes}
use covsight_core.Prelude.Dict.{lookup, put, update}
use covsight_core.DbMerger.{
  Create, check_points, Tree, Item, ScopeObj, tree, Trees, no_trees, trees, to_list, of_list, merge,
  group, add_source, add_sources, merge_children, merge_groups, merge_items, merge_item,
  merge_attributes, present, first_of, sum, du_first, keep_groups, du_any, check_cross,
  add_coverpoint, deepest, height,
}
use covsight_core.Waivers.{Waiver, WaiverSet, find, to_dict, waiver_to_dict}
use covsight_core.WaiverMerge.{
  replaces, merge_waiver, merge_waiver_items, merge_waiver_sources, values, merge_waivers,
}
use covsight_core.WaiverMerge.Latest.{IsLatest}
use covsight_core.WaiverMerge.Stored.{stored, all_waivers, merge_waivers-IsLatest}
use covsight_core.DbMerger.Sums.{count_under, total}
use covsight_core.DbMerger.Union.{merge-total}
use covsight_core.DbMerger.Returns.{IsOrderedDb, merge_returns}

abbrev bin : String → ℕ → Item
bin name count = record { name = codes name; cover_type = 0x20; count = count; attributes = [] }

abbrev obj : ℕ → String → ScopeObj
obj scope_type name = record {
  scope_type = scope_type;
  name = codes name;
  crossed = [];
  attributes = [];
}

-- An instance and its design unit, and the same in another order with more cover items.
abbrev first_db : Trees
first_db =
    trees (tree (obj 0x10 "top") (bin "a" 3 ∷ bin "a" 4 ∷ []) no_trees)
      (trees (tree (obj 0x1000000 "work") [] no_trees) no_trees)

abbrev second_db : Trees
second_db =
    trees (tree (obj 0x1000000 "work") [] no_trees)
      (trees (tree (obj 0x10 "top") (bin "b" 7 ∷ bin "a" 5 ∷ []) no_trees) no_trees)

abbrev both_dbs : List Trees
both_dbs = first_db ∷ second_db ∷ []

abbrev merged_db : Trees
merged_db =
    trees (tree (obj 0x1000000 "work") [] no_trees)
      (trees (tree (obj 0x10 "top") (bin "a" 8 ∷ bin "a" 4 ∷ bin "b" 7 ∷ []) no_trees) no_trees)

-- A database in which only cover groups have crosses.
abbrev covergroup_crosses : Create
covergroup_crosses [] obj = if obj.scope_type == 0x8000 then raise attribute_error else ok tt
covergroup_crosses (parent ∷ above) obj =
    if obj.scope_type == 0x8000 && not (parent == 0x1000) then raise attribute_error else ok tt

merge-both_dbs : merge covergroup_crosses both_dbs ≡ ok merged_db
unfolding merge merge_children merge_groups merge_items merge_item merge_attributes group add_source
    add_sources present first_of sum du_first keep_groups du_any check_cross add_coverpoint deepest
    height to_list of_list lookup put update
merge-both_dbs = refl

abbrev path_of_top : (ℕ × Text) × ℕ
path_of_top = ((0x10, codes "top"), 0)

merge-total_example :
    count_under path_of_top [] (codes "a", 0x20) 0 (to_list merged_db)
    ≡ total (map (λ db. count_under path_of_top [] (codes "a", 0x20) 0 (to_list db)) both_dbs)
merge-total_example =
    merge-total covergroup_crosses both_dbs merged_db merge-both_dbs (0x10, codes "top") 0 []
      (codes "a", 0x20) 0

abbrev cross_ab : Tree
cross_ab =
    tree
      (record {
        scope_type = 0x8000;
        name = codes "ab";
        crossed = some (codes "a") ∷ some (codes "b") ∷ [];
        attributes = [];
      })
      (bin "both" 1 ∷ []) no_trees

abbrev coverpoint : String → Trees → Trees
coverpoint name = trees (tree (obj 0x4000 name) [] no_trees)

-- A cover group with a cross, and the same with its coverpoints in another order and one more.
abbrev first_group : Trees
first_group =
    trees (tree (obj 0x1000 "g") [] (coverpoint "a" (coverpoint "b" (trees cross_ab no_trees))))
      no_trees

abbrev second_group : Trees
second_group =
    trees
      (tree (obj 0x1000 "g") []
        (coverpoint "c" (coverpoint "b" (coverpoint "a" (trees cross_ab no_trees)))))
      no_trees

abbrev cross_dbs : List Trees
cross_dbs = first_group ∷ second_group ∷ []

cross_dbs-All : All (IsOrderedDb covergroup_crosses) cross_dbs
unfolding check_cross check_points add_coverpoint to_list
cross_dbs-All = (
  (
    (refl, tt),
    (
      (refl, (refl, (refl, (refl, tt))), ((refl, tt, tt), ((refl, tt, tt), ((refl, tt, tt), tt)))),
      tt,
    ),
  ),
  (
    (
      (refl, tt),
      (
        (
          refl,
          (refl, (refl, (refl, (refl, tt)))),
          ((refl, tt, tt), ((refl, tt, tt), ((refl, tt, tt), ((refl, tt, tt), tt)))),
        ),
        tt,
      ),
    ),
    tt,
  ),
)

merge_returns_example : (merged : Trees) × (merge covergroup_crosses cross_dbs ≡ ok merged)
merge_returns_example = merge_returns covergroup_crosses cross_dbs cross_dbs-All

abbrev waiver : String → String → Waiver
waiver id approved_at = record {
  id = codes id;
  scope_pattern = codes "**";
  bin_pattern = codes "*";
  rationale = [];
  approver = [];
  approved_at = codes approved_at;
  expires_at = [];
  status = codes "active";
}

-- Two sources with waivers, which share an id, and one without.
abbrev waiver_sources : List (Option WaiverSet)
waiver_sources =
    some (waiver "a" "2024-05" ∷ waiver "b" "2024-06" ∷ [])
    ∷ none
    ∷ some (waiver "c" "2024-07" ∷ waiver "a" "2025-01" ∷ [])
    ∷ []

merge-waiver_sources :
    merge_waivers (stored waiver_sources)
    ≡ ok (some (to_dict (waiver "a" "2025-01" ∷ waiver "b" "2024-06" ∷ waiver "c" "2024-07" ∷ [])))
unfolding merge_waivers merge_waiver_sources merge_waiver_items merge_waiver replaces values to_dict
    waiver_to_dict lookup put
merge-waiver_sources = refl

merge_waivers-IsLatest_example :
    (merged : WaiverSet) × (merge_waivers (stored waiver_sources) ≡ ok (some (to_dict merged)))
    × ((id : Text) → IsLatest id (all_waivers waiver_sources) (find id merged))
merge_waivers-IsLatest_example = merge_waivers-IsLatest waiver_sources
