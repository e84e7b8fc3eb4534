-- ===== src/Tests/Scopes.antt =====
-- The scope tree and the flat bins at a concrete database.
use covsight_core.Prelude.{
  ℕ, ◌<◌, ◌≤◌, ◌≡◌, ◌⊎◌, [], ◌∷◌, none, some, ok, raise, index_error, value_error, refl, length,
  get_elem?,
}
use covsight_core.Prelude.Int.{pos, negsuc}
use covsight_core.Prelude.Text.{Text, codes}
use covsight_core.StringTable.{empty_table}
use covsight_core.ScopeTree.{
  ScopeHead, CoverItem, Scope, Scopes, scope, no_scopes, scopes, write, write_or_raise,
  all_weights_fit, is_toggle_pair, toggle_names, number_of,
}
use covsight_core.DfsUtil.{dfs_scope_list, visit, scope_bin_count, flat_bin_index, total_bin_count}
use covsight_core.DfsUtil.Flat.{bin_counts, flat_bin_index-written}

abbrev item : Text → ℕ → CoverItem
item name count = record { name = name; cover_type = 0x200; count = count; at_least = 3 }

abbrev attributes : ℕ → Text → ScopeHead
attributes scope_type name = record {
  scope_type = scope_type;
  name = name;
  flags = 5;
  source = some (record { file = some (codes "top.sv"); line = pos 12; token = negsuc 0 });
  weight = some (pos 2);
  goal = none;
  source_type = none;
}

abbrev pair : Scope
pair =
    scope (attributes 2 (codes "clk")) (item (codes "1 -> 0") 4 ∷ item (codes "0 -> 1") 9 ∷ [])
      no_scopes

abbrev top : Scope
top =
    scope (attributes 16 (codes "top")) (item (codes "a") 1 ∷ item (codes "b") 300 ∷ [])
      (scopes pair no_scopes)

abbrev roots : Scopes
roots = scopes top no_scopes

pair_is_second : get_elem? (dfs_scope_list roots) 1 ≡ some pair
unfolding dfs_scope_list visit is_toggle_pair toggle_names number_of
pair_is_second = refl

flat_bin_index-written_example :
    (length (write roots empty_table).1.counts ≡ total_bin_count roots)
    × (((n : ℕ) × (flat_bin_index roots 1 pair 1 ≡ ok n)
          × (get_elem? (write roots empty_table).1.counts n ≡ get_elem? (bin_counts pair) 1)
          × (1 < scope_bin_count pair))
        ⊎ ((flat_bin_index roots 1 pair 1 ≡ raise index_error) × (scope_bin_count pair ≤ 1)))
flat_bin_index-written_example = flat_bin_index-written roots empty_table 1 1 pair pair_is_second

abbrev unwritable : Scopes
unwritable =
    scopes (scope (record (attributes 16 (codes "top")) { weight = some (negsuc 0) }) [] no_scopes)
      no_scopes

unwritable-raises : write_or_raise unwritable empty_table ≡ raise value_error
unfolding write_or_raise all_weights_fit is_toggle_pair
unwritable-raises = refl
