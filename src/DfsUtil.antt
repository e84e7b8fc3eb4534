-- ===== src/DfsUtil.antt =====
-- python/covsight/core/ncdb/dfs_util.py: the depth-first order of scopes and the flat index of bins.
-- A scope of a database is named by its position in that order, which stands for `id(scope)`. The two
-- caches are not modelled: the database does not change between the calls.
pub mod Flat
use covsight_core.Prelude.{
  ℕ, zero, suc, ◌+◌, List, [], ◌∷◌, ◌++◌, Bool, Option, none, some, ltb, if◌then◌else◌, length,
  get_elem?, map, Result, ok, raise, key_error, index_error, ◌>>=◌, or_raise, guard, ◌>>◌,
}
use covsight_core.Prelude.Text.{Text}
use covsight_core.ScopeTree.{
  toggle_bin_0_to_1, toggle_bin_1_to_0, Scope, Scopes, scope, no_scopes, scopes, is_toggle_pair,
}

unfoldable mutual
  pub visit : Scope → List Scope
  visit (scope head items children) =
      scope head items children
      ∷ (if is_toggle_pair head items children then [] else visit_all children)

  pub visit_all : Scopes → List Scope
  visit_all no_scopes = []
  visit_all (scopes s ss) = visit s ++ visit_all ss

unfoldable pub dfs_scope_list : Scopes → List Scope
dfs_scope_list roots = visit_all roots

unfoldable pub scope_bin_names : Scope → List Text
scope_bin_names (scope head items children) =
    if is_toggle_pair head items children
    then toggle_bin_0_to_1 ∷ toggle_bin_1_to_0 ∷ []
    else map (λ ci. ci.name) items

unfoldable pub scope_bin_count : Scope → ℕ
scope_bin_count (scope head items children) =
    if is_toggle_pair head items children then 2 else length items

-- The loop of `scope_bin_bases`: the base of each scope, in the order of the walk.
unfoldable pub bases_from : ℕ → List Scope → List ℕ
bases_from next_index [] = []
bases_from next_index (s ∷ ss) = next_index ∷ bases_from (next_index + scope_bin_count s) ss

unfoldable pub scope_bin_bases : Scopes → List ℕ
scope_bin_bases roots = bases_from 0 (dfs_scope_list roots)

unfoldable pub scope_bin_base : Scopes → ℕ → Result ℕ
scope_bin_base roots k = or_raise key_error (get_elem? (scope_bin_bases roots) k)

-- The scope `s`, which stands at position `k`.
unfoldable pub flat_bin_index : Scopes → ℕ → Scope → ℕ → Result ℕ
flat_bin_index roots k s local_index = do
  guard (ltb local_index (scope_bin_count s)) index_error
  base ← scope_bin_base roots k
  ok (base + local_index)

unfoldable pub enumerate_bins : ℕ → ℕ → ℕ → List Text → List (ℕ × ℕ × ℕ × Text)
enumerate_bins flat k local_index [] = []
enumerate_bins flat k local_index (name ∷ names) =
    (flat, k, local_index, name) ∷ enumerate_bins (suc flat) k (suc local_index) names

unfoldable pub bins_from : ℕ → ℕ → List Scope → List (ℕ × ℕ × ℕ × Text)
bins_from flat k [] = []
bins_from flat k (s ∷ ss) =
    enumerate_bins flat k 0 (scope_bin_names s)
    ++ bins_from (flat + length (scope_bin_names s)) (suc k) ss

unfoldable pub iter_flat_bins : Scopes → List (ℕ × ℕ × ℕ × Text)
iter_flat_bins roots = bins_from 0 0 (dfs_scope_list roots)

unfoldable pub sum_counts : List Scope → ℕ
sum_counts [] = 0
sum_counts (s ∷ ss) = scope_bin_count s + sum_counts ss

unfoldable pub total_bin_count : Scopes → ℕ
total_bin_count roots = sum_counts (dfs_scope_list roots)
