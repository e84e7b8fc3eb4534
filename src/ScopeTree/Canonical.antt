-- ===== src/ScopeTree/Canonical.antt =====
-- scope_tree.py: what of a database scope_tree.bin and the counts keep.
-- A toggle pair keeps its name and its two counts. Another scope keeps its attributes, with the weight
-- and the source type that stand for none, its source where it names a file and a line, and the names
-- and counts of its cover items, which all get the type and at_least of the first.
use covsight_core.Prelude.{
  ℕ, suc, ◌+◌, List, [], ◌∷◌, ◌++◌, Option, none, some, if◌then◌else◌, length, map,
}
use covsight_core.Prelude.Int.{ℤ, pos, negsuc}
use covsight_core.Prelude.Text.{Text}
use covsight_core.ScopeTree.{
  toggle_bin_0_to_1, toggle_bin_1_to_0, source_none, SourceInfo, ScopeHead, CoverItem, Scope,
  Scopes, scope, no_scopes, scopes, is_toggle_pair, count_named, source_field, counts_of,
}
use covsight_core.ScopeTree.Reader.{or_default, toggle_bin, pair_head}

abbrev pub kept_source : Option (Text × ℕ × ℕ) → Option SourceInfo
kept_source none = none
kept_source (some (file, line, token)) =
    some (record { file = some file; line = pos line; token = pos token })

-- A weight that is not negative, 1 where there is none.
abbrev pub kept_weight : Option ℤ → ℤ
kept_weight none = pos 1
kept_weight (some (pos n)) = pos n
kept_weight (some (negsuc n)) = pos 0

abbrev pub kept_head : ScopeHead → ScopeHead
kept_head head = record head {
  source = kept_source (source_field head.source);
  weight = some (kept_weight head.weight);
  source_type = some (or_default source_none head.source_type);
}

abbrev pub uniform : ℕ → ℕ → CoverItem → CoverItem
uniform cover_type at_least ci = record ci { cover_type = cover_type; at_least = at_least }

abbrev pub kept_items : List CoverItem → List CoverItem
kept_items [] = []
kept_items (ci ∷ items) = map (uniform ci.cover_type ci.at_least) (ci ∷ items)

abbrev pub pair_bins : List CoverItem → List CoverItem
pair_bins items =
    toggle_bin toggle_bin_0_to_1 (count_named toggle_bin_0_to_1 items 0)
    ∷ toggle_bin toggle_bin_1_to_0 (count_named toggle_bin_1_to_0 items 0)
    ∷ []

unfoldable mutual
  pub kept : Scope → Scope
  kept (scope head items children) =
      if is_toggle_pair head items children
      then scope (pair_head head.name) (pair_bins items) no_scopes
      else scope (kept_head head) (kept_items items) (kept_all children)

  pub kept_all : Scopes → Scopes
  kept_all no_scopes = no_scopes
  kept_all (scopes s ss) = scopes (kept s) (kept_all ss)

-- The counts of a scope's own bins, and of all bins in the order of the walk.
unfoldable pub own_counts : ScopeHead → List CoverItem → Scopes → List ℕ
own_counts head items children =
    if is_toggle_pair head items children
    then count_named toggle_bin_0_to_1 items 0 ∷ count_named toggle_bin_1_to_0 items 0 ∷ []
    else counts_of items

unfoldable mutual
  pub scope_counts : Scope → List ℕ
  scope_counts (scope head items children) = own_counts head items children ++ all_counts children

  pub all_counts : Scopes → List ℕ
  all_counts no_scopes = []
  all_counts (scopes s ss) = scope_counts s ++ all_counts ss

-- The number of cover items of a scope, and of the scopes at the top.
abbrev pub own_items : Scope → ℕ
own_items (scope head items children) = length items

abbrev pub top_items : Scopes → ℕ
top_items no_scopes = 0
top_items (scopes s ss) = own_items s + top_items ss

unfoldable mutual
  pub size : Scope → ℕ
  size (scope head items children) = suc (size_all children)

  pub size_all : Scopes → ℕ
  size_all no_scopes = 0
  size_all (scopes s ss) = size s + size_all ss
