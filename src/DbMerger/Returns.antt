-- ===== src/DbMerger/Returns.antt =====
-- db_merger.py: the calls of `merge`, level by level.
use mathlib.Core.Path.{subst}
use covsight_core.Prelude.{
  ℕ, zero, suc, ◌≤◌, ◌≡◌, List, [], ◌∷◌, Option, none, some, Result, ok, length, map, All,
  All-append, All-mono, Bool, not, arith, refl, ap, inl, inr, Bool-cases, stop_iteration,
}
use covsight_core.Prelude.Keys.{nat_key, pair_key}
use covsight_core.Prelude.Text.{Text, text_key}
use covsight_core.DbMerger.{
  Create, ScopeObj, obj_of, Groups, group, present, first_of, Tree, tree, Trees, no_trees, trees,
  to_list, of_list, scope_key, merge_items, keep_groups, du_any, du_first, add_coverpoint,
  children_or_none, items_or_none, merge_groups, merge_children, merge, deepest, height, heights,
}
use covsight_core.DbMerger.Entries.{InSlot, present-All, Entries, group-Entries}
use covsight_core.DbMerger.Crosses.{AreCrossesOk, IsReady, AreReady}
use covsight_core.DbMerger.Crosses.Sources.{du_first-AreReady}
use covsight_core.DbMerger.Filled.{NonEmpty, Filled, group-Filled}
use covsight_core.DbMerger.Union.{du_first-Entries}
use covsight_core.DbMerger.ItemReturns.{Returns, chain, merge_items-ok}

-- Below a level of so many, the scopes have no children; crosses come after their coverpoints; and the
-- database merged into creates each scope.
abbrev pub Shallow : Create → ℕ → List ℕ → Tree → Type 0
Shallow create zero above t = ⊥
Shallow create (suc fuel) above (tree obj items children) =
    (create above obj ≡ ok tt)
    × AreCrossesOk [] (to_list children)
    × All (Shallow create fuel (obj.scope_type ∷ above)) (to_list children)

module _ (make : ScopeObj → Result (Unit {0})) (below : ℕ → List (List Tree) → Result (List Tree))
    (P : ℕ × Text → Tree → Type 0)
    (below-ok : (k : ℕ × Text) (srcs : List (Option Tree))
      → All (InSlot (P k)) srcs
      → NonEmpty srcs
      → (ts : List Tree) × (below k.0 (map children_or_none srcs) ≡ ok ts))
    (make-ok : (k : ℕ × Text) (t : Tree) → P k t → make (obj_of t) ≡ ok tt) where
  merge_groups-ok :
      (len : ℕ) (coverpoints : List Text) (groups : Groups (ℕ × Text) Tree)
      → Entries P groups
      → Filled len groups
      → AreReady coverpoints groups
      → (ts : List Tree) × (merge_groups make below coverpoints groups ≡ ok ts)
  unfolding merge_groups first_of
  merge_groups-ok len coverpoints [] h filled ready = ([], refl)
  merge_groups-ok len coverpoints ((((stype, name), n), srcs) ∷ groups) h filled ready =
      let (src0, others, first) = filled.0.1 in
      let (items, made_items) = merge_items-ok (map items_or_none srcs) in
      let (children, made_children) = below-ok (stype, name) srcs h.0 filled.0.1 in
      let rest =
        merge_groups-ok len (add_coverpoint stype name coverpoints) groups h.1 filled.1 ready.1 in
      let checked = subst (IsReady coverpoints (stype, name)) first ready.0 in
      let good = (rw first at (present-All (P (stype, name)) srcs h.0)).0 in
      let created = make-ok (stype, name) src0 good in
      chain (first_of stop_iteration (present srcs)) _ src0 (ap (first_of stop_iteration) first) (
        rw (checked, created)
          (chain (merge_items (map items_or_none srcs)) _ items made_items (
            chain (below stype (map children_or_none srcs)) _ children made_children (
              chain (merge_groups make below (add_coverpoint stype name coverpoints) groups) _
                rest.0 rest.1 (_, refl)))))

-- A scope of a group, of one level.
abbrev AtLevel : Create → ℕ → List ℕ → ℕ × Text → Tree → Type 0
AtLevel create fuel above k t = (scope_key t ≡ k) × Shallow create fuel above t

Shallow-create :
    (create : Create) (fuel : ℕ) (above : List ℕ) (t : Tree)
    → Shallow create fuel above t
    → create above (obj_of t) ≡ ok tt
Shallow-create create zero above t h = absurd h
Shallow-create create (suc fuel) above (tree obj items children) h = h.0

-- The children of scopes of one level are of the next.
children-Shallow :
    (create : Create) (fuel : ℕ) (above : List ℕ) (k : ℕ × Text) (srcs : List (Option Tree))
    → All (InSlot (AtLevel create (suc fuel) above k)) srcs
    → All (All (Shallow create fuel (k.0 ∷ above))) (map children_or_none srcs)
children-Shallow create fuel above k [] h = tt
children-Shallow create fuel above k (none ∷ srcs) h =
    (tt, children-Shallow create fuel above k srcs h.1)
children-Shallow create fuel above k (some (tree obj items children) ∷ srcs) h = (
  subst (λ (q : ℕ × Text). All (Shallow create fuel (q.0 ∷ above)) (to_list children)) h.0.0
      h.0.1.2,
  children-Shallow create fuel above k srcs h.1,
)

children-AreCrossesOk :
    (create : Create) (fuel : ℕ) (above : List ℕ) (k : ℕ × Text) (srcs : List (Option Tree))
    → All (InSlot (AtLevel create (suc fuel) above k)) srcs
    → All (AreCrossesOk []) (map children_or_none srcs)
children-AreCrossesOk create fuel above k [] h = tt
children-AreCrossesOk create fuel above k (none ∷ srcs) h =
    (tt, children-AreCrossesOk create fuel above k srcs h.1)
children-AreCrossesOk create fuel above k (some (tree obj items children) ∷ srcs) h =
    (h.0.1.1, children-AreCrossesOk create fuel above k srcs h.1)

with_keys :
    (P : Tree → Type 0) (sources : List (List Tree))
    → All (All P) sources
    → All (All (λ t. (scope_key t ≡ scope_key t) × P t)) sources
with_keys P [] h = tt
with_keys P (objs ∷ sources) h = (All-mono (λ t p. (refl, p)) objs h.0, with_keys P sources h.1)

keep_groups-Filled :
    (len : ℕ) (p : ℕ → Bool) (groups : Groups (ℕ × Text) Tree)
    → Filled len groups
    → Filled len (keep_groups p groups)
unfolding keep_groups
keep_groups-Filled len p [] h = tt
keep_groups-Filled len p (((k, n), slots) ∷ groups) h = elim (Bool-cases (p k.0)) [
  | inl kept ↦ rw kept (h.0, keep_groups-Filled len p groups h.1)
  | inr dropped ↦ rw dropped (keep_groups-Filled len p groups h.1)
]

du_first-Filled :
    (len : ℕ) (groups : Groups (ℕ × Text) Tree) → Filled len groups → Filled len (du_first groups)
unfolding du_first
du_first-Filled len groups h =
    All-append _ (keep_groups du_any groups) (keep_groups (λ t. not (du_any t)) groups)
      (keep_groups-Filled len du_any groups h)
      (keep_groups-Filled len (λ t. not (du_any t)) groups h)

no_objects :
    (create : Create) (above : List ℕ) (k : ℕ × Text) (srcs : List (Option Tree))
    → All (InSlot (AtLevel create 0 above k)) srcs
    → NonEmpty srcs
    → ⊥
no_objects create above k srcs h (t, rest, first) =
    (rw first at (present-All (AtLevel create 0 above k) srcs h)).0.1

merge_level :
    (create : Create) (fuel : ℕ) (above : List ℕ) (parents : List (List Tree))
    → ((k : ℕ × Text) (srcs : List (Option Tree))
        → All (InSlot (AtLevel create fuel above k)) srcs
        → NonEmpty srcs
        → Returns (merge_children create fuel (k.0 ∷ above) (map children_or_none srcs)))
    → All (AreCrossesOk []) parents
    → All (All (Shallow create fuel above)) parents
    → Returns (merge_children create (suc fuel) above parents)
unfolding merge_children
merge_level create fuel above parents below ordered h =
    merge_groups-ok (create above) (λ stype. merge_children create fuel (stype ∷ above))
      (AtLevel create fuel above) below (λ k t at'. Shallow-create create fuel above t at'.1)
      (length parents) [] (du_first (group scope_key parents))
      (du_first-Entries _ (group scope_key parents) (
        group-Entries scope_key (AtLevel create fuel above) parents
          (with_keys (Shallow create fuel above) parents h)))
      (du_first-Filled (length parents) (group scope_key parents) (group-Filled scope_key parents))
      (du_first-AreReady parents ordered)

merge_children-ok :
    (create : Create) (fuel : ℕ) (above : List ℕ) (parents : List (List Tree))
    → All (AreCrossesOk []) parents
    → All (All (Shallow create fuel above)) parents
    → Returns (merge_children create (suc fuel) above parents)
merge_children-ok create zero above parents ordered h =
    merge_level create zero above parents
      (λ k srcs deep some_t. absurd (no_objects create above k srcs deep some_t)) ordered h
merge_children-ok create (suc fuel) above parents ordered h =
    merge_level create (suc fuel) above parents
      (λ k srcs deep some_t.
        merge_children-ok create fuel (k.0 ∷ above) (map children_or_none srcs)
          (children-AreCrossesOk create fuel above k srcs deep)
          (children-Shallow create fuel above k srcs deep))
      ordered h

-- Among the children of each scope, a cross comes after the coverpoints that it crosses, and the database
-- merged into creates each scope where it stands.
abbrev mutual
  pub IsOrdered : Create → List ℕ → Tree → Type 0
  IsOrdered create above (tree obj items children) =
      (create above obj ≡ ok tt)
      × AreCrossesOk [] (to_list children)
      × AreOrdered create (obj.scope_type ∷ above) children

  pub AreOrdered : Create → List ℕ → Trees → Type 0
  AreOrdered create above no_trees = Unit
  AreOrdered create above (trees t ts) = IsOrdered create above t × AreOrdered create above ts

-- So they do at the top, too.
abbrev pub IsOrderedDb : Create → Trees → Type 0
IsOrderedDb create db = AreCrossesOk [] (to_list db) × AreOrdered create [] db

mutual
  unfolding height to_list

  IsOrdered-Shallow :
      (create : Create) (fuel : ℕ) (above : List ℕ) (t : Tree)
      → IsOrdered create above t
      → height t ≤ fuel
      → Shallow create fuel above t
  IsOrdered-Shallow create zero above (tree obj items children) h le = absurd (omega arith)
  IsOrdered-Shallow create (suc fuel) above (tree obj items children) h le =
      (h.0, h.1, AreOrdered-Shallow create fuel (obj.scope_type ∷ above) children h.2 (omega arith))

  AreOrdered-Shallow :
      (create : Create) (fuel : ℕ) (above : List ℕ) (ts : Trees)
      → AreOrdered create above ts
      → heights ts ≤ fuel
      → All (Shallow create fuel above) (to_list ts)
  AreOrdered-Shallow create fuel above no_trees h le = tt
  AreOrdered-Shallow create fuel above (trees t ts) h le = (
    IsOrdered-Shallow create fuel above t h.0 (omega arith),
    AreOrdered-Shallow create fuel above ts h.1 (omega arith),
  )

all-Shallow :
    (create : Create) (fuel : ℕ) (dbs : List Trees)
    → All (IsOrderedDb create) dbs
    → deepest dbs ≤ fuel
    → All (All (Shallow create fuel [])) (map to_list dbs)
unfolding deepest
all-Shallow create fuel [] h le = tt
all-Shallow create fuel (db ∷ dbs) h le = (
  AreOrdered-Shallow create fuel [] db h.0.1 (omega arith),
  all-Shallow create fuel dbs h.1 (omega arith),
)

all-AreCrossesOk :
    (create : Create) (dbs : List Trees)
    → All (IsOrderedDb create) dbs
    → All (AreCrossesOk []) (map to_list dbs)
all-AreCrossesOk create [] h = tt
all-AreCrossesOk create (db ∷ dbs) h = (h.0.0, all-AreCrossesOk create dbs h.1)

-- Where the database merged into creates every scope of the sources in its place, and in each scope the
-- crosses come after the coverpoints that they cross, all of them named, the merge of the scopes and
-- cover items of databases of any depth returns: it runs through all levels of scopes.
pub merge_returns :
    (create : Create) (dbs : List Trees)
    → All (IsOrderedDb create) dbs
    → (merged : Trees) × (merge create dbs ≡ ok merged)
unfolding merge
merge_returns create dbs h =
    let (ts, below) =
      merge_children-ok create (deepest dbs) [] (map to_list dbs) (all-AreCrossesOk create dbs h)
        (all-Shallow create (deepest dbs) dbs h (omega arith)) in
    (of_list ts, rw below refl)
