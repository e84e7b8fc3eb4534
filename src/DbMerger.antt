-- ===== src/DbMerger.antt =====
-- python/covsight/core/merge/db_merger.py: the structural union of the scope trees of databases, with the
-- counts of matching cover items summed. Of a scope the model has what the merge looks at or combines:
-- its type, its name, the names of the coverpoints that it crosses, its attributes, its cover items and
-- its children; of a cover item its name, its type, its count and its attributes. What is copied from the
-- first source as it stands (flags, weights, goals, options, source locations), tags, design units that
-- are not in the tree of their source, the rebuilding of state machines and the history are left out.
-- Creating a scope in the database that is merged into is an argument, and may raise: the classes of that
-- database decide which scopes can stand where.
pub mod Group
pub mod Rows
pub mod Entries
pub mod Sums
pub mod Union
pub mod Filled
pub mod Crosses
pub mod ItemReturns
pub mod Returns
use covsight_core.Prelude.{
  ℕ, zero, suc, ◌+◌, List, [], ◌∷◌, ◌++◌, map, Bool, true, false, not, ◌&&◌, ◌||◌, Option, none,
  some, Result, ok, raise, ◌>>=◌, ◌>>◌, guard, Exc, traverse, index_error, stop_iteration,
  exception, recursion_error, attribute_error, ◌==◌, if◌then◌else◌, length, replicate, set, all,
  any, bit_and, max,
}
use covsight_core.Prelude.Keys.{Key, nat_key, pair_key}
use covsight_core.Prelude.Text.{Text, text_same, text_key}
use covsight_core.Prelude.Dict.{Dict, lookup, put, update}

-- For each key and each occurrence of it, the object of each source.
abbrev pub Groups {ℓ κ} : Type ℓ → Type κ → Type (ℓ ⊔ κ)
Groups K A = Dict (K × ℕ) (List (Option A))

-- seen.get(k, 0)
abbrev pub count_or_zero : Option ℕ → ℕ
count_or_zero none = 0
count_or_zero (some n) = n

-- The slots of a group, or `[None] * len(items)`.
abbrev pub slots_or {κ} : {A : Type κ} → ℕ → Option (List (Option A)) → List (Option A)
slots_or len none = replicate len none
slots_or len (some slots) = slots

module _ {ℓ κ} {K : Type ℓ} {A : Type κ} ⦃e : Key K⦄ (key : A → K) where
  -- The inner loop of `_group`, over the objects of source `i` of `len`.
  unfoldable pub add_source : ℕ → ℕ → List A → Dict K ℕ → Groups K A → Groups K A
  add_source len i [] seen groups = groups
  add_source len i (obj ∷ objs) seen groups =
      let k = key obj in
      let n = count_or_zero (lookup k seen) in
      add_source len i objs (put k (suc n) seen)
        (put (k, n) (set (slots_or len (lookup (k, n) groups)) i (some obj)) groups)

  unfoldable pub add_sources : ℕ → ℕ → List (List A) → Groups K A → Groups K A
  add_sources len i [] groups = groups
  add_sources len i (objs ∷ sources) groups =
      add_sources len (suc i) sources (add_source len i objs [] groups)

  -- _group
  unfoldable pub group : List (List A) → Groups K A
  group sources = add_sources (length sources) 0 sources []

-- ScopeTypeT
abbrev pub type_coverpoint : ℕ
type_coverpoint = 0x4000

abbrev pub type_cross : ℕ
type_cross = 0x8000

-- ScopeTypeT.DU_ANY
unfoldable pub du_any : ℕ → Bool
du_any t = not (bit_and t 0x1F000000 == 0)

pub record Item : Type 0 where
  pub name : Text
  pub cover_type : ℕ
  pub count : ℕ
  pub attributes : Dict Text Text

pub record ScopeObj : Type 0 where
  pub scope_type : ℕ
  pub name : Text
  pub crossed : List (Option Text)
  pub attributes : Dict Text Text

mutual
  pub data Tree : Type 0 where
    tree : ScopeObj → List Item → Trees → Tree

  pub data Trees : Type 0 where
    no_trees : Trees
    trees : Tree → Trees → Trees

unfoldable pub to_list : Trees → List Tree
to_list no_trees = []
to_list (trees t ts) = t ∷ to_list ts

unfoldable pub of_list : List Tree → Trees
of_list [] = no_trees
of_list (t ∷ ts) = trees t (of_list ts)

abbrev pub obj_of : Tree → ScopeObj
obj_of (tree obj items children) = obj

abbrev pub items_of : Tree → List Item
items_of (tree obj items children) = items

abbrev pub children_of : Tree → List Tree
children_of (tree obj items children) = to_list children

-- The keys by which `_merge_children` and `_merge_items` group.
abbrev pub scope_key : Tree → ℕ × Text
scope_key t = ((obj_of t).scope_type, (obj_of t).name)

abbrev pub item_key : Item → Text × ℕ
item_key ci = (ci.name, ci.cover_type)

-- [s for s in srcs if s is not None]
unfoldable pub present {ℓ} : {A : Type ℓ} → List (Option A) → List A
present [] = []
present (none ∷ slots) = present slots
present (some a ∷ slots) = a ∷ present slots

-- `next(s for s in srcs if s is not None)`, and `present[0]`.
unfoldable pub first_of {ℓ} : {A : Type ℓ} → Exc → List A → Result A
first_of e [] = raise e
first_of e (a ∷ as') = ok a

unfoldable pub sum : List ℕ → ℕ
sum [] = 0
sum (n ∷ ns) = n + sum ns

-- The attributes that the loop over `reversed(present)` sets.
unfoldable pub merge_attributes : List (Dict Text Text) → Dict Text Text
merge_attributes [] = []
merge_attributes (d ∷ ds) = update (merge_attributes ds) d

-- The body of the loops of `_merge_items`, on one group.
unfoldable pub merge_item : (Text × ℕ) × ℕ → List (Option Item) → Result Item
merge_item ((name, cover_type), n) slots = do
  cd ← first_of index_error (present slots)
  ok (record {
    name = name;
    cover_type = cd.cover_type;
    count = sum (map (λ ci. ci.count) (present slots));
    attributes = merge_attributes (map (λ ci. ci.attributes) (present slots));
  })

unfoldable pub merge_items : List (List Item) → Result (List Item)
merge_items items = traverse (λ e. merge_item e.0 e.1) (group item_key items)

-- The groups, design units first.
unfoldable pub keep_groups : (ℕ → Bool) → Groups (ℕ × Text) Tree → Groups (ℕ × Text) Tree
keep_groups p [] = []
keep_groups p (((k, n), slots) ∷ groups) =
    let rest = keep_groups p groups in if p k.0 then ((k, n), slots) ∷ rest else rest

unfoldable pub du_first : Groups (ℕ × Text) Tree → Groups (ℕ × Text) Tree
du_first groups = keep_groups du_any groups ++ keep_groups (λ t. not (du_any t)) groups

-- Each crossed coverpoint has a name, and is one that the parent has by now.
unfoldable pub check_points : List Text → List (Option Text) → Result (Unit {0})
check_points coverpoints [] = ok tt
check_points coverpoints (none ∷ crossed) = raise attribute_error
check_points coverpoints (some cp ∷ crossed) =
    let rest = check_points coverpoints crossed in
    guard (any (text_same cp) coverpoints) exception >> rest

-- `_create_scope` up to the call that creates the scope; a cross needs the coverpoints that it crosses.
unfoldable pub check_cross : ℕ → List Text → ScopeObj → Result (Unit {0})
check_cross stype coverpoints src0 =
    let points = check_points coverpoints src0.crossed in
    if stype == type_cross then points else ok tt

-- coverpoints[name] = dst
unfoldable pub add_coverpoint : ℕ → Text → List Text → List Text
add_coverpoint stype name coverpoints =
    if stype == type_coverpoint then name ∷ coverpoints else coverpoints

abbrev pub children_or_none : Option Tree → List Tree
children_or_none none = []
children_or_none (some t) = children_of t

abbrev pub items_or_none : Option Tree → List Item
items_or_none none = []
items_or_none (some t) = items_of t

-- The loop of `_merge_children`. `make` creates a scope in the parent, and `below` merges the children of
-- the scopes of one group into a scope of a type.
unfoldable pub merge_groups :
    (ScopeObj → Result (Unit {0}))
    → (ℕ → List (List Tree) → Result (List Tree))
    → List Text
    → Groups (ℕ × Text) Tree
    → Result (List Tree)
merge_groups make below coverpoints [] = ok []
merge_groups make below coverpoints ((((stype, name), n), srcs) ∷ groups) = do
  src0 ← first_of stop_iteration (present srcs)
  check_cross stype coverpoints (obj_of src0)
  make (obj_of src0)
  items ← merge_items (map items_or_none srcs)
  children ← below stype (map children_or_none srcs)
  rest ← merge_groups make below (add_coverpoint stype name coverpoints) groups
  ok (
      tree
        (record {
          scope_type = stype;
          name = (obj_of src0).name;
          crossed = (obj_of src0).crossed;
          attributes = merge_attributes (map (λ s. (obj_of s).attributes) (present srcs));
        })
        items (of_list children)
      ∷ rest)

-- The database that is merged into: whether its createInstance, createCross and the like return, by the
-- types of the parent and of the scopes above it, and the scope that is asked for.
abbrev pub Create : Type 0
Create = List ℕ → ScopeObj → Result (Unit {0})

-- `_merge_children`, with as many levels of calls as there is fuel.
unfoldable pub merge_children : Create → ℕ → List ℕ → List (List Tree) → Result (List Tree)
merge_children create zero above parents = raise recursion_error
merge_children create (suc fuel) above parents =
    merge_groups (create above) (λ stype. merge_children create fuel (stype ∷ above)) []
      (du_first (group scope_key parents))

unfoldable mutual
  pub height : Tree → ℕ
  height (tree obj items children) = suc (heights children)

  pub heights : Trees → ℕ
  heights no_trees = 0
  heights (trees t ts) = max (height t) (heights ts)

unfoldable pub deepest : List Trees → ℕ
deepest [] = 0
deepest (ts ∷ dbs) = max (heights ts) (deepest dbs)

-- `merge`, on the top-level scopes of the sources; each level of scopes takes one of the fuel.
unfoldable pub merge : Create → List Trees → Result Trees
merge create dbs =
    merge_children create (suc (deepest dbs)) [] (map to_list dbs) >>= λ ts. ok (of_list ts)
