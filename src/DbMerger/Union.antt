-- ===== src/DbMerger/Union.antt =====
-- db_merger.py: a merge is the union of the scopes, with the counts of matching cover items summed.
use mathlib.Core.Path.{subst}
use covsight_core.Prelude.{
  ℕ, zero, suc, ◌≡◌, List, [], ◌∷◌, ◌++◌, Option, none, some, Result, ok, >>=-eq-ok, length, map,
  All-append, Bool, not, if◌then◌else◌, append-nil, refl, ap, sym, ◌∙◌, inl, inr, Bool-cases,
  stop_iteration,
}
use covsight_core.Prelude.Keys.{nat_key, pair_key}
use covsight_core.Prelude.Text.{Text, text_key}
use covsight_core.DbMerger.{
  Create, ScopeObj, Groups, group, present, first_of, Tree, Trees, to_list, of_list, obj_of,
  items_of, children_of, scope_key, merge_items, keep_groups, du_any, du_first, check_cross,
  add_coverpoint, children_or_none, items_or_none, merge_groups, merge_children, merge, deepest,
}
use covsight_core.DbMerger.Group.{nth}
use covsight_core.DbMerger.Rows.{rows}
use covsight_core.DbMerger.Entries.{present-All, Entries, group-Entries, Built, group-MadeOf}
use covsight_core.DbMerger.Sums.{
  total, count_in, count_at, count_under, map-map, map-cong, MadeOf-total, ok_injective,
  first_of-All, keyed_by, merge_items-total, >>-eq-ok,
}

rows-append : (k : ℕ × Text) (g h : Groups (ℕ × Text) Tree) → rows k (g ++ h) ≡ rows k g ++ rows k h
unfolding rows
rows-append k [] h = refl
rows-append k (((j, n), slots) ∷ g) h = elim (Bool-cases (pair_key.same j k)) [
  | inl same ↦ rw (same, rows-append k g h) refl
  | inr other ↦ rw (other, rows-append k g h) refl
]

rows-keep_groups :
    (p : ℕ → Bool) (k : ℕ × Text) (groups : Groups (ℕ × Text) Tree)
    → rows k (keep_groups p groups) ≡ (if p k.0 then rows k groups else [])
unfolding rows keep_groups
rows-keep_groups p k [] = elim (Bool-cases (p k.0)) [
  | inl kept ↦ rw kept refl
  | inr dropped ↦ rw dropped refl
]
rows-keep_groups p k (((j, n), slots) ∷ groups) = elim (Bool-cases (pair_key.same j k)) [
  | inl same ↦
      let alike = ap (λ (q : ℕ × Text). p q.0) ((pair_key.same_iff j k).0 same) in
      elim (Bool-cases (p k.0)) [
        | inl kept ↦ rw (alike ∙ kept, kept, same, rows-keep_groups p k groups, kept) refl
        | inr dropped ↦ rw (alike ∙ dropped, dropped, rows-keep_groups p k groups, dropped) refl
      ]
  | inr other ↦ elim (Bool-cases (p j.0)) [
    | inl kept ↦ rw (kept, other, rows-keep_groups p k groups) refl
    | inr dropped ↦ rw (dropped, other, rows-keep_groups p k groups) refl
  ]
]

rows-du_first :
    (k : ℕ × Text) (groups : Groups (ℕ × Text) Tree) → rows k (du_first groups) ≡ rows k groups
unfolding du_first
rows-du_first k groups =
    rows-append k (keep_groups du_any groups) (keep_groups (λ t. not (du_any t)) groups)
    ∙ rw (rows-keep_groups du_any k groups, rows-keep_groups (λ t. not (du_any t)) k groups)
        (elim (Bool-cases (du_any k.0)) [
          | inl kept ↦ rw kept (append-nil (rows k groups))
          | inr dropped ↦ rw dropped refl
        ])

children_of-of_list : (ts : List Tree) → to_list (of_list ts) ≡ ts
unfolding to_list of_list
children_of-of_list [] = refl
children_of-of_list (t ∷ ts) = ap (◌∷◌ t) (children_of-of_list ts)

keep_groups-Entries :
    (P : ℕ × Text → Tree → Type 0) (p : ℕ → Bool) (groups : Groups (ℕ × Text) Tree)
    → Entries P groups
    → Entries P (keep_groups p groups)
unfolding keep_groups
keep_groups-Entries P p [] h = tt
keep_groups-Entries P p (((k, n), slots) ∷ groups) h = elim (Bool-cases (p k.0)) [
  | inl kept ↦ rw kept (h.0, keep_groups-Entries P p groups h.1)
  | inr dropped ↦ rw dropped (keep_groups-Entries P p groups h.1)
]

pub du_first-Entries :
    (P : ℕ × Text → Tree → Type 0) (groups : Groups (ℕ × Text) Tree)
    → Entries P groups
    → Entries P (du_first groups)
unfolding du_first
du_first-Entries P groups h =
    All-append _ (keep_groups du_any groups) (keep_groups (λ t. not (du_any t)) groups)
      (keep_groups-Entries P du_any groups h) (keep_groups-Entries P (λ t. not (du_any t)) groups h)

-- A merged scope has the cover items and the children that its group was merged to.
module _ (make : ScopeObj → Result (Unit {0}))
    (below : ℕ → List (List Tree) → Result (List Tree)) where
  abbrev MadeTree : ℕ × Text → List (Option Tree) → Tree → Type 0
  MadeTree k slots t =
      (merge_items (map items_or_none slots) ≡ ok (items_of t))
      × (below k.0 (map children_or_none slots) ≡ ok (children_of t))

  merge_groups-Built :
      (coverpoints : List Text) (groups : Groups (ℕ × Text) Tree) (ds : List Tree)
      → Entries (λ k t. scope_key t ≡ k) groups
      → merge_groups make below coverpoints groups ≡ ok ds
      → Built scope_key MadeTree groups ds
  unfolding merge_groups
  merge_groups-Built coverpoints [] ds h made =
      subst (Built scope_key MadeTree []) (ok_injective made) tt
  merge_groups-Built coverpoints ((((stype, name), n), srcs) ∷ groups) ds h made =
      let (src0, found, r1) = >>=-eq-ok (first_of stop_iteration (present srcs)) _ made in
      let r2 = >>-eq-ok (check_cross stype coverpoints (obj_of src0)) _ ds r1 in
      let r2' = >>-eq-ok (make (obj_of src0)) _ ds r2 in
      let (items, made_items, r3) = >>=-eq-ok (merge_items (map items_or_none srcs)) _ r2' in
      let (children, made_children, r4) =
        >>=-eq-ok (below stype (map children_or_none srcs)) _ r3 in
      let (rest, others, both) =
        >>=-eq-ok (merge_groups make below (add_coverpoint stype name coverpoints) groups) _ r4 in
      let keyed =
        first_of-All (λ t. scope_key t ≡ (stype, name)) (present srcs) stop_iteration src0
          (present-All _ srcs h.0) found in
      subst (Built scope_key MadeTree ((((stype, name), n), srcs) ∷ groups)) (ok_injective both) (
        ap (λ (q : ℕ × Text). (stype, q.1)) keyed,
        (made_items, made_children ∙ ap ok (sym (children_of-of_list children))),
        merge_groups-Built (add_coverpoint stype name coverpoints) groups rest h.1 others,
      )

at_path : List ((ℕ × Text) × ℕ) → Text × ℕ → ℕ → Option Tree → Option ℕ
at_path path k n none = none
at_path path k n (some t) = count_at path k n t

at_path-nil :
    (k : Text × ℕ) (n : ℕ) (slot : Option Tree)
    → at_path [] k n slot ≡ count_in k n (items_or_none slot)
unfolding at_path count_at count_in nth
at_path-nil k n none = refl
at_path-nil k n (some t) = refl

at_path-cons :
    (j : ℕ × Text) (m : ℕ) (path : List ((ℕ × Text) × ℕ)) (k : Text × ℕ) (n : ℕ)
    (slot : Option Tree)
    → at_path ((j, m) ∷ path) k n slot ≡ count_under (j, m) path k n (children_or_none slot)
unfolding at_path count_at count_under nth
at_path-cons j m path k n none = refl
at_path-cons j m path k n (some t) = refl

count_under-at_path :
    (j : ℕ × Text) (m : ℕ) (path : List ((ℕ × Text) × ℕ)) (k : Text × ℕ) (n : ℕ) (ts : List Tree)
    → count_under (j, m) path k n ts ≡ at_path path k n (nth scope_key j m ts)
unfolding at_path count_under
count_under-at_path j m path k n ts = go (nth scope_key j m ts)
  where
    go :
        (o : Option Tree)
        → ◌≡◌ {A = Option ℕ}
            (elim o [ none ↦ none | some t ↦ count_at path k n t ])
            (at_path path k n o)
    go none = refl
    go (some t) = refl

-- What the calls one level down give.
abbrev Totals : (List (List Tree) → Result (List Tree)) → Type 0
Totals below =
    (parents : List (List Tree)) (ts : List Tree)
    → below parents ≡ ok ts
    → (j : ℕ × Text) (m : ℕ) (path : List ((ℕ × Text) × ℕ)) (k : Text × ℕ) (n : ℕ)
    → count_under (j, m) path k n ts ≡ total (map (count_under (j, m) path k n) parents)

MadeTree-total :
    (make : ScopeObj → Result (Unit {0})) (below : ℕ → List (List Tree) → Result (List Tree))
    (path : List ((ℕ × Text) × ℕ)) (k : Text × ℕ) (n : ℕ) (key : ℕ × Text)
    (slots : List (Option Tree)) (t : Tree)
    → Totals (below key.0)
    → MadeTree make below key slots t
    → at_path path k n (some t) ≡ total (map (at_path path k n) slots)
MadeTree-total make below [] k n key slots t totals (items, children) =
    at_path-nil k n (some t)
    ∙ merge_items-total (map items_or_none slots) (items_of t) items k n
    ∙ ap total (map-map (count_in k n) items_or_none slots)
    ∙ ap total (
        map-cong (λ s. count_in k n (items_or_none s)) (at_path [] k n) slots
          (λ s. sym (at_path-nil k n s)))
MadeTree-total make below ((j, m) ∷ path) k n key slots t totals (items, children) =
    at_path-cons j m path k n (some t)
    ∙ totals (map children_or_none slots) (children_of t) children j m path k n
    ∙ ap total (map-map (count_under (j, m) path k n) children_or_none slots)
    ∙ ap total (
        map-cong (λ s. count_under (j, m) path k n (children_or_none s))
          (at_path ((j, m) ∷ path) k n) slots (λ s. sym (at_path-cons j m path k n s)))

none_at : (path : List ((ℕ × Text) × ℕ)) (k : Text × ℕ) (n : ℕ) → at_path path k n none ≡ none
unfolding at_path
none_at path k n = refl

merge_children-Totals :
    (create : Create) (fuel : ℕ) (above : List ℕ) → Totals (merge_children create fuel above)
unfolding merge_children
merge_children-Totals create zero above parents ts made j m path k n = cc
merge_children-Totals create (suc fuel) above parents ts made j m path k n =
    let groups = group scope_key parents in
    let entries =
      du_first-Entries (λ k t. scope_key t ≡ k) groups
        (group-Entries scope_key (λ k t. scope_key t ≡ k) parents (keyed_by scope_key parents)) in
    let make = create above in
    let below = λ (stype : ℕ). merge_children create fuel (stype ∷ above) in
    let (v, slots, h) =
      group-MadeOf scope_key (MadeTree make below) scope_key parents (du_first groups) ts
        (λ k. rows-du_first k groups)
        (merge_groups-Built make below [] (du_first groups) ts entries made) j m in
    let totals = λ (stype : ℕ). merge_children-Totals create fuel (stype ∷ above) in
    count_under-at_path j m path k n ts
    ∙ MadeOf-total scope_key scope_key (at_path path k n) (at_path path k n) (none_at path k n)
        (none_at path k n) (MadeTree make below) j m (length parents) parents v
        (nth scope_key j m ts)
        (λ slots x made. MadeTree-total make below path k n j slots x (totals j.0) made) slots h
    ∙ ap total (
        map-cong (λ src. at_path path k n (nth scope_key j m src)) (count_under (j, m) path k n)
          parents (λ src. sym (count_under-at_path j m path k n src)))

-- Where the databases are merged, at every path of scopes (each the n-th of a type and a name under its
-- parent) and for every occurrence of a cover item's name and type there, the result has that cover item
-- exactly if some source has it, and its count is the sum of the counts in the sources that have it,
-- whatever its type, high-water marks included.
pub merge-total :
    (create : Create) (dbs : List Trees) (merged : Trees)
    → merge create dbs ≡ ok merged
    → (j : ℕ × Text) (m : ℕ) (path : List ((ℕ × Text) × ℕ)) (k : Text × ℕ) (n : ℕ)
    → count_under (j, m) path k n (to_list merged)
      ≡ total (map (λ db. count_under (j, m) path k n (to_list db)) dbs)
unfolding merge
merge-total create dbs merged made j m path k n =
    let (ts, below, both) =
      >>=-eq-ok (merge_children create (suc (deepest dbs)) [] (map to_list dbs)) _ made in
    ap (λ db. count_under (j, m) path k n (to_list db)) (sym (ok_injective both))
    ∙ ap (count_under (j, m) path k n) (children_of-of_list ts)
    ∙ merge_children-Totals create (suc (deepest dbs)) [] (map to_list dbs) ts below j m path k n
    ∙ ap total (map-map (count_under (j, m) path k n) to_list dbs)
