-- ===== src/DbMerger/Sums.antt =====
-- db_merger.py: the counts of the merged scopes and cover items, at every path.
use mathlib.Core.Path.{subst}
use covsight_core.Prelude.{
  ℕ, zero, suc, ◌+◌, ◌≡◌, List, [], ◌∷◌, Option, none, some, Result, ok, raise, ◌>>◌, Exc,
  >>=-eq-ok, length, replicate, map, All, arith, refl, ap, sym, ◌∙◌, inl, inr, Option-cases,
  traverse, index_error,
}
use covsight_core.Prelude.Keys.{Key, nat_key, pair_key}
use covsight_core.Prelude.Text.{Text, text_key}
use covsight_core.DbMerger.{
  Groups, slots_or, group, present, first_of, sum, Item, Tree, items_of, children_of, scope_key,
  item_key, merge_item, merge_items,
}
use covsight_core.DbMerger.Group.{nth}
use covsight_core.DbMerger.Entries.{
  present-All, Entries, group-Entries, Built, MadeOf, group-MadeOf,
}

-- The sum of the counts that there are; none if there is none.
unfoldable pub total : List (Option ℕ) → Option ℕ
total [] = none
total (none ∷ ns) = total ns
total (some n ∷ ns) = some (elim (total ns) [ none ↦ n | some rest ↦ n + rest ])

-- The count of an occurrence of a cover item in a list of cover items.
unfoldable pub count_in : Text × ℕ → ℕ → List Item → Option ℕ
count_in k n items = elim (nth item_key k n items) [ none ↦ none | some ci ↦ some ci.count ]

-- The count of a cover item at the end of a path of scopes, each the occurrence of a type and a name.
unfoldable pub count_at : List ((ℕ × Text) × ℕ) → Text × ℕ → ℕ → Tree → Option ℕ
count_at [] k n t = count_in k n (items_of t)
count_at ((j, m) ∷ path) k n t = elim (nth scope_key j m (children_of t)) [
  | none ↦ none
  | some child ↦ count_at path k n child
]

-- The same for the scopes at the top of a database.
unfoldable pub count_under :
    (ℕ × Text) × ℕ → List ((ℕ × Text) × ℕ) → Text × ℕ → ℕ → List Tree → Option ℕ
count_under (j, m) path k n ts = elim (nth scope_key j m ts) [
  | none ↦ none
  | some t ↦ count_at path k n t
]

pub map-map :
    {A B C : Type 0} (f : B → C) (g : A → B) (xs : List A)
    → map f (map g xs) ≡ map (λ x. f (g x)) xs
map-map f g [] = refl
map-map f g (x ∷ xs) = ap (◌∷◌ (f (g x))) (map-map f g xs)

pub map-cong :
    {A B : Type 0} (f g : A → B) (xs : List A) → ((x : A) → f x ≡ g x) → map f xs ≡ map g xs
map-cong f g [] h = refl
map-cong f g (x ∷ xs) h = rw (h x, map-cong f g xs h) refl

total-replicate :
    {A : Type 0} (f : Option A → Option ℕ) (n : ℕ)
    → f none ≡ none
    → total (map f (replicate n none)) ≡ none
unfolding total
total-replicate f zero h = refl
total-replicate f (suc n) h = rw (h, total-replicate f n h) refl

-- From what each group is made into to every occurrence of a key.
module _ {K A D : Type 0} ⦃e : Key K⦄ (key : D → K) (origin : A → K) (f : Option A → Option ℕ)
    (g : Option D → Option ℕ) (f_none : f none ≡ none) (g_none : g none ≡ none) where
  pub MadeOf-total :
      (Made : K → List (Option A) → D → Type 0) (k : K) (m len : ℕ) (sources : List (List A))
      (v : Option (List (Option A))) (d : Option D)
      → ((slots : List (Option A)) (x : D) → Made k slots x → g (some x) ≡ total (map f slots))
      → slots_or len v ≡ map (nth origin k m) sources
      → MadeOf key Made k v d
      → g d ≡ total (map (λ src. f (nth origin k m src)) sources)
  MadeOf-total Made k m len sources none none made eq h =
      g_none
      ∙ sym (total-replicate f len f_none)
      ∙ ap (λ slots. total (map f slots)) eq
      ∙ ap total (map-map f (nth origin k m) sources)
  MadeOf-total Made k m len sources none (some d) made eq h = absurd h
  MadeOf-total Made k m len sources (some slots) none made eq h = absurd h
  MadeOf-total Made k m len sources (some slots) (some d) made eq h =
      made slots d h
      ∙ ap (λ slots. total (map f slots)) eq
      ∙ ap total (map-map f (nth origin k m) sources)

pub >>-eq-ok :
    {B : Type 0} (call : Result Unit) (next : Result B) (y : B)
    → (call >> next) ≡ ok y
    → next ≡ ok y
>>-eq-ok (raise e) next y h = cc
>>-eq-ok (ok tt) next y h = h

-- A merged cover item has the total of the counts of its group.
abbrev count_slot : Option Item → Option ℕ
count_slot none = none
count_slot (some ci) = some ci.count

abbrev MadeItem : Text × ℕ → List (Option Item) → Item → Type 0
MadeItem k slots ci = some ci.count ≡ total (map count_slot slots)

or_zero : Option ℕ → ℕ
or_zero none = 0
or_zero (some n) = n

sum-total :
    (slots : List (Option Item))
    → sum (map (λ ci. ci.count) (present slots)) ≡ or_zero (total (map count_slot slots))
unfolding present sum total or_zero
sum-total [] = refl
sum-total (none ∷ slots) = sum-total slots
sum-total (some ci ∷ slots) = elim (Option-cases (total (map count_slot slots))) [
  | inl nothing ↦ rw (sum-total slots, nothing) (omega arith)
  | inr (n, rest) ↦ rw (sum-total slots, rest) refl
]

total-present :
    (slots : List (Option Item)) (ci : Item) (e : Exc)
    → first_of e (present slots) ≡ ok ci
    → some (sum (map (λ ci. ci.count) (present slots))) ≡ total (map count_slot slots)
unfolding first_of present sum total or_zero
total-present [] ci e h = cc
total-present (none ∷ slots) ci e h = total-present slots ci e h
total-present (some x ∷ slots) ci e h = elim (Option-cases (total (map count_slot slots))) [
  | inl nothing ↦ rw (sum-total slots, nothing) (ap some (omega arith))
  | inr (n, rest) ↦ rw (sum-total slots, rest) refl
]

pub ok_injective : {A : Type 0} {a b : A} → ok a ≡ ok b → a ≡ b
ok_injective p = cc

pub first_of-All :
    {A : Type 0} (P : A → Type 0) (xs : List A) (e : Exc) (x : A)
    → All P xs
    → first_of e xs ≡ ok x
    → P x
unfolding first_of
first_of-All P [] e x h first = cc
first_of-All P (y ∷ xs) e x h first = subst P (ok_injective first) h.0

-- The cover items that are made of groups whose objects have their keys.
merge_items-Built :
    (groups : Groups (Text × ℕ) Item) (ds : List Item)
    → Entries (λ k ci. item_key ci ≡ k) groups
    → traverse (λ g. merge_item g.0 g.1) groups ≡ ok ds
    → Built item_key MadeItem groups ds
unfolding merge_item
merge_items-Built [] ds h made = subst (Built item_key MadeItem []) (ok_injective made) tt
merge_items-Built ((((name, cover_type), n), slots) ∷ groups) ds h made =
    let (d, first, rest) = >>=-eq-ok (merge_item ((name, cover_type), n) slots) _ made in
    let (ds', others, both) = >>=-eq-ok (traverse (λ g. merge_item g.0 g.1) groups) _ rest in
    let (cd, found, built) = >>=-eq-ok (first_of index_error (present slots)) _ first in
    let keyed =
      first_of-All (λ ci. item_key ci ≡ (name, cover_type)) (present slots) index_error cd
        (present-All _ slots h.0) found in
    let one =
      subst (λ d. (item_key d ≡ (name, cover_type)) × MadeItem (name, cover_type) slots d)
        (ok_injective built)
        (ap (λ (q : Text × ℕ). (name, q.1)) keyed, total-present slots cd index_error found) in
    subst (Built item_key MadeItem ((((name, cover_type), n), slots) ∷ groups)) (ok_injective both)
      (one.0, one.1, merge_items-Built groups ds' h.1 others)

pub keyed_by :
    {A K : Type 0} (key : A → K) (sources : List (List A)) → All (All (λ a. key a ≡ key a)) sources
keyed_by key [] = tt
keyed_by {A = A} key (objs ∷ sources) = (each objs, keyed_by key sources)
  where
    each : (objs : List A) → All (λ a. key a ≡ key a) objs
    each [] = tt
    each (a ∷ objs) = (refl, each objs)

pub merge_items-total :
    (items : List (List Item)) (ds : List Item)
    → merge_items items ≡ ok ds
    → (k : Text × ℕ) (n : ℕ) → count_in k n ds ≡ total (map (count_in k n) items)
unfolding merge_items count_in
merge_items-total items ds made k n =
    let entries =
      group-Entries item_key (λ k ci. item_key ci ≡ k) items (keyed_by item_key items) in
    let (v, slots, h) =
      group-MadeOf item_key MadeItem item_key items (group item_key items) ds (λ k. refl)
        (merge_items-Built (group item_key items) ds entries made) k n in
    MadeOf-total item_key item_key count_slot count_slot refl refl MadeItem k n (length items) items
      v (nth item_key k n ds) (λ slots x made. made) slots h
