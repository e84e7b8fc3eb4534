-- ===== src/DbMerger/ItemReturns.antt =====
-- db_merger.py: the calls of `_merge_items`.
use covsight_core.Prelude.{
  ℕ, ◌≡◌, List, [], ◌∷◌, Option, Result, ok, ◌>>=◌, length, refl, ap, ◌∙◌, traverse, index_error,
}
use covsight_core.Prelude.Keys.{nat_key, pair_key}
use covsight_core.Prelude.Text.{Text, text_key}
use covsight_core.DbMerger.{
  Groups, group, present, first_of, Item, item_key, merge_item, merge_items,
}
use covsight_core.DbMerger.Filled.{NonEmpty, Filled, group-Filled}

-- A call that returns, and a chain of calls that return.
abbrev pub Returns {κ} : {A : Type κ} → Result A → Type κ
Returns {A = A} call = (x : A) × (call ≡ ok x)

pub chain {κ μ} :
    {A : Type κ} {B : Type μ} (call : Result A) (next : A → Result B) (x : A)
    → call ≡ ok x
    → Returns (next x)
    → Returns (call >>= next)
chain call next x h r = (r.0, ap (λ c. c >>= next) h ∙ r.1)

merge_item-ok :
    (k : (Text × ℕ) × ℕ) (slots : List (Option Item))
    → NonEmpty slots
    → (d : Item) × (merge_item k slots ≡ ok d)
unfolding merge_item first_of
merge_item-ok ((name, cover_type), n) slots (a, rest, h) =
    chain (first_of index_error (present slots)) _ a (ap (first_of index_error) h) (_, refl)

merge_each-ok :
    (len : ℕ) (groups : Groups (Text × ℕ) Item)
    → Filled len groups
    → (ds : List Item) × (traverse (λ g. merge_item g.0 g.1) groups ≡ ok ds)
merge_each-ok len [] h = ([], refl)
merge_each-ok len ((k, slots) ∷ groups) h =
    let (d, first) = merge_item-ok k slots h.0.1 in
    let (ds, others) = merge_each-ok len groups h.1 in (d ∷ ds, rw (first, others) refl)

-- The cover items of a scope can always be merged.
pub merge_items-ok : (items : List (List Item)) → (ds : List Item) × (merge_items items ≡ ok ds)
unfolding merge_items
merge_items-ok items =
    merge_each-ok (length items) (group item_key items) (group-Filled item_key items)
