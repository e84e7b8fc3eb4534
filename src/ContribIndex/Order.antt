-- ===== src/ContribIndex/Order.antt =====
-- The order of the entries under insertion and removal.
use covsight_core.Prelude.{
  ℕ, ◌≤◌, ◌<◌, ◌≡◌, List, [], ◌∷◌, ◌++◌, false, leb, ltb, ap, if◌then◌else◌, arith, refl,
  Bool-cases, inl, inr, ◌==◌, ◌+◌,
}
use covsight_core.ContribIndex.{
  ContribIndexEntry, ContribIndex, out_of_order, insert_sorted, add_to, add_entry, keep_above,
  remove_entries_up_to,
}

-- Run ids ascend, from `lo` on; one id may stand more than once.
abbrev pub SortedFrom : ℕ → List ContribIndexEntry → Type 0
SortedFrom lo [] = Unit
SortedFrom lo (e ∷ es) = (lo ≤ e.run_id) × SortedFrom e.run_id es

abbrev pub IsSorted : ContribIndex → Type 0
IsSorted ci = SortedFrom 0 ci.entries

insert_sorted-SortedFrom :
    (lo : ℕ) (entry : ContribIndexEntry) (es : List ContribIndexEntry)
    → lo ≤ entry.run_id
    → SortedFrom lo es
    → SortedFrom lo (insert_sorted entry es)
unfolding insert_sorted
insert_sorted-SortedFrom lo entry [] h s = (h, tt)
insert_sorted-SortedFrom lo entry (e ∷ es) h s =
    ground (arith, insert_sorted-SortedFrom e.run_id entry es)

first_below :
    (lo r : ℕ) (e : ContribIndexEntry) (es : List ContribIndexEntry)
    → SortedFrom lo (e ∷ es)
    → out_of_order r (e ∷ es) ≡ false
    → e.run_id < r
unfolding out_of_order
first_below lo r e [] s h = ground arith
first_below lo r e (f ∷ es) s h = omega (arith, s.1.0, first_below e.run_id r f es s.1 h)

-- In a sorted list the last id is the largest: if the new one is above it, it belongs at the end.
insert_sorted-last :
    (lo : ℕ) (entry : ContribIndexEntry) (es : List ContribIndexEntry)
    → SortedFrom lo es
    → out_of_order entry.run_id es ≡ false
    → insert_sorted entry es ≡ es ++ entry ∷ []
unfolding insert_sorted out_of_order
insert_sorted-last lo entry [] s h = refl
insert_sorted-last lo entry (e ∷ []) s h = ground arith
insert_sorted-last lo entry (e ∷ f ∷ es) s h = ground (
  arith,
  first_below lo entry.run_id e (f ∷ es) s h,
  insert_sorted-last e.run_id entry (f ∷ es) s.1 h,
)

-- An entry put in among entries, which stay as they are.
abbrev pub Inserted : ContribIndexEntry → List ContribIndexEntry → List ContribIndexEntry → Type 0
Inserted entry es new =
    (before : List ContribIndexEntry) × (after : List ContribIndexEntry) × (es ≡ before ++ after)
    × (new ≡ before ++ entry ∷ after)

insert_sorted-Inserted :
    (entry : ContribIndexEntry) (es : List ContribIndexEntry)
    → Inserted entry es (insert_sorted entry es)
unfolding insert_sorted
insert_sorted-Inserted entry [] = ([], [], refl, refl)
insert_sorted-Inserted entry (e ∷ es) = elim (Bool-cases (ltb entry.run_id e.run_id)) [
  | inl here ↦ rw here ([], e ∷ es, refl, refl)
  | inr later ↦
      let (before, after, old, new) = insert_sorted-Inserted entry es in
      rw later (e ∷ before, after, ap (◌∷◌ e) old, ap (◌∷◌ e) new)
]

pub add_to-insert_sorted :
    (entry : ContribIndexEntry) (es : List ContribIndexEntry)
    → SortedFrom 0 es
    → add_to entry es ≡ insert_sorted entry es
unfolding add_to
add_to-insert_sorted entry es s = elim (Bool-cases (out_of_order entry.run_id es)) [
  | inl t ↦ rw t
  | inr f ↦ rw (f, insert_sorted-last 0 entry es s f)
]

-- Adding an entry to a sorted index, in or out of order, keeps it sorted by run id; that very entry is
-- put in at one place, and all others stay as they are, in their order; the policy and the watermark stay.
pub add_entry_lem :
    (entry : ContribIndexEntry) (ci : ContribIndex)
    → IsSorted ci
    → IsSorted (add_entry entry ci)
      × Inserted entry ci.entries (add_entry entry ci).entries
      × ((add_entry entry ci).merge_policy ≡ ci.merge_policy)
      × ((add_entry entry ci).squash_watermark ≡ ci.squash_watermark)
unfolding add_entry
add_entry_lem entry ci s = (
  rw (add_to-insert_sorted entry ci.entries s)
      (insert_sorted-SortedFrom 0 entry ci.entries (omega arith) s),
  rw (add_to-insert_sorted entry ci.entries s) (insert_sorted-Inserted entry ci.entries),
  refl,
  refl,
)

-- How many entries have an id.
abbrev count : ℕ → List ContribIndexEntry → ℕ
count r [] = 0
count r (e ∷ es) = (if e.run_id == r then 1 else 0) + count r es

count-keep_above :
    (m r : ℕ) (es : List ContribIndexEntry)
    → count r (keep_above m es) ≡ (if leb r m then 0 else count r es)
unfolding keep_above
count-keep_above m r [] = ground arith
count-keep_above m r (e ∷ es) = ground (arith, count-keep_above m r es)

keep_above-SortedFrom :
    (lo m : ℕ) (es : List ContribIndexEntry) → SortedFrom lo es → SortedFrom lo (keep_above m es)
unfolding keep_above
keep_above-SortedFrom lo m [] s = tt
keep_above-SortedFrom lo m (e ∷ es) s =
    ground
      (arith, keep_above-SortedFrom e.run_id m es s.1, weaken lo e.run_id (keep_above m es) s.0)
  where
    weaken : (a b : ℕ) (xs : List ContribIndexEntry) → a ≤ b → SortedFrom b xs → SortedFrom a xs
    weaken a b [] h k = tt
    weaken a b (x ∷ xs) h k = (omega (arith, k.0), k.1)

-- What is left of a sorted index after a squash up to a run: a sorted index with every entry of a
-- later run and none of the run or an earlier one.
remove_entries_up_to_lem :
    (run_id : ℕ) (ci : ContribIndex)
    → IsSorted ci
    → IsSorted (remove_entries_up_to run_id ci)
      × ((r : ℕ)
          → count r (remove_entries_up_to run_id ci).entries
            ≡ (if leb r run_id then 0 else count r ci.entries))
unfolding remove_entries_up_to
remove_entries_up_to_lem run_id ci s =
    (keep_above-SortedFrom 0 run_id ci.entries s, λ r. count-keep_above run_id r ci.entries)
