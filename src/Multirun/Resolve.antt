-- ===== src/Multirun/Resolve.antt =====
-- `resolve_counts` bin by bin: a total over the entries of the run table.
use covsight_core.Prelude.{
  ℕ, zero, suc, ◌+◌, ◌-◌, max, ◌≤◌, ◌≡◌, List, [], ◌∷◌, ◌++◌, map, Bool, true, false, none, some,
  ok, raise, arith, refl, All, ap, ◌∙◌, sym, Bool-cases, inl, inr, length, get_or, replicate, all,
  ◌==◌, length-append, length-replicate, ==_iff, eq_of_get_or,
}
use mathlib.Core.Path.{ap₂}
use covsight_core.Prelude.Dict.{Dict, lookup}
use covsight_core.Prelude.Text.{Text, text_key}
use covsight_core.MergeOps.{merge_counts, max_column}
use covsight_core.MergeOps.Columns.{is_max, column, sum_column, Width, merge_counts-column}
use covsight_core.Multirun.{
  Archive, RunTable, RunsJson, run_ids, get, contains, is_some, is_nil, max_width, pad, read_counts,
  read_ops, load_arrays, merge_arrays, read_run_table, resolve_selected, resolve_counts,
}
use covsight_core.Multirun.Table.{combine, total, combine-zero, DistinctIds, get-own}

get_or-pad : (w : ℕ) (a : List ℕ) (i : ℕ) → get_or (pad w a) i 0 ≡ get_or a i 0
unfolding pad
get_or-pad w a i = elim (Bool-cases (length a == w)) [
  | inl same ↦ rw same
  | inr short ↦ rw short (zeros a (w - length a) i)
]
  where
    zeros : (a : List ℕ) (n i : ℕ) → get_or (a ++ replicate n 0) i 0 ≡ get_or a i 0
    zeros [] zero i = refl
    zeros [] (suc n) zero = refl
    zeros [] (suc n) (suc i) = zeros [] n i
    zeros (x ∷ a) n zero = refl
    zeros (x ∷ a) n (suc i) = zeros a n i

length-pad : (w : ℕ) (a : List ℕ) → length a ≤ w → length (pad w a) ≡ w
unfolding pad
length-pad w a h = elim (Bool-cases (length a == w)) [
  | inl same ↦ rw same ((==_iff (length a) w).0 same)
  | inr short ↦ rw short (
      omega (
        arith,
        length-append a (replicate (w - length a) 0),
        length-replicate {A = ℕ} (w - length a) 0,
      ))
]

Width-pad : (w : ℕ) (arrays : List (List ℕ)) → max_width arrays ≤ w → Width w (map (pad w) arrays)
unfolding max_width
Width-pad w [] h = tt
Width-pad w (a ∷ arrays) h = (length-pad w a (omega arith), Width-pad w arrays (omega arith))

maxes : (i : ℕ) (cs : List (List ℕ)) → max_column i cs ≡ total true (λ c. get_or c i 0) cs
unfolding max_column total combine
maxes i [] = refl
maxes i (c ∷ cs) = ap (max (get_or c i 0)) (maxes i cs)

sums : (i : ℕ) (cs : List (List ℕ)) → sum_column i cs ≡ total false (λ c. get_or c i 0) cs
unfolding total combine
sums i [] = refl
sums i (c ∷ cs) = ap (λ (t : ℕ). get_or c i 0 + t) (sums i cs)

-- A column is a total over the arrays.
column-total :
    (ops : Dict ℕ ℕ) (i : ℕ) (arrays : List (List ℕ))
    → column ops i arrays ≡ total (is_max ops i) (λ c. get_or c i 0) arrays
column-total ops i arrays = elim (Bool-cases (is_max ops i)) [
  | inl t ↦ rw t (maxes i arrays)
  | inr f ↦ rw f (sums i arrays)
]

max_width-total : (arrays : List (List ℕ)) → max_width arrays ≡ total true length arrays
unfolding max_width total combine
max_width-total [] = refl
max_width-total (a ∷ arrays) = ap (max (length a)) (max_width-total arrays)

-- What a merge of arrays has to be: as long as the longest, and in each bin the total of the column.
pub record IsMerge (ops : Dict ℕ ℕ) (arrays : List (List ℕ)) (r : List ℕ) : Type 0 where
  pub width : length r ≡ total true length arrays
  pub bins : (i : ℕ) → get_or r i 0 ≡ total (is_max ops i) (λ c. get_or c i 0) arrays

total-pad :
    (b : Bool) (w i : ℕ) (arrays : List (List ℕ))
    → total b (λ c. get_or c i 0) (map (pad w) arrays) ≡ total b (λ c. get_or c i 0) arrays
unfolding total
total-pad b w i [] = refl
total-pad b w i (a ∷ arrays) = ap₂ (combine b) (get_or-pad w a i) (total-pad b w i arrays)

-- Padding to the longest array and merging gives such a merge.
pub padded-IsMerge :
    (ops : Dict ℕ ℕ) (c : List ℕ) (cs : List (List ℕ))
    → IsMerge ops (c ∷ cs) (merge_counts (map (pad (max_width (c ∷ cs))) (c ∷ cs)) ops)
padded-IsMerge ops c cs =
    let w = max_width (c ∷ cs) in
    let (len, at) =
      merge_counts-column w (pad w c) (map (pad w) cs) ops (Width-pad w (c ∷ cs) (omega arith)) in
    record {
      width = len ∙ max_width-total (c ∷ cs);
      bins = λ i.
          at i ∙ column-total ops i (map (pad w) (c ∷ cs)) ∙ total-pad (is_max ops i) w i (c ∷ cs);
    }

pub merge_arrays-IsMerge :
    (a : Archive) (ops : Dict ℕ ℕ) (arrays : List (List ℕ))
    → read_ops a ≡ ok ops
    → (r : List ℕ) × (merge_arrays a arrays ≡ ok r) × IsMerge ops arrays r
unfolding merge_arrays
merge_arrays-IsMerge a ops [] h =
    ([], refl, record { width = unfold total in refl; bins = λ i. unfold total in refl })
merge_arrays-IsMerge a ops (c ∷ []) h = (
  c,
  refl,
  record {
    width = unfold total in sym (combine-zero true (length c));
    bins = λ i. unfold total in sym (combine-zero (is_max ops i) (get_or c i 0));
  },
)
merge_arrays-IsMerge a ops (c ∷ d ∷ cs) h = (
  merge_counts (map (pad (max_width (c ∷ d ∷ cs))) (c ∷ d ∷ cs)) ops,
  rw h,
  padded-IsMerge ops c (d ∷ cs),
)

-- The array of a member, and the statement that it can be read.
unfoldable pub array : Archive → Text → List ℕ
array a member = elim (read_counts a member) [ ok counts ↦ counts | raise e ↦ [] ]

abbrev pub Readable : Archive → RunTable → Type 0
Readable a t = All (λ e. read_counts a e.member ≡ ok (array a e.member)) t

abbrev pub arrays_of : Archive → RunTable → List (List ℕ)
arrays_of a t = map (λ e. array a e.member) t

pub read_counts-lookup :
    (a : Archive) (m : Text) (cs : List ℕ) → read_counts a m ≡ ok cs → is_some (lookup m a) ≡ true
unfolding read_counts
read_counts-lookup a m cs h = ground arith

pub load_arrays-own :
    (a : Archive) (t s : RunTable)
    → All (λ e. get t e.run_id ≡ some e) s
    → Readable a s
    → load_arrays a t (run_ids s) ≡ ok (arrays_of a s)
unfolding load_arrays run_ids
load_arrays-own a t [] g h = refl
load_arrays-own a t (e ∷ s) g h =
    rw (g.0, read_counts-lookup a e.member _ h.0, h.0, load_arrays-own a t s g.1 h.1)

pub all_contained :
    (t s : RunTable) → All (λ e. get t e.run_id ≡ some e) s → all (contains t) (run_ids s) ≡ true
unfolding contains run_ids
all_contained t [] g = refl
all_contained t (e ∷ s) g = rw (g.0, all_contained t s g.1)

-- An archive whose runs can be resolved: the table and the merge operations can be read, there is a
-- run, no two runs share an id, and every run's array can be read.
pub record IsResolvable (json : RunsJson) (a : Archive) (t : RunTable) (ops : Dict ℕ ℕ)
    : Type 0 where
  pub table : read_run_table json a ≡ ok t
  pub some_run : is_nil t ≡ false
  pub operations : read_ops a ≡ ok ops
  pub distinct_ids : DistinctIds t
  pub readable : Readable a t

-- With all runs selected, an archive whose table, operations and arrays can be read, with distinct run
-- ids and at least one run, resolves to an array as long as its longest run, in which each bin holds the total over all runs: the maximum for a high-water
-- mark, the sum for every other bin.
pub resolve_counts-IsMerge :
    (json : RunsJson) (a : Archive) (t : RunTable) (ops : Dict ℕ ℕ)
    → IsResolvable json a t ops
    → (r : List ℕ) × (resolve_counts json a none ≡ ok r) × IsMerge ops (arrays_of a t) r
unfolding resolve_counts resolve_selected
resolve_counts-IsMerge json a t ops h =
    let own = get-own t h.distinct_ids in
    let (r, m, is) = merge_arrays-IsMerge a ops (arrays_of a t) h.operations in
    (r, rw (h.table, h.some_run, all_contained t t own, load_arrays-own a t t own h.readable) m, is)

-- There is only one merge of given arrays.
pub IsMerge-unique :
    (ops : Dict ℕ ℕ) (xs ys : List (List ℕ)) (r s : List ℕ)
    → IsMerge ops xs r
    → IsMerge ops ys s
    → total true length xs ≡ total true length ys
    → ((i : ℕ)
        → total (is_max ops i) (λ c. get_or c i 0) xs ≡ total (is_max ops i) (λ c. get_or c i 0) ys)
    → r ≡ s
IsMerge-unique ops xs ys r s h k w b =
    eq_of_get_or 0 r s (h.width ∙ w ∙ sym k.width) (λ i. h.bins i ∙ b i ∙ sym (k.bins i))
