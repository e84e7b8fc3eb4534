-- ===== src/DfsUtil/Flat.antt =====
-- dfs_util.py and scope_tree.py agree: a flat index finds the bin's count in the counts that are written.
use mathlib.Core.Option.{some-injective}
use covsight_core.Prelude.{
  ℕ, zero, suc, ◌+◌, ◌<◌, ◌≤◌, ◌≡◌, List, [], ◌∷◌, ◌++◌, some, ltb, ltb→lt, ◌⊎◌, raise, index_error,
  length, get_elem?, ok, arith, refl, ap, sym, ◌∙◌, append_assoc, length-append, Bool-cases, inl,
  inr,
}
use covsight_core.StringTable.{StringTable}
use covsight_core.ScopeTree.{
  CoverItem, Scope, Scopes, scope, no_scopes, scopes, is_toggle_pair, write, counts_of,
}
use covsight_core.ScopeTree.Canonical.{own_counts, scope_counts, all_counts}
use covsight_core.ScopeTree.Advances.{pair-children, write_scopes-counts}
use covsight_core.DfsUtil.{
  visit, visit_all, dfs_scope_list, scope_bin_count, bases_from, scope_bin_bases, scope_bin_base,
  flat_bin_index, sum_counts, total_bin_count,
}

-- The counts of a scope's own bins.
abbrev pub bin_counts : Scope → List ℕ
bin_counts (scope head items children) = own_counts head items children

joined : List Scope → List ℕ
joined [] = []
joined (s ∷ ss) = bin_counts s ++ joined ss

joined-append : (xs ys : List Scope) → joined (xs ++ ys) ≡ joined xs ++ joined ys
unfolding joined
joined-append [] ys = refl
joined-append (x ∷ xs) ys =
    rw (joined-append xs ys) (sym (append_assoc (bin_counts x) (joined xs) (joined ys)))

mutual
  unfolding joined visit scope_counts

  scope_counts-visit : (s : Scope) → scope_counts s ≡ joined (visit s)
  scope_counts-visit (scope head items children) =
      elim (Bool-cases (is_toggle_pair head items children)) [
        | inl pair ↦ rw (pair, (pair-children head items children pair).0) refl
        | inr regular ↦ rw (regular, all_counts-visit children) refl
      ]

  all_counts-visit : (ss : Scopes) → all_counts ss ≡ joined (visit_all ss)
  all_counts-visit no_scopes = refl
  all_counts-visit (scopes s ss) =
      rw (scope_counts-visit s, all_counts-visit ss) (sym (joined-append (visit s) (visit_all ss)))

length-counts_of : (items : List CoverItem) → length (counts_of items) ≡ length items
unfolding counts_of
length-counts_of [] = refl
length-counts_of (ci ∷ items) = ap suc (length-counts_of items)

length-bin_counts : (s : Scope) → length (bin_counts s) ≡ scope_bin_count s
unfolding own_counts scope_bin_count
length-bin_counts (scope head items children) = ground (arith, length-counts_of items)

length-joined : (ss : List Scope) → length (joined ss) ≡ sum_counts ss
unfolding joined sum_counts
length-joined [] = refl
length-joined (s ∷ ss) =
    omega (arith, length-append (bin_counts s) (joined ss), length-bin_counts s, length-joined ss)

get_elem?-left : (xs ys : List ℕ) (i : ℕ) → i < length xs → get_elem? (xs ++ ys) i ≡ get_elem? xs i
get_elem?-left [] ys i h = absurd (omega arith)
get_elem?-left (x ∷ xs) ys zero h = refl
get_elem?-left (x ∷ xs) ys (suc i) h = get_elem?-left xs ys i (omega arith)

get_elem?-right : (xs ys : List ℕ) (i : ℕ) → get_elem? (xs ++ ys) (length xs + i) ≡ get_elem? ys i
get_elem?-right [] ys i = ground arith
get_elem?-right (x ∷ xs) ys i = ground (arith, get_elem?-right xs ys i)

-- Where a scope's bins begin among the joined counts.
located :
    (ss : List Scope) (next k i : ℕ) (s : Scope)
    → get_elem? ss k ≡ some s
    → i < scope_bin_count s
    → (b : ℕ) × (get_elem? (bases_from next ss) k ≡ some (next + b))
      × (get_elem? (joined ss) (b + i) ≡ get_elem? (bin_counts s) i)
unfolding bases_from joined
located [] next k i s found h = absurd (cc)
located (x ∷ ss) next zero i s found h =
    let same : x ≡ s = some-injective x s found in
    let inside : i < length (bin_counts x) =
      omega (arith, length-bin_counts x, ap scope_bin_count same) in
    (
      0,
      ap some (omega arith),
      ap (get_elem? (bin_counts x ++ joined ss)) (omega arith)
          ∙ get_elem?-left (bin_counts x) (joined ss) i inside
          ∙ ap (λ y. get_elem? (bin_counts y) i) same,
    )
located (x ∷ ss) next (suc k) i s found h =
    let (b, base, value) = located ss (next + scope_bin_count x) k i s found h in
    (
      scope_bin_count x + b,
      base ∙ ap some (omega arith),
      ap (get_elem? (bin_counts x ++ joined ss)) (omega (arith, length-bin_counts x))
          ∙ get_elem?-right (bin_counts x) (joined ss) (b + i)
          ∙ value,
    )

written-counts :
    (roots : Scopes) (strings : StringTable)
    → (write roots strings).1.counts ≡ joined (dfs_scope_list roots)
unfolding write dfs_scope_list
written-counts roots strings = write_scopes-counts roots _ ∙ all_counts-visit roots

-- The counts that the writer hands to counts.bin are as many as the bins of the database. For every
-- scope of the walk and every bin of it there is a flat index, and the counts hold there the count of
-- that bin; a bin that the scope does not have raises IndexError.
pub flat_bin_index-written :
    (roots : Scopes) (strings : StringTable) (k i : ℕ) (s : Scope)
    → get_elem? (dfs_scope_list roots) k ≡ some s
    → (length (write roots strings).1.counts ≡ total_bin_count roots)
      × (((n : ℕ) × (flat_bin_index roots k s i ≡ ok n)
            × (get_elem? (write roots strings).1.counts n ≡ get_elem? (bin_counts s) i)
            × (i < scope_bin_count s))
          ⊎ ((flat_bin_index roots k s i ≡ raise index_error) × (scope_bin_count s ≤ i)))
unfolding flat_bin_index scope_bin_base scope_bin_bases total_bin_count
flat_bin_index-written roots strings k i s found = (
  ap length (written-counts roots strings) ∙ length-joined (dfs_scope_list roots),
  elim (Bool-cases (ltb i (scope_bin_count s))) [
    | inl inside ↦
        let (b, base, value) =
          located (dfs_scope_list roots) 0 k i s found (ltb→lt i (scope_bin_count s) inside) in
        inl (
          0 + b + i,
          rw (inside, base),
          rw (written-counts roots strings)
              (ap (get_elem? (joined (dfs_scope_list roots))) (omega arith) ∙ value),
          ltb→lt i (scope_bin_count s) inside,
        )
    | inr outside ↦ inr (rw outside, ground arith)
  ],
)
