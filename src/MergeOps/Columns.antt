-- ===== src/MergeOps/Columns.antt =====
-- `merge_counts` bin by bin.
use covsight_core.Prelude.{
  ℕ, zero, suc, ◌+◌, ◌≤◌, ◌<◌, ◌≡◌, List, [], ◌∷◌, Bool, ◌&&◌, ◌==◌, if◌then◌else◌, length, get_or,
  set, All, arith, refl, ltb, get_or-length-le, ◌⊎◌, Bool-cases, inl, inr, any, length-set, ap, ◌∙◌,
  sym,
}
use covsight_core.Prelude.Dict.{Dict}
use covsight_core.MergeOps.{op_max, add_columns, sum_columns, max_column, apply_ops, merge_counts}

-- Bin `i` is a high-water mark.
abbrev pub is_max : Dict ℕ ℕ → ℕ → Bool
is_max ops i = any (λ e. (e.0 == i) && (e.1 == op_max)) ops

-- The counts of one bin over all arrays, added up or as their maximum.
abbrev pub sum_column : ℕ → List (List ℕ) → ℕ
sum_column i [] = 0
sum_column i (counts ∷ rest) = get_or counts i 0 + sum_column i rest

abbrev pub column : Dict ℕ ℕ → ℕ → List (List ℕ) → ℕ
column ops i all_counts = if is_max ops i then max_column i all_counts else sum_column i all_counts

length-add_columns :
    (w : ℕ) (a b : List ℕ) → length a ≡ w → length b ≡ w → length (add_columns a b) ≡ w
unfolding add_columns
length-add_columns w [] b p q = p
length-add_columns w (x ∷ a) [] p q = q
length-add_columns zero (x ∷ a) (y ∷ b) p q = absurd (omega arith)
length-add_columns (suc w) (x ∷ a) (y ∷ b) p q =
    ap suc (length-add_columns w a b (omega arith) (omega arith))

get_or-add_columns :
    (a b : List ℕ) (i : ℕ)
    → length a ≡ length b
    → get_or (add_columns a b) i 0 ≡ get_or a i 0 + get_or b i 0
unfolding add_columns
get_or-add_columns [] [] i e = omega arith
get_or-add_columns [] (y ∷ b) i e = absurd (omega arith)
get_or-add_columns (x ∷ a) [] i e = absurd (omega arith)
get_or-add_columns (x ∷ a) (y ∷ b) zero e = refl
get_or-add_columns (x ∷ a) (y ∷ b) (suc i) e = get_or-add_columns a b i (omega arith)

-- Every array has `w` bins.
abbrev pub Width : ℕ → List (List ℕ) → Type 0
Width w all_counts = All (λ counts. length counts ≡ w) all_counts

length-sum_columns :
    (w : ℕ) (c : List ℕ) (cs : List (List ℕ)) → Width w (c ∷ cs) → length (sum_columns (c ∷ cs)) ≡ w
unfolding sum_columns
length-sum_columns w c [] h = h.0
length-sum_columns w c (d ∷ cs) h = length-add_columns w c _ h.0 (length-sum_columns w d cs h.1)

get_or-sum_columns :
    (w : ℕ) (cs : List (List ℕ)) (i : ℕ)
    → Width w cs
    → get_or (sum_columns cs) i 0 ≡ sum_column i cs
unfolding sum_columns
get_or-sum_columns w [] i h = refl
get_or-sum_columns w (c ∷ []) i h = omega arith
get_or-sum_columns w (c ∷ d ∷ cs) i h =
    get_or-add_columns c (sum_columns (d ∷ cs)) i
      (omega (arith, h.0, length-sum_columns w d cs h.1))
    ∙ ap (λ (t : ℕ). get_or c i 0 + t) (get_or-sum_columns w (d ∷ cs) i h.1)

length-apply_ops :
    (cs : List (List ℕ)) (ops : Dict ℕ ℕ) (m : List ℕ) → length (apply_ops cs ops m) ≡ length m
unfolding apply_ops
length-apply_ops cs [] m = refl
length-apply_ops cs ((k, op) ∷ ops) m = elim (Bool-cases (op == op_max && ltb k (length m))) [
  | inl t ↦ rw t (length-apply_ops cs ops _ ∙ length-set m k _)
  | inr f ↦ rw f (length-apply_ops cs ops m)
]

get_or-set :
    (xs : List ℕ) (k i v : ℕ)
    → k < length xs
    → get_or (set xs k v) i 0 ≡ (if k == i then v else get_or xs i 0)
get_or-set [] k i v h = absurd (omega arith)
get_or-set (x ∷ xs) zero zero v h = refl
get_or-set (x ∷ xs) zero (suc i) v h = ground arith
get_or-set (x ∷ xs) (suc k) zero v h = ground arith
get_or-set (x ∷ xs) (suc k) (suc i) v h = ground (arith, get_or-set xs k i v)

get_or-apply_ops :
    (cs : List (List ℕ)) (ops : Dict ℕ ℕ) (m : List ℕ) (i : ℕ)
    → i < length m
    → get_or (apply_ops cs ops m) i 0 ≡ (if is_max ops i then max_column i cs else get_or m i 0)
unfolding apply_ops
get_or-apply_ops cs [] m i h = refl
get_or-apply_ops cs ((k, op) ∷ ops) m i h = ground (
  arith,
  get_or-apply_ops cs ops m i,
  get_or-apply_ops cs ops (set m k (max_column k cs)) i,
  get_or-set m k i (max_column k cs),
  length-set m k (max_column k cs),
)

column-beyond :
    (w i : ℕ) (cs : List (List ℕ))
    → Width w cs
    → w ≤ i
    → (sum_column i cs ≡ 0) × (max_column i cs ≡ 0)
unfolding max_column
column-beyond w i [] h le = (refl, refl)
column-beyond w i (c ∷ cs) h le =
    let (s, m) = column-beyond w i cs h.1 le in
    let z = get_or-length-le 0 c i (omega (arith, h.0)) in (omega arith, omega arith)

inside : (i w : ℕ) → (i < w) ⊎ (w ≤ i)
inside i w = grind arith

zero-column :
    (ops : Dict ℕ ℕ) (i : ℕ) (cs : List (List ℕ))
    → sum_column i cs ≡ 0
    → max_column i cs ≡ 0
    → column ops i cs ≡ 0
zero-column ops i cs s m = elim (Bool-cases (is_max ops i)) [ inl t ↦ rw t m | inr f ↦ rw f s ]

pub length-merge_counts :
    (w : ℕ) (c : List ℕ) (cs : List (List ℕ)) (ops : Dict ℕ ℕ)
    → Width w (c ∷ cs)
    → length (merge_counts (c ∷ cs) ops) ≡ w
unfolding merge_counts
length-merge_counts w c cs ops h = length-apply_ops (c ∷ cs) ops _ ∙ length-sum_columns w c cs h

-- Arrays of one length merge to an array of that length, in which a bin that the table marks as a
-- high-water mark holds the largest of its counts, and any other bin holds their sum.
pub merge_counts-column :
    (w : ℕ) (c : List ℕ) (cs : List (List ℕ)) (ops : Dict ℕ ℕ)
    → Width w (c ∷ cs)
    → (length (merge_counts (c ∷ cs) ops) ≡ w)
      × ((i : ℕ) → get_or (merge_counts (c ∷ cs) ops) i 0 ≡ column ops i (c ∷ cs))
merge_counts-column w c cs ops h = (length-merge_counts w c cs ops h, at)
  where
    at : (i : ℕ) → get_or (merge_counts (c ∷ cs) ops) i 0 ≡ column ops i (c ∷ cs)
    at i = elim (inside i w) [
      | inl lt ↦
          unfold merge_counts in
          (get_or-apply_ops (c ∷ cs) ops (sum_columns (c ∷ cs)) i
              (omega (arith, length-sum_columns w c cs h))
            ∙ ap (λ (t : ℕ). if is_max ops i then max_column i (c ∷ cs) else t)
                (get_or-sum_columns w (c ∷ cs) i h))
      | inr le ↦
          let (s, m) = column-beyond w i (c ∷ cs) h le in
          get_or-length-le 0 (merge_counts (c ∷ cs) ops) i
            (omega (arith, length-merge_counts w c cs ops h))
          ∙ sym (zero-column ops i (c ∷ cs) s m)
    ]
