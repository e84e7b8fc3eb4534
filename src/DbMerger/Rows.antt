-- ===== src/DbMerger/Rows.antt =====
-- db_merger.py: the groups of one key, which `_group` makes in the order of their occurrences.
use covsight_core.Prelude.{
  ℕ, zero, suc, ◌+◌, ◌≤◌, ◌<◌, ◌≡◌, List, [], ◌∷◌, Option, some, length, map, ◌==◌, true, false,
  if◌then◌else◌, get_elem?, arith, refl, ap, ◌∙◌, inl, inr, Bool-cases, ==_iff,
}
use covsight_core.Prelude.Keys.{Key, nat_key, pair_key}
use covsight_core.Prelude.Dict.{Dict, lookup, put}
use covsight_core.DbMerger.{Groups, add_source, add_sources, group}
use covsight_core.DbMerger.Group.{seen_of, seen_of-put, seen_of-nil}

-- The keys are `s`, `s + 1`, ….
abbrev pub Dense {ℓ} : {V : Type ℓ} → ℕ → Dict ℕ V → Type 0
Dense s [] = Unit
Dense s ((n, v) ∷ d) = (n ≡ s) × Dense (suc s) d

put-Dense {ℓ} :
    {V : Type ℓ} (s n : ℕ) (v : V) (d : Dict ℕ V)
    → Dense s d
    → s ≤ n
    → n ≤ s + length d
    → Dense s (put n v d) × (n < s + length (put n v d)) × (length d ≤ length (put n v d))
unfolding put
put-Dense s n v [] h le ge = ((omega arith, tt), omega arith, omega arith)
put-Dense s n v ((m, w) ∷ d) h le ge = elim (Bool-cases (m == n)) [
  | inl same ↦ rw same (h, omega (arith, h.0, (==_iff m n).0 same), omega arith)
  | inr other ↦
      let (dense, more, longer) = put-Dense (suc s) n v d h.1 (ground (arith, h.0)) (omega arith) in
      rw other ((h.0, dense), omega arith, omega arith)
]

pub lookup-Dense {ℓ} :
    {V : Type ℓ} (s m p : ℕ) (d : Dict ℕ V)
    → Dense s d
    → p ≡ s + m
    → lookup p d ≡ get_elem? (map (λ (e : ℕ × V). e.1) d) m
unfolding lookup
lookup-Dense s m p [] h at = refl
lookup-Dense s zero p ((n, v) ∷ d) h at = ap (λ b. if b then some v else lookup p d) hit
  where
    hit : (n == p) ≡ true
    hit = (==_iff n p).1 (omega (arith, h.0))
lookup-Dense s (suc m) p ((n, v) ∷ d) h at =
    ap (λ b. if b then some v else lookup p d) miss ∙ lookup-Dense (suc s) m p d h.1 (omega arith)
  where
    miss : (n == p) ≡ false
    miss = ground (arith, h.0)

module _ {ℓ κ} {K : Type ℓ} {A : Type κ} ⦃e : Key K⦄ where
  -- The groups of one key, by the number of the occurrence.
  unfoldable pub rows : K → Groups K A → Dict ℕ (List (Option A))
  rows k [] = []
  rows k (((j, n), slots) ∷ groups) =
      let more = rows k groups in if e.same j k then (n, slots) ∷ more else more

  pub lookup-rows :
      (k : K) (m : ℕ) (groups : Groups K A) → lookup (k, m) groups ≡ lookup m (rows k groups)
  unfolding rows lookup
  lookup-rows k m [] = refl
  lookup-rows k m (((j, n), slots) ∷ groups) = elim (Bool-cases (e.same j k)) [
    | inl same ↦ rw (same, lookup-rows k m groups) refl
    | inr other ↦ rw (other, lookup-rows k m groups) refl
  ]

  rows-put :
      (j k : K) (n : ℕ) (v : List (Option A)) (groups : Groups K A)
      → rows k (put (j, n) v groups)
        ≡ (if e.same j k then put n v (rows k groups) else rows k groups)
  unfolding rows put
  rows-put j k n v [] = refl
  rows-put j k n v (((i, m), w) ∷ groups) =
      ground (arith, e.same_iff i j, e.same_iff i k, e.same_iff j k, rows-put j k n v groups)

  abbrev SeenWithin : Dict K ℕ → Groups K A → Type ℓ
  SeenWithin seen groups =
      (k : K) → Dense 0 (rows k groups) × (seen_of k seen ≤ length (rows k groups))

  put-SeenWithin :
      (j : K) (v : List (Option A)) (seen : Dict K ℕ) (groups : Groups K A)
      → SeenWithin seen groups
      → SeenWithin (put j (suc (seen_of j seen)) seen) (put (j, seen_of j seen) v groups)
  put-SeenWithin j v seen groups h k =
      rw (rows-put j k (seen_of j seen) v groups, seen_of-put j k (suc (seen_of j seen)) seen)
        (elim (Bool-cases (e.same j k)) [
          | inl same ↦
              let at : seen_of j seen ≤ length (rows k groups) =
                omega (arith, (h k).1, ap (λ j. seen_of j seen) ((e.same_iff j k).0 same)) in
              let (dense, more, longer) =
                put-Dense 0 (seen_of j seen) v (rows k groups) (h k).0 (omega arith)
                  (omega arith) in
              rw same (dense, omega arith)
          | inr other ↦ rw other (h k)
        ])

module _ {ℓ κ} {K : Type ℓ} {A : Type κ} ⦃e : Key K⦄ (key : A → K) where
  add_source-Dense :
      (len i : ℕ) (objs : List A) (seen : Dict K ℕ) (groups : Groups K A)
      → SeenWithin seen groups
      → (k : K) → Dense 0 (rows k (add_source key len i objs seen groups))
  unfolding add_source
  add_source-Dense len i [] seen groups h k = (h k).0
  add_source-Dense len i (obj ∷ objs) seen groups h k =
      add_source-Dense len i objs (put (key obj) (suc (seen_of (key obj) seen)) seen) _
        (put-SeenWithin (key obj) _ seen groups h) k

  add_sources-Dense :
      (len i : ℕ) (sources : List (List A)) (groups : Groups K A)
      → ((k : K) → Dense 0 (rows k groups))
      → (k : K) → Dense 0 (rows k (add_sources key len i sources groups))
  unfolding add_sources
  add_sources-Dense len i [] groups h = h
  add_sources-Dense len i (objs ∷ sources) groups h =
      add_sources-Dense len (suc i) sources _
        (add_source-Dense len i objs [] groups (λ k. (h k, omega (arith, seen_of-nil k))))

  -- The groups of a key are numbered from 0 on, in their order.
  pub group-Dense : (sources : List (List A)) (k : K) → Dense 0 (rows k (group key sources))
  unfolding group rows
  group-Dense sources = add_sources-Dense (length sources) 0 sources [] (λ k. tt)
