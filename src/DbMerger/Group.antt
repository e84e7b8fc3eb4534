-- ===== src/DbMerger/Group.antt =====
-- db_merger.py: what `_group` puts together.
use mathlib.Core.Path.{ap₂}
use covsight_core.Prelude.{
  ℕ, zero, suc, ◌+◌, ◌<◌, ◌≡◌, List, [], ◌∷◌, ◌++◌, Option, none, some, length, replicate, set, map,
  ◌&&◌, true, false, ◌≢◌, ◌==◌, if◌then◌else◌, arith, length-append, append_assoc, refl, ap, sym,
  ◌∙◌, inl, inr, Bool-cases,
}
use covsight_core.Prelude.Keys.{Key, nat_key, pair_key}
use covsight_core.Prelude.Dict.{Dict, lookup, put, lookup-put}
use covsight_core.DbMerger.{Groups, count_or_zero, slots_or, add_source, add_sources, group}

module _ {ℓ} {K : Type ℓ} ⦃e : Key K⦄ where
  abbrev pub seen_of : K → Dict K ℕ → ℕ
  seen_of k seen = count_or_zero (lookup k seen)

  pub seen_of-put :
      (j k : K) (n : ℕ) (seen : Dict K ℕ)
      → seen_of k (put j n seen) ≡ (if e.same j k then n else seen_of k seen)
  seen_of-put j k n seen =
      rw (lookup-put j k n seen)
        (elim (Bool-cases (e.same j k)) [ inl same ↦ rw same refl | inr other ↦ rw other refl ])

  pub seen_of-nil : (k : K) → seen_of k [] ≡ 0
  unfolding lookup
  seen_of-nil k = refl

module _ {ℓ κ} {K : Type ℓ} {A : Type κ} ⦃e : Key K⦄ (key : A → K) where
  -- The n-th object that has a key.
  unfoldable pub nth : K → ℕ → List A → Option A
  nth k n [] = none
  nth k zero (obj ∷ objs) =
      let later = nth k zero objs in if e.same (key obj) k then some obj else later
  nth k (suc n) (obj ∷ objs) =
      let after = nth k n objs in
      let later = nth k (suc n) objs in if e.same (key obj) k then after else later

  same_apart : (j k : K) (m n : ℕ) → m ≢ n → (e.same j k && (m == n)) ≡ false
  same_apart j k m n h = ground arith

  -- What follows in a source does not touch the occurrences that it already had.
  add_source-before :
      (len i : ℕ) (objs : List A) (seen : Dict K ℕ) (groups : Groups K A) (k : K) (m : ℕ)
      → m < seen_of k seen
      → lookup (k, m) (add_source key len i objs seen groups) ≡ lookup (k, m) groups
  unfolding add_source
  add_source-before len i [] seen groups k m h = refl
  add_source-before len i (obj ∷ objs) seen groups k m h =
      let j = key obj in
      let n = seen_of j seen in
      let slots = set (slots_or len (lookup (j, n) groups)) i (some obj) in
      add_source-before len i objs (put j (suc n) seen) (put (j, n) slots groups) k m (grows j)
      ∙ lookup-put (j, n) (k, m) slots groups
      ∙ elim (Bool-cases (e.same j k)) [
        | inl same ↦ rw (same_apart j k n m (less j same)) refl
        | inr other ↦ rw other refl
      ]
    where
      less-lt : (j : K) → e.same j k ≡ true → m < seen_of j seen
      less-lt j same = rw (← ((e.same_iff j k).0 same)) at h

      less : (j : K) → e.same j k ≡ true → seen_of j seen ≢ m
      less j same = omega (arith, less-lt j same)

      grows : (j : K) → m < seen_of k (put j (suc (seen_of j seen)) seen)
      grows j = rw (seen_of-put j k (suc (seen_of j seen)) seen) (elim (Bool-cases (e.same j k)) [
        | inl same ↦ rw same (omega (arith, less-lt j same))
        | inr other ↦ rw other h
      ])

  -- A group with the object of source `i`, where there is one.
  abbrev pub at_slot : ℕ → ℕ → Option A → Option (List (Option A)) → Option (List (Option A))
  at_slot len i none slots = slots
  at_slot len i (some obj) slots = some (set (slots_or len slots) i (some obj))

  nth-miss :
      (k : K) (m : ℕ) (obj : A) (objs : List A)
      → e.same (key obj) k ≡ false
      → nth k m (obj ∷ objs) ≡ nth k m objs
  unfolding nth
  nth-miss k zero obj objs other = rw other refl
  nth-miss k (suc m) obj objs other = rw other refl

  lookup-at :
      {V : Type κ} (j k : K) (n p : ℕ) (v : V) (d : Dict (K × ℕ) V)
      → j ≡ k
      → n ≡ p
      → lookup (k, p) (put (j, n) v d) ≡ some v
  lookup-at j k n p v d same at =
      lookup-put (j, n) (k, p) v d ∙ ap (λ b. if b then some v else lookup (k, p) d) hit
    where
      hit : (e.same j k && (n == p)) ≡ true
      hit = ground (arith, e.same_iff j k)

  lookup-apart :
      {V : Type κ} (j k : K) (n p : ℕ) (v : V) (d : Dict (K × ℕ) V)
      → (e.same j k && (n == p)) ≡ false
      → lookup (k, p) (put (j, n) v d) ≡ lookup (k, p) d
  lookup-apart j k n p v d apart =
      lookup-put (j, n) (k, p) v d ∙ ap (λ b. if b then some v else lookup (k, p) d) apart

  -- The occurrences of a key in a source, from those on that it already had.
  add_source-nth :
      (len i : ℕ) (objs : List A) (seen : Dict K ℕ) (groups : Groups K A) (k : K) (m p : ℕ)
      → p ≡ seen_of k seen + m
      → lookup (k, p) (add_source key len i objs seen groups)
        ≡ at_slot len i (nth k m objs) (lookup (k, p) groups)
  unfolding add_source nth
  add_source-nth len i [] seen groups k m p at = refl
  add_source-nth len i (obj ∷ objs) seen groups k m p at = elim (Bool-cases (e.same (key obj) k)) [
    | inl same ↦ found m at same (λ m' at'. add_source-nth len i objs seen' groups' k m' p at')
    | inr other ↦
        add_source-nth len i objs seen' groups' k m p (at ∙ ap (λ n. n + m) (sym (unseen other)))
        ∙ ap (at_slot len i (nth k m objs))
            (lookup-apart (key obj) k n p slots groups (rw other refl))
        ∙ ap (λ o. at_slot len i o (lookup (k, p) groups)) (sym (nth-miss k m obj objs other))
  ]
    where
      n : ℕ
      n = seen_of (key obj) seen

      slots : List (Option A)
      slots = set (slots_or len (lookup (key obj, n) groups)) i (some obj)

      seen' : Dict K ℕ
      seen' = put (key obj) (suc n) seen

      groups' : Groups K A
      groups' = put (key obj, n) slots groups

      unseen : e.same (key obj) k ≡ false → seen_of k seen' ≡ seen_of k seen
      unseen other = seen_of-put (key obj) k (suc n) seen ∙ rw other refl

      seen_once : e.same (key obj) k ≡ true → seen_of k seen' ≡ suc (seen_of k seen)
      seen_once same =
          seen_of-put (key obj) k (suc n) seen
          ∙ rw same (ap (λ j. suc (seen_of j seen)) ((e.same_iff (key obj) k).0 same))

      found :
          (m : ℕ)
          → p ≡ seen_of k seen + m
          → e.same (key obj) k ≡ true
          → ((m' : ℕ)
              → p ≡ seen_of k seen' + m'
              → lookup (k, p) (add_source key len i objs seen' groups')
                ≡ at_slot len i (nth k m' objs) (lookup (k, p) groups'))
          → lookup (k, p) (add_source key len i (obj ∷ objs) seen groups)
            ≡ at_slot len i (nth k m (obj ∷ objs)) (lookup (k, p) groups)
      found zero at same rest =
          add_source-before len i objs seen' groups' k p (omega (arith, seen_once same))
          ∙ lookup-at (key obj) k n p slots groups j≡k n≡p
          ∙ ap (λ (q : K × ℕ). some (set (slots_or len (lookup q groups)) i (some obj)))
              (ap₂ (λ x y. (x, y)) j≡k n≡p)
          ∙ ap (λ b. at_slot len i (if b then some obj else nth k zero objs) (lookup (k, p) groups))
              (sym same)
        where
          j≡k : key obj ≡ k
          j≡k = (e.same_iff (key obj) k).0 same

          n≡p : n ≡ p
          n≡p = omega (arith, at, ap (λ j. seen_of j seen) j≡k)
      found (suc m) at same rest =
          rest m (omega (arith, at, seen_once same))
          ∙ ap (at_slot len i (nth k m objs))
              (lookup-apart (key obj) k n p slots groups (same_apart (key obj) k n p apart))
          ∙ ap
              (λ b.
                at_slot len i (if b then nth k m objs else nth k (suc m) objs)
                  (lookup (k, p) groups))
              (sym same)
        where
          apart : n ≢ p
          apart = omega (arith, at, ap (λ j. seen_of j seen) ((e.same_iff (key obj) k).0 same))

  set-slot :
      (front : List (Option A)) (rest : List (Option A)) (obj : Option A)
      → set (front ++ none ∷ rest) (length front) obj ≡ front ++ obj ∷ rest
  set-slot [] rest obj = refl
  set-slot (x ∷ front) rest obj = ap (◌∷◌ x) (set-slot front rest obj)

  at_slot-slots :
      (len : ℕ) (front rest : List (Option A)) (obj : Option A) (v : Option (List (Option A)))
      → slots_or len v ≡ front ++ none ∷ rest
      → slots_or len (at_slot len (length front) obj v) ≡ front ++ obj ∷ rest
  at_slot-slots len front rest none v h = h
  at_slot-slots len front rest (some obj) v h =
      ap (λ s. set s (length front) (some obj)) h ∙ set-slot front rest (some obj)

  add_sources-slots :
      (len : ℕ) (sources : List (List A)) (front : List (Option A)) (groups : Groups K A) (k : K)
      (m : ℕ)
      → slots_or len (lookup (k, m) groups) ≡ front ++ replicate (length sources) none
      → slots_or len (lookup (k, m) (add_sources key len (length front) sources groups))
        ≡ front ++ map (nth k m) sources
  unfolding add_sources
  add_sources-slots len [] front groups k m h = h
  add_sources-slots len (objs ∷ sources) front groups k m h =
      let i = length front in
      let o = nth k m objs in
      let after = add_source key len i objs [] groups in
      let front' = front ++ o ∷ [] in
      let slot = add_source-nth len i objs [] groups k m m (omega (arith, seen_of-nil k)) in
      let filled : slots_or len (lookup (k, m) after) ≡ front' ++ replicate (length sources) none =
        ap (slots_or len) slot
        ∙ at_slot-slots len front (replicate (length sources) none) o (lookup (k, m) groups) h
        ∙ sym (append_assoc front (o ∷ []) (replicate (length sources) none)) in
      let size : length front' ≡ suc i = length-append front (o ∷ []) ∙ omega arith in
      ap (λ n. slots_or len (lookup (k, m) (add_sources key len n sources after))) (sym size)
      ∙ add_sources-slots len sources front' after k m filled
      ∙ append_assoc front (o ∷ []) (map (nth k m) sources)

  -- The group of an occurrence has, of each source, the object with that occurrence of the key.
  pub group-slots :
      (sources : List (List A)) (k : K) (m : ℕ)
      → slots_or (length sources) (lookup (k, m) (group key sources)) ≡ map (nth k m) sources
  unfolding group lookup
  group-slots sources k m = add_sources-slots (length sources) sources [] [] k m refl
