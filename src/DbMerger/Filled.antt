-- ===== src/DbMerger/Filled.antt =====
-- db_merger.py: the slots of the groups of `_group`.
use covsight_core.Prelude.{
  ℕ, zero, suc, ◌+◌, ◌≤◌, ◌<◌, ◌≡◌, List, [], ◌∷◌, Option, none, some, length, length-set,
  length-replicate, set, All, arith, refl, ◌∙◌, inl, inr, Bool-cases,
}
use covsight_core.Prelude.Keys.{Key, nat_key, pair_key}
use covsight_core.Prelude.Text.{text_key}
use covsight_core.Prelude.Dict.{Dict, lookup, put}
use covsight_core.DbMerger.{
  Groups, count_or_zero, slots_or, add_source, add_sources, group, present,
}

-- Some source has the object.
abbrev pub NonEmpty {κ} : {A : Type κ} → List (Option A) → Type κ
NonEmpty {A = A} slots = (a : A) × (rest : List A) × (present slots ≡ a ∷ rest)

pub set-NonEmpty {κ} :
    {A : Type κ} (slots : List (Option A)) (i : ℕ) (a : A)
    → i < length slots
    → NonEmpty (set slots i (some a))
unfolding present
set-NonEmpty [] i a h = absurd (omega arith)
set-NonEmpty (s ∷ slots) zero a h = (a, present slots, refl)
set-NonEmpty (none ∷ slots) (suc i) a h = set-NonEmpty slots i a (omega arith)
set-NonEmpty (some b ∷ slots) (suc i) a h = (b, present (set slots i (some a)), refl)

module _ {ℓ κ} {K : Type ℓ} {A : Type κ} ⦃e : Key K⦄ where
  -- Each group has a slot for each source, and one of them is filled.
  abbrev pub Filled : ℕ → Groups K A → Type κ
  Filled len groups =
      All (λ (g : (K × ℕ) × List (Option A)). (length g.1 ≡ len) × NonEmpty g.1) groups

  pub put-Filled :
      (len : ℕ) (q : K × ℕ) (slots : List (Option A)) (groups : Groups K A)
      → Filled len groups
      → length slots ≡ len
      → NonEmpty slots
      → Filled len (put q slots groups)
  unfolding put
  put-Filled len q slots [] h size some_a = ((size, some_a), tt)
  put-Filled len q slots ((p, old) ∷ groups) h size some_a = elim (Bool-cases (pair_key.same p q)) [
    | inl same ↦ rw same ((size, some_a), h.1)
    | inr other ↦ rw other (h.0, put-Filled len q slots groups h.1 size some_a)
  ]

  pub slots-length :
      (len : ℕ) (q : K × ℕ) (groups : Groups K A)
      → Filled len groups
      → length (slots_or len (lookup q groups)) ≡ len
  unfolding lookup
  slots-length len q [] h = length-replicate len none
  slots-length len q ((p, old) ∷ groups) h = elim (Bool-cases (pair_key.same p q)) [
    | inl same ↦ rw same h.0.0
    | inr other ↦ rw other (slots-length len q groups h.1)
  ]

module _ {ℓ κ} {K : Type ℓ} {A : Type κ} ⦃e : Key K⦄ (key : A → K) where
  add_source-Filled :
      (len i : ℕ) (objs : List A) (seen : Dict K ℕ) (groups : Groups K A)
      → i < len
      → Filled len groups
      → Filled len (add_source key len i objs seen groups)
  unfolding add_source
  add_source-Filled len i [] seen groups lt h = h
  add_source-Filled len i (a ∷ objs) seen groups lt h =
      let q : K × ℕ = (key a, count_or_zero (lookup (key a) seen)) in
      let size = slots-length len q groups h in
      add_source-Filled len i objs _ _ lt (
        put-Filled len q _ groups h (length-set _ i (some a) ∙ size)
          (set-NonEmpty _ i a (omega (arith, size))))

  add_sources-Filled :
      (len i : ℕ) (sources : List (List A)) (groups : Groups K A)
      → i + length sources ≤ len
      → Filled len groups
      → Filled len (add_sources key len i sources groups)
  unfolding add_sources
  add_sources-Filled len i [] groups le h = h
  add_sources-Filled len i (objs ∷ sources) groups le h =
      add_sources-Filled len (suc i) sources _ (omega arith)
        (add_source-Filled len i objs [] groups (omega arith) h)

  pub group-Filled : (sources : List (List A)) → Filled (length sources) (group key sources)
  unfolding group
  group-Filled sources = add_sources-Filled (length sources) 0 sources [] (omega arith) tt
